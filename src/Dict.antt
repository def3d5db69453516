-- ===== src/Dict.antt =====
-- Python's `dict`: an association list in insertion order. A write to a present key keeps its
-- place, a new key goes to the end, and `pop` forgets the key.
pub mod Laws
pub mod Oldest
use dns_messenger.Prelude.{
  ℕ, ◌≡◌, Bool, true, false, Option, none, some, List, [], ◌∷◌, ◌++◌, map, if◌then◌else◌, Eq, ltb,
  not, keep,
}

abbrev pub Dict {ℓ κ} : Type ℓ → Type κ → Type (ℓ ⊔ κ)
Dict K V = List (K × V)

abbrev pub empty {ℓ κ} : {K : Type ℓ} {V : Type κ} → Dict K V
empty = []

module _ {ℓ κ} {K : Type ℓ} {V : Type κ} ⦃e : Eq K⦄ where
  -- d.get(k)
  unfoldable pub get : K → Dict K V → Option V
  get k [] = none
  get k ((j, v) ∷ d) = if e.beq j k then some v else get k d

  -- k in d
  abbrev pub has : K → Dict K V → Bool
  has k d = elim (get k d) [ none ↦ false | some _ ↦ true ]

  -- d[k] = v
  unfoldable pub put : K → V → Dict K V → Dict K V
  put k v [] = (k, v) ∷ []
  put k v ((j, w) ∷ d) = let rest = put k v d in if e.beq j k then (j, v) ∷ d else (j, w) ∷ rest

  -- d.pop(k, None)
  unfoldable pub pop : K → Dict K V → Dict K V
  pop k [] = []
  pop k ((j, v) ∷ d) = let rest = pop k d in if e.beq j k then rest else (j, v) ∷ rest

  -- for k in ks: d.pop(k, None)
  unfoldable pub pop_all : List K → Dict K V → Dict K V
  pop_all [] d = d
  pop_all (k ∷ ks) d = pop_all ks (pop k d)

module _ {ℓ κ} {K : Type ℓ} {V : Type κ} where
  -- list(d)
  unfoldable pub keys : Dict K V → List K
  keys [] = []
  keys ((k, _) ∷ d) = k ∷ keys d

  -- list(d.values())
  unfoldable pub values : Dict K V → List V
  values [] = []
  values ((_, v) ∷ d) = v ∷ values d

  -- {k: f(v) for k, v in d.items()}
  unfoldable pub map_values : (V → V) → Dict K V → Dict K V
  map_values f [] = []
  map_values f ((k, v) ∷ d) = (k, f v) ∷ map_values f d

-- min(xs, key=f): the first element of the least value. `none` is Python's ValueError on no element.
unfoldable pub min_from {ℓ} : {A : Type ℓ} → (A → ℕ) → A → List A → A
min_from f best [] = best
min_from f best (x ∷ xs) = min_from f (if ltb (f x) (f best) then x else best) xs

unfoldable pub min_by {ℓ} : {A : Type ℓ} → (A → ℕ) → List A → Option A
unfolding min_from
min_by f [] = none
min_by f (x ∷ xs) = some (min_from f x xs)

module _ {ℓ κ} {K : Type ℓ} {V : Type κ} ⦃e : Eq K⦄ where
  -- d.get(k).f, or 0 where there is no such key
  abbrev pub stamp_of : (V → ℕ) → Dict K V → K → ℕ
  stamp_of f d k = elim (get k d) [ none ↦ 0 | some v ↦ f v ]

  -- p(d[k]), false where there is no such key
  abbrev pub test_at : (V → Bool) → Dict K V → K → Bool
  test_at p d k = elim (get k d) [ none ↦ false | some v ↦ p v ]

  -- [k for k, v in d.items() if p(v)]
  unfoldable pub keys_where : (V → Bool) → Dict K V → List K
  unfolding keys keep
  keys_where p d = keep (test_at p d) (keys d)

  -- min(d, key=lambda k: f(d[k]))
  unfoldable pub oldest : (V → ℕ) → Dict K V → Option K
  unfolding min_by keys
  oldest f d = min_by (stamp_of f d) (keys d)

  -- {k: v for k, v in d.items() if p(v)}: the keys that fail the test are dropped.
  unfoldable pub restrict : (V → Bool) → Dict K V → Dict K V
  unfolding keys_where pop pop_all
  restrict p d = pop_all (keys_where (λ v. not (p v)) d) d
