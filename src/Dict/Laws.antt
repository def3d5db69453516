-- ===== src/Dict/Laws.antt =====
-- What a read gives after a write, and how the size of a dictionary changes.
use dns_messenger.Prelude.{
  suc, ◌≤◌, ◌<◌, ◌≡◌, refl, Bool, true, none, some, List, [], ◌∷◌, arith, if◌then◌else◌, Eq, length,
  contains, keep, not, ◌&&◌, ◌||◌,
}
use dns_messenger.Dict.{
  Dict, get, has, put, pop, pop_all, keys, test_at, keys_where, restrict, map_values,
}

module _ {ℓ κ} {K : Type ℓ} {V : Type κ} ⦃e : Eq K⦄ where
  pub get-put :
      (k j : K) (v : V) (d : Dict K V) → get j (put k v d) ≡ (if e.beq k j then some v else get j d)
  unfolding get put
  get-put k j v [] = refl
  get-put k j v ((i, w) ∷ d) =
      ground (arith, get-put k j v d, e.beq_iff i k, e.beq_iff i j, e.beq_iff k j)

  pub get-pop : (k j : K) (d : Dict K V) → get j (pop k d) ≡ (if e.beq k j then none else get j d)
  unfolding get pop
  get-pop k j [] = ground arith
  get-pop k j ((i, w) ∷ d) =
      ground (arith, get-pop k j d, e.beq_iff i k, e.beq_iff i j, e.beq_iff k j)

  pub get-put_self : (k : K) (v : V) (d : Dict K V) → get k (put k v d) ≡ some v
  get-put_self k v d = ground (arith, get-put k k v d, e.beq_iff k k)

  pub length-put :
      (k : K) (v : V) (d : Dict K V)
      → length (put k v d) ≡ (if has k d then length d else suc (length d))
  unfolding get put
  length-put k v [] = refl
  length-put k v ((i, w) ∷ d) = ground (arith, length-put k v d)

  pub length-put-le : (k : K) (v : V) (d : Dict K V) → length (put k v d) ≤ suc (length d)
  length-put-le k v d = ground (arith, length-put k v d)

  pub length-pop-le : (k : K) (d : Dict K V) → length (pop k d) ≤ length d
  unfolding pop
  length-pop-le k [] = omega arith
  length-pop-le k ((i, w) ∷ d) = ground (arith, length-pop-le k d)

  pub length-pop-lt : (k : K) (d : Dict K V) → has k d ≡ true → length (pop k d) < length d
  unfolding get pop
  length-pop-lt k [] h = ground arith
  length-pop-lt k ((i, w) ∷ d) h = ground (arith, length-pop-lt k d, length-pop-le k d)

  pub has-put : (k j : K) (v : V) (d : Dict K V) → has j (put k v d) ≡ (e.beq k j || has j d)
  has-put k j v d = ground (arith, get-put k j v d)

  pub get-pop_all :
      (ks : List K) (j : K) (d : Dict K V)
      → get j (pop_all ks d) ≡ (if contains j ks then none else get j d)
  unfolding pop_all contains
  get-pop_all [] j d = refl
  get-pop_all (k ∷ ks) j d = ground (arith, get-pop_all ks j (pop k d), get-pop k j d)

  pub length-pop_all-le : (ks : List K) (d : Dict K V) → length (pop_all ks d) ≤ length d
  unfolding pop_all
  length-pop_all-le [] d = omega arith
  length-pop_all-le (k ∷ ks) d = omega (arith, length-pop_all-le ks (pop k d), length-pop-le k d)

  pub length-restrict-le : (p : V → Bool) (d : Dict K V) → length (restrict p d) ≤ length d
  unfolding restrict
  length-restrict-le p d = length-pop_all-le (keys_where (λ v. not (p v)) d) d

  pub contains-keys : (k : K) (d : Dict K V) → contains k (keys d) ≡ has k d
  unfolding contains keys get
  contains-keys k [] = refl
  contains-keys k ((j, v) ∷ d) = ground (arith, contains-keys k d)

module _ {ℓ} {K : Type ℓ} ⦃e : Eq K⦄ where
  pub contains-keep :
      (p : K → Bool) (k : K) (xs : List K) → contains k (keep p xs) ≡ (contains k xs && p k)
  unfolding contains keep
  contains-keep p k [] = refl
  contains-keep p k (x ∷ xs) = ground (arith, contains-keep p k xs, e.beq_iff x k)

module _ {ℓ κ} {K : Type ℓ} {V : Type κ} ⦃e : Eq K⦄ where
  pub contains-keys_where :
      (p : V → Bool) (k : K) (d : Dict K V) → contains k (keys_where p d) ≡ test_at p d k
  unfolding keys_where
  contains-keys_where p k d =
      ground (arith, contains-keep (test_at p d) k (keys d), contains-keys k d)

  -- What a read gives after the entries that fail a test are dropped.
  pub get-restrict :
      (p : V → Bool) (k : K) (d : Dict K V)
      → get k (restrict p d) ≡ (if test_at p d k then get k d else none)
  unfolding restrict
  get-restrict p k d = ground (
    arith,
    get-pop_all (keys_where (λ v. not (p v)) d) k d,
    contains-keys_where (λ v. not (p v)) k d,
  )

  pub get-map_values :
      (f : V → V) (k : K) (d : Dict K V)
      → get k (map_values f d) ≡ elim (get k d) [ none ↦ none | some v ↦ some (f v) ]
  unfolding get map_values
  get-map_values f k [] = refl
  get-map_values f k ((j, v) ∷ d) = ground (arith, get-map_values f k d)

  pub length-map_values : (f : V → V) (d : Dict K V) → length (map_values f d) ≡ length d
  unfolding map_values
  length-map_values f [] = refl
  length-map_values f ((j, v) ∷ d) = omega (arith, length-map_values f d)
