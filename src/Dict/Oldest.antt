-- ===== src/Dict/Oldest.antt =====
-- `min` over a dictionary: a key of it, of the least stamp; there is one unless it is empty.
use dns_messenger.Prelude.{
  ℕ, ◌<◌, ◌≡◌, refl, Bool, true, some, List, [], ◌∷◌, arith, if◌then◌else◌, Eq, length, ltb,
  contains,
}
use dns_messenger.Dict.{
  Dict, has, pop, keys, keys_where, stamp_of, test_at, min_from, min_by, oldest,
}
use dns_messenger.Dict.Laws.{length-pop-lt, contains-keys, contains-keys_where}

module _ {ℓ} {A : Type ℓ} ⦃e : Eq A⦄ (f : A → ℕ) where
  min_from_member : (best : A) (xs : List A) → contains (min_from f best xs) (best ∷ xs) ≡ true
  unfolding min_from contains
  min_from_member best [] = ground (arith, e.beq_iff best best)
  min_from_member best (x ∷ xs) =
      ground (arith, min_from_member (if ltb (f x) (f best) then x else best) xs)

  pub contains-min_by : (xs : List A) (k : A) → min_by f xs ≡ some k → contains k xs ≡ true
  unfolding min_by
  contains-min_by [] k h = ground arith
  contains-min_by (x ∷ xs) k h = ground (arith, min_from_member x xs)

  pub min_by-some : (x : A) (xs : List A) → (k : A) × (min_by f (x ∷ xs) ≡ some k)
  unfolding min_by
  min_by-some x xs = (min_from f x xs, refl)

module _ {ℓ κ} {K : Type ℓ} {V : Type κ} ⦃e : Eq K⦄ where
  pub has-oldest : (f : V → ℕ) (d : Dict K V) (k : K) → oldest f d ≡ some k → has k d ≡ true
  unfolding oldest
  has-oldest f d k h =
      ground (arith, contains-min_by (stamp_of f d) (keys d) k h, contains-keys k d)

  pub oldest-some : (f : V → ℕ) (d : Dict K V) → 0 < length d → (k : K) × (oldest f d ≡ some k)
  unfolding oldest keys
  oldest-some f [] h = absurd (omega arith)
  oldest-some f ((k, v) ∷ d) h = min_by-some (stamp_of f ((k, v) ∷ d)) k (keys d)

  -- Evicting the oldest entry makes room.
  pub length-pop-oldest-lt :
      (f : V → ℕ) (d : Dict K V) (k : K) → oldest f d ≡ some k → length (pop k d) < length d
  length-pop-oldest-lt f d k h = length-pop-lt k d (has-oldest f d k h)

  -- The least of the keys that pass a test passes it.
  pub test_at-min_by :
      (p : V → Bool) (f : K → ℕ) (d : Dict K V) (k : K)
      → min_by f (keys_where p d) ≡ some k
      → test_at p d k ≡ true
  test_at-min_by p f d k h =
      ground (arith, contains-min_by f (keys_where p d) k h, contains-keys_where p k d)
