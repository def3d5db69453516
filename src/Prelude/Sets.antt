-- ===== src/Prelude/Sets.antt =====
-- Python's `set` as a list without repeats, and the order of texts.
use dns_messenger.Prelude.Tests.{if◌then◌else◌, ltb, ◌==◌}
use dns_messenger.Prelude.Lists.{keep, all}
use dns_messenger.Prelude.Equality.{Eq, contains}
use Prim.Native.Nat.{ℕ}
use mathlib.Core.Path.{◌≡◌}
use native.Mathlib.Omega.{arith}
use mathlib.Core.Bool.{Bool, true, false, ◌&&◌, ◌||◌, not}
use mathlib.Core.List.{List, [], ◌∷◌, ◌++◌}

module _ {ℓ} {A : Type ℓ} ⦃e : Eq A⦄ where
  -- s.add(x)
  unfoldable pub add : A → List A → List A
  add x s = if contains x s then s else s ++ x ∷ []

  -- s.discard(x)
  unfoldable pub discard : A → List A → List A
  discard x = keep (λ y. not (e.beq y x))

  -- s >= t
  unfoldable pub superset : List A → List A → Bool
  superset s t = all (λ y. contains y s) t

module _ {ℓ} {A : Type ℓ} ⦃e : Eq A⦄ where
  contains-append : (u x : A) (s : List A) → contains u (s ++ x ∷ []) ≡ (contains u s || e.beq x u)
  unfolding contains
  contains-append u x [] = ground arith
  contains-append u x (y ∷ s) = ground (arith, contains-append u x s)

  pub contains-add : (u x : A) (s : List A) → contains u (add x s) ≡ (contains u s || e.beq x u)
  unfolding add
  contains-add u x s = ground (arith, contains-append u x s, e.beq_iff x u)

  pub contains-superset :
      (v : A) (s t : List A) → superset s t ≡ true → contains v t ≡ true → contains v s ≡ true
  unfolding superset all contains
  contains-superset v s [] h there = absurd (ground arith)
  contains-superset v s (x ∷ t) h there = ground (arith, contains-superset v s t, e.beq_iff x v)

-- a <= b on texts, by code points
unfoldable pub text_leb : List ℕ → List ℕ → Bool
text_leb [] y = true
text_leb (a ∷ x) [] = false
text_leb (a ∷ x) (b ∷ y) = ltb a b || a == b && text_leb x y
