-- ===== src/Crypto/Signing.antt =====
-- What a signature of one kind of request says cannot be read as another kind's, nor with other
-- fields (crypto_utils.py, the *_signing_input functions).
use dns_messenger.Prelude.{
  ℕ, ◌≡◌, ◌≢◌, refl, sym, ap, ◌∙◌, Option, none, some, List, [], ◌∷◌, ◌++◌, if◌then◌else◌, arith,
  All, list_eq,
}
use mathlib.Core.Path.{subst, ap₂}
use dns_messenger.Prelude.Text.{Bytes, join_with}
use dns_messenger.Crypto.{
  Purpose, poll, fpoll, glist, reg, gpoll, ginvite, gleave, gkick, gmembers, diskreg, gkey, context,
  signing_input,
}

-- No separator in a field.
abbrev pub NoBar : Bytes → Type 0
NoBar = All (λ c. c ≢ b'|')

index : Purpose → ℕ
index poll = 0
index fpoll = 1
index glist = 2
index reg = 3
index gpoll = 4
index ginvite = 5
index gleave = 6
index gkick = 7
index gmembers = 8
index diskreg = 9
index gkey = 10

all_purposes : List Purpose
all_purposes =
    poll ∷ fpoll ∷ glist ∷ reg ∷ gpoll ∷ ginvite ∷ gleave ∷ gkick ∷ gmembers ∷ diskreg ∷ gkey ∷ []

-- The purpose that has a context.
find : Bytes → List Purpose → Option Purpose
find x [] = none
find x (p ∷ ps) = let rest = find x ps in if list_eq (context p) x then some p else rest

find-context : (p : Purpose) → find (context p) all_purposes ≡ some p
unfolding find all_purposes context list_eq
find-context poll = refl
find-context fpoll = refl
find-context _ = refl

context-injective : (p q : Purpose) → context p ≡ context q → p ≡ q
context-injective p q e =
    cc (find-context p, find-context q, ap (λ (x : Bytes). find x all_purposes) e)

NoBar-context : (p : Purpose) → NoBar (context p)
unfolding context
NoBar-context poll = omega arith
NoBar-context _ = omega arith

-- Up to the first separator the text is the field before it.
split_bar :
    (a b x y : Bytes) → NoBar a → NoBar b → a ++ b'|' ∷ x ≡ b ++ b'|' ∷ y → (a ≡ b) × (x ≡ y)
split_bar [] [] x y ha hb e = ground arith
split_bar [] (c ∷ b) x y ha hb e = ground (arith, hb.0)
split_bar (c ∷ a) [] x y ha hb e = ground (arith, ha.0)
split_bar (c ∷ a) (d ∷ b) x y ha hb e = ground (arith, split_bar a b x y ha.1 hb.1)

bar-not-NoBar : (a x : Bytes) → NoBar (a ++ b'|' ∷ x) → ⊥
bar-not-NoBar [] x h = h.0 refl
bar-not-NoBar (c ∷ a) x h = bar-not-NoBar a x h.1

signing_input-cons :
    (p : Purpose) (x : Bytes) (xs : List Bytes)
    → signing_input p (x ∷ xs) ≡ context p ++ b'|' ∷ join_with (b'|' ∷ []) (x ∷ xs)
unfolding signing_input join_with
signing_input-cons p x xs = refl

join-injective :
    (x y : Bytes) (xs ys : List Bytes)
    → All NoBar (x ∷ xs)
    → All NoBar (y ∷ ys)
    → join_with (b'|' ∷ []) (x ∷ xs) ≡ join_with (b'|' ∷ []) (y ∷ ys)
    → x ∷ xs ≡ y ∷ ys
unfolding join_with
join-injective x y [] [] hx hy e = ap (λ (z : Bytes). z ∷ []) e
join-injective x y [] (y' ∷ ys) hx hy e = absurd (bar-not-NoBar y _ (subst NoBar e hx.0))
join-injective x y (x' ∷ xs) [] hx hy e = absurd (bar-not-NoBar x _ (subst NoBar (sym e) hy.0))
join-injective x y (x' ∷ xs) (y' ∷ ys) hx hy e =
    let (first, rest) =
      split_bar x y (join_with (b'|' ∷ []) (x' ∷ xs)) (join_with (b'|' ∷ []) (y' ∷ ys)) hx.0 hy.0
        e in
    ap₂ ◌∷◌ first (join-injective x' y' xs ys hx.1 hy.1 rest)

module _ (p q : Purpose) (x y : Bytes) (xs ys : List Bytes) where
  signing_input_parts :
      signing_input p (x ∷ xs) ≡ signing_input q (y ∷ ys)
      → (context p ≡ context q) × (join_with (b'|' ∷ []) (x ∷ xs) ≡ join_with (b'|' ∷ []) (y ∷ ys))
  signing_input_parts e =
      split_bar (context p) (context q) (join_with (b'|' ∷ []) (x ∷ xs))
        (join_with (b'|' ∷ []) (y ∷ ys)) (NoBar-context p) (NoBar-context q)
        (sym (signing_input-cons p x xs) ∙ e ∙ signing_input-cons q y ys)

  signing_input_purpose : signing_input p (x ∷ xs) ≡ signing_input q (y ∷ ys) → p ≡ q
  signing_input_purpose e = context-injective p q (signing_input_parts e).0

  -- Whatever the fields hold, a text signed for one purpose is no text of another purpose.
  pub signing_input-separated : p ≢ q → signing_input p (x ∷ xs) ≢ signing_input q (y ∷ ys)
  signing_input-separated differ e = differ (signing_input_purpose e)

  -- Where no field holds the separator `|`, equal signed texts have the same purpose and fields.
  pub signing_input-injective :
      All NoBar (x ∷ xs)
      → All NoBar (y ∷ ys)
      → signing_input p (x ∷ xs) ≡ signing_input q (y ∷ ys)
      → (p ≡ q) × (x ∷ xs ≡ y ∷ ys)
  signing_input-injective hx hy e =
      (signing_input_purpose e, join-injective x y xs ys hx hy (signing_input_parts e).1)
