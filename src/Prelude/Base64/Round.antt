-- ===== src/Prelude/Base64/Round.antt =====
-- What b64encode writes, b64decode reads back.
use Prim.Native.Nat.{ℕ, ◌+◌, ◌*◌, ◌/◌, ◌%◌, ◌<◌}
use mathlib.Core.Path.{◌≡◌, refl}
use mathlib.Core.Option.{some}
use mathlib.Core.Bool.{false}
use mathlib.Core.List.{[], ◌∷◌}
use native.Mathlib.Omega.{arith}
use dns_messenger.Prelude.Tests.{◌==◌}
use dns_messenger.Prelude.Lists.{All}
use dns_messenger.Prelude.Text.{Text, Bytes}
use dns_messenger.Prelude.Base64.{b64_symbol, b64encode, b64_value, take_digit, a2b, b64decode}

symbol-proper : (d : ℕ) → d < 64 → (b64_symbol d == b'=') ≡ false
unfolding b64_symbol
symbol-proper d h = ground arith

b64_value-symbol : (d : ℕ) → d < 64 → b64_value (b64_symbol d) ≡ some d
unfolding b64_symbol b64_value
b64_value-symbol d h = ground arith

a2b-char :
    (quad left pads c d : ℕ) (s : Text)
    → (c == b'=') ≡ false
    → b64_value c ≡ some d
    → a2b quad left pads (c ∷ s) ≡ take_digit quad left d (λ q l. a2b q l 0 s)
unfolding a2b
a2b-char quad left pads c d s proper digit = ground arith

-- One digit of the text.
a2b-symbol :
    (quad left pads d : ℕ) (s : Text)
    → d < 64
    → a2b quad left pads (b64_symbol d ∷ s) ≡ take_digit quad left d (λ q l. a2b q l 0 s)
a2b-symbol quad left pads d s h =
    a2b-char quad left pads (b64_symbol d) d s (symbol-proper d h) (b64_value-symbol d h)

a2b_nil : (pads : ℕ) → a2b 0 0 pads [] ≡ some []
unfolding a2b
a2b_nil pads = refl

-- Padding ends the text.
a2b_one_pad : (left : ℕ) → a2b 3 left 0 (b'=' ∷ []) ≡ some []
unfolding a2b
a2b_one_pad left = refl

a2b_two_pads : (left : ℕ) → a2b 2 left 0 (b'=' ∷ b'=' ∷ []) ≡ some []
unfolding a2b
a2b_two_pads left = refl

a2b-b64encode :
    (pads : ℕ) (bytes : Bytes)
    → All (λ b. b < 256) bytes
    → a2b 0 0 pads (b64encode bytes) ≡ some bytes
unfolding b64encode take_digit
a2b-b64encode pads [] h = ground (arith, a2b_nil pads)
a2b-b64encode pads (a ∷ []) h =
    rw
      (
        a2b-symbol 0 0 pads (a / 4) (b64_symbol (a % 4 * 16) ∷ b'=' ∷ b'=' ∷ []) (omega arith),
        a2b-symbol 1 (a / 4) 0 (a % 4 * 16) (b'=' ∷ b'=' ∷ []) (omega arith),
        a2b_two_pads (a % 4 * 16 % 16),
      )
      (ground arith)
a2b-b64encode pads (a ∷ b ∷ []) h =
    let x = a % 4 * 16 + b / 16 in
    let y = b % 16 * 4 in
    rw
      (
        a2b-symbol 0 0 pads (a / 4) (b64_symbol x ∷ b64_symbol y ∷ b'=' ∷ []) (omega arith),
        a2b-symbol 1 (a / 4) 0 x (b64_symbol y ∷ b'=' ∷ []) (omega arith),
        a2b-symbol 2 (x % 16) 0 y (b'=' ∷ []) (omega arith),
        a2b_one_pad (y % 4),
      )
      (ground arith)
a2b-b64encode pads (a ∷ b ∷ c ∷ rest) h =
    let x = a % 4 * 16 + b / 16 in
    let y = b % 16 * 4 + c / 64 in
    let tail = b64encode rest in
    rw
      (
        a2b-symbol 0 0 pads (a / 4) (b64_symbol x ∷ b64_symbol y ∷ b64_symbol (c % 64) ∷ tail)
            (omega arith),
        a2b-symbol 1 (a / 4) 0 x (b64_symbol y ∷ b64_symbol (c % 64) ∷ tail) (omega arith),
        a2b-symbol 2 (x % 16) 0 y (b64_symbol (c % 64) ∷ tail) (omega arith),
        a2b-symbol 3 (y % 4) 0 (c % 64) tail (omega arith),
        a2b-b64encode 0 rest (h.1.1.1),
      )
      (ground arith)

pub b64decode-b64encode :
    (bytes : Bytes) → All (λ b. b < 256) bytes → b64decode (b64encode bytes) ≡ some bytes
unfolding b64decode
b64decode-b64encode bytes h = a2b-b64encode 0 bytes h
