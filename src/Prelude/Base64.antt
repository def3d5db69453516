-- ===== src/Prelude/Base64.antt =====
-- Python's base64.b64encode, and b64decode without `validate`.
pub mod Round
use Prim.Native.Nat.{ℕ, zero, suc, ◌+◌, ◌-◌, ◌*◌, ◌/◌, ◌%◌}
use mathlib.Core.List.{[], ◌∷◌}
use mathlib.Core.Option.{Option, none, some}
use mathlib.Core.Bool.{true, false, ◌&&◌}
use dns_messenger.Prelude.Tests.{ltb, leb, ◌==◌, if◌then◌else◌}
use dns_messenger.Prelude.Text.{Text, Bytes}

unfoldable pub b64_symbol : ℕ → ℕ
b64_symbol d =
    if ltb d 26
    then b'A' + d
    else if ltb d 52
    then b'a' + (d - 26)
    else if ltb d 62
    then b'0' + (d - 52)
    else if d == 62
    then b'+'
    else b'/'

-- base64.b64encode(data).decode('ascii')
unfoldable pub b64encode : Bytes → Text
unfolding b64_symbol
b64encode [] = []
b64encode (a ∷ []) = b64_symbol (a / 4) ∷ b64_symbol (a % 4 * 16) ∷ b'=' ∷ b'=' ∷ []
b64encode (a ∷ b ∷ []) =
    b64_symbol (a / 4) ∷ b64_symbol (a % 4 * 16 + b / 16) ∷ b64_symbol (b % 16 * 4) ∷ b'=' ∷ []
b64encode (a ∷ b ∷ c ∷ rest) =
    b64_symbol (a / 4)
    ∷ b64_symbol (a % 4 * 16 + b / 16)
    ∷ b64_symbol (b % 16 * 4 + c / 64)
    ∷ b64_symbol (c % 64)
    ∷ b64encode rest

unfoldable pub b64_value : ℕ → Option ℕ
b64_value c =
    if leb b'A' c && leb c b'Z'
    then some (c - b'A')
    else if leb b'a' c && leb c b'z'
    then some (c - b'a' + 26)
    else if leb b'0' c && leb c b'9'
    then some (c - b'0' + 52)
    else if c == b'+'
    then some 62
    else if c == b'/'
    then some 63
    else none

-- A byte before what the rest gives.
abbrev pub emit : ℕ → Option Bytes → Option Bytes
emit b none = none
emit b (some rest) = some (b ∷ rest)

-- A digit `v` at the place `quad` of its group, after the bits `left`; `rest` reads on.
unfoldable pub take_digit : ℕ → ℕ → ℕ → (ℕ → ℕ → Option Bytes) → Option Bytes
take_digit zero left v rest = rest 1 v
take_digit (suc zero) left v rest = emit (left * 4 + v / 16) (rest 2 (v % 16))
take_digit (suc (suc zero)) left v rest = emit (left * 16 + v / 4) (rest 3 (v % 4))
take_digit (suc (suc (suc quad))) left v rest = emit (left * 64 + v) (rest 0 0)

-- binascii.a2b_base64: other characters are skipped, and the padding that completes a group ends the
-- text. `none` is binascii.Error.
unfoldable pub a2b : ℕ → ℕ → ℕ → Text → Option Bytes
unfolding b64_value take_digit
a2b quad left pads [] = if quad == 0 then some [] else none
a2b quad left pads (c ∷ s) =
    let skip = a2b quad left pads s in
    let padded = a2b quad left (pads + 1) s in
    elim (c == b'=') [
      | true ↦ if leb 2 quad then if leb 4 (quad + pads + 1) then some [] else padded else skip
      | false ↦ elim (b64_value c) [
        | none ↦ skip
        | some v ↦ take_digit quad left v (λ q l. a2b q l 0 s)
      ]
    ]

-- base64.b64decode(s)
unfoldable pub b64decode : Text → Option Bytes
unfolding a2b
b64decode s = a2b 0 0 0 s
