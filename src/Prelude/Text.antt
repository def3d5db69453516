-- ===== src/Prelude/Text.antt =====
-- Texts and byte strings as lists of code points, and Python's operations on them.
use Prim.Native.Nat.{ℕ, zero, suc, ◌+◌, ◌-◌, ◌*◌, ◌/◌, ◌%◌}
use Prim.Native.Char.{code}
use Prim.Native.String.{String}
use mathlib.Core.Bool.{Bool, true, false, ◌&&◌, ◌||◌}
use mathlib.Core.Option.{Option, none, some}
use mathlib.Core.List.{List, [], ◌∷◌, ◌++◌, reverse}
use dns_messenger.Prelude.Tests.{◌==◌, leb, ltb, if◌then◌else◌}
use dns_messenger.Prelude.Lists.{all, length, take}
use dns_messenger.Prelude.Equality.{list_eq}
use dns_messenger.Prelude.Int.{ℤ, pos, neg}

abbrev pub Text : Type 0
Text = List ℕ

abbrev pub Bytes : Type 0
Bytes = List ℕ

abbrev pub text : String → Text
text String.[] = []
text (String.◌∷◌ c s) = code c ∷ text s

-- s.startswith(prefix), on texts and byte strings
unfoldable pub startswith : Text → Text → Bool
startswith prefix s = list_eq (take (length prefix) s) prefix

-- part in s
unfoldable pub has_part : Text → Text → Bool
unfolding startswith
has_part part [] = startswith part []
has_part part (c ∷ s) = startswith part (c ∷ s) || has_part part s

-- ''.join(parts)
unfoldable pub join : List Text → Text
join [] = []
join (p ∷ ps) = p ++ join ps

-- sep.join(parts)
unfoldable pub join_with : Text → List Text → Text
join_with sep [] = []
join_with sep (p ∷ []) = p
join_with sep (p ∷ q ∷ ps) = p ++ (sep ++ join_with sep (q ∷ ps))

unfoldable pub is_digit : ℕ → Bool
is_digit c = leb b'0' c && leb c b'9'

-- str.isdigit() on ASCII text: not empty, and digits only.
unfoldable pub isdigit : Text → Bool
unfolding is_digit all
isdigit [] = false
isdigit (c ∷ s) = all is_digit (c ∷ s)

-- The digits of int(): single underscores may stand between digits. `fresh` says that the last
-- character was a digit.
unfoldable pub parse_digits : Bool → ℕ → Text → Option ℕ
unfolding is_digit
parse_digits true acc [] = some acc
parse_digits false acc [] = none
parse_digits fresh acc (c ∷ s) =
    let next = parse_digits true (acc * 10 + (c - b'0')) s in
    let skip = parse_digits false acc s in
    elim (is_digit c) [
      | true ↦ next
      | false ↦ elim (fresh && (c == b'_')) [ true ↦ skip | false ↦ none ]
    ]

-- int(s) on text without white space: an optional sign and digits. `none` is ValueError.
unfoldable pub int : Text → Option ℤ
unfolding parse_digits
int [] = none
int (c ∷ s) =
    let plain = parse_digits false 0 (c ∷ s) in
    let tail = parse_digits false 0 s in
    if c == b'-'
    then elim tail [ none ↦ none | some n ↦ some (neg n) ]
    else if c == b'+'
    then elim tail [ none ↦ none | some n ↦ some (pos n) ]
    else elim plain [ none ↦ none | some n ↦ some (pos n) ]

-- str(n), least digit first; the fuel n + 1 is more than the number of digits.
unfoldable pub digits_of : ℕ → ℕ → Text
digits_of zero n = []
digits_of (suc fuel) n =
    let rest = digits_of fuel (n / 10) in (b'0' + n % 10) ∷ (if ltb n 10 then [] else rest)

-- str(n)
unfoldable pub show : ℕ → Text
unfolding digits_of
show n = reverse (digits_of (n + 1) n)

unfoldable pub show_int : ℤ → Text
unfolding show
show_int (ℤ.pos n) = show n
show_int (ℤ.negsuc n) = b'-' ∷ show (n + 1)
