-- ===== src/Protocol.antt =====
-- protocol.py: the limits of DNS names, base32 without padding, and cutting into labels.
pub mod Base32
pub mod Chunks
pub mod Decoded
use Prim.Native.Nat.{max}
use dns_messenger.Prelude.{
  ℕ, zero, suc, ◌+◌, ◌-◌, ◌*◌, ◌/◌, ◌%◌, ◌^◌, ◌<◌, ◌≡◌, refl, Bool, true, false, ◌&&◌, ◌||◌, Option,
  none, some, List, [], ◌∷◌, ◌++◌, map, if◌then◌else◌, leb, ltb, ◌==◌, length, take, drop,
  replicate,
}
use dns_messenger.Prelude.Text.{Text, Bytes}

abbrev pub max_label_len : ℕ
max_label_len = 63

abbrev pub max_domain_len : ℕ
max_domain_len = 253

abbrev pub nonce_len : ℕ
nonce_len = 8

abbrev pub nonce_overhead : ℕ
nonce_overhead = nonce_len + 1

-- The last `k` digits of a number in base `b`, the most significant first.
unfoldable pub to_base : ℕ → ℕ → ℕ → List ℕ
to_base b zero n = []
to_base b (suc k) n = to_base b k (n / b) ++ n % b ∷ []

unfoldable pub from_base : ℕ → ℕ → List ℕ → ℕ
from_base b acc [] = acc
from_base b acc (d ∷ ds) = from_base b (acc * b + d) ds

-- The base32 alphabet, in lower case.
unfoldable pub symbol : ℕ → ℕ
symbol d = if ltb d 26 then b'a' + d else b'2' + (d - 26)

-- str.upper() of an ASCII character
unfoldable pub upper : ℕ → ℕ
upper c = if leb b'a' c && leb c b'z' then c - 32 else c

-- _b32rev[c]
unfoldable pub symbol_value : ℕ → Option ℕ
symbol_value c =
    if leb b'A' c && leb c b'Z'
    then some (c - b'A')
    else if leb b'2' c && leb c b'7'
    then some (c - b'2' + 26)
    else none

-- A group of at most five bytes, zeros in place of those missing, as eight digits.
unfoldable pub encode_group : List ℕ → Text
encode_group bytes = map symbol (to_base 32 8 (from_base 256 0 bytes))

-- base64.b32encode(data).decode('ascii').lower().rstrip('=')
unfoldable pub b32encode : Bytes → Text
b32encode [] = []
b32encode (a ∷ []) = take 2 (encode_group (a ∷ 0 ∷ 0 ∷ 0 ∷ 0 ∷ []))
b32encode (a ∷ b ∷ []) = take 4 (encode_group (a ∷ b ∷ 0 ∷ 0 ∷ 0 ∷ []))
b32encode (a ∷ b ∷ c ∷ []) = take 5 (encode_group (a ∷ b ∷ c ∷ 0 ∷ 0 ∷ []))
b32encode (a ∷ b ∷ c ∷ d ∷ []) = take 7 (encode_group (a ∷ b ∷ c ∷ d ∷ 0 ∷ []))
b32encode (a ∷ b ∷ c ∷ d ∷ e ∷ rest) = encode_group (a ∷ b ∷ c ∷ d ∷ e ∷ []) ++ b32encode rest

-- The digits of a group; `none` on a character outside of the alphabet.
unfoldable pub symbol_values : Text → Option (List ℕ)
symbol_values [] = some []
symbol_values (c ∷ s) =
    let rest = symbol_values s in
    elim (symbol_value c) [
      | none ↦ none
      | some d ↦ elim rest [ none ↦ none | some ds ↦ some (d ∷ ds) ]
    ]

-- `pad` counts the characters missing from a group of eight, `n` the bytes that it carries.
unfoldable pub decode_group : ℕ → ℕ → Text → Option Bytes
decode_group pad n s = elim (symbol_values s) [
  | none ↦ none
  | some ds ↦ some (take n (to_base 256 5 (from_base 32 0 ds * 32 ^ pad)))
]

unfoldable pub append? : Option Bytes → Option Bytes → Option Bytes
append? none _ = none
append? (some _) none = none
append? (some x) (some y) = some (x ++ y)

-- The groups of a text from which the padding is stripped.
unfoldable pub decode_groups : Text → Option Bytes
decode_groups [] = some []
decode_groups (a ∷ b ∷ c ∷ d ∷ e ∷ f ∷ g ∷ h ∷ rest) =
    append? (decode_group 0 5 (a ∷ b ∷ c ∷ d ∷ e ∷ f ∷ g ∷ h ∷ [])) (decode_groups rest)
decode_groups (a ∷ b ∷ c ∷ d ∷ e ∷ f ∷ g ∷ []) = decode_group 1 4 (a ∷ b ∷ c ∷ d ∷ e ∷ f ∷ g ∷ [])
decode_groups (a ∷ b ∷ c ∷ d ∷ e ∷ []) = decode_group 3 3 (a ∷ b ∷ c ∷ d ∷ e ∷ [])
decode_groups (a ∷ b ∷ c ∷ d ∷ []) = decode_group 4 2 (a ∷ b ∷ c ∷ d ∷ [])
decode_groups (a ∷ b ∷ []) = decode_group 6 1 (a ∷ b ∷ [])
decode_groups _ = none

-- s.rstrip('=')
unfoldable pub rstrip_pad : Text → Text
rstrip_pad [] = []
rstrip_pad (c ∷ s) = elim (rstrip_pad s) [
  | [] ↦ if c == b'=' then [] else c ∷ []
  | d ∷ r ↦ c ∷ d ∷ r
]

unfoldable pub valid_pad : ℕ → Bool
valid_pad n = n == 0 || n == 1 || n == 3 || n == 4 || n == 6

-- The padding that b32decode appends before it calls the library.
abbrev pub pad : Text → Text
pad s = s ++ replicate ((8 - length s % 8) % 8) b'='

-- base64.b32decode: `none` is binascii.Error.
unfoldable pub decode_padded : Text → Option Bytes
decode_padded s =
    let stripped = rstrip_pad s in
    if valid_pad (length s - length stripped) then decode_groups stripped else none

unfoldable pub b32decode : Text → Option Bytes
b32decode s = decode_padded (pad (map upper s))

-- What evaluates the codec in a test.
unfoldable pub codec : Unit {0}
unfolding to_base from_base symbol upper symbol_value encode_group b32encode symbol_values
    decode_group append? decode_groups rstrip_pad valid_pad decode_padded b32decode
codec = tt

-- [s[i:i + size] for i in range(0, len(s), size)]; the fuel, len(s), is at least the count of rounds.
unfoldable pub chunks_of {ℓ} : {A : Type ℓ} → ℕ → ℕ → List A → List (List A)
chunks_of zero size s = []
chunks_of (suc fuel) size [] = []
chunks_of (suc fuel) size (c ∷ s) = take size (c ∷ s) ∷ chunks_of fuel size (drop size (c ∷ s))

unfoldable pub chunk_string : Text → ℕ → List Text
chunk_string s size = chunks_of (length s) size s

-- How many base32 characters fit into one query. `available` may be negative in the source; both
-- then give one label, as 0 does.
unfoldable pub data_per_query : Text → Text → ℕ
data_per_query overhead_labels domain =
    let overhead = length overhead_labels + length domain + 2 in
    let available = max_domain_len - overhead in
    max 1 (available / (max_label_len + 1)) * max_label_len
