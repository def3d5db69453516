-- ===== src/Protocol/Base32.antt =====
-- Decoding inverts encoding (protocol.py, b32encode and b32decode).
use mathlib.Core.List.{map-append}
use dns_messenger.Prelude.{
  ℕ, zero, suc, ◌+◌, ◌-◌, ◌*◌, ◌%◌, ◌^◌, ◌<◌, ◌≡◌, ◌≢◌, refl, ap, ◌∙◌, true, some, List, [], ◌∷◌,
  ◌++◌, map, length, take, replicate, arith, All, All-append, All-take, length-append-sub,
  length-replicate,
}
use dns_messenger.Prelude.Text.{Text, Bytes}
use dns_messenger.Protocol.{
  to_base, from_base, symbol, upper, symbol_value, symbol_values, encode_group, b32encode,
  decode_group, append?, decode_groups, b32decode, decode_padded, rstrip_pad, valid_pad, pad,
}

-- Every element is a byte.
abbrev pub IsBytes : Bytes → Type 0
IsBytes = All (λ b. b < 256)

symbol_value-upper-symbol : (d : ℕ) → d < 32 → symbol_value (upper (symbol d)) ≡ some d
unfolding symbol_value upper symbol
symbol_value-upper-symbol d h = ground arith

upper-symbol-ne-pad : (d : ℕ) → d < 32 → upper (symbol d) ≢ b'='
unfolding upper symbol
upper-symbol-ne-pad d h = ground arith

-- The digits of a text that encodes them.
abbrev shout : List ℕ → Text
shout ds = map upper (map symbol ds)

symbol_values-shout : (ds : List ℕ) → All (λ d. d < 32) ds → symbol_values (shout ds) ≡ some ds
unfolding symbol_values
symbol_values-shout [] h = refl
symbol_values-shout (d ∷ ds) h =
    ground (arith, symbol_value-upper-symbol d h.0, symbol_values-shout ds h.1)

decode_group-shout :
    (missing n : ℕ) (ds : List ℕ)
    → All (λ d. d < 32) ds
    → decode_group missing n (shout ds)
      ≡ some (take n (to_base 256 5 (from_base 32 0 ds * 32 ^ missing)))
unfolding decode_group
decode_group-shout missing n ds h = rw (symbol_values-shout ds h, decode_group)

-- Eight digits carry every number below 2 ^ 40, five bytes too.
from_base-to_base32 : (n : ℕ) → n < 2 ^ 40 → from_base 32 0 (to_base 32 8 n) ≡ n
unfolding from_base to_base
from_base-to_base32 n h = omega arith

-- Five bytes as a number, and the number as five bytes.
bytes_of_group :
    (a b c d e : ℕ)
    → IsBytes (a ∷ b ∷ c ∷ d ∷ e ∷ [])
    → to_base 256 5 (from_base 256 0 (a ∷ b ∷ c ∷ d ∷ e ∷ [])) ≡ a ∷ b ∷ c ∷ d ∷ e ∷ []
unfolding to_base from_base
bytes_of_group a b c d e h = ground arith

group_lt :
    (a b c d e : ℕ)
    → IsBytes (a ∷ b ∷ c ∷ d ∷ e ∷ [])
    → from_base 256 0 (a ∷ b ∷ c ∷ d ∷ e ∷ []) < 2 ^ 40
unfolding from_base
group_lt a b c d e h = omega arith

digits_lt : (n : ℕ) → All (λ d. d < 32) (to_base 32 8 n)
unfolding to_base
digits_lt n = omega arith

-- The digits that are left out carry nothing, where the number is a multiple of their weight.
module _ (n k : ℕ) (bound : n < 2 ^ 40) where
  first_digits8 : from_base 32 0 (take 8 (to_base 32 8 n)) * 32 ^ 0 ≡ n
  unfolding from_base to_base
  first_digits8 = omega arith

  first_digits2 : n ≡ k * 2 ^ 32 → from_base 32 0 (take 2 (to_base 32 8 n)) * 32 ^ 6 ≡ n
  unfolding from_base to_base
  first_digits2 e = omega arith

  first_digits4 : n ≡ k * 2 ^ 24 → from_base 32 0 (take 4 (to_base 32 8 n)) * 32 ^ 4 ≡ n
  unfolding from_base to_base
  first_digits4 e = omega arith

  first_digits5 : n ≡ k * 2 ^ 16 → from_base 32 0 (take 5 (to_base 32 8 n)) * 32 ^ 3 ≡ n
  unfolding from_base to_base
  first_digits5 e = omega arith

  first_digits7 : n ≡ k * 2 ^ 8 → from_base 32 0 (take 7 (to_base 32 8 n)) * 32 ^ 1 ≡ n
  unfolding from_base to_base
  first_digits7 e = omega arith

-- The first `m` digits of a group, with `missing` to come, decode to its first `r` bytes.
module _ (missing m r : ℕ) (a b c d e : ℕ) (h : IsBytes (a ∷ b ∷ c ∷ d ∷ e ∷ [])) where
  group-round :
      from_base 32 0 (take m (to_base 32 8 (from_base 256 0 (a ∷ b ∷ c ∷ d ∷ e ∷ []))))
          * 32 ^ missing
        ≡ from_base 256 0 (a ∷ b ∷ c ∷ d ∷ e ∷ [])
      → decode_group missing r
          (shout (take m (to_base 32 8 (from_base 256 0 (a ∷ b ∷ c ∷ d ∷ e ∷ [])))))
        ≡ some (take r (a ∷ b ∷ c ∷ d ∷ e ∷ []))
  group-round eq =
      let n = from_base 256 0 (a ∷ b ∷ c ∷ d ∷ e ∷ []) in
      decode_group-shout missing r (take m (to_base 32 8 n)) (All-take _ m _ (digits_lt n))
      ∙ ap (λ (k : ℕ). some (take r (to_base 256 5 k))) eq
      ∙ ap (λ (l : List ℕ). some (take r l)) (bytes_of_group a b c d e h)

decode_groups-b32encode : (x : Bytes) → IsBytes x → decode_groups (map upper (b32encode x)) ≡ some x
unfolding b32encode decode_groups encode_group to_base from_base append?
decode_groups-b32encode [] h = refl
decode_groups-b32encode (a ∷ []) h =
    group-round 6 2 1 a 0 0 0 0 (omega arith)
      (first_digits2 (from_base 256 0 (a ∷ 0 ∷ 0 ∷ 0 ∷ 0 ∷ [])) a (omega arith) (omega arith))
decode_groups-b32encode (a ∷ b ∷ []) h = group-round 4 4 2 a b 0 0 0 (omega arith) (
    first_digits4 (from_base 256 0 (a ∷ b ∷ 0 ∷ 0 ∷ 0 ∷ [])) (a * 256 + b) (omega arith)
      (omega arith))
decode_groups-b32encode (a ∷ b ∷ c ∷ []) h = group-round 3 5 3 a b c 0 0 (omega arith) (
    first_digits5 (from_base 256 0 (a ∷ b ∷ c ∷ 0 ∷ 0 ∷ [])) ((a * 256 + b) * 256 + c) (omega arith)
      (omega arith))
decode_groups-b32encode (a ∷ b ∷ c ∷ d ∷ []) h = group-round 1 7 4 a b c d 0 (omega arith) (
    first_digits7 (from_base 256 0 (a ∷ b ∷ c ∷ d ∷ 0 ∷ [])) (((a * 256 + b) * 256 + c) * 256 + d)
      (omega arith) (omega arith))
decode_groups-b32encode (a ∷ b ∷ c ∷ d ∷ e ∷ rest) (ha, (hb, (hc, (hd, (he, hr))))) = cc (
  group-round 0 8 5 a b c d e (ha, (hb, (hc, (hd, (he, tt)))))
      (first_digits8 (from_base 256 0 (a ∷ b ∷ c ∷ d ∷ e ∷ [])) 0 (omega arith)),
  decode_groups-b32encode rest hr,
)

-- No character of an encoding is the padding.
abbrev NoPad : Text → Type 0
NoPad = All (λ c. c ≢ b'=')

NoPad-shout : (ds : List ℕ) → All (λ d. d < 32) ds → NoPad (shout ds)
NoPad-shout [] h = tt
NoPad-shout (d ∷ ds) h = (upper-symbol-ne-pad d h.0, NoPad-shout ds h.1)

NoPad-shout_take :
    (m : ℕ) (ds : List ℕ) → All (λ d. d < 32) ds → NoPad (map upper (take m (map symbol ds)))
NoPad-shout_take zero ds h = tt
NoPad-shout_take (suc m) [] h = tt
NoPad-shout_take (suc m) (d ∷ ds) h = (upper-symbol-ne-pad d h.0, NoPad-shout_take m ds h.1)

NoPad-group : (m : ℕ) (x : Bytes) → NoPad (map upper (take m (encode_group x)))
unfolding encode_group
NoPad-group m x = NoPad-shout_take m (to_base 32 8 (from_base 256 0 x)) (digits_lt _)

NoPad-full : (x : Bytes) → NoPad (map upper (encode_group x))
unfolding encode_group
NoPad-full x = NoPad-shout (to_base 32 8 (from_base 256 0 x)) (digits_lt _)

NoPad-b32encode : (x : Bytes) → NoPad (map upper (b32encode x))
unfolding b32encode
NoPad-b32encode [] = tt
NoPad-b32encode (a ∷ []) = NoPad-group 2 (a ∷ 0 ∷ 0 ∷ 0 ∷ 0 ∷ [])
NoPad-b32encode (a ∷ b ∷ []) = NoPad-group 4 (a ∷ b ∷ 0 ∷ 0 ∷ 0 ∷ [])
NoPad-b32encode (a ∷ b ∷ c ∷ []) = NoPad-group 5 (a ∷ b ∷ c ∷ 0 ∷ 0 ∷ [])
NoPad-b32encode (a ∷ b ∷ c ∷ d ∷ []) = NoPad-group 7 (a ∷ b ∷ c ∷ d ∷ 0 ∷ [])
NoPad-b32encode (a ∷ b ∷ c ∷ d ∷ e ∷ rest) = rw map-append (
    All-append (λ c. c ≢ b'=') (map upper (encode_group (a ∷ b ∷ c ∷ d ∷ e ∷ [])))
      (map upper (b32encode rest)) (NoPad-full (a ∷ b ∷ c ∷ d ∷ e ∷ [])) (NoPad-b32encode rest))

rstrip_pad-append : (x : Text) (k : ℕ) → NoPad x → rstrip_pad (x ++ replicate k b'=') ≡ x
unfolding rstrip_pad
rstrip_pad-append [] zero h = refl
rstrip_pad-append [] (suc k) h = ground (arith, rstrip_pad-append [] k tt)
rstrip_pad-append (c ∷ x) k h = ground (arith, rstrip_pad-append x k h.1, h.0)

valid_pad-b32encode :
    (x : Bytes) → valid_pad ((8 - length (map upper (b32encode x)) % 8) % 8) ≡ true
unfolding valid_pad b32encode encode_group to_base
valid_pad-b32encode [] = refl
valid_pad-b32encode (a ∷ []) = refl
valid_pad-b32encode (a ∷ b ∷ []) = refl
valid_pad-b32encode (a ∷ b ∷ c ∷ []) = refl
valid_pad-b32encode (a ∷ b ∷ c ∷ d ∷ []) = refl
valid_pad-b32encode (a ∷ b ∷ c ∷ d ∷ e ∷ rest) = ground (arith, valid_pad-b32encode rest)

-- The library strips exactly what `pad` appended.
decode_padded-pad :
    (y : Text)
    → NoPad y
    → valid_pad ((8 - length y % 8) % 8) ≡ true
    → decode_padded (pad y) ≡ decode_groups y
unfolding decode_padded
decode_padded-pad y h v =
    let k = (8 - length y % 8) % 8 in
    rw (rstrip_pad-append y k h, length-append-sub y (replicate k b'='), length-replicate, v)

-- Decoding an encoding gives the bytes back.
pub b32decode-b32encode : (x : Bytes) → IsBytes x → b32decode (b32encode x) ≡ some x
unfolding b32decode
b32decode-b32encode x h =
    decode_padded-pad (map upper (b32encode x)) (NoPad-b32encode x) (valid_pad-b32encode x)
    ∙ decode_groups-b32encode x h
