-- ===== src/Protocol/Decoded.antt =====
-- What is decoded are bytes (protocol.py, b32decode).
use dns_messenger.Prelude.{
  ℕ, zero, suc, ◌*◌, ◌/◌, ◌%◌, ◌^◌, ◌<◌, ◌≡◌, refl, sym, subst, Option, none, some, [], ◌∷◌, ◌++◌,
  map, take, arith, All-append, All-take, Option-cases, inl, inr,
}
use dns_messenger.Prelude.Text.{Text, Bytes}
use dns_messenger.Protocol.Base32.{IsBytes}
use dns_messenger.Protocol.{
  to_base, from_base, upper, symbol_values, decode_group, append?, decode_groups, b32decode,
  decode_padded, rstrip_pad, pad,
}

to_base-IsBytes : (k n : ℕ) → IsBytes (to_base 256 k n)
unfolding to_base
to_base-IsBytes zero n = tt
to_base-IsBytes (suc k) n =
    All-append (λ b. b < 256) (to_base 256 k (n / 256)) (n % 256 ∷ []) (to_base-IsBytes k (n / 256))
      (omega arith, tt)

decode_group-IsBytes :
    (missing n : ℕ) (s : Text) (bytes : Bytes)
    → decode_group missing n s ≡ some bytes
    → IsBytes bytes
unfolding decode_group
decode_group-IsBytes missing n s bytes e = elim (Option-cases (symbol_values s)) [
  | inl broken ↦ absurd (ground arith)
  | inr (ds, read) ↦
      let got = from_base 32 0 ds * 32 ^ missing in
      let is : bytes ≡ take n (to_base 256 5 got) = ground arith in
      subst IsBytes (sym is) (All-take (λ b. b < 256) n (to_base 256 5 got) (to_base-IsBytes 5 got))
]

append?-IsBytes :
    (x y : Option Bytes) (bytes : Bytes)
    → ((z : Bytes) → x ≡ some z → IsBytes z)
    → ((z : Bytes) → y ≡ some z → IsBytes z)
    → append? x y ≡ some bytes
    → IsBytes bytes
unfolding append?
append?-IsBytes none y bytes hx hy e = absurd (ground arith)
append?-IsBytes (some a) none bytes hx hy e = absurd (ground arith)
append?-IsBytes (some a) (some b) bytes hx hy e =
    let is : bytes ≡ a ++ b = ground arith in
    subst IsBytes (sym is) (All-append (λ c. c < 256) a b (hx a refl) (hy b refl))

decode_groups-IsBytes : (s : Text) (bytes : Bytes) → decode_groups s ≡ some bytes → IsBytes bytes
unfolding decode_groups
decode_groups-IsBytes [] bytes h = let is : bytes ≡ [] = ground arith in subst IsBytes (sym is) tt
decode_groups-IsBytes (a ∷ b ∷ c ∷ d ∷ e ∷ f ∷ g ∷ i ∷ rest) bytes h =
    append?-IsBytes (decode_group 0 5 (a ∷ b ∷ c ∷ d ∷ e ∷ f ∷ g ∷ i ∷ [])) (decode_groups rest)
      bytes (decode_group-IsBytes 0 5 (a ∷ b ∷ c ∷ d ∷ e ∷ f ∷ g ∷ i ∷ []))
      (decode_groups-IsBytes rest) h
decode_groups-IsBytes (a ∷ b ∷ c ∷ d ∷ e ∷ f ∷ g ∷ []) bytes h =
    decode_group-IsBytes 1 4 (a ∷ b ∷ c ∷ d ∷ e ∷ f ∷ g ∷ []) bytes h
decode_groups-IsBytes (a ∷ b ∷ c ∷ d ∷ e ∷ []) bytes h =
    decode_group-IsBytes 3 3 (a ∷ b ∷ c ∷ d ∷ e ∷ []) bytes h
decode_groups-IsBytes (a ∷ b ∷ c ∷ d ∷ []) bytes h =
    decode_group-IsBytes 4 2 (a ∷ b ∷ c ∷ d ∷ []) bytes h
decode_groups-IsBytes (a ∷ b ∷ []) bytes h = decode_group-IsBytes 6 1 (a ∷ b ∷ []) bytes h
decode_groups-IsBytes _ bytes h = absurd (ground arith)

pub b32decode-IsBytes : (s : Text) (bytes : Bytes) → b32decode s ≡ some bytes → IsBytes bytes
unfolding b32decode decode_padded
b32decode-IsBytes s bytes h =
    decode_groups-IsBytes (rstrip_pad (pad (map upper s))) bytes (ground arith)
