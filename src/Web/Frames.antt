-- ===== src/Web/Frames.antt =====
-- The first bytes of a direct message, which say how it is encrypted (web_client.py,
-- _pack_ratchet_init to _pack_ratchet_continue).
use dns_messenger.Prelude.{
  ℕ, suc, ◌==◌, ◌≡◌, refl, Option, none, some, [], ◌∷◌, ◌++◌, arith, if◌then◌else◌, length, take,
  drop, replicate, get_elem?, take-append, drop-append,
}
use dns_messenger.Prelude.Text.{Bytes}
use dns_messenger.Crypto.{key_len}

abbrev pub scheme_legacy_static : ℕ
scheme_legacy_static = 0

abbrev pub scheme_ratchet_init : ℕ
scheme_ratchet_init = 1

abbrev pub scheme_ratchet_cont : ℕ
scheme_ratchet_cont = 2

unfoldable pub pack_ratchet_init : Bytes → Option Bytes → Bytes → Bytes
pack_ratchet_init ephemeral_pub none ratchet_ct =
    scheme_ratchet_init ∷ (ephemeral_pub ++ (0 ∷ (replicate key_len 0 ++ ratchet_ct)))
pack_ratchet_init ephemeral_pub (some one_time_pub) ratchet_ct =
    scheme_ratchet_init ∷ (ephemeral_pub ++ (1 ∷ (one_time_pub ++ ratchet_ct)))

-- Of a message without its first byte. `none` is IndexError where there is no flag.
unfoldable pub unpack_ratchet_init : Bytes → Option (Bytes × Option Bytes × Bytes)
unpack_ratchet_init body = elim (get_elem? body key_len) [
  | none ↦ none
  | some flag ↦
      let rest = drop 1 (drop key_len body) in
      some
        (take key_len body, if flag == 1 then some (take key_len rest) else none, drop key_len rest)
]

unfoldable pub pack_ratchet_continue : Bytes → Bytes
pack_ratchet_continue ratchet_ct = scheme_ratchet_cont ∷ ratchet_ct

get_elem?-append : (xs ys : Bytes) (y n : ℕ) → length xs ≡ n → get_elem? (xs ++ y ∷ ys) n ≡ some y
get_elem?-append [] ys y ℕ.zero h = refl
get_elem?-append [] ys y (suc n) h = absurd (omega arith)
get_elem?-append (x ∷ xs) ys y ℕ.zero h = absurd (omega arith)
get_elem?-append (x ∷ xs) ys y (suc n) h = get_elem?-append xs ys y n (omega arith)

-- A one-time key of 32 bytes, if there is one.
abbrev pub IsKey? : Option Bytes → Type 0
IsKey? none = Unit
IsKey? (some key) = length key ≡ 32

unpack-parts :
    (e field ct : Bytes) (flag : ℕ)
    → length e ≡ 32
    → length field ≡ 32
    → unpack_ratchet_init (e ++ (flag ∷ (field ++ ct)))
      ≡ some (e, if flag == 1 then some field else none, ct)
unfolding unpack_ratchet_init
unpack-parts e field ct flag h k = ground (
  arith,
  get_elem?-append e (field ++ ct) flag 32 h,
  take-append e (flag ∷ (field ++ ct)) 32 h,
  drop-append e (flag ∷ (field ++ ct)) 32 h,
  take-append field ct 32 k,
  drop-append field ct 32 k,
)

-- What is packed, after its first byte, is taken apart into the same three parts.
pub unpack-pack_ratchet_init :
    (ephemeral_pub ratchet_ct : Bytes) (one_time_pub : Option Bytes)
    → length ephemeral_pub ≡ 32
    → IsKey? one_time_pub
    → unpack_ratchet_init (drop 1 (pack_ratchet_init ephemeral_pub one_time_pub ratchet_ct))
      ≡ some (ephemeral_pub, one_time_pub, ratchet_ct)
unfolding pack_ratchet_init
unpack-pack_ratchet_init e ct none h k = unpack-parts e (replicate 32 0) ct 0 h refl
unpack-pack_ratchet_init e ct (some o) h k = unpack-parts e o ct 1 h k
