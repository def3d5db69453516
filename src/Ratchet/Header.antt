-- ===== src/Ratchet/Header.antt =====
-- The header of a ratchet message, struct format '>32sII' (ratchet.py, _pack_header).
use dns_messenger.Prelude.{
  ℕ, ◌/◌, ◌%◌, ◌<◌, ◌≡◌, refl, ◌&&◌, Option, none, some, [], ◌∷◌, ◌++◌, arith, ltb, ◌==◌,
  if◌then◌else◌, length, take, drop, replicate, length-append, take-append, drop-append,
}
use dns_messenger.Prelude.Text.{Bytes}
use dns_messenger.Protocol.{to_base, from_base}

abbrev pub header_len : ℕ
header_len = 40

abbrev pub u32_mod : ℕ
u32_mod = 4294967296

-- '32s': cut, or filled with zeros.
unfoldable pub fit_key : Bytes → Bytes
fit_key key = take 32 (key ++ replicate 32 0)

-- struct.pack; `none` is struct.error on a number that four bytes do not hold.
unfoldable pub pack_header : Bytes → ℕ → ℕ → Option Bytes
pack_header dh_pub pn n =
    if ltb pn u32_mod && ltb n u32_mod
    then some (fit_key dh_pub ++ (to_base 256 4 pn ++ to_base 256 4 n))
    else none

abbrev pub Header : Type 0
Header = Bytes × ℕ × ℕ

-- struct.unpack of the first bytes; `none` is struct.error where there are too few.
unfoldable pub unpack_header : Bytes → Option Header
unpack_header raw =
    let h = take header_len raw in
    if length h == header_len
    then some (
      take 32 h,
      from_base 256 0 (take 4 (drop 32 h)),
      from_base 256 0 (take 4 (drop 4 (drop 32 h))),
    )
    else none

-- The four bytes of a number, one by one.
unfoldable pub be4 : ℕ → Bytes
be4 n = n / 256 / 256 / 256 % 256 ∷ n / 256 / 256 % 256 ∷ n / 256 % 256 ∷ n % 256 ∷ []

to_base-be4 : (n : ℕ) → to_base 256 4 n ≡ be4 n
unfolding to_base be4
to_base-be4 n = refl

from_base-be4 : (n : ℕ) → n < u32_mod → from_base 256 0 (be4 n) ≡ n
unfolding from_base be4
from_base-be4 n h = omega arith

pub fit_key-id : (key : Bytes) → length key ≡ 32 → fit_key key ≡ key
unfolding fit_key
fit_key-id key h = take-append key (replicate 32 0) 32 h

length-be4 : (n : ℕ) → length (be4 n) ≡ 4
unfolding be4
length-be4 n = refl

take-be4 : (n : ℕ) → take 4 (be4 n) ≡ be4 n
unfolding be4
take-be4 n = refl

pub length-pack_header :
    (key h : Bytes) (pn n : ℕ) → length key ≡ 32 → pack_header key pn n ≡ some h → length h ≡ 40
unfolding pack_header
length-pack_header key h pn n sized e = ground (
  arith,
  to_base-be4 pn,
  to_base-be4 n,
  fit_key-id key sized,
  length-be4 pn,
  length-be4 n,
  length-append key (be4 pn ++ be4 n),
  length-append (be4 pn) (be4 n),
)

-- What is packed for a raw key and two numbers of 32 bits is read back, whatever follows it.
pub unpack_header-pack_header :
    (key rest : Bytes) (pn n : ℕ)
    → length key ≡ 32
    → pn < u32_mod
    → n < u32_mod
    → (h : Bytes) × (pack_header key pn n ≡ some h)
      × (unpack_header (h ++ rest) ≡ some (key, pn, n))
unfolding pack_header unpack_header
unpack_header-pack_header key rest pn n sized small_pn small_n =
    let tail = be4 pn ++ be4 n in
    let packed : pack_header key pn n ≡ some (key ++ tail) =
      ground (arith, to_base-be4 pn, to_base-be4 n, fit_key-id key sized) in
    let long : length (key ++ tail) ≡ 40 = length-pack_header key (key ++ tail) pn n sized packed in
    (
      key ++ tail,
      packed,
      rw
          (
            take-append (key ++ tail) rest 40 long,
            long,
            take-append key tail 32 sized,
            drop-append key tail 32 sized,
            take-append (be4 pn) (be4 n) 4 (length-be4 pn),
            drop-append (be4 pn) (be4 n) 4 (length-be4 pn),
            from_base-be4 pn small_pn,
            take-be4 n,
            from_base-be4 n small_n,
          )
          refl,
    )
