-- ===== src/Crypto/Safety.antt =====
-- The safety number of two users (crypto_utils.py, identity_fingerprint to format_safety_number).
-- SHA-512 of hashlib is a parameter.
use dns_messenger.Prelude.{
  ℕ, zero, suc, ◌+◌, ◌*◌, ◌%◌, ◌≡◌, ◌≢◌, refl, true, ◌||◌, [], ◌∷◌, ◌++◌, map, arith, length, take,
  drop, sorted, insert_sorted, length-append, Bool-cases, inl, inr,
}
use dns_messenger.Prelude.Sets.{text_leb}
use dns_messenger.Prelude.Text.{Text, Bytes, text, join, join_with}
use dns_messenger.Protocol.{to_base, from_base, chunk_string}

abbrev pub safety_number_rounds : ℕ
safety_number_rounds = 5200

abbrev pub fingerprint_len : ℕ
fingerprint_len = 30

-- '{n:05d}' of n below 100000
unfoldable pub five_digits : ℕ → Text
five_digits n = map (λ d. b'0' + d) (to_base 10 5 n)

-- The groups of the bytes i, i + 5, …, `count` of them.
unfoldable pub digit_groups : ℕ → Bytes → Text
digit_groups zero fp = []
digit_groups (suc count) fp =
    five_digits (from_base 256 0 (take 5 fp) % 100000) ++ digit_groups count (drop 5 fp)

unfoldable pub fingerprint_digits : Bytes → Text
fingerprint_digits fp = digit_groups 6 fp

module _ (sha512 : Bytes → Bytes) where
  -- for _ in range(rounds): data = sha512(data + bundle)
  unfoldable pub rehash : ℕ → Bytes → Bytes → Bytes
  rehash zero bundle x = x
  rehash (suc rounds) bundle x = rehash rounds bundle (sha512 (x ++ bundle))

  unfoldable pub identity_fingerprint : ℕ → Text → Bytes → Bytes
  identity_fingerprint rounds user bundle =
      take fingerprint_len (rehash rounds bundle (sha512 (user ++ bundle)))

  unfoldable pub digits_of_user : Text × Bytes → Text
  digits_of_user (user, bundle) =
      fingerprint_digits (identity_fingerprint safety_number_rounds user bundle)

  unfoldable pub safety_number : Text → Bytes → Text → Bytes → Text
  safety_number user_a bundle_a user_b bundle_b = join (
      map digits_of_user (
        sorted (λ (p q : Text × Bytes). text_leb (p.0) (q.0))
          ((user_a, bundle_a) ∷ (user_b, bundle_b) ∷ [])))

unfoldable pub format_safety_number : Text → Text
format_safety_number digits = join_with (text " ") (chunk_string digits 5)

-- Names are ordered one way or the other, and both ways only if they are equal.
text_leb_total : (x y : Text) → (text_leb x y || text_leb y x) ≡ true
unfolding text_leb
text_leb_total [] y = refl
text_leb_total (a ∷ x) [] = refl
text_leb_total (a ∷ x) (b ∷ y) = ground (arith, text_leb_total x y)

text_leb_antisym : (x y : Text) → text_leb x y ≡ true → text_leb y x ≡ true → x ≡ y
unfolding text_leb
text_leb_antisym [] [] h h' = refl
text_leb_antisym [] (b ∷ y) h h' = absurd (ground arith)
text_leb_antisym (a ∷ x) [] h h' = absurd (ground arith)
text_leb_antisym (a ∷ x) (b ∷ y) h h' = ground (arith, text_leb_antisym x y)

-- Both users compute the same number, whichever of the two is named first.
pub safety_number-symmetric :
    (sha512 : Bytes → Bytes) (user_a user_b : Text) (bundle_a bundle_b : Bytes)
    → user_a ≢ user_b
    → safety_number sha512 user_a bundle_a user_b bundle_b
      ≡ safety_number sha512 user_b bundle_b user_a bundle_a
unfolding safety_number sorted insert_sorted
safety_number-symmetric sha512 a b x y differ = elim (Bool-cases (text_leb a b)) [
  | inl first ↦ elim (Bool-cases (text_leb b a)) [
    | inl second ↦ absurd (differ (text_leb_antisym a b first second))
    | inr later ↦ rw (first, later, safety_number, sorted, insert_sorted) refl
  ]
  | inr later ↦
      let second : text_leb b a ≡ true = ground (arith, text_leb_total a b, later) in
      rw (later, second, safety_number, sorted, insert_sorted) refl
]

length-digit_groups : (count : ℕ) (fp : Bytes) → length (digit_groups count fp) ≡ 5 * count
unfolding digit_groups five_digits to_base
length-digit_groups zero fp = refl
length-digit_groups (suc count) fp = omega (arith, length-digit_groups count (drop 5 fp))

-- The number has sixty digits, whatever the names, the keys and the hash.
pub length-safety_number :
    (sha512 : Bytes → Bytes) (user_a user_b : Text) (bundle_a bundle_b : Bytes)
    → length (safety_number sha512 user_a bundle_a user_b bundle_b) ≡ 60
unfolding safety_number sorted insert_sorted join digits_of_user fingerprint_digits
length-safety_number sha512 a b x y =
    let one = digits_of_user sha512 (a, x) in
    let two = digits_of_user sha512 (b, y) in
    ground (
      arith,
      length-append one (two ++ []),
      length-append two [],
      length-append two (one ++ []),
      length-append one [],
      length-digit_groups 6 (identity_fingerprint sha512 5200 a x),
      length-digit_groups 6 (identity_fingerprint sha512 5200 b y),
    )
