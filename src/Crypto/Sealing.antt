-- ===== src/Crypto/Sealing.antt =====
-- The identity file and the group keys, written and read (crypto_utils.py, Identity.save and load,
-- seal_group_key and unseal_group_key).
use mathlib.Core.Path.{ap₂}
use dns_messenger.Prelude.{
  ◌≡◌, refl, ap, ◌∙◌, true, false, Option, none, some, [], ◌∷◌, ◌++◌, arith, length, list_eq,
  list_eq_iff, length-append, take-append, drop-append, take_all, ℕ, Option-cases, inl, inr,
}
use dns_messenger.Prelude.Text.{Text, Bytes, startswith}
use dns_messenger.Crypto.Cipher.{
  Primitives, Identity, identity, locked, identity_magic, public_bytes, encrypt, decrypt,
  derive_identity_key, derive_shared_key, seal_group_key, unseal_group_key, private_bytes, raw_key,
  from_raw, loaded, save, load,
}

-- ChaCha20-Poly1305 opens what it sealed.
abbrev pub Unseals : Primitives → Type 0
Unseals p =
    (key nonce plaintext : Bytes) (aad : Option Bytes)
    → p.unseal key nonce (p.seal key nonce plaintext aad) aad ≡ some plaintext

-- X25519 gives both holders of two pairs one value, or fails for both.
abbrev pub Commutes : Primitives → Type 0
Commutes p = (a b : Bytes) → p.exchange a (p.x_public b) ≡ p.exchange b (p.x_public a)

pub decrypt-encrypt :
    (p : Primitives)
    → Unseals p
    → (nonce plaintext key : Bytes) (aad : Option Bytes) → length nonce ≡ 12
    → decrypt p (encrypt p nonce plaintext key aad) key aad ≡ some plaintext
unfolding decrypt encrypt
decrypt-encrypt p unseals nonce plaintext key aad sized =
    let ct = p.seal key nonce plaintext aad in
    ap₂ (λ (n c : Bytes). p.unseal key n c aad) (take-append nonce ct 12 sized)
      (drop-append nonce ct 12 sized)
    ∙ unseals key nonce plaintext aad

-- Two private keys of 32 bytes.
abbrev pub IsSized : Identity → Type 0
IsSized i = (length i.private_key ≡ 32) × (length i.signing_key ≡ 32)

from_raw-private_bytes :
    (fresh : Bytes) (i : Identity) → IsSized i → from_raw fresh (private_bytes i) ≡ some i
unfolding from_raw private_bytes raw_key
from_raw-private_bytes fresh i sized =
    let long = length-append i.private_key i.signing_key in
    ground (
      arith,
      take-append i.private_key i.signing_key 32 sized.0,
      drop-append i.private_key i.signing_key 32 sized.0,
      take_all i.signing_key 32 sized.1,
      long,
    )

list_eq_refl : (x : Bytes) → list_eq x x ≡ true
list_eq_refl x = (list_eq_iff x x).1 refl

startswith-append : (prefix raw : Bytes) → startswith prefix (prefix ++ raw) ≡ true
unfolding startswith
startswith-append prefix raw =
    ap (λ (t : Bytes). list_eq t prefix) (take-append prefix raw (length prefix) refl)
    ∙ list_eq_refl prefix

-- The file that starts with the magic bytes, read with a password.
load-magic :
    (p : Primitives) (fresh salt sealed : Bytes) (c : ℕ) (password : Text)
    → length salt ≡ 16
    → load p fresh (identity_magic ++ salt ++ sealed) (c ∷ password)
      ≡ elim (decrypt p sealed (derive_identity_key p (c ∷ password) salt) none) [
        | none ↦ locked
        | some plain ↦ loaded (from_raw fresh plain)
      ]
unfolding load
load-magic p fresh salt sealed c password sized =
    rw
      (
        startswith-append identity_magic (salt ++ sealed),
        drop-append identity_magic (salt ++ sealed) (length identity_magic) refl,
        take-append salt sealed 16 sized,
        drop-append salt sealed 16 sized,
      )
      refl

-- An identity that is saved is loaded with the same password, or with none if it was saved with none.
-- The keys have 32 bytes, salt and nonce are of their sizes, ChaCha20-Poly1305 opens what it sealed,
-- and without a password the raw keys do not begin with the magic bytes.
pub load-save :
    (p : Primitives)
    → Unseals p
    → (fresh salt nonce : Bytes) (password : Text) (i : Identity) → IsSized i
    → length salt ≡ 16
    → length nonce ≡ 12
    → (password ≡ [] → startswith identity_magic (private_bytes i) ≡ false)
    → load p fresh (save p salt nonce password i) password ≡ identity i
unfolding load save
load-save p unseals fresh salt nonce [] i keys salted sized plain =
    ground (arith, plain refl, from_raw-private_bytes fresh i keys)
load-save p unseals fresh salt nonce (c ∷ password) i keys salted sized plain =
    let key = derive_identity_key p (c ∷ password) salt in
    let sealed = encrypt p nonce (private_bytes i) key none in
    load-magic p fresh salt sealed c password salted
    ∙ ground (
      arith,
      decrypt-encrypt p unseals nonce (private_bytes i) key none sized,
      from_raw-private_bytes fresh i keys,
    )

-- A file saved with a password stays locked without one, and with any password whose key does not
-- open the ciphertext.
pub load-save_locked :
    (p : Primitives) (fresh salt nonce : Bytes) (c : ℕ) (password other : Text) (i : Identity)
    → length salt ≡ 16
    → decrypt p
        (encrypt p nonce (private_bytes i) (derive_identity_key p (c ∷ password) salt) none)
        (derive_identity_key p other salt)
        none
      ≡ none
    → load p fresh (save p salt nonce (c ∷ password) i) other ≡ locked
unfolding save load
load-save_locked p fresh salt nonce c password [] i salted refused = rw (
  startswith-append identity_magic
      (salt ++ encrypt p nonce (private_bytes i) (derive_identity_key p (c ∷ password) salt) none),
  load,
)
load-save_locked p fresh salt nonce c password (d ∷ other) i salted refused =
    load-magic p fresh salt
      (encrypt p nonce (private_bytes i) (derive_identity_key p (c ∷ password) salt) none) d other
      salted
    ∙ ground (arith, refused)

derive_shared_key_swap :
    (p : Primitives)
    → Commutes p
    → (i j : Identity) → length (public_bytes p i) ≡ 32
    → length (public_bytes p j) ≡ 32
    → derive_shared_key p i (public_bytes p j) ≡ derive_shared_key p j (public_bytes p i)
unfolding derive_shared_key public_bytes
derive_shared_key_swap p commutes i j h k = ground (
  arith,
  take_all (p.x_public i.private_key) 32 h,
  take_all (p.x_public j.private_key) 32 k,
  commutes i.private_key j.private_key,
)

-- The member that a group key was sealed for opens it, with the sender's public key and under the
-- same group: whatever was sealed is what comes out. X25519 is taken to commute and to give 32 bytes,
-- and ChaCha20-Poly1305 to open what it sealed.
pub unseal_group_key-seal_group_key :
    (p : Primitives)
    → Commutes p
    → Unseals p
    → (nonce group_key sealed : Bytes) (i j : Identity) (gid : Text)
    → length (public_bytes p i) ≡ 32
    → length (public_bytes p j) ≡ 32
    → length nonce ≡ 12
    → seal_group_key p nonce group_key i (public_bytes p j) gid ≡ some sealed
    → unseal_group_key p sealed j (public_bytes p i) gid ≡ some group_key
unfolding seal_group_key unseal_group_key
unseal_group_key-seal_group_key p commutes unseals nonce group_key sealed i j gid h k sized made =
    elim (Option-cases (derive_shared_key p i (public_bytes p j))) [
      | inl broken ↦ absurd (ground arith)
      | inr (shared, agreed) ↦
          let ct = p.seal shared nonce group_key (some gid) in
          let is : sealed ≡ nonce ++ ct = ground arith in
          ground (
            arith,
            is,
            derive_shared_key_swap p commutes i j h k,
            take-append nonce ct 12 sized,
            drop-append nonce ct 12 sized,
            unseals shared nonce group_key (some gid),
          )
    ]
