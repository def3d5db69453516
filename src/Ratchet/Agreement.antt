-- ===== src/Ratchet/Agreement.antt =====
-- Both sides of X3DH compute one secret, and an unsigned prekey is refused (ratchet.py).
use dns_messenger.Prelude.{
  ◌≡◌, ◌≢◌, refl, true, if◌then◌else◌, Bool-cases, inl, inr, Option, none, some, [], ◌∷◌,
}
use dns_messenger.Prelude.Text.{Bytes}
use dns_messenger.Crypto.{verify_sig}
use dns_messenger.Crypto.Cipher.{Primitives, Identity, sign, public_bytes, verify_bytes}
use dns_messenger.Crypto.Sealing.{Commutes}
use dns_messenger.Ratchet.{
  raise, ratchet_error, sign_prekey, dh, dh_one_time_pub, dh_one_time_priv, x3dh_initiate,
  x3dh_respond,
}

-- Ed25519 accepts what the holder of the key signs.
abbrev pub Verifies : Primitives → Type 0
Verifies p = (key m : Bytes) → p.ed25519_verify (p.ed_public key) m (p.ed_sign key m) ≡ true

-- The public half of a one-time key, if there is a key.
abbrev pub public_half : Primitives → Option Bytes → Option Bytes
public_half p none = none
public_half p (some key) = some (p.x_public key)

-- A public key is not empty.
abbrev pub Proper : Primitives → Type 0
Proper p = (k : Bytes) → p.x_public k ≢ []

dh_one_time_pub-key :
    (p : Primitives) (ephemeral key : Bytes)
    → key ≢ []
    → dh_one_time_pub p ephemeral (some key) ≡ dh p ephemeral key
unfolding dh_one_time_pub
dh_one_time_pub-key p ephemeral [] full = absurd (full refl)
dh_one_time_pub-key p ephemeral (b ∷ key) full = refl

dh_swap :
    (p : Primitives) → Commutes p → (a b : Bytes) → dh p a (p.x_public b) ≡ dh p b (p.x_public a)
unfolding dh
dh_swap p commutes a b = rw (commutes a b)

dh_one_time_swap :
    (p : Primitives)
    → Commutes p
    → Proper p
    → (ephemeral : Bytes) (one_time : Option Bytes)
    → dh_one_time_pub p ephemeral (public_half p one_time)
      ≡ dh_one_time_priv p one_time (p.x_public ephemeral)
unfolding dh_one_time_priv dh_one_time_pub
dh_one_time_swap p commutes proper e none = refl
dh_one_time_swap p commutes proper e (some k) =
    rw (dh_one_time_pub-key p e (p.x_public k) (proper k)) (dh_swap p commutes e k)

-- From a bundle whose prekey signature verifies, with a one-time key or without, the sender derives
-- what the receiver derives from the sender's two public keys: the same secret, or the same failure of
-- a key. From a bundle whose signature does not verify it derives nothing, and raises RatchetError.
-- X25519 is taken to commute, and a public key not to be empty.
pub x3dh_initiate-respond :
    (p : Primitives)
    → Commutes p
    → Proper p
    → (alice bob : Identity) (ephemeral prekey sig : Bytes) (one_time : Option Bytes)
    → x3dh_initiate p alice ephemeral
        (public_bytes p bob)
        (verify_bytes p bob)
        (p.x_public prekey)
        sig
        (public_half p one_time)
      ≡ (if verify_sig p.crypto (verify_bytes p bob) (p.x_public prekey) sig
          then x3dh_respond p bob prekey one_time (public_bytes p alice) (p.x_public ephemeral)
          else raise ratchet_error)
unfolding x3dh_initiate x3dh_respond public_bytes
x3dh_initiate-respond p commutes proper alice bob ephemeral prekey sig one_time =
    elim (Bool-cases (verify_sig p.crypto (verify_bytes p bob) (p.x_public prekey) sig)) [
      | inl fits ↦
          rw
            (
              fits,
              dh_swap p commutes alice.private_key prekey,
              dh_swap p commutes ephemeral bob.private_key,
              dh_swap p commutes ephemeral prekey,
              dh_one_time_swap p commutes proper ephemeral one_time,
            )
            refl
      | inr forged ↦ rw forged refl
    ]

-- The signature that the receiver publishes verifies, where Ed25519 accepts its own signatures.
pub verify_sig-sign_prekey :
    (p : Primitives)
    → Verifies p
    → (bob : Identity) (prekey_pub : Bytes)
    → verify_sig p.crypto (verify_bytes p bob) prekey_pub (sign_prekey p bob prekey_pub) ≡ true
unfolding verify_sig verify_bytes sign_prekey sign
verify_sig-sign_prekey p verifies bob prekey_pub = verifies bob.signing_key prekey_pub
