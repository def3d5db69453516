-- ===== src/Ratchet.antt =====
-- ratchet.py: what a step gives, the X3DH agreement and the key derivations.
pub mod Header
pub mod Session
pub mod Agreement
pub mod Steps
pub mod Bounds
pub mod Chain
pub mod Delivery
pub mod Turn
pub mod Conversation
pub mod Handshake
pub mod Forged
pub mod Storage
use dns_messenger.Prelude.{
  ℕ, Bool, true, false, Option, none, some, List, [], ◌∷◌, ◌++◌, replicate, take, drop,
}
use dns_messenger.Prelude.Text.{Bytes, text}
use dns_messenger.Crypto.{verify_sig}
use dns_messenger.Crypto.Cipher.{Primitives, Identity, sign, private_bytes}

-- The exceptions: RatchetError, ValueError of a key, struct.error, TypeError on a missing chain,
-- AttributeError on a missing pair, and whatever the AEAD raises.
pub data Failure : Type 0 where
  ratchet_error value_error struct_error type_error attribute_error invalid_tag : Failure

pub data Outcome {ℓ} (A : Type ℓ) : Type ℓ where
  value : A → Outcome A
  raise : Failure → Outcome A

infixl 5 ◌>>=◌ ◌>>◌
abbrev pub ◌>>=◌ {ℓ κ} : {A : Type ℓ} {B : Type κ} → Outcome A → (A → Outcome B) → Outcome B
value a >>= f = f a
raise e >>= f = raise e

abbrev pub ◌>>◌ {ℓ} : {B : Type ℓ} → Outcome (Unit {0}) → Outcome B → Outcome B
m >> k = m >>= λ _. k

abbrev pub guard : Bool → Failure → Outcome (Unit {0})
guard true e = value tt
guard false e = raise e

-- A library call whose only failure is `e`.
abbrev pub called {ℓ} : {A : Type ℓ} → Failure → Option A → Outcome A
called e none = raise e
called e (some a) = value a

module _ (p : Primitives) where
  unfoldable pub sign_prekey : Identity → Bytes → Bytes
  sign_prekey i prekey_public = sign p i prekey_public

  unfoldable pub dh : Bytes → Bytes → Outcome Bytes
  dh priv pub_bytes = called value_error (p.exchange priv pub_bytes)

  unfoldable pub x3dh_kdf : Bytes → Bytes
  x3dh_kdf material =
      p.hkdf 32 (some (replicate 32 0)) (text "dns-messenger-x3dh-v1")
        (replicate 32 0xFF ++ material)

  -- Nothing is added without a one-time key; an empty public key counts as none.
  unfoldable pub dh_one_time_pub : Bytes → Option Bytes → Outcome Bytes
  unfolding dh
  dh_one_time_pub ephemeral none = value []
  dh_one_time_pub ephemeral (some []) = value []
  dh_one_time_pub ephemeral (some (b ∷ key)) = dh ephemeral (b ∷ key)

  unfoldable pub dh_one_time_priv : Option Bytes → Bytes → Outcome Bytes
  unfolding dh
  dh_one_time_priv none ephemeral = value []
  dh_one_time_priv (some priv) ephemeral = dh priv ephemeral

  unfoldable pub x3dh_initiate :
      Identity → Bytes → Bytes → Bytes → Bytes → Bytes → Option Bytes → Outcome Bytes
  unfolding x3dh_kdf dh_one_time_pub
  x3dh_initiate i ephemeral identity_pub verify_pub prekey_pub prekey_sig one_time_pub = do
    guard (verify_sig p.crypto verify_pub prekey_pub prekey_sig) ratchet_error
    dh1 ← dh i.private_key prekey_pub
    dh2 ← dh ephemeral identity_pub
    dh3 ← dh ephemeral prekey_pub
    dh4 ← dh_one_time_pub ephemeral one_time_pub
    value (x3dh_kdf (dh1 ++ dh2 ++ dh3 ++ dh4))

  unfoldable pub x3dh_respond : Identity → Bytes → Option Bytes → Bytes → Bytes → Outcome Bytes
  unfolding x3dh_kdf dh_one_time_priv
  x3dh_respond i prekey_priv one_time_priv identity_pub ephemeral_pub = do
    dh1 ← dh prekey_priv identity_pub
    dh2 ← dh i.private_key ephemeral_pub
    dh3 ← dh prekey_priv ephemeral_pub
    dh4 ← dh_one_time_priv one_time_priv ephemeral_pub
    value (x3dh_kdf (dh1 ++ dh2 ++ dh3 ++ dh4))

  -- (the next root key, the key of the new chain)
  unfoldable pub kdf_rk : Bytes → Bytes → Bytes × Bytes
  kdf_rk root_key dh_out =
      let out = p.hkdf 64 (some root_key) (text "dns-messenger-ratchet-rk-v1") dh_out in
      (take 32 out, drop 32 out)

  -- (the next key of the chain, the key of this message)
  unfoldable pub kdf_ck : Bytes → Bytes × Bytes
  kdf_ck chain_key = (p.hmac chain_key (2 ∷ []), p.hmac chain_key (1 ∷ []))

  unfoldable pub ratchet_storage_key : Identity → Bytes
  ratchet_storage_key i = p.hkdf 32 none (text "dns-messenger-ratchet-storage-v1") (private_bytes i)
