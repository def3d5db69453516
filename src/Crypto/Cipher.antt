-- ===== src/Crypto/Cipher.antt =====
-- crypto_utils.py: the identity with its file, message encryption and sealed group keys. The
-- primitives of the `cryptography` package, of hmac and of hashlib are parameters; a random nonce,
-- salt or key is an argument.
use dns_messenger.Prelude.{
  ℕ, ◌*◌, Option, none, some, [], ◌∷◌, ◌++◌, leb, ◌==◌, if◌then◌else◌, length, take, drop,
}
use dns_messenger.Prelude.Text.{Text, Bytes, text, startswith}
use dns_messenger.Crypto.{Crypto, key_len}

-- A private key stands for its raw bytes. `none` is an exception of the library.
pub record Primitives : Type 0 where
  pub crypto : Crypto
  pub open crypto use *
  -- X25519PrivateKey.public_key(), in raw bytes
  pub x_public : Bytes → Bytes
  -- X25519PrivateKey.exchange(X25519PublicKey.from_public_bytes(b))
  pub exchange : Bytes → Bytes → Option Bytes
  -- Ed25519PrivateKey.public_key() in raw bytes, and .sign(data)
  pub ed_public : Bytes → Bytes
  pub ed_sign : Bytes → Bytes → Bytes
  -- HKDF(SHA256, length, salt, info).derive(ikm)
  pub hkdf : ℕ → Option Bytes → Bytes → Bytes → Bytes
  -- hmac.new(key, msg, 'sha256').digest()
  pub hmac : Bytes → Bytes → Bytes
  -- Scrypt(salt, 32, n, r, p).derive(password)
  pub scrypt : Bytes → Text → Bytes
  -- ChaCha20Poly1305(key).encrypt(nonce, plaintext, aad), and decrypt
  pub seal : Bytes → Bytes → Bytes → Option Bytes → Bytes
  pub unseal : Bytes → Bytes → Bytes → Option Bytes → Option Bytes

-- The two private keys, X25519 and Ed25519.
pub record Identity : Type 0 where
  pub private_key : Bytes
  pub signing_key : Bytes

abbrev pub nonce_size : ℕ
nonce_size = 12

abbrev pub salt_size : ℕ
salt_size = 16

abbrev pub identity_magic : Bytes
identity_magic = text "IDENC1\n"

module _ (p : Primitives) where
  unfoldable pub public_bytes : Identity → Bytes
  public_bytes i = p.x_public i.private_key

  unfoldable pub verify_bytes : Identity → Bytes
  verify_bytes i = p.ed_public i.signing_key

  unfoldable pub public_bundle : Identity → Bytes
  public_bundle i = public_bytes i ++ verify_bytes i

  unfoldable pub sign : Identity → Bytes → Bytes
  sign i message = p.ed_sign i.signing_key message

  -- encrypt(plaintext, key, aad), with the nonce that os.urandom gives
  unfoldable pub encrypt : Bytes → Bytes → Bytes → Option Bytes → Bytes
  encrypt nonce plaintext key aad = nonce ++ p.seal key nonce plaintext aad

  unfoldable pub decrypt : Bytes → Bytes → Option Bytes → Option Bytes
  decrypt sealed key aad = p.unseal key (take nonce_size sealed) (drop nonce_size sealed) aad

  unfoldable pub derive_identity_key : Text → Bytes → Bytes
  derive_identity_key password salt = p.scrypt salt password

  unfoldable pub derive_shared_key : Identity → Bytes → Option Bytes
  derive_shared_key i peer = elim (p.exchange i.private_key (take key_len peer)) [
    | none ↦ none
    | some shared ↦ some (p.hkdf 32 none (text "dns-messenger-v1") shared)
  ]

  unfoldable pub seal_group_key : Bytes → Bytes → Identity → Bytes → Text → Option Bytes
  seal_group_key nonce group_key i peer gid = elim (derive_shared_key i peer) [
    | none ↦ none
    | some shared ↦ some (nonce ++ p.seal shared nonce group_key (some gid))
  ]

  unfoldable pub unseal_group_key : Bytes → Identity → Bytes → Text → Option Bytes
  unseal_group_key sealed i sender gid = elim (derive_shared_key i sender) [
    | none ↦ none
    | some shared ↦ p.unseal shared (take nonce_size sealed) (drop nonce_size sealed) (some gid)
  ]

unfoldable pub private_bytes : Identity → Bytes
private_bytes i = i.private_key ++ i.signing_key

-- from_private_bytes: a key of another length is ValueError.
unfoldable pub raw_key : Bytes → Option Bytes
raw_key raw = if length raw == key_len then some raw else none

-- Identity.from_raw; `fresh` is the Ed25519 key that an old file without one is given.
unfoldable pub from_raw : Bytes → Bytes → Option Identity
unfolding raw_key
from_raw fresh raw = elim (raw_key (take key_len raw)) [
  | none ↦ none
  | some x ↦
      if leb (2 * key_len) (length raw)
      then elim (raw_key (take key_len (drop key_len raw))) [
        | none ↦ none
        | some e ↦ some (record { private_key = x; signing_key = e })
      ]
      else some (record { private_key = x; signing_key = fresh })
]

pub data Loaded : Type 0 where
  identity : Identity → Loaded
  locked bad_key : Loaded

abbrev pub loaded : Option Identity → Loaded
loaded none = Loaded.bad_key
loaded (some i) = Loaded.identity i

module _ (p : Primitives) where
  -- What Identity.save writes. No password and the empty one both leave the keys plain.
  unfoldable pub save : Bytes → Bytes → Text → Identity → Bytes
  save salt nonce [] i = private_bytes i
  save salt nonce (c ∷ password) i =
      identity_magic
      ++ salt
      ++ encrypt p nonce (private_bytes i) (derive_identity_key p (c ∷ password) salt) none

  -- Identity.load on what the file holds.
  unfoldable pub load : Bytes → Bytes → Text → Loaded
  load fresh raw password =
      let body = drop (length identity_magic) raw in
      let key = derive_identity_key p password (take salt_size body) in
      if startswith identity_magic raw
      then elim password [
        | [] ↦ Loaded.locked
        | _ ∷ _ ↦ elim (decrypt p (drop salt_size body) key none) [
          | none ↦ Loaded.locked
          | some plain ↦ loaded (from_raw fresh plain)
        ]
      ]
      else loaded (from_raw fresh raw)
