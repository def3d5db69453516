-- ===== src/Crypto.antt =====
-- crypto_utils.py: the public bundle, what requests sign, and the signed payload of a message. The
-- primitives of the `cryptography` package and of hashlib are parameters.
pub mod Signing
pub mod Signed
pub mod Safety
pub mod Cipher
pub mod Sealing
use dns_messenger.Prelude.{
  ℕ, zero, suc, ◌+◌, ◌*◌, ◌≡◌, Bool, true, false, ◌&&◌, Option, none, some, List, [], ◌∷◌, ◌++◌,
  ltb, leb, ◌==◌, if◌then◌else◌, length, take, drop,
}
use dns_messenger.Prelude.Text.{Text, Bytes, text, join_with}

-- The primitives that the relay relies on.
pub record Crypto : Type 0 where
  -- Ed25519PublicKey.from_public_bytes(key).verify(sig, data) raises nothing
  pub ed25519_verify : Bytes → Bytes → Bytes → Bool
  -- hashlib.sha256(data).hexdigest()
  pub sha256_hex : Bytes → Text

abbrev pub key_len : ℕ
key_len = 32

abbrev pub sig_len : ℕ
sig_len = 64

-- try: from_public_bytes(verify_pub).verify(sig, data); True — except: False
unfoldable pub verify_sig : Crypto → Bytes → Bytes → Bytes → Bool
verify_sig c verify_pub message sig = c.ed25519_verify verify_pub message sig

-- X25519, and Ed25519 where the bundle is long enough.
unfoldable pub split_bundle : Bytes → Bytes × Option Bytes
split_bundle bundle = (
  take key_len bundle,
  if leb (2 * key_len) (length bundle) then some (take key_len (drop key_len bundle)) else none,
)

-- What each signature is for.
pub data Purpose : Type 0 where
  poll fpoll glist reg gpoll ginvite gleave gkick gmembers diskreg gkey : Purpose

unfoldable pub context : Purpose → Bytes
context poll = text "dnsmsg-poll-v1"
context fpoll = text "dnsmsg-fpoll-v1"
context glist = text "dnsmsg-glist-v1"
context reg = text "dnsmsg-reg-v1"
context gpoll = text "dnsmsg-gpoll-v1"
context ginvite = text "dnsmsg-ginvite-v1"
context gleave = text "dnsmsg-gleave-v1"
context gkick = text "dnsmsg-gkick-v1"
context gmembers = text "dnsmsg-gmembers-v1"
context diskreg = text "dnsmsg-diskreg-v1"
context gkey = text "dnsmsg-gkey-v1"

-- CONTEXT + b'|' + field + b'|' + …
unfoldable pub signing_input : Purpose → List Bytes → Bytes
signing_input p fields = join_with (b'|' ∷ []) (context p ∷ fields)

unfoldable pub poll_signing_input : Text → Text → Text → Bytes
poll_signing_input user nonce ts = signing_input poll (user ∷ nonce ∷ ts ∷ [])

unfoldable pub fpoll_signing_input : Text → Text → Text → Bytes
fpoll_signing_input user nonce ts = signing_input fpoll (user ∷ nonce ∷ ts ∷ [])

unfoldable pub glist_signing_input : Text → Text → Text → Bytes
glist_signing_input user nonce ts = signing_input glist (user ∷ nonce ∷ ts ∷ [])

unfoldable pub reg_signing_input : Text → Bytes → Bytes
reg_signing_input user bundle = signing_input reg (user ∷ bundle ∷ [])

unfoldable pub gpoll_signing_input : Text → Text → Text → Text → Bytes
gpoll_signing_input gid user nonce ts = signing_input gpoll (gid ∷ user ∷ nonce ∷ ts ∷ [])

unfoldable pub ginvite_signing_input : Text → Text → Text → Bytes
ginvite_signing_input gid inviter invited = signing_input ginvite (gid ∷ inviter ∷ invited ∷ [])

unfoldable pub gleave_signing_input : Text → Text → Text → Text → Bytes
gleave_signing_input gid user nonce ts = signing_input gleave (gid ∷ user ∷ nonce ∷ ts ∷ [])

unfoldable pub gkick_signing_input : Text → Text → Text → Text → Text → Bytes
gkick_signing_input gid kicker target nonce ts =
    signing_input gkick (gid ∷ kicker ∷ target ∷ nonce ∷ ts ∷ [])

unfoldable pub gmembers_signing_input : Text → Text → Text → Text → Bytes
gmembers_signing_input gid user nonce ts = signing_input gmembers (gid ∷ user ∷ nonce ∷ ts ∷ [])

unfoldable pub disk_register_signing_input : Crypto → Text → Text → Text → Text → Bytes
disk_register_signing_input c user pubkey nonce ts =
    signing_input diskreg (user ∷ c.sha256_hex pubkey ∷ nonce ∷ ts ∷ [])

unfoldable pub gkey_signing_input : Text → Bytes → Text → Bytes
gkey_signing_input gid group_key invited = signing_input gkey (gid ∷ group_key ∷ invited ∷ [])

abbrev pub signed_version : ℕ
signed_version = 1

-- VERSION || sig || plaintext, where the key holder's `sign` covers context || plaintext.
unfoldable pub build_signed : (Bytes → Bytes) → Bytes → Bytes → Bytes
build_signed sign ctx plaintext = signed_version ∷ (sign (ctx ++ plaintext) ++ plaintext)

pub data Status : Type 0 where
  verified forged unverified unsigned : Status

unfoldable pub open_signed : Crypto → Bytes → Option Bytes → Bytes → Bytes × Status
open_signed c [] verify_pub ctx = ([], unsigned)
open_signed c (v ∷ body) verify_pub ctx =
    let sig = take sig_len body in
    let pt = drop sig_len body in
    if v == signed_version && leb (1 + sig_len) (length (v ∷ body))
    then elim verify_pub [
      | none ↦ (pt, unverified)
      | some key ↦ (pt, if verify_sig c key (ctx ++ pt) sig then verified else forged)
    ]
    else (v ∷ body, unsigned)
