-- ===== src/Examples/Meeting.antt =====
-- Anna's first message to Boris, with toy primitives.
use dns_messenger.Prelude.{
  ℕ, ◌≡◌, refl, ◌∙◌, sym, ap, Bool, true, false, ◌&&◌, some, List, [], ◌∷◌, arith, replicate, ltb,
  contains, list_nat_eq, list_eq,
}
use dns_messenger.Prelude.Text.{Text, Bytes, text}
use dns_messenger.Prelude.Base64.{b64encode, b64decode, b64_symbol, b64_value, a2b, take_digit}
use dns_messenger.Dict.{Dict, get, put}
use dns_messenger.Protocol.{b32encode, to_base}
use dns_messenger.Protocol.Base32.{IsBytes}
use dns_messenger.Crypto.{verify_sig, verified, build_signed}
use dns_messenger.Crypto.Cipher
use dns_messenger.Crypto.Cipher.{Identity, public_bytes, verify_bytes, sign}
use dns_messenger.Ratchet.{
  value, x3dh_initiate, x3dh_respond, dh, dh_one_time_pub, x3dh_kdf, kdf_rk, kdf_ck,
}
use dns_messenger.Ratchet.Session.{Session, empty, init_initiator, encrypt}
use dns_messenger.Ratchet.Header.{pack_header, fit_key}
use dns_messenger.Web.Frames.{pack_ratchet_init}
use dns_messenger.Web.Peers.{get_peer_key}
use dns_messenger.Web.Prekeys.{Store, Published, Taken, bundle_of, take_prekey_bundle}
use dns_messenger.Web.Messages.{
  Messenger, Drawn, Sealed, open_session, send_dm, opened, decrypt_from,
}
use dns_messenger.Web.Messages.Meeting.{Meeting, bundle_for}
use dns_messenger.Web.Messages.First.{decrypt_from-send_dm}
use dns_messenger.Examples.Toys.{
  sum_of, toy_public, toy_primitives, toy-Commutes, toy-Unseals, toy-Sized, toy-Signs, seed,
}

abbrev anna_keys : Identity
anna_keys = record { private_key = seed 2; signing_key = seed 3 }

abbrev boris_keys : Identity
boris_keys = record { private_key = seed 4; signing_key = seed 5 }

abbrev store_of : ℕ → Bytes → Dict Bytes Bytes → Store
store_of n sig one_time = record {
  signed_priv = seed n;
  signed_pub = toy_public (seed n);
  signed_sig = sig;
  signed_ts = 0;
  one_time = one_time;
}

abbrev boris_sig : Bytes
boris_sig = toy_primitives.ed_sign (seed 5) (toy_public (seed 7))

abbrev boris_store : Store
boris_store = store_of 7 boris_sig ((toy_public (seed 8), seed 8) ∷ [])

abbrev anna_store : Store
anna_store = store_of 9 [] []

abbrev client_of : Text → Identity → Text → Identity → Store → Messenger
client_of name own peer other store = record {
  username = name;
  identity = own;
  peers = record {
    pins = [];
    peer_keys = (peer, public_bytes toy_primitives other) ∷ [];
    peer_verify = (peer, verify_bytes toy_primitives other) ∷ [];
    key_alerts = [];
  };
  prekeys = some store;
  ratchets = [];
}

abbrev anna : Messenger
anna = client_of (text "anna") anna_keys (text "boris") boris_keys anna_store

abbrev boris : Messenger
boris = client_of (text "boris") boris_keys (text "anna") anna_keys boris_store

abbrev drawn : Drawn
drawn = record { ephemeral = seed 6; ratchet_pair = seed 10; nonce = replicate 12 1 }

abbrev offered : List Text → Dict Text Published
offered one_time =
    (
      text "boris",
      record {
        signed_pub = b64encode (toy_public (seed 7));
        signed_sig = b64encode boris_sig;
        signed_ts = 0;
        one_time = one_time;
      },
    )
    ∷ []

abbrev published : Dict Text Published
published = offered (b64encode (toy_public (seed 8)) ∷ [])

abbrev secret : Bytes
secret = replicate 32 122

abbrev opened_session : Session
opened_session = record empty {
  root_key = replicate 32 17;
  dhs = some (seed 10);
  dhs_pub = toy_public (seed 10);
  dhr = some (toy_public (seed 7));
  send_chain = some (replicate 32 17);
}

agreed :
    x3dh_respond toy_primitives boris_keys
      (seed 7)
      (some (seed 8))
      (public_bytes toy_primitives anna_keys)
      (toy_primitives.x_public (seed 6))
    ≡ value secret
unfolding x3dh_respond public_bytes toy_primitives sum_of
agreed = refl

started :
    init_initiator toy_primitives (seed 10) secret (toy_primitives.x_public (seed 7))
    ≡ value opened_session
unfolding init_initiator toy_primitives sum_of dh kdf_rk
started = refl

meeting : Meeting toy_primitives anna boris boris_store drawn (seed 11) boris_sig (some (seed 8))
unfolding public_bytes verify_bytes toy_primitives sum_of get contains verify_sig list_eq
meeting = record {
  ours = record { exchange_key = refl; verify_key = refl; calm = refl };
  theirs = record { exchange_key = refl; verify_key = refl; calm = refl };
  held = refl;
  prekeys = refl;
  signed = refl;
  nonce_sized = refl;
  secret = secret;
  agreed = agreed;
  session = opened_session;
  started = started;
  next = 141 ∷ [];
  answered = refl;
}

taken :
    take_prekey_bundle (text "boris") published
    ≡ (Taken.bundle (bundle_for toy_primitives boris_store boris_sig (some (seed 8))), offered [])
unfolding take_prekey_bundle toy_primitives sum_of get put b64encode b64decode b64_symbol b64_value
    a2b take_digit
taken = refl

-- The frame consists of bytes.
all_bytes : Bytes → Bool
all_bytes [] = true
all_bytes (b ∷ bs) = ltb b 256 && all_bytes bs

all_bytes-IsBytes : (bs : Bytes) → all_bytes bs ≡ true → IsBytes bs
unfolding all_bytes
all_bytes-IsBytes [] h = tt
all_bytes-IsBytes (b ∷ bs) h = (ground (arith, h), all_bytes-IsBytes bs (ground (arith, h)))

frame_is_bytes : Sealed → Bool
unfolding all_bytes
frame_is_bytes (Sealed.sealed f) = all_bytes f
frame_is_bytes other = false

sealed-IsBytes :
    (r : Sealed) (f : Bytes) → frame_is_bytes r ≡ true → r ≡ Sealed.sealed f → IsBytes f
unfolding frame_is_bytes
sealed-IsBytes r f h e = all_bytes-IsBytes f (sym (ap frame_is_bytes e) ∙ h)

sent_is_bytes :
    frame_is_bytes (send_dm toy_primitives drawn [] (text "boris") (text "hi") anna published).0
    ≡ true
unfolding frame_is_bytes all_bytes send_dm toy_primitives sum_of get get_peer_key public_bytes
    take_prekey_bundle b64decode b64encode x3dh_initiate verify_sig verify_bytes init_initiator
    encrypt pack_header pack_ratchet_init fit_key to_base Cipher.encrypt kdf_ck kdf_rk sign
    build_signed a2b b64_symbol b64_value take_digit list_eq dh dh_one_time_pub x3dh_kdf
    open_session bundle_of put
sent_is_bytes = refl

decrypt_from-send_dm_example :
    (f : Bytes) × ((send_dm toy_primitives drawn [] (text "boris") (text "hi") anna published).0
      ≡ Sealed.sealed f)
    × ((decrypt_from toy_primitives (λ x. some x) (seed 11) [] (text "anna") (b32encode f) boris).0
        ≡ opened (text "hi") verified false)
unfolding get
decrypt_from-send_dm_example =
    decrypt_from-send_dm toy_primitives toy-Commutes toy-Unseals toy-Sized toy-Signs anna boris
      boris_store anna_store drawn (seed 11) boris_sig (some (seed 8)) meeting (λ x. some x)
      (text "hi") (text "hi") [] [] published (offered []) refl refl refl taken
      (λ f e.
        sealed-IsBytes (send_dm toy_primitives drawn [] (text "boris") (text "hi") anna published).0
          f sent_is_bytes e)
