-- ===== src/Web/Messages/Meeting.antt =====
-- Two clients that can open a session, and its first ratchet message (web_client.py, send_dm).
use dns_messenger.Prelude.{
  ◌≡◌, refl, ap, ◌∙◌, true, false, Option, none, some, [], ◌∷◌, arith, length, list_nat_eq,
  contains,
}
use dns_messenger.Prelude.Text.{Text, Bytes}
use dns_messenger.Dict.{Dict, get}
use dns_messenger.Crypto.{verify_sig}
use dns_messenger.Crypto.Cipher.{Primitives, Identity, public_bytes, verify_bytes}
use dns_messenger.Crypto.Sealing.{Commutes, Unseals}
use dns_messenger.Ratchet.{value, x3dh_initiate, x3dh_respond}
use dns_messenger.Ratchet.Agreement.{Proper, public_half, x3dh_initiate-respond}
use dns_messenger.Ratchet.Session
use dns_messenger.Ratchet.Session.{Session, init_initiator, init_responder}
use dns_messenger.Ratchet.Turn.{Arrived-Facing}
use dns_messenger.Ratchet.Handshake.{Facing-start, counters_start}
use dns_messenger.Web.Frames.{pack_ratchet_init}
use dns_messenger.Web.Prekeys.{Store, Bundle}
use dns_messenger.Web.Messages.{Messenger, Drawn, open_session, pop_one_time}

-- The client has the keys of the user, and no alert about them.
pub record Knows (p : Primitives) (m : Messenger) (user : Text) (i : Identity) : Type 0 where
  pub exchange_key : get user m.peers.peer_keys ≡ some (public_bytes p i)
  pub verify_key : get user m.peers.peer_verify ≡ some (verify_bytes p i)
  pub calm : contains user m.peers.key_alerts ≡ false

-- Public keys have 32 bytes.
abbrev pub Sized : Primitives → Type 0
Sized p = (k : Bytes) → length (p.x_public k) ≡ 32

-- The published bundle: the signed prekey of `store`, and one of its one-time keys or none.
abbrev pub bundle_for : Primitives → Store → Bytes → Option Bytes → Bundle
bundle_for p store sig one_time = record {
  signed_pub = p.x_public store.signed_priv;
  signed_sig = sig;
  one_time_pub = public_half p one_time;
}

-- The private half is still there.
abbrev pub IsHeld : Primitives → Store → Option Bytes → Type 0
IsHeld p store none = Unit
IsHeld p store (some k) = get (p.x_public k) store.one_time ≡ some k

module _ (p : Primitives) (sized : Sized p) where
  pub proper : Proper p
  proper k e = absurd (omega (arith, sized k, ap (λ (x : Bytes). length x) e))

  -- A key of 32 bytes is not empty.
  pop_one_time-held :
      (key : Bytes) (k : Bytes) (d : Dict Bytes Bytes)
      → length key ≡ 32
      → get key d ≡ some k
      → (pop_one_time (some key) d).0 ≡ some k
  unfolding pop_one_time
  pop_one_time-held [] k d h held = absurd (omega arith)
  pop_one_time-held (b ∷ key) k d h held = held

  pub pop_one_time-half :
      (store : Store) (one_time : Option Bytes)
      → IsHeld p store one_time
      → (pop_one_time (public_half p one_time) store.one_time).0 ≡ one_time
  unfolding pop_one_time
  pop_one_time-half store none held = refl
  pop_one_time-half store (some k) held =
      pop_one_time-held (p.x_public k) k store.one_time (sized k) held

-- What the first message needs, on both sides.
pub record Meeting (p : Primitives) (a b : Messenger) (store : Store) (drawn : Drawn)
    (fresh sig : Bytes) (one_time : Option Bytes) : Type 0 where
  pub ours : Knows p a b.username b.identity
  pub theirs : Knows p b a.username a.identity
  pub held : IsHeld p store one_time
  pub prekeys : b.prekeys ≡ some store
  pub signed :
      verify_sig p.crypto (verify_bytes p b.identity) (p.x_public store.signed_priv) sig ≡ true
  pub nonce_sized : length drawn.nonce ≡ 12
  pub secret : Bytes
  pub agreed :
      x3dh_respond p b.identity store.signed_priv one_time
        (public_bytes p a.identity)
        (p.x_public drawn.ephemeral)
      ≡ value secret
  pub session : Session
  pub started :
      init_initiator p drawn.ratchet_pair secret (p.x_public store.signed_priv) ≡ value session
  pub next : Bytes
  pub answered : p.exchange fresh (p.x_public drawn.ratchet_pair) ≡ some next

-- The ratchet message in the first frame, and what the receiver's new session reads in it.
pub record Carried (p : Primitives) (a b : Messenger) (store : Store) (drawn : Drawn)
    (fresh sig plain secret : Bytes) (one_time : Option Bytes) : Type 0 where
  pub ct : Bytes
  pub kept : Session
  pub sent :
      open_session p drawn
        (public_bytes p b.identity)
        (verify_bytes p b.identity)
        plain
        (bundle_for p store sig one_time)
        a.identity
      ≡ value (pack_ratchet_init (p.x_public drawn.ephemeral) (public_half p one_time) ct, kept)
  pub read :
      (Session.decrypt p fresh ct (init_responder p secret store.signed_priv)).0 ≡ value plain

module _ (p : Primitives) (commutes : Commutes p) (unseals : Unseals p) (sized : Sized p)
    (a b : Messenger) (store : Store) (drawn : Drawn) (fresh sig : Bytes) (one_time : Option Bytes)
    (meet : Meeting p a b store drawn fresh sig one_time) where
  secret_agreed :
      x3dh_initiate p a.identity drawn.ephemeral
        (public_bytes p b.identity)
        (verify_bytes p b.identity)
        (p.x_public store.signed_priv)
        sig
        (public_half p one_time)
      ≡ value meet.secret
  secret_agreed =
      x3dh_initiate-respond p commutes (proper p sized) a.identity b.identity drawn.ephemeral
        store.signed_priv sig one_time
      ∙ ground (arith, meet.signed, meet.agreed)

  pub Carried-first :
      (plain : Bytes) → Carried p a b store drawn fresh sig plain meet.secret one_time
  unfolding open_session
  Carried-first plain =
      let s = meet.session in
      let zeros =
        counters_start p commutes meet.secret store.signed_priv drawn.ratchet_pair fresh
          (sized drawn.ratchet_pair) s meet.started meet.next meet.answered in
      let facing =
        Facing-start p commutes meet.secret store.signed_priv drawn.ratchet_pair fresh
          (sized drawn.ratchet_pair) s meet.started meet.next meet.answered in
      let r = init_responder p meet.secret store.signed_priv in
      let arrived =
        Arrived-Facing p unseals fresh drawn.nonce plain 0 s r facing (omega arith) meet.nonce_sized
          (omega (arith, zeros.1)) (omega (arith, zeros.0)) in
      record {
        ct = arrived.message;
        kept = (Session.encrypt p drawn.nonce plain s).1;
        sent = ground (arith, secret_agreed, meet.started, arrived.sent);
        read = arrived.read;
      }
