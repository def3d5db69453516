-- ===== src/Web/Messages/Paths.antt =====
-- The paths of a first message through send_dm, and of its frame through _decrypt_from (web_client.py).
use dns_messenger.Prelude.{
  ◌≡◌, ◌≢◌, refl, ap, ◌∙◌, Option, none, some, [], ◌∷◌, arith, list_nat_eq, drop,
}
use dns_messenger.Prelude.Text.{Text, Bytes}
use dns_messenger.Dict.{Dict, get}
use dns_messenger.Crypto.{build_signed}
use dns_messenger.Crypto.Cipher.{Primitives, Identity, sign, public_bytes}
use dns_messenger.Ratchet.{value, x3dh_respond}
use dns_messenger.Ratchet.Agreement.{public_half}
use dns_messenger.Ratchet.Session
use dns_messenger.Ratchet.Session.{Session, init_initiator, init_responder}
use dns_messenger.Web.Frames.{pack_ratchet_init, IsKey?, unpack-pack_ratchet_init}
use dns_messenger.Web.Peers.{Peers, Found, get_peer_key}
use dns_messenger.Web.Prekeys.{Store, Published, Bundle, Taken, take_prekey_bundle}
use dns_messenger.Web.Messages.{
  Messenger, Drawn, Sealed, sending_context, keep_session, open_session, send_opening, send_first,
  send_dm, pop_one_time, accept_session, read_init_from, read_init, read_scheme,
}
use dns_messenger.Web.Messages.Meeting.{Sized, Knows, IsHeld, proper, pop_one_time-half, Carried}

pub nonempty : (p : Primitives) → Sized p → (i : Identity) → public_bytes p i ≢ []
unfolding public_bytes
nonempty p sized i = proper p sized i.private_key

get_peer_key-known :
    (reply user : Text) (x : Bytes) (s : Peers)
    → get user s.peer_keys ≡ some x
    → get_peer_key reply user s ≡ (Found.peer_key x, s)
unfolding get_peer_key
get_peer_key-known reply user x s known = ground arith

-- A key that is known is not empty, so it counts as found.
pub read_init-known :
    (p : Primitives) (fresh : Bytes) (reply sender : Text) (body pk : Bytes) (store : Store)
    (m : Messenger)
    → pk ≢ []
    → get sender m.peers.peer_keys ≡ some pk
    → m.prekeys ≡ some store
    → read_init p fresh reply sender body m ≡ read_init_from p fresh pk store sender body m
unfolding read_init
read_init-known p fresh reply sender body [] store m full known held = absurd (full refl)
read_init-known p fresh reply sender body (k ∷ ey) store m full known held =
    ground (arith, get_peer_key-known reply sender (k ∷ ey) m.peers known)

pub send_dm-known :
    (p : Primitives) (drawn : Drawn) (reply user message : Text) (pk : Bytes) (m : Messenger)
    (published : Dict Text Published)
    → pk ≢ []
    → get user m.peers.peer_keys ≡ some pk
    → get user m.ratchets ≡ none
    → send_dm p drawn reply user message m published
      ≡ send_first p drawn user pk
          (build_signed (sign p m.identity) (sending_context m.username user) message)
          m
          published
unfolding send_dm
send_dm-known p drawn reply user message [] m published full known new = absurd (full refl)
send_dm-known p drawn reply user message (k ∷ ey) m published full known new =
    ground (arith, get_peer_key-known reply user (k ∷ ey) m.peers known)

pub public_half-IsKey? : (p : Primitives) → Sized p → (o : Option Bytes) → IsKey? (public_half p o)
public_half-IsKey? p sized none = tt
public_half-IsKey? p sized (some k) = sized k

pub send_first-opening :
    (p : Primitives) (drawn : Drawn) (user : Text) (pk signed ed : Bytes) (m : Messenger)
    (published published' : Dict Text Published) (own : Store) (bu : Bundle)
    (opening : Bytes × Session)
    → m.prekeys ≡ some own
    → take_prekey_bundle user published ≡ (Taken.bundle bu, published')
    → get user m.peers.peer_verify ≡ some ed
    → open_session p drawn pk ed signed bu m.identity ≡ value opening
    → (send_first p drawn user pk signed m published).0 ≡ Sealed.sealed opening.0
unfolding send_first send_opening
send_first-opening p drawn user pk signed ed m published published' own bu opening has taken known
      opens =
    ground (arith, has, taken, known, opens)

-- The text of a first message, through the frame and the signature.
module _ (p : Primitives) (a b : Messenger) (store : Store) (drawn : Drawn)
    (fresh sig plain secret : Bytes) (one_time : Option Bytes) (sized : Sized p)
    (d : Carried p a b store drawn fresh sig plain secret one_time)
    (theirs : Knows p b a.username a.identity) (prekeys : b.prekeys ≡ some store)
    (held : IsHeld p store one_time)
    (agreed : x3dh_respond p b.identity store.signed_priv one_time
        (public_bytes p a.identity)
        (p.x_public drawn.ephemeral)
      ≡ value secret) where
  abbrev pub frame : Bytes
  frame = pack_ratchet_init (p.x_public drawn.ephemeral) (public_half p one_time) d.ct

  -- The session that the receiver keeps.
  abbrev pub answer_session : Session
  answer_session = (Session.decrypt p fresh d.ct (init_responder p secret store.signed_priv)).1

  accepted :
      (m : Messenger)
      → m.identity ≡ b.identity
      → accept_session p fresh
          (public_bytes p a.identity)
          store.signed_priv
          one_time
          (p.x_public drawn.ephemeral)
          a.username
          d.ct
          m
        ≡ (some plain, keep_session a.username answer_session m)
  unfolding accept_session
  accepted m same = ground (
    arith,
    d.read,
    agreed,
    ap
        (λ i.
          x3dh_respond p i store.signed_priv one_time (public_bytes p a.identity)
            (p.x_public drawn.ephemeral))
        same,
  )

  abbrev pub used_store : Store
  used_store = record store { one_time = (pop_one_time (public_half p one_time) store.one_time).1 }

  pub read_frame :
      (reply : Text)
      → read_scheme p fresh reply a.username 1 (drop 1 frame) b ≡ (
        some plain,
        keep_session a.username answer_session (record b { prekeys = some used_store }),
      )
  unfolding read_scheme read_init_from public_bytes
  read_frame reply =
      let parts =
        unpack-pack_ratchet_init (p.x_public drawn.ephemeral) d.ct (public_half p one_time)
          (sized drawn.ephemeral) (public_half-IsKey? p sized one_time) in
      read_init-known p fresh reply a.username (drop 1 frame) (public_bytes p a.identity) store b
        (proper p sized a.identity.private_key) theirs.exchange_key prekeys
      ∙ ground (
        arith,
        parts,
        pop_one_time-half p sized store one_time held,
        accepted (record b { prekeys = some used_store }) refl,
      )
