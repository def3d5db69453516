-- ===== src/Web/Messages.antt =====
-- Direct messages over key pins, prekeys, sessions and signatures (web_client.py,
-- UserMessenger.send_dm and _decrypt_from). What is drawn at random is an argument.
pub mod Meeting
pub mod Paths
pub mod First
use dns_messenger.Prelude.{
  ℕ, ◌==◌, Bool, true, false, Option, none, some, List, [], ◌∷◌, ◌++◌, if◌then◌else◌, list_nat_eq,
  contains,
}
use dns_messenger.Prelude.Text.{Text, Bytes}
use dns_messenger.Dict.{Dict, get, put, pop}
use dns_messenger.Protocol.{b32decode}
use dns_messenger.Crypto.{Status, build_signed, open_signed}
use dns_messenger.Crypto.Cipher
use dns_messenger.Crypto.Cipher.{Primitives, Identity, sign, derive_shared_key}
use dns_messenger.Ratchet.{
  Outcome, value, raise, Failure, ratchet_error, value_error, x3dh_initiate, x3dh_respond,
}
use dns_messenger.Ratchet.Session
use dns_messenger.Ratchet.Session.{Session, init_initiator, init_responder}
use dns_messenger.Web.Frames.{
  scheme_legacy_static, scheme_ratchet_init, scheme_ratchet_cont, pack_ratchet_init,
  unpack_ratchet_init, pack_ratchet_continue,
}
use dns_messenger.Web.Peers.{Peers, Found, get_peer_key, peer_verify_key, peer_verify_raises}
use dns_messenger.Web.Prekeys.{Store, Published, Bundle, Taken, take_prekey_bundle}

-- The fields of UserMessenger that the two methods use.
pub record Messenger : Type 0 where
  pub username : Text
  pub identity : Identity
  pub peers : Peers
  pub prekeys : Option Store
  pub ratchets : Dict Text Session

-- The key pairs and nonces that one call draws.
pub record Drawn : Type 0 where
  pub ephemeral : Bytes
  pub ratchet_pair : Bytes
  pub nonce : Bytes

-- What goes to _send_chunked, or why nothing does.
pub data Sealed : Type 0 where
  sealed : Bytes → Sealed
  unknown_user : Sealed
  raised : Failure → Sealed
  damaged : Sealed

abbrev pub sending_context : Text → Text → Bytes
sending_context sender receiver = sender ++ 0 ∷ receiver

abbrev pub keep_session : Text → Session → Messenger → Messenger
keep_session user session m = record m { ratchets = put user session m.ratchets }

module _ (p : Primitives) where
  -- ratchet_ct = session.encrypt(signed), on an established session
  unfoldable pub send_continued : Bytes → Text → Bytes → Session → Messenger → Sealed × Messenger
  send_continued nonce to_user signed session m =
      let (out, session') = Session.encrypt p nonce signed session in
      elim out [
        | raise e ↦ (Sealed.raised e, keep_session to_user session' m)
        | value ct ↦ (Sealed.sealed (pack_ratchet_continue ct), keep_session to_user session' m)
      ]

  unfoldable pub send_static : Bytes → Bytes → Bytes → Messenger → Sealed × Messenger
  send_static nonce pk signed m = elim (derive_shared_key p m.identity pk) [
    | none ↦ (Sealed.raised value_error, m)
    | some shared ↦
        (Sealed.sealed (scheme_legacy_static ∷ Cipher.encrypt p nonce signed shared none), m)
  ]

  -- The first message of a session, from x3dh_initiate to the frame.
  unfoldable pub open_session :
      Drawn → Bytes → Bytes → Bytes → Bundle → Identity → Outcome (Bytes × Session)
  open_session drawn pk peer_verify signed b i =
      elim (x3dh_initiate p i drawn.ephemeral pk peer_verify b.signed_pub b.signed_sig
        b.one_time_pub) [
          | raise e ↦ raise e
          | value secret ↦ elim (init_initiator p drawn.ratchet_pair secret b.signed_pub) [
            | raise e ↦ raise e
            | value session ↦
                let (out, session') = Session.encrypt p drawn.nonce signed session in
                elim out [
                  | raise e ↦ raise e
                  | value ct ↦
                      value
                        (pack_ratchet_init (p.x_public drawn.ephemeral) b.one_time_pub ct, session')
                ]
          ]
        ]

  -- RatchetError falls back to the static scheme; any other exception leaves send_dm. It comes from
  -- x3dh_initiate, before `session` is set: the session of init_initiator has a sending chain.
  unfoldable pub send_opening :
      Drawn → Text → Bytes → Bytes → Bytes → Bundle → Messenger → Sealed × Messenger
  unfolding open_session send_static
  send_opening drawn to_user pk peer_verify signed b m =
      elim (open_session drawn pk peer_verify signed b m.identity) [
        | value opening ↦ (Sealed.sealed opening.0, keep_session to_user opening.1 m)
        | raise e ↦ elim e [
          | Failure.ratchet_error ↦ send_static drawn.nonce pk signed m
          | other ↦ (Sealed.raised other, m)
        ]
      ]

  -- Without a session: one is opened if this client has prekeys and the peer a bundle.
  unfoldable pub send_first :
      Drawn
      → Text
      → Bytes
      → Bytes
      → Messenger
      → Dict Text Published
      → Sealed × Messenger × Dict Text Published
  unfolding send_opening send_static
  send_first drawn to_user pk signed m published = elim m.prekeys [
    | none ↦ let (out, m') = send_static drawn.nonce pk signed m in (out, m', published)
    | some store ↦
        let (taken, published') = take_prekey_bundle to_user published in
        elim taken [
          | Taken.damaged ↦ (Sealed.damaged, m, published')
          | Taken.absent ↦
              let (out, m') = send_static drawn.nonce pk signed m in (out, m', published')
          | Taken.bundle b ↦ elim (get to_user m.peers.peer_verify) [
            | none ↦ let (out, m') = send_static drawn.nonce pk signed m in (out, m', published')
            | some ed ↦
                let (out, m') = send_opening drawn to_user pk ed signed b m in (out, m', published')
          ]
        ]
  ]

  -- `reply` is the relay's to a key request, where one is made.
  unfoldable pub send_dm :
      Drawn
      → Text
      → Text
      → Text
      → Messenger
      → Dict Text Published
      → Sealed × Messenger × Dict Text Published
  unfolding send_first send_continued
  send_dm drawn reply to_user message m published =
      let (found, peers) = get_peer_key reply to_user m.peers in
      let known = record m { peers = peers } in
      let signed = build_signed (sign p m.identity) (sending_context m.username to_user) message in
      elim found [
        | Found.missing ↦ (Sealed.unknown_user, known, published)
        | Found.damaged ↦ (Sealed.damaged, known, published)
        | Found.peer_key pk ↦ elim pk [
          | [] ↦ (Sealed.unknown_user, known, published)
          | k ∷ ey ↦ elim (get to_user m.ratchets) [
            | none ↦ send_first drawn to_user (k ∷ ey) signed known published
            | some session ↦
                let (out, m') = send_continued drawn.nonce to_user signed session known in
                (out, m', published)
          ]
        ]
      ]

-- (text, auth) of a message, or the error text of the code.
pub data Opened : Type 0 where
  opened : Text → Status → Bool → Opened
  failed : Opened

-- self.prekeys['one_time'].pop(otpk_pub, None) if otpk_pub else None
unfoldable pub pop_one_time : Option Bytes → Dict Bytes Bytes → Option Bytes × Dict Bytes Bytes
pop_one_time none one_time = (none, one_time)
pop_one_time (some []) one_time = (none, one_time)
pop_one_time (some (k ∷ ey)) one_time = (get (k ∷ ey) one_time, pop (k ∷ ey) one_time)

-- The value of an outcome; an exception becomes an error text.
abbrev pub value? : Outcome Bytes → Option Bytes
value? (value x) = some x
value? (raise e) = none

module _ (p : Primitives) where
  unfoldable pub read_static : Text → Text → Bytes → Messenger → Option Bytes × Messenger
  read_static reply sender body m =
      let (found, peers) = get_peer_key reply sender m.peers in
      let known = record m { peers = peers } in
      elim found [
        | Found.missing ↦ (none, known)
        | Found.damaged ↦ (none, known)
        | Found.peer_key pk ↦ elim pk [
          | [] ↦ (none, known)
          | k ∷ ey ↦ elim (derive_shared_key p m.identity (k ∷ ey)) [
            | none ↦ (none, known)
            | some shared ↦ (Cipher.decrypt p body shared none, known)
          ]
        ]
      ]

  -- A damaged pin ends it. The session in memory is the one that decrypt leaves, also where it raises.
  unfoldable pub read_continued : Bytes → Text → Text → Bytes → Messenger → Option Bytes × Messenger
  read_continued fresh reply sender body m =
      let known = record m { peers = (peer_verify_key reply sender m.peers).1 } in
      if peer_verify_raises reply sender m.peers
      then (none, known)
      else elim (get sender m.ratchets) [
        | none ↦ (none, known)
        | some session ↦
            let (out, session') = Session.decrypt p fresh body session in
            (value? out, keep_session sender session' known)
      ]

  -- The new session of a first message; it is kept only if the message opens.
  unfoldable pub accept_session :
      Bytes
      → Bytes
      → Bytes
      → Option Bytes
      → Bytes
      → Text
      → Bytes
      → Messenger
      → Option Bytes × Messenger
  accept_session fresh pk signed_priv one_time ephemeral_pub sender ct m =
      elim (x3dh_respond p m.identity signed_priv one_time pk ephemeral_pub) [
        | raise e ↦ (none, m)
        | value secret ↦
            let (out, session) = Session.decrypt p fresh ct (init_responder p secret signed_priv) in
            elim out [
              | raise e ↦ (none, m)
              | value plain ↦ (some plain, keep_session sender session m)
            ]
      ]

  unfoldable pub read_init_from :
      Bytes → Bytes → Store → Text → Bytes → Messenger → Option Bytes × Messenger
  unfolding accept_session pop_one_time
  read_init_from fresh pk store sender body m = elim (unpack_ratchet_init body) [
    | none ↦ (none, m)
    | some parts ↦
        let (one_time, rest) = pop_one_time (parts.1) store.one_time in
        accept_session fresh pk store.signed_priv one_time (parts.0) sender (parts.2)
          (record m { prekeys = some (record store { one_time = rest }) })
  ]

  unfoldable pub read_init : Bytes → Text → Text → Bytes → Messenger → Option Bytes × Messenger
  unfolding read_init_from
  read_init fresh reply sender body m = elim m.prekeys [
    | none ↦ (none, m)
    | some store ↦
        let (found, peers) = get_peer_key reply sender m.peers in
        let known = record m { peers = peers } in
        elim found [
          | Found.missing ↦ (none, known)
          | Found.damaged ↦ (none, known)
          | Found.peer_key pk ↦ elim pk [
            | [] ↦ (none, known)
            | k ∷ ey ↦ read_init_from fresh (k ∷ ey) store sender body known
          ]
        ]
  ]

  unfoldable pub read_scheme :
      Bytes → Text → Text → ℕ → Bytes → Messenger → Option Bytes × Messenger
  unfolding read_static read_continued read_init
  read_scheme fresh reply sender scheme body m =
      if scheme == scheme_legacy_static
      then read_static reply sender body m
      else if scheme == scheme_ratchet_cont
      then read_continued fresh reply sender body m
      else if scheme == scheme_ratchet_init
      then read_init fresh reply sender body m
      else (none, m)

  -- The check of the signature, and the text; `utf8` is bytes.decode, `none` where it raises.
  unfoldable pub finish :
      (Bytes → Option Text) → Text → Option Bytes × Messenger → Opened × Messenger
  finish utf8 sender (none, m) = (Opened.failed, m)
  finish utf8 sender (some plain, m) =
      let (message, status) =
        open_signed p.crypto plain (get sender m.peers.peer_verify)
          (sending_context sender m.username) in
      elim (utf8 message) [
        | none ↦ (Opened.failed, m)
        | some t ↦ (Opened.opened t status (contains sender m.peers.key_alerts), m)
      ]

  unfoldable pub decrypt_from :
      (Bytes → Option Text) → Bytes → Text → Text → Text → Messenger → Opened × Messenger
  unfolding read_scheme finish
  decrypt_from utf8 fresh reply sender data_b32 m = elim (b32decode data_b32) [
    | none ↦ (Opened.failed, m)
    | some raw ↦ elim raw [
      | [] ↦ (Opened.failed, m)
      | scheme ∷ body ↦ finish utf8 sender (read_scheme fresh reply sender scheme body m)
    ]
  ]
