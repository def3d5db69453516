-- ===== src/Web/Messages/First.antt =====
-- A first direct message, from one client to the other (web_client.py, send_dm and _decrypt_from).
use dns_messenger.Prelude.{
  ℕ, ◌≡◌, refl, subst, ap, ◌∙◌, true, false, Option, none, some, ◌∷◌, ◌++◌, arith, length,
  list_nat_eq, contains, drop,
}
use dns_messenger.Prelude.Text.{Text, Bytes}
use dns_messenger.Dict.{Dict, get}
use dns_messenger.Protocol.{b32encode}
use dns_messenger.Protocol.Base32.{IsBytes, b32decode-b32encode}
use dns_messenger.Crypto.{verified, verify_sig, build_signed}
use dns_messenger.Crypto.Signed.{open_signed-build_signed}
use dns_messenger.Crypto.Cipher.{Primitives, Identity, sign, public_bytes, verify_bytes}
use dns_messenger.Crypto.Sealing.{Commutes, Unseals}
use dns_messenger.Ratchet.Agreement.{public_half}
use dns_messenger.Web.Frames.{pack_ratchet_init}
use dns_messenger.Web.Prekeys.{Store, Published, Taken, take_prekey_bundle}
use dns_messenger.Web.Messages.{
  Messenger, Drawn, Sealed, sending_context, keep_session, send_dm, opened, read_scheme, finish,
  decrypt_from,
}
use dns_messenger.Web.Messages.Meeting.{Sized, bundle_for, Meeting, Carried-first}
use dns_messenger.Web.Messages.Paths.{
  nonempty, send_dm-known, send_first-opening, answer_session, used_store, read_frame,
}

-- Ed25519 gives signatures of 64 bytes, and accepts them.
pub record Signs (p : Primitives) : Type 0 where
  pub accepts : (key m : Bytes) → p.ed25519_verify (p.ed_public key) m (p.ed_sign key m) ≡ true
  pub sig_sized : (key m : Bytes) → length (p.ed_sign key m) ≡ 64

-- The signed payload opens as verified.
finish-signed :
    (p : Primitives)
    → Signs p
    → (utf8 : Bytes → Option Text) (a : Identity) (sender receiver message t : Text) (m : Messenger)
    → m.username ≡ receiver
    → get sender m.peers.peer_verify ≡ some (verify_bytes p a)
    → contains sender m.peers.key_alerts ≡ false
    → utf8 message ≡ some t
    → (finish p utf8 sender
        (some (build_signed (sign p a) (sending_context sender receiver) message), m)).0
      ≡ opened t verified false
unfolding finish verify_bytes sign verify_sig
finish-signed p signs utf8 a sender receiver message t m named known calm reads =
    let ctx = sending_context sender receiver in
    let check =
      (open_signed-build_signed p.crypto (sign p a) (verify_bytes p a) ctx message
        (signs.sig_sized a.signing_key (ctx ++ message))).0 in
    ground (arith, named, known, calm, reads, check, signs.accepts a.signing_key (ctx ++ message))

decrypt_from-frame :
    (p : Primitives) (utf8 : Bytes → Option Text) (fresh : Bytes) (reply sender : Text)
    (body : Bytes) (scheme : ℕ) (m : Messenger)
    → IsBytes (scheme ∷ body)
    → decrypt_from p utf8 fresh reply sender (b32encode (scheme ∷ body)) m
      ≡ finish p utf8 sender (read_scheme p fresh reply sender scheme body m)
unfolding decrypt_from
decrypt_from-frame p utf8 fresh reply sender body scheme m bytes =
    ground (arith, b32decode-b32encode (scheme ∷ body) bytes)

frame-cons :
    (e : Bytes) (o : Option Bytes) (ct : Bytes)
    → pack_ratchet_init e o ct ≡ 1 ∷ drop 1 (pack_ratchet_init e o ct)
unfolding pack_ratchet_init
frame-cons e none ct = refl
frame-cons e (some o) ct = refl

-- A first direct message, end to end: with the receiver's published bundle, with a one-time key or
-- without, send_dm seals a frame, and from its base32 form the receiver's _decrypt_from gives the text
-- as verified, without a key alert. Both sides have each other's keys pinned, the sender has prekeys
-- and no session yet, the signed prekey's signature verifies and the exchanges succeed. X25519 is taken
-- to commute, ChaCha20-Poly1305 to open what it sealed, Ed25519 to accept its own signatures, keys and
-- signatures to have their sizes, and what is sent to be bytes.
pub decrypt_from-send_dm :
    (p : Primitives)
    → Commutes p
    → Unseals p
    → Sized p
    → Signs p
    → (a b : Messenger) (store own : Store) (drawn : Drawn) (fresh sig : Bytes)
      (one_time : Option Bytes)
    → Meeting p a b store drawn fresh sig one_time
    → (utf8 : Bytes → Option Text) (message t reply reply' : Text)
      (published published' : Dict Text Published)
    → utf8 message ≡ some t
    → a.prekeys ≡ some own
    → get b.username a.ratchets ≡ none
    → take_prekey_bundle b.username published
      ≡ (Taken.bundle (bundle_for p store sig one_time), published')
    → ((f : Bytes)
        → (send_dm p drawn reply b.username message a published).0 ≡ Sealed.sealed f
        → IsBytes f)
    → (f : Bytes) × ((send_dm p drawn reply b.username message a published).0 ≡ Sealed.sealed f)
      × ((decrypt_from p utf8 fresh reply' a.username (b32encode f) b).0 ≡ opened t verified false)
decrypt_from-send_dm p commutes unseals sized signs a b store own drawn fresh sig one_time meet utf8
      message t reply reply' published published' reads has new taken bytes =
    let ctx = sending_context a.username b.username in
    let plain = build_signed (sign p a.identity) ctx message in
    let d = Carried-first p commutes unseals sized a b store drawn fresh sig one_time meet plain in
    let f = pack_ratchet_init (p.x_public drawn.ephemeral) (public_half p one_time) d.ct in
    let seals : (send_dm p drawn reply b.username message a published).0 ≡ Sealed.sealed f =
      ap (λ r. r.0)
        (send_dm-known p drawn reply b.username message (public_bytes p b.identity) a published
          (nonempty p sized b.identity) meet.ours.exchange_key new)
      ∙ send_first-opening p drawn b.username (public_bytes p b.identity) plain
          (verify_bytes p b.identity) a published published' own (bundle_for p store sig one_time)
          (f, d.kept) has taken meet.ours.verify_key d.sent in
    let same = frame-cons (p.x_public drawn.ephemeral) (public_half p one_time) d.ct in
    let m =
      keep_session a.username
        (answer_session p a b store drawn fresh sig plain meet.secret one_time sized d meet.theirs
          meet.prekeys meet.held meet.agreed)
        (record b {
          prekeys = some (
              used_store p a b store drawn fresh sig plain meet.secret one_time sized d meet.theirs
                meet.prekeys meet.held meet.agreed);
        }) in
    (
      f,
      seals,
      ap (λ r. r.0)
            (ap (λ (x : Bytes). decrypt_from p utf8 fresh reply' a.username (b32encode x) b) same
              ∙ decrypt_from-frame p utf8 fresh reply' a.username (drop 1 f) 1 b
                  (subst IsBytes same (bytes f seals))
              ∙ ap (finish p utf8 a.username) (
                  read_frame p a b store drawn fresh sig plain meet.secret one_time sized d
                    meet.theirs meet.prekeys meet.held meet.agreed reply'))
          ∙ finish-signed p signs utf8 a.identity a.username b.username message t m refl
              meet.theirs.verify_key meet.theirs.calm reads,
    )
