-- ===== src/Web/GroupMail/Marks.antt =====
-- What a group message is marked as (web_client.py, send_group and poll_group).
use mathlib.Core.List.{append_assoc}
use dns_messenger.Prelude.{
  ◌≡◌, refl, sym, subst, ap, Option-cases, Bool-cases, inl, inr, ◌∙◌, Bool, true, false, Option,
  none, some, [], ◌∷◌, ◌++◌, arith, length, list_eq, list_nat_eq, contains,
}
use dns_messenger.Prelude.Text.{Text, Bytes}
use dns_messenger.Dict.{Dict, get}
use dns_messenger.Protocol.{b32encode, b32decode}
use dns_messenger.Protocol.Base32.{IsBytes, b32decode-b32encode}
use dns_messenger.Crypto.{Status, verified, verify_sig, build_signed, open_signed}
use dns_messenger.Crypto.Signed.{open_signed-build_signed, open_signed-verified}
use dns_messenger.Crypto.Cipher
use dns_messenger.Crypto.Cipher.{Primitives, Identity, sign, verify_bytes}
use dns_messenger.Crypto.Sealing.{Unseals, decrypt-encrypt}
use dns_messenger.Web.Peers.{Peers, peer_verify_key, peer_verify_raises}
use dns_messenger.Web.Messages.First.{Signs}
use dns_messenger.Web.GroupMail.{
  group_context, shown, genuine, mark_of, send_group, read_signed, open_group, read_group_message,
}

-- What stands behind a genuine message: under the group's key it opens to a signature and the text,
-- and a key held for the sender verifies this signature over the sender's name, a zero byte, the
-- group's name and the text, which follows the group's name without a mark between them.
pub record Signed (p : Primitives) (utf8 : Bytes → Option Text) (reply gid sender data_b32 t : Text)
    (group_keys : Dict Text Bytes) (peers : Peers) : Type 0 where
  pub group_key : Bytes
  pub member : get gid group_keys ≡ some group_key
  pub raw : Bytes
  pub decoded : b32decode data_b32 ≡ some raw
  pub message : Bytes
  pub sig : Bytes
  pub opens : Cipher.decrypt p raw group_key none ≡ some (1 ∷ (sig ++ message))
  pub sized : length sig ≡ 64
  pub reads : utf8 message ≡ some t
  pub key : Bytes
  pub held : (peer_verify_key reply sender peers).0 ≡ some key
  pub accepts : verify_sig p.crypto key (group_context sender gid ++ message) sig ≡ true
  pub calm : contains sender ((peer_verify_key reply sender peers).1).key_alerts ≡ false

-- The same of a decrypted payload.
record SignedPayload (p : Primitives) (utf8 : Bytes → Option Text) (reply gid sender t : Text)
    (plain : Bytes) (peers : Peers) : Type 0 where
  message : Bytes
  sig : Bytes
  cut : plain ≡ 1 ∷ (sig ++ message)
  sized : length sig ≡ 64
  reads : utf8 message ≡ some t
  key : Bytes
  held : (peer_verify_key reply sender peers).0 ≡ some key
  accepts : verify_sig p.crypto key (group_context sender gid ++ message) sig ≡ true
  calm : contains sender ((peer_verify_key reply sender peers).1).key_alerts ≡ false

mark_of-genuine :
    (alert : Bool) (status : Status)
    → mark_of alert status ≡ genuine
    → (alert ≡ false) × (status ≡ verified)
mark_of-genuine true status h = absurd (ground (arith, h))
mark_of-genuine false verified h = (refl, refl)
mark_of-genuine false Status.forged h = absurd (ground (arith, h))
mark_of-genuine false Status.unverified h = absurd (ground (arith, h))
mark_of-genuine false Status.unsigned h = absurd (ground (arith, h))

module _ (p : Primitives) (utf8 : Bytes → Option Text) (reply gid sender t : Text) where
  read_signed-genuine :
      (plain : Bytes) (peers : Peers)
      → (read_signed p utf8 reply gid sender plain peers).0 ≡ shown t genuine
      → SignedPayload p utf8 reply gid sender t plain peers
  unfolding read_signed
  read_signed-genuine plain peers h =
      let key = (peer_verify_key reply sender peers).0 in
      let r = open_signed p.crypto plain key (group_context sender gid) in
      let reads : utf8 r.0 ≡ some t = ground (arith, h) in
      let marked : mark_of (contains sender ((peer_verify_key reply sender peers).1).key_alerts) r.1
          ≡ genuine =
        ground (arith, h) in
      let facts =
        mark_of-genuine (contains sender ((peer_verify_key reply sender peers).1).key_alerts) r.1
          marked in
      let behind =
        open_signed-verified p.crypto plain (group_context sender gid) r.0 key
          (ap (λ s. (r.0, s)) facts.1) in
      record {
        message = r.0;
        key = behind.0;
        sig = behind.1;
        reads = reads;
        held = behind.2;
        cut = behind.3;
        sized = behind.4;
        accepts = behind.5;
        calm = facts.0;
      }

  open_group-genuine :
      (data_b32 : Text) (gk : Bytes) (group_keys : Dict Text Bytes) (peers : Peers)
      → get gid group_keys ≡ some gk
      → (open_group p utf8 reply gid sender data_b32 gk peers).0 ≡ shown t genuine
      → Signed p utf8 reply gid sender data_b32 t group_keys peers
  unfolding open_group
  open_group-genuine data_b32 gk group_keys peers member h =
      elim (Option-cases (b32decode data_b32)) [
        | inl bad ↦ absurd (ground (arith, bad, h))
        | inr (raw, decoded) ↦ elim (Option-cases (Cipher.decrypt p raw gk none)) [
          | inl bad ↦ absurd (ground (arith, decoded, bad, h))
          | inr (plain, opens) ↦
              let r = read_signed-genuine plain peers (ground (arith, decoded, opens, h)) in
              record {
                group_key = gk;
                member = member;
                raw = raw;
                decoded = decoded;
                message = r.message;
                sig = r.sig;
                opens = opens ∙ ap (λ (x : Bytes). some x) r.cut;
                sized = r.sized;
                reads = r.reads;
                key = r.key;
                held = r.held;
                accepts = r.accepts;
                calm = r.calm;
              }
        ]
      ]

-- A payload signed with the key that the receiver holds is shown with its text, as genuine.
read_signed-build_signed :
    (p : Primitives)
    → Signs p
    → (utf8 : Bytes → Option Text) (i : Identity) (message : Bytes) (reply gid sender t : Text)
      (peers : Peers)
    → get sender peers.peer_verify ≡ some (verify_bytes p i)
    → contains sender peers.key_alerts ≡ false
    → utf8 message ≡ some t
    → read_signed p utf8 reply gid sender
        (build_signed (sign p i) (group_context sender gid) message)
        peers
      ≡ (shown t genuine, peers)
unfolding read_signed peer_verify_key peer_verify_raises verify_bytes sign verify_sig
read_signed-build_signed p signs utf8 i message reply gid sender t peers known calm reads =
    let ctx = group_context sender gid in
    let check =
      (open_signed-build_signed p.crypto (sign p i) (verify_bytes p i) ctx message
        (signs.sig_sized i.signing_key (ctx ++ message))).0 in
    ground (arith, known, calm, reads, check, signs.accepts i.signing_key (ctx ++ message))

-- What is sealed with the group key opens under it.
open_group-encrypt :
    (p : Primitives)
    → Unseals p
    → (utf8 : Bytes → Option Text) (nonce plain gk : Bytes) (reply gid sender : Text)
      (peers : Peers)
    → length nonce ≡ 12
    → IsBytes (Cipher.encrypt p nonce plain gk none)
    → open_group p utf8 reply gid sender (b32encode (Cipher.encrypt p nonce plain gk none)) gk peers
      ≡ read_signed p utf8 reply gid sender plain peers
unfolding open_group
open_group-encrypt p unseals utf8 nonce plain gk reply gid sender peers sized bytes = ground (
  arith,
  b32decode-b32encode (Cipher.encrypt p nonce plain gk none) bytes,
  decrypt-encrypt p unseals nonce plain gk none sized,
)

-- The signed bytes do not mark where the group's name ends: what is signed for a text `x ++ m` in the
-- group `gid` is what is signed for `m` in the group `gid ++ x`.
pub group_context-append :
    (sender gid : Text) (x m : Bytes)
    → group_context sender (gid ++ x) ++ m ≡ group_context sender gid ++ (x ++ m)
group_context-append sender gid x m = simp append_assoc

-- A group message is shown as genuine only where it is not the receiver's own, opens under the group's
-- key to a signature of 64 bytes and the text, and the receiver holds a key for the claimed sender,
-- free of an alert, which verifies that signature over the sender's name, a zero byte, the group's name
-- and the bytes of the text, one behind the other: the group's key alone is not enough.
pub read_group_message-genuine :
    (p : Primitives) (utf8 : Bytes → Option Text) (reply username gid sender data_b32 t : Text)
    (group_keys : Dict Text Bytes) (peers : Peers)
    → (read_group_message p utf8 reply username gid sender data_b32 group_keys peers).0
      ≡ some (shown t genuine)
    → (list_eq sender username ≡ false) × Signed p utf8 reply gid sender data_b32 t group_keys peers
unfolding read_group_message
read_group_message-genuine p utf8 reply username gid sender data_b32 t group_keys peers h =
    let other : list_eq sender username ≡ false = elim (Bool-cases (list_eq sender username)) [
      | inl own ↦ absurd (ground (arith, own, h))
      | inr other ↦ other
    ] in
    elim (Option-cases (get gid group_keys)) [
      | inl bad ↦ absurd (ground (arith, other, bad, h))
      | inr ([], held) ↦ absurd (ground (arith, other, held, h))
      | inr (k ∷ ey, held) ↦ (
        other,
        open_group-genuine p utf8 reply gid sender t data_b32 (k ∷ ey) group_keys peers held
            (ground (arith, other, held, h)),
      )
    ]

-- What a member sends to a group, another member with the same group key reads as genuine: the receiver
-- holds the sender's key, without an alert. ChaCha20-Poly1305 is taken to open what it sealed, Ed25519
-- to accept its own signatures of 64 bytes, and what is sent to be bytes.
pub read_group_message-send_group :
    (p : Primitives)
    → Unseals p
    → Signs p
    → (utf8 : Bytes → Option Text) (i : Identity) (nonce message ct : Bytes)
      (reply username gid sender t : Text) (ours theirs : Dict Text Bytes) (peers : Peers)
    → length nonce ≡ 12
    → send_group p nonce i sender gid message theirs ≡ some ct
    → get gid ours ≡ get gid theirs
    → list_eq sender username ≡ false
    → get sender peers.peer_verify ≡ some (verify_bytes p i)
    → contains sender peers.key_alerts ≡ false
    → utf8 message ≡ some t
    → IsBytes ct
    → read_group_message p utf8 reply username gid sender (b32encode ct) ours peers
      ≡ (some (shown t genuine), peers)
unfolding read_group_message send_group
read_group_message-send_group p unseals signs utf8 i nonce message ct reply username gid sender t
      ours theirs peers sized sent same other known calm reads bytes =
    elim (Option-cases (get gid theirs)) [
      | inl bad ↦ absurd (ground (arith, bad, sent))
      | inr ([], held) ↦ absurd (ground (arith, held, sent))
      | inr (k ∷ ey, held) ↦
          let plain = build_signed (sign p i) (group_context sender gid) message in
          let sealed : Cipher.encrypt p nonce plain (k ∷ ey) none ≡ ct =
            ground (arith, held, sent) in
          let opens : open_group p utf8 reply gid sender (b32encode ct) (k ∷ ey) peers
              ≡ (shown t genuine, peers) =
            ap (λ (x : Bytes). open_group p utf8 reply gid sender (b32encode x) (k ∷ ey) peers)
              (sym sealed)
            ∙ open_group-encrypt p unseals utf8 nonce plain (k ∷ ey) reply gid sender peers sized
                (subst IsBytes (sym sealed) bytes)
            ∙ read_signed-build_signed p signs utf8 i message reply gid sender t peers known calm
                reads in
          ground (arith, other, same ∙ held, opens)
    ]
