-- ===== src/Web/GroupMail.antt =====
-- Group messages of the web client (web_client.py, UserMessenger.send_group and poll_group): what is
-- sealed, and what a message from the relay is shown as. The group keys are an argument.
pub mod Marks
use dns_messenger.Prelude.{
  ◌==◌, Bool, true, false, Option, none, some, List, [], ◌∷◌, ◌++◌, if◌then◌else◌, list_eq,
  list_nat_eq, contains,
}
use dns_messenger.Prelude.Text.{Text, Bytes}
use dns_messenger.Dict.{Dict, get}
use dns_messenger.Protocol.{b32decode}
use dns_messenger.Crypto.{Status, verified, build_signed, open_signed}
use dns_messenger.Crypto.Cipher
use dns_messenger.Crypto.Cipher.{Primitives, Identity, sign}
use dns_messenger.Web.Peers.{Peers, peer_verify_key, peer_verify_raises}

-- sender, group id
abbrev pub group_context : Text → Text → Bytes
group_context sender gid = sender ++ 0 ∷ gid

pub data Mark : Type 0 where
  genuine forged key_changed : Mark

-- The entry of the result: a text with its mark, or one of the two error texts.
pub data Shown : Type 0 where
  shown : Text → Mark → Shown
  undecryptable no_key : Shown

-- Every status but "verified" becomes "forged".
abbrev pub mark_of : Bool → Status → Mark
mark_of true status = key_changed
mark_of false verified = genuine
mark_of false status = Mark.forged

module _ (p : Primitives) where
  -- What send_group passes to _send_chunked; `none` is the return of False.
  unfoldable pub send_group : Bytes → Identity → Text → Text → Text → Dict Text Bytes → Option Bytes
  send_group nonce i username gid message group_keys = elim (get gid group_keys) [
    | none ↦ none
    | some gk ↦ elim gk [
      | [] ↦ none
      | k ∷ ey ↦ some (
          Cipher.encrypt p nonce (build_signed (sign p i) (group_context username gid) message)
            (k ∷ ey) none)
    ]
  ]

  -- The body of `try`, after decrypt.
  unfoldable pub read_signed :
      (Bytes → Option Text) → Text → Text → Text → Bytes → Peers → Shown × Peers
  read_signed utf8 reply gid sender plain peers =
      let (key, peers') = peer_verify_key reply sender peers in
      let (message, status) = open_signed p.crypto plain key (group_context sender gid) in
      if peer_verify_raises reply sender peers
      then (Shown.undecryptable, peers')
      else elim (utf8 message) [
        | none ↦ (Shown.undecryptable, peers')
        | some t ↦ (Shown.shown t (mark_of (contains sender peers'.key_alerts) status), peers')
      ]

  unfoldable pub open_group :
      (Bytes → Option Text) → Text → Text → Text → Text → Bytes → Peers → Shown × Peers
  unfolding read_signed
  open_group utf8 reply gid sender data_b32 gk peers = elim (b32decode data_b32) [
    | none ↦ (Shown.undecryptable, peers)
    | some raw ↦ elim (Cipher.decrypt p raw gk none) [
      | none ↦ (Shown.undecryptable, peers)
      | some plain ↦ read_signed utf8 reply gid sender plain peers
    ]
  ]

  -- One turn of the loop of poll_group, for GMSG:sender:data; one's own messages are skipped.
  unfoldable pub read_group_message :
      (Bytes → Option Text)
      → Text
      → Text
      → Text
      → Text
      → Text
      → Dict Text Bytes
      → Peers
      → Option Shown × Peers
  unfolding open_group
  read_group_message utf8 reply username gid sender data_b32 group_keys peers =
      if list_eq sender username then (none, peers) else elim (get gid group_keys) [
        | none ↦ (some Shown.no_key, peers)
        | some gk ↦ elim gk [
          | [] ↦ (some Shown.no_key, peers)
          | k ∷ ey ↦
              let (out, peers') = open_group utf8 reply gid sender data_b32 (k ∷ ey) peers in
              (some out, peers')
        ]
      ]
