-- ===== src/Relay/Invites.antt =====
-- Invitations to a group (server.py, _h_ginvite, _apply_ginvite, _h_ginvite_chunked).
pub mod Signed
pub mod Joining
use dns_messenger.Prelude.{
  ℕ, Bool, true, false, ◌&&◌, ◌||◌, Option, none, some, List, [], ◌∷◌, if◌then◌else◌, ltb, leb,
  ◌==◌, list_nat_eq, nat_eq, length, take, drop, contains,
}
use dns_messenger.Prelude.Int.{ℤ, pos, negsuc}
use dns_messenger.Prelude.Sets.{add}
use dns_messenger.Prelude.Text.{Text, Bytes, text, join, join_with, int}
use dns_messenger.Dict.{Dict, get, put, pop, oldest}
use dns_messenger.Protocol.{b32decode}
use dns_messenger.Crypto.{Crypto, ginvite_signing_input}
use dns_messenger.Relay.State.{
  Relay, Group, Account, PendingInvite, bundle_b32_len, max_msg_chunks, max_incomplete,
}
use dns_messenger.Relay.Reply
use dns_messenger.Relay.Reply.{Reply, err, raised, key_error}
use dns_messenger.Relay.Auth.{verified_by}
use dns_messenger.Relay.Assembly.{gather}

-- The members and the sealed key after an invitation.
unfoldable pub add_member : Text → Text → Text → Group → Group
add_member inviter user enc_key g = record g {
  members = add user g.members;
  keys = put user (record { sealed = enc_key; from_user = inviter }) g.keys;
}

unfoldable pub store_invite : Text → Text → Text → Text → Relay → Reply × Relay
store_invite gid inviter user enc_key s = elim (get gid s.groups) [
  | none ↦ (err Reply.no_group, s)
  | some g ↦
      if contains inviter g.members
      then (
        Reply.invited user,
        record s { groups = put gid (add_member inviter user enc_key g) s.groups },
      )
      else (err Reply.not_member, s)
]

abbrev pub is_pinned : Option Account → Bool
is_pinned none = false
is_pinned (some entry) = entry.pinned

abbrev pub bundle_of : Option Account → Bytes
bundle_of none = []
bundle_of (some entry) = entry.bundle

-- A pinned inviter's payload begins with a signature over the group and both names.
unfoldable pub apply_ginvite : Crypto → Text → Text → Text → Text → Relay → Reply × Relay
apply_ginvite c gid inviter user rest s =
    let entry = get inviter s.users in
    if is_pinned entry
    then elim (b32decode (take bundle_b32_len rest)) [
      | none ↦ (err Reply.auth, s)
      | some sig ↦
          if length sig == 64
            && verified_by c (bundle_of entry) (ginvite_signing_input gid inviter user) sig
          then store_invite gid inviter user (drop bundle_b32_len rest) s
          else (err Reply.auth, s)
    ]
    else store_invite gid inviter user rest s

unfoldable pub h_ginvite : Crypto → List Text → Relay → Reply × Relay
h_ginvite c (gid ∷ inviter ∷ user ∷ label ∷ labels) s =
    apply_ginvite c gid inviter user (join (label ∷ labels)) s
h_ginvite c _ s = (err Reply.bad_ginvite, s)

-- f'{inviter}:{gid}:{user}:{mid}'
abbrev pub invite_key : Text → Text → Text → Text → Text
invite_key inviter gid user mid = join_with (text ":") (inviter ∷ gid ∷ user ∷ mid ∷ [])

-- The oldest unfinished invitation makes room. The dictionary is not empty there.
unfoldable pub invite_room : Dict Text PendingInvite → Dict Text PendingInvite
invite_room pending =
    if leb max_incomplete (length pending)
    then elim (oldest (λ p. p.ts) pending) [ none ↦ pending | some o ↦ pop o pending ]
    else pending

unfoldable pub save_invite :
    Crypto → ℕ → Text → Text → Text → Text → ℕ → ℕ → Dict ℕ Text → Relay → Reply × Relay
save_invite c now gid inviter user k seq total chunks s =
    if ltb (length chunks) total
    then (
      Reply.chunk seq total,
      record s {
        ginvite_pending =
            put k (record { chunks = chunks; total = total; ts = now }) s.ginvite_pending;
      },
    )
    else elim (gather total chunks) [
      | none ↦ (
        raised key_error,
        record s {
          ginvite_pending =
              put k (record { chunks = chunks; total = total; ts = now }) s.ginvite_pending;
        },
      )
      | some full ↦
          apply_ginvite c gid inviter user full
            (record s { ginvite_pending = pop k s.ginvite_pending })
    ]

unfoldable pub invite_chunk :
    Crypto → ℕ → Text → Text → Text → Text → ℕ → ℕ → Text → Relay → Reply × Relay
invite_chunk c now gid inviter user mid seq total content s =
    let k = invite_key inviter gid user mid in
    elim (get k s.ginvite_pending) [
      | none ↦
          save_invite c now gid inviter user k seq total (put seq content [])
            (record s { ginvite_pending = invite_room s.ginvite_pending })
      | some p ↦
          if p.total == total
          then save_invite c now gid inviter user k seq total (put seq content p.chunks) s
          else (err Reply.mid_conflict, s)
    ]

unfoldable pub ginvite_in_range :
    Crypto → ℕ → Text → Text → Text → Text → ℤ → ℤ → Text → Relay → Reply × Relay
ginvite_in_range c now gid inviter user mid (pos seq) (pos total) content s =
    if ltb total 1 || ltb max_msg_chunks total || leb total seq
    then (err Reply.bad_ginvite, s)
    else invite_chunk c now gid inviter user mid seq total content s
ginvite_in_range c now gid inviter user mid _ _ content s = (err Reply.bad_ginvite, s)

unfoldable pub h_ginvite_chunked : Crypto → ℕ → List Text → Relay → Reply × Relay
h_ginvite_chunked c now (gid ∷ inviter ∷ user ∷ mid ∷ seq ∷ total ∷ label ∷ labels) s =
    elim (int seq) [
      | none ↦ (err Reply.bad_ginvite, s)
      | some seq' ↦ elim (int total) [
        | none ↦ (err Reply.bad_ginvite, s)
        | some total' ↦
            ginvite_in_range c now gid inviter user mid seq' total' (join (label ∷ labels)) s
      ]
    ]
h_ginvite_chunked c now _ s = (err Reply.bad_ginvite, s)
