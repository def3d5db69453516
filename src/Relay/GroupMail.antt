-- ===== src/Relay/GroupMail.antt =====
-- Messages of a group (server.py, _h_gsend, _h_gpoll).
pub mod Reading
use dns_messenger.Prelude.{
  ℕ, Bool, true, false, Option, none, some, List, [], ◌∷◌, ◌++◌, if◌then◌else◌, list_nat_eq,
  contains,
}
use dns_messenger.Prelude.Sets.{add, superset}
use dns_messenger.Prelude.Text.{Text, text, join, int}
use dns_messenger.Dict.{Dict, get, put}
use dns_messenger.Crypto.{Crypto, gpoll_signing_input}
use dns_messenger.Relay.State.{Relay, Message}
use dns_messenger.Relay.Reply
use dns_messenger.Relay.Reply.{Reply, err, raised, value_error}
use dns_messenger.Relay.Auth.{with_auth}
use dns_messenger.Relay.Assembly.{assemble}

-- user in groups[gid]['members'], false without the group
unfoldable pub is_member : Text → Text → Relay → Bool
is_member gid user s = elim (get gid s.groups) [ none ↦ false | some g ↦ contains user g.members ]

unfoldable pub h_gsend : ℕ → List Text → Relay → Reply × Relay
h_gsend now (gid ∷ fr_u ∷ mid ∷ seq ∷ total ∷ label ∷ labels) s = elim (int seq) [
  | none ↦ (raised value_error, s)
  | some seq' ↦ elim (int total) [
    | none ↦ (raised value_error, s)
    | some total' ↦
        if is_member gid fr_u s
        then (let (reply, gm, d) =
              assemble now mid seq' total' (join (label ∷ labels)) fr_u gid s.gm s.delivered_mids in
            (reply, record s { gm = gm; delivered_mids = d }))
        else (err Reply.not_member, s)
  ]
]
h_gsend now _ s = (err Reply.bad_gsend, s)

-- The first message that the user has not read is marked and returned.
unfoldable pub read_next : Text → List Message → Option (Message × List Message)
read_next user [] = none
read_next user (m ∷ box) =
    let rest = read_next user box in
    if contains user m.readers
    then elim rest [ none ↦ none | some (found, box') ↦ some (found, m ∷ box') ]
    else some (m, record m { readers = add user m.readers } ∷ box)

-- A box after its first message is read: it goes once all of the members have read it.
unfoldable pub read_first : Text → List Text → Message → List Message → List Message
read_first user members m box =
    let readers = add user m.readers in
    if superset readers members then box else record m { readers = readers } ∷ box

unfoldable pub read_box : Text → List Text → List Message → Reply × List Message
read_box user members [] = (Reply.empty, [])
read_box user members (m ∷ box) =
    if contains user m.readers
    then elim (read_next user (m ∷ box)) [
      | none ↦ (Reply.empty, m ∷ box)
      | some (found, box') ↦ (Reply.gmsg found.sender found.payload, box')
    ]
    else (Reply.gmsg m.sender m.payload, read_first user members m box)

unfoldable pub read_group : Text → Text → Relay → Reply × Relay
read_group gid user s = elim (get gid s.groups) [
  | none ↦ (err Reply.no_group, s)
  | some g ↦
      if contains user g.members
      then elim (get gid s.gm.mail) [
        | none ↦ (Reply.empty, s)
        | some box ↦
            let (reply, box') = read_box user g.members box in
            (reply, record s { gm = record (s.gm) { mail = put gid box' s.gm.mail } })
      ]
      else (err Reply.not_member, s)
]

unfoldable pub h_gpoll : Crypto → ℕ → List Text → Relay → Reply × Relay
h_gpoll c now (gid ∷ user ∷ rest) s =
    with_auth c now user (user ∷ rest) (λ u n ts. gpoll_signing_input gid u n ts)
      (text "gpoll:" ++ gid) (read_group gid user) s
h_gpoll c now _ s = (err Reply.bad_gpoll, s)
