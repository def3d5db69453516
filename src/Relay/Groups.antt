-- ===== src/Relay/Groups.antt =====
-- Groups and their members (server.py, _h_gcreate, _h_glist, _h_gleave, _h_gkick, _h_gmembers).
pub mod Membership
use dns_messenger.Prelude.{
  ℕ, Bool, true, false, not, Option, none, some, List, [], ◌∷◌, ◌++◌, if◌then◌else◌, leb, list_eq,
  list_nat_eq, length, contains, sorted,
}
use dns_messenger.Prelude.Sets.{discard, text_leb}
use dns_messenger.Prelude.Text.{Text, text, join_with}
use dns_messenger.Dict.{Dict, get, has, put, pop, oldest}
use dns_messenger.Crypto.{
  Crypto, glist_signing_input, gleave_signing_input, gkick_signing_input, gmembers_signing_input,
}
use dns_messenger.Relay.State.{Relay, Group, GroupKey, max_groups}
use dns_messenger.Relay.Reply
use dns_messenger.Relay.Reply.{Reply, err, ok}
use dns_messenger.Relay.Auth.{with_auth}

-- The oldest group, with its mail, makes room. The dictionary is not empty there.
unfoldable pub evict_group : Relay → Relay
evict_group s =
    if leb max_groups (length s.groups)
    then elim (oldest (λ g. g.ts) s.groups) [
      | none ↦ s
      | some o ↦ record s { groups = pop o s.groups; gm = record (s.gm) { mail = pop o s.gm.mail } }
    ]
    else s

unfoldable pub h_gcreate : ℕ → List Text → Relay → Reply × Relay
h_gcreate now (gid ∷ creator ∷ _) s =
    if has gid s.groups
    then (err Reply.exists, s)
    else let s' = evict_group s in
      let g : Group = record { creator = creator; members = creator ∷ []; keys = []; ts = now } in
      (ok gid, record s' { groups = put gid g s'.groups })
h_gcreate now _ s = (err Reply.bad_gcreate, s)

abbrev pub key_or_empty : Option GroupKey → GroupKey
key_or_empty none = record { sealed = []; from_user = [] }
key_or_empty (some k) = k

-- '{gid}:{key_from}:{key_data}' for each group of the user
unfoldable pub group_entries : Text → Dict Text Group → List Text
group_entries user [] = []
group_entries user ((gid, g) ∷ groups) =
    let rest = group_entries user groups in
    let k = key_or_empty (get user g.keys) in
    if contains user g.members
    then join_with (text ":") (gid ∷ k.from_user ∷ k.sealed ∷ []) ∷ rest
    else rest

unfoldable pub list_groups : Text → Relay → Reply × Relay
list_groups user s = elim (group_entries user s.groups) [
  | [] ↦ (Reply.empty, s)
  | x ∷ xs ↦ (Reply.groups (x ∷ xs), s)
]

unfoldable pub h_glist : Crypto → ℕ → List Text → Relay → Reply × Relay
h_glist c now [] s = (err Reply.no_user, s)
h_glist c now (user ∷ rest) s =
    with_auth c now user (user ∷ rest) glist_signing_input (text "glist") (list_groups user) s

-- grp['members'].discard(user); grp['keys'].pop(user, None)
unfoldable pub drop_member : Text → Group → Group
drop_member user g = record g { members = discard user g.members; keys = pop user g.keys }

unfoldable pub leave_group : Text → Text → Relay → Reply × Relay
leave_group gid user s = elim (get gid s.groups) [
  | none ↦ (err Reply.no_group, s)
  | some g ↦
      if contains user g.members
      then (Reply.left, record s { groups = put gid (drop_member user g) s.groups })
      else (err Reply.not_member, s)
]

unfoldable pub h_gleave : Crypto → ℕ → List Text → Relay → Reply × Relay
h_gleave c now (gid ∷ user ∷ rest) s =
    with_auth c now user (user ∷ rest) (λ u n ts. gleave_signing_input gid u n ts)
      (text "gleave:" ++ gid) (leave_group gid user) s
h_gleave c now _ s = (err Reply.bad_gleave, s)

unfoldable pub kick_member : Text → Text → Text → Relay → Reply × Relay
kick_member gid kicker target s = elim (get gid s.groups) [
  | none ↦ (err Reply.no_group, s)
  | some g ↦
      if not (contains kicker g.members)
      then (err Reply.not_member, s)
      else if list_eq target kicker
      then (err Reply.use_leave, s)
      else if not (contains target g.members)
      then (err Reply.target_not_member, s)
      else (Reply.kicked, record s { groups = put gid (drop_member target g) s.groups })
]

unfoldable pub h_gkick : Crypto → ℕ → List Text → Relay → Reply × Relay
h_gkick c now (gid ∷ kicker ∷ target ∷ rest) s =
    with_auth c now kicker (target ∷ rest) (λ u n ts. gkick_signing_input gid u target n ts)
      (text "gkick:" ++ gid) (kick_member gid kicker target) s
h_gkick c now _ s = (err Reply.bad_gkick, s)

unfoldable pub list_members : Text → Text → Relay → Reply × Relay
list_members gid user s = elim (get gid s.groups) [
  | none ↦ (err Reply.no_group, s)
  | some g ↦
      if contains user g.members
      then (Reply.members (sorted text_leb g.members), s)
      else (err Reply.not_member, s)
]

unfoldable pub h_gmembers : Crypto → ℕ → List Text → Relay → Reply × Relay
h_gmembers c now (gid ∷ user ∷ rest) s =
    with_auth c now user (user ∷ rest) (λ u n ts. gmembers_signing_input gid u n ts)
      (text "gmembers:" ++ gid) (list_members gid user) s
h_gmembers c now _ s = (err Reply.bad_gmembers, s)
