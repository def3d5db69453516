-- ===== src/Relay/Groups/Membership.antt =====
-- What leaving and kicking leave of a group (server.py, _h_gleave, _h_gkick).
use dns_messenger.Prelude.{
  ◌≡◌, Bool, false, ◌&&◌, not, Option, none, some, arith, if◌then◌else◌, list_eq, list_eq_iff,
  list_nat_eq, contains, Option-cases, inl, inr,
}
use dns_messenger.Prelude.Text.{Text}
use dns_messenger.Prelude.Sets.{discard}
use dns_messenger.Dict.{Dict, get, put}
use dns_messenger.Dict.Laws.{get-put, get-pop, contains-keep}
use dns_messenger.Relay.State.{Relay, Group, GroupKey}
use dns_messenger.Relay.Groups.{drop_member, leave_group, kick_member}

-- user in groups[gid]['members']
abbrev pub in_group : Text → Text → Dict Text Group → Bool
in_group gid user groups = elim (get gid groups) [ none ↦ false | some g ↦ contains user g.members ]

-- groups[gid]['keys'].get(user)
abbrev pub key_in : Text → Text → Dict Text Group → Option GroupKey
key_in gid user groups = elim (get gid groups) [ none ↦ none | some g ↦ get user g.keys ]

contains-drop_member :
    (user u : Text) (g : Group)
    → contains u (drop_member user g).members ≡ (contains u g.members && not (list_eq u user))
unfolding drop_member discard
contains-drop_member user u g = contains-keep (λ y. not (list_eq y user)) u g.members

module _ (gid user : Text) (g : Group) (groups : Dict Text Group)
    (found : get gid groups ≡ some g) where
  in_group-put_drop :
      (h u : Text)
      → in_group h u (put gid (drop_member user g) groups)
        ≡ (in_group h u groups && not (list_eq gid h && list_eq user u))
  in_group-put_drop h u = ground (
    arith,
    found,
    get-put gid h (drop_member user g) groups,
    list_eq_iff gid h,
    list_eq_iff user u,
    list_eq_iff u user,
    contains-drop_member user u g,
  )

  key_in-put_drop :
      (h u : Text)
      → key_in h u (put gid (drop_member user g) groups)
        ≡ (if list_eq gid h && list_eq user u then none else key_in h u groups)
  unfolding drop_member
  key_in-put_drop h u = ground (
    arith,
    found,
    get-put gid h (drop_member user g) groups,
    get-pop user u g.keys,
    list_eq_iff gid h,
    list_eq_iff user u,
  )

abbrev pub may_kick : Text → Text → Text → Dict Text Group → Bool
may_kick gid kicker target groups =
    in_group gid kicker groups && not (list_eq target kicker) && in_group gid target groups

-- A kick by a member of another member removes the target from that group, and its key; a request
-- of anyone else, or for no member, changes nothing; nobody else leaves or joins any group.
pub in_group-kick_member :
    (gid kicker target : Text) (s : Relay) (h u : Text)
    → (in_group h u (kick_member gid kicker target s).1.groups ≡ (
        in_group h u s.groups
        && not (may_kick gid kicker target s.groups && list_eq gid h && list_eq target u)))
      × (key_in h u (kick_member gid kicker target s).1.groups ≡ (
          if may_kick gid kicker target s.groups && list_eq gid h && list_eq target u
          then none
          else key_in h u s.groups))
unfolding kick_member
in_group-kick_member gid kicker target s h u = elim (Option-cases (get gid s.groups)) [
  | inl missing ↦ (ground (arith, missing), ground (arith, missing))
  | inr (g, found) ↦ (
    ground (arith, found, in_group-put_drop gid target g s.groups found h u),
    ground (arith, found, key_in-put_drop gid target g s.groups found h u),
  )
]

-- Leaving removes the one who asks from that group, and its key, and changes nothing else.
pub in_group-leave_group :
    (gid user : Text) (s : Relay) (h u : Text)
    → (in_group h u (leave_group gid user s).1.groups
        ≡ (in_group h u s.groups && not (list_eq gid h && list_eq user u)))
      × (key_in h u (leave_group gid user s).1.groups ≡ (
          if in_group gid user s.groups && list_eq gid h && list_eq user u
          then none
          else key_in h u s.groups))
unfolding leave_group
in_group-leave_group gid user s h u = elim (Option-cases (get gid s.groups)) [
  | inl missing ↦
      (ground (arith, missing, list_eq_iff gid h), ground (arith, missing, list_eq_iff gid h))
  | inr (g, found) ↦ (
    ground (
      arith,
      found,
      list_eq_iff gid h,
      list_eq_iff user u,
      in_group-put_drop gid user g s.groups found h u,
    ),
    ground (arith, found, key_in-put_drop gid user g s.groups found h u),
  )
]
