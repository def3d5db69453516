-- ===== src/Relay/Invites/Signed.antt =====
-- Who gets into a group by an invitation (server.py, _apply_ginvite and the two handlers).
use dns_messenger.Prelude.{
  ◌≡◌, sym, ◌∙◌, Bool, true, false, ◌&&◌, ◌||◌, not, none, some, arith, if◌then◌else◌, ◌==◌,
  list_eq, list_eq_iff, list_nat_eq, nat_eq, length, take, drop, Option-cases, Bool-cases, inl, inr,
  ◌⊎◌,
}
use dns_messenger.Prelude.Text.{Text}
use dns_messenger.Prelude.Sets.{contains-add}
use dns_messenger.Dict.{get}
use dns_messenger.Dict.Laws.{get-put}
use dns_messenger.Protocol.{b32decode}
use dns_messenger.Crypto.{Crypto, ginvite_signing_input}
use dns_messenger.Relay.State.{Relay, GroupKey, bundle_b32_len}
use dns_messenger.Relay.Auth.{verified_by}
use dns_messenger.Relay.Groups.Membership.{in_group, key_in}
use dns_messenger.Relay.Invites.{add_member, store_invite, is_pinned, bundle_of, apply_ginvite}

-- The payload begins with the inviter's signature over the group and both names.
unfoldable pub signed_invite : Crypto → Text → Text → Text → Text → Relay → Bool
signed_invite c gid inviter user rest s = elim (b32decode (take bundle_b32_len rest)) [
  | none ↦ false
  | some sig ↦
      length sig == 64
      && verified_by c (bundle_of (get inviter s.users)) (ginvite_signing_input gid inviter user)
          sig
]

-- The inviter is a member, and signed the invitation if its name is pinned.
abbrev pub may_invite : Crypto → Text → Text → Text → Text → Relay → Bool
may_invite c gid inviter user rest s =
    in_group gid inviter s.groups
    && (not (is_pinned (get inviter s.users)) || signed_invite c gid inviter user rest s)

-- What stands behind the signature, or all of the payload of an unpinned inviter.
abbrev pub sealed_key : Text → Text → Relay → GroupKey
sealed_key inviter rest s = record {
  sealed = if is_pinned (get inviter s.users) then drop bundle_b32_len rest else rest;
  from_user = inviter;
}

module _ (gid inviter user key : Text) (s : Relay) (h u : Text) where
  in_group-store_invite :
      in_group h u (store_invite gid inviter user key s).1.groups
      ≡ (in_group h u s.groups || in_group gid inviter s.groups && list_eq gid h && list_eq user u)
  unfolding store_invite add_member
  in_group-store_invite = elim (Option-cases (get gid s.groups)) [
    | inl missing ↦ ground arith
    | inr (g, found) ↦ ground (
      arith,
      get-put gid h (add_member inviter user key g) s.groups,
      list_eq_iff gid h,
      contains-add u user g.members,
    )
  ]

  key_in-store_invite : key_in h u (store_invite gid inviter user key s).1.groups ≡ (
      if in_group gid inviter s.groups && list_eq gid h && list_eq user u
      then some (record { sealed = key; from_user = inviter })
      else key_in h u s.groups)
  unfolding store_invite add_member
  key_in-store_invite = elim (Option-cases (get gid s.groups)) [
    | inl missing ↦ ground arith
    | inr (g, found) ↦ ground (
      arith,
      get-put gid h (add_member inviter user key g) s.groups,
      list_eq_iff gid h,
      get-put user u (record { sealed = key; from_user = inviter }) g.keys,
    )
  ]

-- An invitation adds the invited name to the group and stores its sealed key if the inviter is a
-- member, which signed the group and both names if its own name is pinned; it changes no other
-- membership and no other key, and without these conditions none at all.
pub in_group-apply_ginvite :
    (c : Crypto) (gid inviter user rest : Text) (s : Relay) (h u : Text)
    → (in_group h u (apply_ginvite c gid inviter user rest s).1.groups ≡ (
        in_group h u s.groups
        || may_invite c gid inviter user rest s && list_eq gid h && list_eq user u))
      × (key_in h u (apply_ginvite c gid inviter user rest s).1.groups ≡ (
          if may_invite c gid inviter user rest s && list_eq gid h && list_eq user u
          then some (sealed_key inviter rest s)
          else key_in h u s.groups))
unfolding apply_ginvite signed_invite
in_group-apply_ginvite c gid inviter user rest s h u =
    let part = drop bundle_b32_len rest in
    (
      ground (
        arith,
        in_group-store_invite gid inviter user part s h u,
        in_group-store_invite gid inviter user rest s h u,
      ),
      ground (
        arith,
        key_in-store_invite gid inviter user part s h u,
        key_in-store_invite gid inviter user rest s h u,
      ),
    )

-- The request names the group and the name, and its inviter may invite with this payload.
abbrev pub Admits : Crypto → Text → Text → Text → Text → Relay → Text → Text → Type 0
Admits c gid inviter user rest s h u =
    (gid ≡ h) × (user ≡ u) × (may_invite c gid inviter user rest s ≡ true)

-- No new member of the group but under the condition.
abbrev pub JoinsBy : Type 0 → Text → Text → Relay → Relay → Type 0
JoinsBy P h u s s' = in_group h u s'.groups ≡ true → (in_group h u s.groups ≡ true) ⊎ P

module _ (c : Crypto) (h u : Text) where
  pub joins-apply_ginvite :
      (gid inviter user rest : Text) (s : Relay)
      → JoinsBy
          (Admits c gid inviter user rest s h u)
          h
          u
          s
          (apply_ginvite c gid inviter user rest s).1
  joins-apply_ginvite gid inviter user rest s there =
      let e = (in_group-apply_ginvite c gid inviter user rest s h u).0 in
      elim (Bool-cases (in_group h u s.groups)) [
        | inl before ↦ inl before
        | inr new ↦ inr (
          (list_eq_iff gid h).0 (ground (arith, sym e ∙ there, new)),
          (list_eq_iff user u).0 (ground (arith, sym e ∙ there, new)),
          ground (arith, sym e ∙ there, new),
        )
      ]
