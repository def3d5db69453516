-- ===== src/Relay/Dispatch/Joining.antt =====
-- How a name gets into a group, over all commands (server.py, the handlers).
use mathlib.Core.Path.{subst, ap₂}
use dns_messenger.Prelude.{
  ℕ, ◌≡◌, ◌⊎◌, inl, inr, refl, sym, ap, ◌∙◌, true, false, none, some, List, [], ◌∷◌, ◌++◌, arith,
  list_eq, list_eq_iff, list_nat_eq, contains, Option-cases, Bool-cases,
}
use dns_messenger.Prelude.Text.{Text, Bytes, text}
use dns_messenger.Dict.{Dict, get, has, oldest}
use dns_messenger.Dict.Laws.{get-put, get-pop}
use dns_messenger.Crypto.{
  Crypto, poll_signing_input, gpoll_signing_input, glist_signing_input, gleave_signing_input,
  gkick_signing_input, gmembers_signing_input, fpoll_signing_input,
}
use dns_messenger.Relay.State.{Relay, Group}
use dns_messenger.Relay.Reply.{Reply}
use dns_messenger.Relay.Auth.{with_auth}
use dns_messenger.Relay.Accounts.{h_getkey, h_list_users}
use dns_messenger.Relay.Assembly.{h_poll, poll_box}
use dns_messenger.Relay.Groups.{
  evict_group, h_gcreate, h_glist, h_gleave, h_gkick, h_gmembers, list_groups, leave_group,
  kick_member, list_members,
}
use dns_messenger.Relay.Groups.Membership.{in_group, in_group-kick_member, in_group-leave_group}
use dns_messenger.Relay.GroupMail.{h_gpoll, read_group}
use dns_messenger.Relay.Files.{h_fpoll, h_fdownload, take_file}
use dns_messenger.Relay.Disk.{h_disklist}
use dns_messenger.Relay.Invites.Joining.{
  IsInvited, IsInvitedInChunks, joins-h_ginvite, joins-h_ginvite_chunked,
}
use dns_messenger.Relay.Dispatch.{Command, call}
use dns_messenger.Relay.Dispatch.Frames.{
  frame-h_send, frame-poll_box, frame-list_groups, frame-list_members, frame-read_group,
  frame-h_gsend, frame-h_fheader, frame-h_fchunk, frame-take_file, frame-h_register,
  frame-h_diskreg, with_auth-keeps,
}

-- The command creates the group, which was not there, in the name of the new member.
abbrev pub IsCreated : Command → List Text → Text → Text → Relay → Type 0
IsCreated k ls gid user s =
    (k ≡ Command.gcreate)
    × (get gid s.groups ≡ none)
    × (rest : List Text) × (ls ≡ gid ∷ user ∷ rest)

-- The command is an invitation of the name by a member, the last chunk of one, or such a creation.
abbrev pub Lets : Crypto → Command → List Text → Text → Text → Relay → Type 0
Lets c k ls gid user s =
    ((k ≡ Command.ginvite) × IsInvited c ls gid user s)
    ⊎ (((k ≡ Command.ginvite_chunked) × IsInvitedInChunks c ls gid user s)
        ⊎ IsCreated k ls gid user s)

module _ (c : Crypto) (now : ℕ) (s : Relay) (h u : Text) where
  get-evict_group : (g : Group) → get h (evict_group s).groups ≡ some g → get h s.groups ≡ some g
  unfolding evict_group
  get-evict_group g there = elim (Option-cases (oldest (λ x. x.ts) s.groups)) [
    | inl nobody ↦ ground arith
    | inr (o, found) ↦ ground (arith, get-pop o h s.groups)
  ]

  only : (x : Text) → contains u (x ∷ []) ≡ true → x ≡ u
  unfolding contains
  only x there = ground (arith, list_eq_iff x u)

  absent : (gid : Text) → gid ≡ h → has gid s.groups ≡ false → get h s.groups ≡ none
  absent gid e missing =
      subst (λ x. get x s.groups ≡ none) e
        (elim (Option-cases (get gid s.groups)) [
          | inl nothing ↦ nothing
          | inr (g, found) ↦ absurd (ground (arith, missing, found))
        ])

  module _ (new : in_group h u s.groups ≡ false) where
    Joined : Command → List Text → Type 0
    Joined k ls = Lets c k ls h u s

    -- A command that leaves the groups lets nobody in.
    unchanged : {groups : Dict Text Group} → groups ≡ s.groups → in_group h u groups ≡ true → ⊥
    unchanged same there = absurd (ground (arith, new, ap (in_group h u) same, there))

    auth :
        (user : Text) (ls : List Text) (f : Text → Text → Text → Bytes) (kind : Text)
        (run : Relay → Reply × Relay)
        → ((n : Dict Text ℕ)
            → in_group h u (run (record s { seen_poll_nonces = n })).1.groups ≡ true
            → in_group h u s.groups ≡ true)
        → in_group h u (with_auth c now user ls f kind run s).1.groups ≡ true
        → ⊥
    auth user ls f kind run keeps there =
        let before =
          with_auth-keeps c now s
            (λ s'. in_group h u s'.groups ≡ true → in_group h u s.groups ≡ true) user ls f kind run
            (λ n x. x) keeps there in
        absurd (ground (arith, before, new))

    auth_unchanged :
        (user : Text) (ls : List Text) (f : Text → Text → Text → Bytes) (kind : Text)
        (run : Relay → Reply × Relay)
        → ((s' : Relay) → (run s').1.groups ≡ s'.groups)
        → in_group h u (with_auth c now user ls f kind run s).1.groups ≡ true
        → ⊥
    auth_unchanged user ls f kind run same =
        auth user ls f kind run
          (λ n there. ap (in_group h u) (sym (same (record s { seen_poll_nonces = n }))) ∙ there)

    joins-h_gcreate :
        (ls : List Text)
        → in_group h u (h_gcreate now ls s).1.groups ≡ true
        → Joined Command.gcreate ls
    unfolding h_gcreate Joined
    joins-h_gcreate [] there = absurd (unchanged refl there)
    joins-h_gcreate (_ ∷ []) there = absurd (unchanged refl there)
    joins-h_gcreate (gid ∷ creator ∷ rest) there = elim (Bool-cases (has gid s.groups)) [
      | inl old ↦ absurd (ground (arith, old, there, new))
      | inr fresh ↦
          let g : Group = record {
            creator = creator;
            members = creator ∷ [];
            keys = [];
            ts = now;
          } in
          let put_law = get-put gid h g (evict_group s).groups in
          elim (Bool-cases (list_eq gid h)) [
            | inl same ↦
                let e : gid ≡ h = (list_eq_iff gid h).0 same in
                let mine : contains u (creator ∷ []) ≡ true =
                  ground (arith, fresh, there, put_law, same) in
                let e' : creator ≡ u = only creator mine in
                inr (inr (refl, absent gid e fresh, rest, ap₂ (λ x y. x ∷ y ∷ rest) e e'))
            | inr other ↦ elim (Option-cases (get h (evict_group s).groups)) [
              | inl gone ↦ absurd (ground (arith, fresh, there, put_law, other, gone))
              | inr (old, found) ↦ absurd (
                  ground
                    (arith, fresh, there, put_law, other, found, get-evict_group old found, new))
            ]
          ]
    ]

    -- Whatever command the relay runs: a name that was not in the group is in it afterwards only if
    -- this command is one of three. Its labels invite that name to that group, by an inviter that is a
    -- member, whose signature over the group and both names begins the payload if the inviter's name is
    -- pinned; or they are a chunk of such an invitation, and with the chunks stored for it make its
    -- payload; or they create the group, which was not there, in that name.
    pub joins-call :
        (k : Command) (ls : List Text)
        → in_group h u (call c now k ls s).1.groups ≡ true
        → Lets c k ls h u s
    unfolding call h_poll h_gpoll h_glist h_gleave h_gkick h_gmembers h_fpoll h_getkey h_list_users
        h_fdownload h_disklist Joined
    joins-call Command.register ls there =
        absurd (unchanged (ap (λ (r : Relay). r.groups) (frame-h_register c now ls s)) there)
    joins-call Command.getkey [] there = absurd (unchanged refl there)
    joins-call Command.getkey (l ∷ ls) there = absurd (unchanged (ground arith) there)
    joins-call Command.send ls there =
        absurd (unchanged (ap (λ (r : Relay). r.groups) (frame-h_send now ls s)) there)
    joins-call Command.poll [] there = absurd (unchanged refl there)
    joins-call Command.poll (user ∷ ls) there = absurd (
        auth_unchanged user (user ∷ ls) poll_signing_input (text "dm") (poll_box user)
          (λ x. ap (λ (r : Relay). r.groups) (frame-poll_box user x)) there)
    joins-call Command.gcreate ls there = joins-h_gcreate ls there
    joins-call Command.ginvite ls there = elim (joins-h_ginvite c h u s ls there) [
      | inl before ↦ absurd (ground (arith, before, new))
      | inr invited ↦ inl (refl, invited)
    ]
    joins-call Command.ginvite_chunked ls there =
        elim (joins-h_ginvite_chunked c h u s now ls there) [
          | inl before ↦ absurd (ground (arith, before, new))
          | inr invited ↦ inr (inl (refl, invited))
        ]
    joins-call Command.gsend ls there =
        absurd (unchanged (ap (λ (r : Relay). r.groups) (frame-h_gsend now ls s)) there)
    joins-call Command.gpoll (g ∷ user ∷ ls) there = absurd (
        auth_unchanged user (user ∷ ls) (λ x n ts. gpoll_signing_input g x n ts)
          (text "gpoll:" ++ g) (read_group g user)
          (λ x. ap (λ (r : Relay). r.groups) (frame-read_group g user x)) there)
    joins-call Command.gpoll (g ∷ []) there = absurd (unchanged refl there)
    joins-call Command.gpoll [] there = absurd (unchanged refl there)
    joins-call Command.glist [] there = absurd (unchanged refl there)
    joins-call Command.glist (user ∷ ls) there = absurd (
        auth_unchanged user (user ∷ ls) glist_signing_input (text "glist") (list_groups user)
          (λ x. ap (λ (r : Relay). r.groups) (frame-list_groups user x)) there)
    joins-call Command.gleave (g ∷ user ∷ ls) there = absurd (
        auth user (user ∷ ls) (λ x n ts. gleave_signing_input g x n ts) (text "gleave:" ++ g)
          (leave_group g user)
          (λ n after.
            let s' : Relay = record s { seen_poll_nonces = n } in
            ground (arith, after, (in_group-leave_group g user s' h u).0))
          there)
    joins-call Command.gleave (g ∷ []) there = absurd (unchanged refl there)
    joins-call Command.gleave [] there = absurd (unchanged refl there)
    joins-call Command.gkick (g ∷ user ∷ t ∷ ls) there = absurd (
        auth user (t ∷ ls) (λ x n ts. gkick_signing_input g x t n ts) (text "gkick:" ++ g)
          (kick_member g user t)
          (λ n after.
            let s' : Relay = record s { seen_poll_nonces = n } in
            ground (arith, after, (in_group-kick_member g user t s' h u).0))
          there)
    joins-call Command.gkick (g ∷ user ∷ []) there = absurd (unchanged refl there)
    joins-call Command.gkick (g ∷ []) there = absurd (unchanged refl there)
    joins-call Command.gkick [] there = absurd (unchanged refl there)
    joins-call Command.gmembers (g ∷ user ∷ ls) there = absurd (
        auth_unchanged user (user ∷ ls) (λ x n ts. gmembers_signing_input g x n ts)
          (text "gmembers:" ++ g) (list_members g user)
          (λ x. ap (λ (r : Relay). r.groups) (frame-list_members g user x)) there)
    joins-call Command.gmembers (g ∷ []) there = absurd (unchanged refl there)
    joins-call Command.gmembers [] there = absurd (unchanged refl there)
    joins-call Command.fheader ls there =
        absurd (unchanged (ap (λ (r : Relay). r.groups) (frame-h_fheader now ls s)) there)
    joins-call Command.fchunk ls there =
        absurd (unchanged (ap (λ (r : Relay). r.groups) (frame-h_fchunk ls s)) there)
    joins-call Command.fpoll [] there = absurd (unchanged refl there)
    joins-call Command.fpoll (user ∷ ls) there = absurd (
        auth_unchanged user (user ∷ ls) fpoll_signing_input (text "file") (take_file user)
          (λ x. ap (λ (r : Relay). r.groups) (frame-take_file user x)) there)
    joins-call Command.fdownload (f ∷ i ∷ ls) there = absurd (unchanged (ground arith) there)
    joins-call Command.fdownload (f ∷ []) there = absurd (unchanged refl there)
    joins-call Command.fdownload [] there = absurd (unchanged refl there)
    joins-call Command.list_users ls there = absurd (unchanged (ground arith) there)
    joins-call Command.diskreg ls there =
        absurd (unchanged (ap (λ (r : Relay). r.groups) (frame-h_diskreg c now ls s)) there)
    joins-call Command.disklist ls there = absurd (unchanged (ground arith) there)
