-- ===== src/Relay/Dispatch/Folders.antt =====
-- Which commands change a folder key (server.py, the handlers).
use mathlib.Core.Path.{subst, ap₂}
use dns_messenger.Prelude.{
  ℕ, ◌≡◌, ◌≢◌, ◌⊎◌, inl, inr, refl, ap, none, some, List, [], ◌∷◌, ◌++◌, arith, list_nat_eq,
}
use dns_messenger.Prelude.Text.{Text, Bytes, text}
use dns_messenger.Dict.{Dict}
use dns_messenger.Crypto.{
  Crypto, poll_signing_input, gpoll_signing_input, glist_signing_input, gleave_signing_input,
  gkick_signing_input, gmembers_signing_input, fpoll_signing_input,
}
use dns_messenger.Relay.State.{Relay, Account}
use dns_messenger.Relay.Reply.{Reply}
use dns_messenger.Relay.Auth.{with_auth}
use dns_messenger.Relay.Accounts.{h_getkey, h_list_users}
use dns_messenger.Relay.Accounts.Pinned.{pin_of}
use dns_messenger.Relay.Assembly.{h_poll, poll_box}
use dns_messenger.Relay.Groups.{
  h_glist, h_gleave, h_gkick, h_gmembers, list_groups, leave_group, kick_member, list_members,
}
use dns_messenger.Relay.GroupMail.{h_gpoll, read_group}
use dns_messenger.Relay.Files.{h_fpoll, h_fdownload, take_file}
use dns_messenger.Relay.Disk.{h_disklist, h_diskreg}
use dns_messenger.Relay.Disk.Registry.{disk_key_of, IsRegistered, disk_key_of-h_diskreg}
use dns_messenger.Relay.Disk.Renewed.{IsRenewal, disk_key_of-h_register}
use dns_messenger.Relay.Dispatch.{Command, call}
use dns_messenger.Relay.Dispatch.Frames.{
  frame-h_send, frame-poll_box, frame-h_gcreate, frame-h_ginvite, frame-h_ginvite_chunked,
  frame-h_gsend, frame-read_group, frame-list_groups, frame-leave_group, frame-kick_member,
  frame-list_members, frame-h_fheader, frame-h_fchunk, frame-take_file, with_auth-keeps,
}

-- The command sets the name's folder key, with the name's signature.
abbrev pub IsEntered : Crypto → ℕ → Command → List Text → Text → Relay → Type 0
IsEntered c now k ls u s =
    (k ≡ Command.diskreg)
    × ((pk seq count content : Text) × (rest : List Text) × (ls ≡ u ∷ seq ∷ count ∷ content ∷ rest)
        × (disk_key_of u (call c now k ls s).1.users ≡ some pk)
        × IsRegistered c now rest u pk s)

-- The command is a registration that forgets it: the name's own, if the name is pinned.
abbrev pub IsForgotten : Crypto → ℕ → Command → List Text → Text → Relay → Type 0
IsForgotten c now k ls u s =
    (k ≡ Command.register)
    × (disk_key_of u (call c now k ls s).1.users ≡ none)
    × ((pin_of u s.users ≡ none) ⊎ IsRenewal c ls u s)

module _ (c : Crypto) (now : ℕ) (s : Relay) (u : Text) where
  -- A command that leaves the accounts changes no folder key.
  kept :
      {R : Type 0} {users : Dict Text Account}
      → users ≡ s.users
      → disk_key_of u users ≢ disk_key_of u s.users
      → R
  kept same changed = absurd (changed (ap (disk_key_of u) same))

  kept_auth :
      {R : Type 0} (user : Text) (ls : List Text) (f : Text → Text → Text → Bytes) (kind : Text)
      (run : Relay → Reply × Relay)
      → ((s' : Relay) → (run s').1.users ≡ s'.users)
      → disk_key_of u (with_auth c now user ls f kind run s).1.users ≢ disk_key_of u s.users
      → R
  kept_auth user ls f kind run e changed = absurd (
      changed (
        with_auth-keeps c now s (λ s'. disk_key_of u s'.users ≡ disk_key_of u s.users) user ls f
          kind run (λ n. refl) (λ n. ap (disk_key_of u) (e (record s { seen_poll_nonces = n })))))

  -- Whatever command the relay runs: it changes a name's folder key in two ways only. It sets the key,
  -- as a request of that name, which is pinned, and carries a signature under the name's own key, over
  -- the name, the hash of the new folder key, a fresh nonce and a near time. Or it is a registration
  -- and forgets the key; if the name is pinned, that is a registration of the name itself, under the
  -- bundle it is pinned to and with that bundle's signature.
  pub disk_key_of-call :
      (k : Command) (ls : List Text)
      → disk_key_of u (call c now k ls s).1.users ≢ disk_key_of u s.users
      → IsEntered c now k ls u s ⊎ IsForgotten c now k ls u s
  unfolding call h_poll h_gpoll h_glist h_gleave h_gkick h_gmembers h_fpoll h_getkey h_list_users
      h_fdownload h_disklist h_diskreg
  disk_key_of-call Command.register ls = λ changed. elim (disk_key_of-h_register c now ls s u) [
    | inl same ↦ absurd (changed same)
    | inr (gone, why) ↦ inr (refl, gone, why)
  ]
  disk_key_of-call Command.getkey [] = kept refl
  disk_key_of-call Command.getkey (l ∷ ls) = kept (ground arith)
  disk_key_of-call Command.send ls = kept (ap (λ (r : Relay). r.users) (frame-h_send now ls s))
  disk_key_of-call Command.poll [] = kept refl
  disk_key_of-call Command.poll (user ∷ ls) =
      kept_auth user (user ∷ ls) poll_signing_input (text "dm") (poll_box user)
        (λ x. ap (λ (r : Relay). r.users) (frame-poll_box user x))
  disk_key_of-call Command.gcreate ls =
      kept (ap (λ (r : Relay). r.users) (frame-h_gcreate now ls s))
  disk_key_of-call Command.ginvite ls = kept (ap (λ (r : Relay). r.users) (frame-h_ginvite c ls s))
  disk_key_of-call Command.ginvite_chunked ls =
      kept (ap (λ (r : Relay). r.users) (frame-h_ginvite_chunked c now ls s))
  disk_key_of-call Command.gsend ls = kept (ap (λ (r : Relay). r.users) (frame-h_gsend now ls s))
  disk_key_of-call Command.gpoll (g ∷ user ∷ ls) =
      kept_auth user (user ∷ ls) (λ x n ts. gpoll_signing_input g x n ts) (text "gpoll:" ++ g)
        (read_group g user) (λ x. ap (λ (r : Relay). r.users) (frame-read_group g user x))
  disk_key_of-call Command.gpoll (g ∷ []) = kept refl
  disk_key_of-call Command.gpoll [] = kept refl
  disk_key_of-call Command.glist [] = kept refl
  disk_key_of-call Command.glist (user ∷ ls) =
      kept_auth user (user ∷ ls) glist_signing_input (text "glist") (list_groups user)
        (λ x. ap (λ (r : Relay). r.users) (frame-list_groups user x))
  disk_key_of-call Command.gleave (g ∷ user ∷ ls) =
      kept_auth user (user ∷ ls) (λ x n ts. gleave_signing_input g x n ts) (text "gleave:" ++ g)
        (leave_group g user) (λ x. ap (λ (r : Relay). r.users) (frame-leave_group g user x))
  disk_key_of-call Command.gleave (g ∷ []) = kept refl
  disk_key_of-call Command.gleave [] = kept refl
  disk_key_of-call Command.gkick (g ∷ user ∷ t ∷ ls) =
      kept_auth user (t ∷ ls) (λ x n ts. gkick_signing_input g x t n ts) (text "gkick:" ++ g)
        (kick_member g user t) (λ x. ap (λ (r : Relay). r.users) (frame-kick_member g user t x))
  disk_key_of-call Command.gkick (g ∷ user ∷ []) = kept refl
  disk_key_of-call Command.gkick (g ∷ []) = kept refl
  disk_key_of-call Command.gkick [] = kept refl
  disk_key_of-call Command.gmembers (g ∷ user ∷ ls) =
      kept_auth user (user ∷ ls) (λ x n ts. gmembers_signing_input g x n ts) (text "gmembers:" ++ g)
        (list_members g user) (λ x. ap (λ (r : Relay). r.users) (frame-list_members g user x))
  disk_key_of-call Command.gmembers (g ∷ []) = kept refl
  disk_key_of-call Command.gmembers [] = kept refl
  disk_key_of-call Command.fheader ls =
      kept (ap (λ (r : Relay). r.users) (frame-h_fheader now ls s))
  disk_key_of-call Command.fchunk ls = kept (ap (λ (r : Relay). r.users) (frame-h_fchunk ls s))
  disk_key_of-call Command.fpoll [] = kept refl
  disk_key_of-call Command.fpoll (user ∷ ls) =
      kept_auth user (user ∷ ls) fpoll_signing_input (text "file") (take_file user)
        (λ x. ap (λ (r : Relay). r.users) (frame-take_file user x))
  disk_key_of-call Command.fdownload (f ∷ i ∷ ls) = kept (ground arith)
  disk_key_of-call Command.fdownload (f ∷ []) = kept refl
  disk_key_of-call Command.fdownload [] = kept refl
  disk_key_of-call Command.list_users ls = kept (ground arith)
  disk_key_of-call Command.diskreg [] = kept refl
  disk_key_of-call Command.diskreg (user ∷ labels) = λ changed.
      let (mine, (pk, seq, count, content, rest, sent, after, r)) =
        disk_key_of-h_diskreg c now user s labels u changed in
      inl (
        refl,
        (
          pk,
          seq,
          count,
          content,
          rest,
          ap₂ (λ x y. x ∷ y) mine sent,
          after,
          subst (λ x. IsRegistered c now rest x pk s) mine r,
        ),
      )
  disk_key_of-call Command.disklist ls = kept (ground arith)
