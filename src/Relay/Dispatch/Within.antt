-- ===== src/Relay/Dispatch/Within.antt =====
-- The limits of all stores, over a run of the relay (server.py).
use mathlib.Core.Path.{subst}
use dns_messenger.Prelude.{ℕ, ◌≤◌, ◌≡◌, sym, List, [], ◌∷◌, ◌++◌, arith, list_nat_eq, length}
use dns_messenger.Prelude.Text.{Text, Bytes, text}
use dns_messenger.Dict.{Dict}
use dns_messenger.Crypto.{
  Crypto, poll_signing_input, gpoll_signing_input, glist_signing_input, gleave_signing_input,
  gkick_signing_input, gmembers_signing_input, fpoll_signing_input,
}
use dns_messenger.Relay.State.{Relay, max_users, max_groups, max_files, max_incomplete}
use dns_messenger.Relay.Reply.{Reply}
use dns_messenger.Relay.Auth.{with_auth}
use dns_messenger.Relay.Accounts.{h_register, h_getkey, h_list_users}
use dns_messenger.Relay.Accounts.Pinned.{length-h_register}
use dns_messenger.Relay.Assembly.{h_send, h_poll, poll_box}
use dns_messenger.Relay.Assembly.Bounds.{IsBounded}
use dns_messenger.Relay.Groups.{
  h_gcreate, h_glist, h_gleave, h_gkick, h_gmembers, list_groups, leave_group, kick_member,
  list_members,
}
use dns_messenger.Relay.Invites.{h_ginvite, h_ginvite_chunked}
use dns_messenger.Relay.GroupMail.{h_gsend, h_gpoll, read_group}
use dns_messenger.Relay.Files.{h_fheader, h_fchunk, h_fpoll, h_fdownload, take_file}
use dns_messenger.Relay.Files.Room.{length-h_fheader}
use dns_messenger.Relay.Disk.{h_diskreg, h_disklist}
use dns_messenger.Relay.Dispatch.{Command, call}
use dns_messenger.Relay.Dispatch.Frames.{
  frame-h_send, frame-poll_box, frame-h_gcreate, frame-list_groups, frame-leave_group,
  frame-kick_member, frame-list_members, frame-h_ginvite, frame-h_ginvite_chunked, frame-h_gsend,
  frame-read_group, frame-h_fheader, frame-h_fchunk, frame-take_file, frame-h_register,
  frame-h_diskreg, with_auth-keeps,
}
use dns_messenger.Relay.Dispatch.Stores.{
  dm-h_send, dm-poll_box, gm-h_gsend, gm-read_group, groups-h_gcreate, gm-h_gcreate,
  groups-leave_group, groups-kick_member, groups-h_ginvite, files-h_fchunk,
}
use dns_messenger.Relay.Dispatch.Pending.{
  max_diskreg_pending, Fits-h_ginvite_chunked, FitsDisk-h_diskreg,
}

-- Every store is within its limit, and the assemblers' stores agree.
pub record IsWithin (s : Relay) : Type 0 where
  pub dm : IsBounded s.dm
  pub gm : IsBounded s.gm
  pub users : length s.users ≤ max_users
  pub groups : length s.groups ≤ max_groups
  pub files : length s.files ≤ max_files
  pub invites : length s.ginvite_pending ≤ max_incomplete
  pub disk : length s.diskreg_pending ≤ max_diskreg_pending

files-h_fheader_any :
    (now : ℕ) (ls : List Text) (s : Relay)
    → length s.files ≤ max_files
    → length (h_fheader now ls s).1.files ≤ max_files
unfolding h_fheader
files-h_fheader_any now (t ∷ f ∷ i ∷ ls) s few = length-h_fheader now t f i ls s few
files-h_fheader_any now [] s few = few
files-h_fheader_any now (_ ∷ []) s few = few
files-h_fheader_any now (_ ∷ _ ∷ []) s few = few

by_frame : {s s' : Relay} → s' ≡ s → IsWithin s → IsWithin s'
by_frame e w = subst IsWithin (sym e) w

module _ (c : Crypto) (now : ℕ) where
  module _ {s : Relay} (w : IsWithin s) where
    IsWithin-h_register : (ls : List Text) → IsWithin (h_register c now ls s).1
    IsWithin-h_register ls = by_frame (frame-h_register c now ls s) (record {
      dm = w.dm;
      gm = w.gm;
      users = length-h_register c now ls s w.users;
      groups = w.groups;
      files = w.files;
      invites = w.invites;
      disk = w.disk;
    })

    IsWithin-h_send : (ls : List Text) → IsWithin (h_send now ls s).1
    IsWithin-h_send ls = by_frame (frame-h_send now ls s) (record {
      dm = dm-h_send now ls s w.dm;
      gm = w.gm;
      users = w.users;
      groups = w.groups;
      files = w.files;
      invites = w.invites;
      disk = w.disk;
    })

    IsWithin-poll_box : (u : Text) → IsWithin (poll_box u s).1
    IsWithin-poll_box u = by_frame (frame-poll_box u s) (record {
      dm = dm-poll_box u s w.dm;
      gm = w.gm;
      users = w.users;
      groups = w.groups;
      files = w.files;
      invites = w.invites;
      disk = w.disk;
    })

    IsWithin-h_gcreate : (ls : List Text) → IsWithin (h_gcreate now ls s).1
    IsWithin-h_gcreate ls = by_frame (frame-h_gcreate now ls s) (record {
      dm = w.dm;
      gm = gm-h_gcreate now ls s w.gm;
      users = w.users;
      groups = groups-h_gcreate now ls s w.groups;
      files = w.files;
      invites = w.invites;
      disk = w.disk;
    })

    IsWithin-leave_group : (g u : Text) → IsWithin (leave_group g u s).1
    IsWithin-leave_group g u = by_frame (frame-leave_group g u s) (record {
      dm = w.dm;
      gm = w.gm;
      users = w.users;
      groups = omega (arith, groups-leave_group g u s, w.groups);
      files = w.files;
      invites = w.invites;
      disk = w.disk;
    })

    IsWithin-kick_member : (g k t : Text) → IsWithin (kick_member g k t s).1
    IsWithin-kick_member g k t = by_frame (frame-kick_member g k t s) (record {
      dm = w.dm;
      gm = w.gm;
      users = w.users;
      groups = omega (arith, groups-kick_member g k t s, w.groups);
      files = w.files;
      invites = w.invites;
      disk = w.disk;
    })

    IsWithin-h_ginvite : (ls : List Text) → IsWithin (h_ginvite c ls s).1
    IsWithin-h_ginvite ls = by_frame (frame-h_ginvite c ls s) (record {
      dm = w.dm;
      gm = w.gm;
      users = w.users;
      groups = omega (arith, groups-h_ginvite c ls s, w.groups);
      files = w.files;
      invites = w.invites;
      disk = w.disk;
    })

    IsWithin-h_ginvite_chunked : (ls : List Text) → IsWithin (h_ginvite_chunked c now ls s).1
    IsWithin-h_ginvite_chunked ls = by_frame (frame-h_ginvite_chunked c now ls s) (record {
      dm = w.dm;
      gm = w.gm;
      users = w.users;
      groups = omega (arith, (Fits-h_ginvite_chunked c s w.invites now ls).0, w.groups);
      files = w.files;
      invites = (Fits-h_ginvite_chunked c s w.invites now ls).1;
      disk = w.disk;
    })

    IsWithin-h_gsend : (ls : List Text) → IsWithin (h_gsend now ls s).1
    IsWithin-h_gsend ls = by_frame (frame-h_gsend now ls s) (record {
      dm = w.dm;
      gm = gm-h_gsend now ls s w.gm;
      users = w.users;
      groups = w.groups;
      files = w.files;
      invites = w.invites;
      disk = w.disk;
    })

    IsWithin-read_group : (g u : Text) → IsWithin (read_group g u s).1
    IsWithin-read_group g u = by_frame (frame-read_group g u s) (record {
      dm = w.dm;
      gm = gm-read_group g u s w.gm;
      users = w.users;
      groups = w.groups;
      files = w.files;
      invites = w.invites;
      disk = w.disk;
    })

    IsWithin-h_fheader : (ls : List Text) → IsWithin (h_fheader now ls s).1
    IsWithin-h_fheader ls = by_frame (frame-h_fheader now ls s) (record {
      dm = w.dm;
      gm = w.gm;
      users = w.users;
      groups = w.groups;
      files = files-h_fheader_any now ls s w.files;
      invites = w.invites;
      disk = w.disk;
    })

    IsWithin-h_fchunk : (ls : List Text) → IsWithin (h_fchunk ls s).1
    IsWithin-h_fchunk ls = by_frame (frame-h_fchunk ls s) (record {
      dm = w.dm;
      gm = w.gm;
      users = w.users;
      groups = w.groups;
      files = omega (arith, files-h_fchunk ls s, w.files);
      invites = w.invites;
      disk = w.disk;
    })

    IsWithin-take_file : (u : Text) → IsWithin (take_file u s).1
    IsWithin-take_file u = by_frame (frame-take_file u s) (record {
      dm = w.dm;
      gm = w.gm;
      users = w.users;
      groups = w.groups;
      files = w.files;
      invites = w.invites;
      disk = w.disk;
    })

    IsWithin-h_diskreg : (ls : List Text) → IsWithin (h_diskreg c now ls s).1
    IsWithin-h_diskreg ls = by_frame (frame-h_diskreg c now ls s) (record {
      dm = w.dm;
      gm = w.gm;
      users = omega (arith, (FitsDisk-h_diskreg c now s w.disk ls).0, w.users);
      groups = w.groups;
      files = w.files;
      invites = w.invites;
      disk = (FitsDisk-h_diskreg c now s w.disk ls).1;
    })

  IsWithin-nonces :
      {s : Relay} → IsWithin s → (n : Dict Text ℕ) → IsWithin (record s { seen_poll_nonces = n })
  IsWithin-nonces w n = record {
    dm = w.dm;
    gm = w.gm;
    users = w.users;
    groups = w.groups;
    files = w.files;
    invites = w.invites;
    disk = w.disk;
  }

  module _ {s : Relay} (w : IsWithin s) where
    auth :
        (user : Text) (ls : List Text) (f : Text → Text → Text → Bytes) (kind : Text)
        (run : Relay → Reply × Relay)
        → ((s' : Relay) → IsWithin s' → IsWithin (run s').1)
        → IsWithin (with_auth c now user ls f kind run s).1
    auth user ls f kind run keeps =
        with_auth-keeps c now s IsWithin user ls f kind run (IsWithin-nonces w)
          (λ n. keeps (record s { seen_poll_nonces = n }) (IsWithin-nonces w n))

    -- Every command keeps every store within its limit.
    pub IsWithin-call : (k : Command) (ls : List Text) → IsWithin (call c now k ls s).1
    unfolding call h_poll h_gpoll h_glist h_gleave h_gkick h_gmembers h_fpoll h_getkey h_list_users
        h_fdownload h_disklist
    IsWithin-call Command.register ls = IsWithin-h_register w ls
    IsWithin-call Command.getkey [] = w
    IsWithin-call Command.getkey (l ∷ ls) = by_frame (ground arith) w
    IsWithin-call Command.send ls = IsWithin-h_send w ls
    IsWithin-call Command.poll [] = w
    IsWithin-call Command.poll (user ∷ ls) =
        auth user (user ∷ ls) poll_signing_input (text "dm") (poll_box user)
          (λ s' v. IsWithin-poll_box v user)
    IsWithin-call Command.gcreate ls = IsWithin-h_gcreate w ls
    IsWithin-call Command.ginvite ls = IsWithin-h_ginvite w ls
    IsWithin-call Command.ginvite_chunked ls = IsWithin-h_ginvite_chunked w ls
    IsWithin-call Command.gsend ls = IsWithin-h_gsend w ls
    IsWithin-call Command.gpoll (g ∷ user ∷ ls) =
        auth user (user ∷ ls) (λ x n ts. gpoll_signing_input g x n ts) (text "gpoll:" ++ g)
          (read_group g user) (λ s' v. IsWithin-read_group v g user)
    IsWithin-call Command.gpoll (g ∷ []) = w
    IsWithin-call Command.gpoll [] = w
    IsWithin-call Command.glist [] = w
    IsWithin-call Command.glist (user ∷ ls) =
        auth user (user ∷ ls) glist_signing_input (text "glist") (list_groups user)
          (λ s' v. by_frame (frame-list_groups user s') v)
    IsWithin-call Command.gleave (g ∷ user ∷ ls) =
        auth user (user ∷ ls) (λ x n ts. gleave_signing_input g x n ts) (text "gleave:" ++ g)
          (leave_group g user) (λ s' v. IsWithin-leave_group v g user)
    IsWithin-call Command.gleave (g ∷ []) = w
    IsWithin-call Command.gleave [] = w
    IsWithin-call Command.gkick (g ∷ user ∷ t ∷ ls) =
        auth user (t ∷ ls) (λ x n ts. gkick_signing_input g x t n ts) (text "gkick:" ++ g)
          (kick_member g user t) (λ s' v. IsWithin-kick_member v g user t)
    IsWithin-call Command.gkick (g ∷ user ∷ []) = w
    IsWithin-call Command.gkick (g ∷ []) = w
    IsWithin-call Command.gkick [] = w
    IsWithin-call Command.gmembers (g ∷ user ∷ ls) =
        auth user (user ∷ ls) (λ x n ts. gmembers_signing_input g x n ts) (text "gmembers:" ++ g)
          (list_members g user) (λ s' v. by_frame (frame-list_members g user s') v)
    IsWithin-call Command.gmembers (g ∷ []) = w
    IsWithin-call Command.gmembers [] = w
    IsWithin-call Command.fheader ls = IsWithin-h_fheader w ls
    IsWithin-call Command.fchunk ls = IsWithin-h_fchunk w ls
    IsWithin-call Command.fpoll [] = w
    IsWithin-call Command.fpoll (user ∷ ls) =
        auth user (user ∷ ls) fpoll_signing_input (text "file") (take_file user)
          (λ s' v. IsWithin-take_file v user)
    IsWithin-call Command.fdownload (f ∷ i ∷ ls) = by_frame (ground arith) w
    IsWithin-call Command.fdownload (f ∷ []) = w
    IsWithin-call Command.fdownload [] = w
    IsWithin-call Command.list_users ls = by_frame (ground arith) w
    IsWithin-call Command.diskreg ls = IsWithin-h_diskreg w ls
    IsWithin-call Command.disklist ls = by_frame (ground arith) w
