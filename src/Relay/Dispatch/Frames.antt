-- ===== src/Relay/Dispatch/Frames.antt =====
-- Which fields of the state each handler changes (server.py).
use dns_messenger.Prelude.{
  ℕ, ◌≡◌, refl, drop, List, [], ◌∷◌, arith, list_nat_eq, nat_eq, Option-cases, inl, inr,
  if◌then◌else◌, ◌==◌,
}
use dns_messenger.Prelude.Int.{ℤ, pos, negsuc}
use dns_messenger.Prelude.Text.{Text, Bytes, int, join}
use dns_messenger.Dict.{Dict, get, put, pop}
use dns_messenger.Crypto.{Crypto}
use dns_messenger.Relay.State.{Relay, bundle_b32_len, Account}
use dns_messenger.Relay.Reply.{Reply}
use dns_messenger.Relay.Auth.{with_auth, authorize_poll}
use dns_messenger.Relay.Accounts.{h_register}
use dns_messenger.Relay.Assembly.{h_send, poll_box, gather}
use dns_messenger.Relay.Groups.{
  h_gcreate, evict_group, list_groups, leave_group, kick_member, list_members,
}
use dns_messenger.Relay.Invites.{
  h_ginvite, h_ginvite_chunked, store_invite, apply_ginvite, save_invite, invite_chunk,
  ginvite_in_range, invite_key, invite_room,
}
use dns_messenger.Relay.GroupMail.{h_gsend, read_group}
use dns_messenger.Relay.Files.{
  h_fheader, h_fchunk, open_file, header_in_range, add_file_chunk, store_file_chunk, announce,
  take_file,
}
use dns_messenger.Relay.Disk.{
  h_diskreg, sign_off, check_time, finish_disk, after_chunk, disk_chunk, disk_pinned, disk_in_range,
  pending_chunks,
}

pub frame-h_register :
    (c : Crypto) (now : ℕ) (ls : List Text) (s : Relay)
    → (h_register c now ls s).1 ≡ record s { users = (h_register c now ls s).1.users }
unfolding h_register
frame-h_register c now (u ∷ l ∷ ls) s = ground arith
frame-h_register c now _ s = refl

pub frame-h_send :
    (now : ℕ) (ls : List Text) (s : Relay)
    → (h_send now ls s).1 ≡ record s {
      dm = (h_send now ls s).1.dm;
      delivered_mids = (h_send now ls s).1.delivered_mids;
    }
unfolding h_send
frame-h_send now (a ∷ b ∷ m ∷ i ∷ n ∷ l ∷ ls) s = ground arith
frame-h_send now _ s = refl

pub frame-poll_box :
    (user : Text) (s : Relay) → (poll_box user s).1 ≡ record s { dm = (poll_box user s).1.dm }
unfolding poll_box
frame-poll_box user s = ground arith

pub frame-evict_group :
    (s : Relay)
    → (evict_group s) ≡ record s { groups = (evict_group s).groups; gm = (evict_group s).gm }
unfolding evict_group
frame-evict_group s = ground arith

pub frame-h_gcreate :
    (now : ℕ) (ls : List Text) (s : Relay)
    → (h_gcreate now ls s).1
      ≡ record s { groups = (h_gcreate now ls s).1.groups; gm = (h_gcreate now ls s).1.gm }
unfolding h_gcreate
frame-h_gcreate now (g ∷ u ∷ ls) s = ground (arith, frame-evict_group s)
frame-h_gcreate now _ s = refl

pub frame-list_groups : (u : Text) (s : Relay) → (list_groups u s).1 ≡ s
unfolding list_groups
frame-list_groups u s = ground arith

pub frame-leave_group :
    (g u : Text) (s : Relay)
    → (leave_group g u s).1 ≡ record s { groups = (leave_group g u s).1.groups }
unfolding leave_group
frame-leave_group g u s = ground arith

pub frame-kick_member :
    (g u t : Text) (s : Relay)
    → (kick_member g u t s).1 ≡ record s { groups = (kick_member g u t s).1.groups }
unfolding kick_member
frame-kick_member g u t s = ground arith

pub frame-list_members : (g u : Text) (s : Relay) → (list_members g u s).1 ≡ s
unfolding list_members
frame-list_members g u s = ground arith

pub frame-store_invite :
    (g i u k : Text) (s : Relay)
    → (store_invite g i u k s).1 ≡ record s { groups = (store_invite g i u k s).1.groups }
unfolding store_invite
frame-store_invite g i u k s = ground arith

pub frame-apply_ginvite :
    (c : Crypto) (g i u r : Text) (s : Relay)
    → (apply_ginvite c g i u r s).1 ≡ record s { groups = (apply_ginvite c g i u r s).1.groups }
unfolding apply_ginvite
frame-apply_ginvite c g i u r s =
    ground (arith, frame-store_invite g i u (drop bundle_b32_len r) s, frame-store_invite g i u r s)

pub frame-save_invite :
    (c : Crypto) (now : ℕ) (g i u k : Text) (seq total : ℕ) (p : Dict ℕ Text) (s : Relay)
    → (save_invite c now g i u k seq total p s).1 ≡ record s {
      groups = (save_invite c now g i u k seq total p s).1.groups;
      ginvite_pending = (save_invite c now g i u k seq total p s).1.ginvite_pending;
    }
unfolding save_invite
frame-save_invite c now g i u k seq total p s = elim (Option-cases (gather total p)) [
  | inl missing ↦ ground arith
  | inr (full, found) ↦ ground (
    arith,
    frame-apply_ginvite c g i u full (record s { ginvite_pending = pop k s.ginvite_pending }),
  )
]

pub frame-invite_chunk :
    (c : Crypto) (now : ℕ) (g i u mid : Text) (seq total : ℕ) (content : Text) (s : Relay)
    → (invite_chunk c now g i u mid seq total content s).1 ≡ record s {
      groups = (invite_chunk c now g i u mid seq total content s).1.groups;
      ginvite_pending = (invite_chunk c now g i u mid seq total content s).1.ginvite_pending;
    }
unfolding invite_chunk
frame-invite_chunk c now g i u mid seq total content s =
    let k = invite_key i g u mid in
    elim (Option-cases (get k s.ginvite_pending)) [
      | inl new ↦ ground (
        arith,
        frame-save_invite c now g i u k seq total (put seq content [])
            (record s { ginvite_pending = invite_room s.ginvite_pending }),
      )
      | inr (p, found) ↦
          ground (arith, frame-save_invite c now g i u k seq total (put seq content p.chunks) s)
    ]

pub frame-ginvite_in_range :
    (c : Crypto) (now : ℕ) (g i u mid : Text) (seq total : ℤ) (content : Text) (s : Relay)
    → (ginvite_in_range c now g i u mid seq total content s).1 ≡ record s {
      groups = (ginvite_in_range c now g i u mid seq total content s).1.groups;
      ginvite_pending = (ginvite_in_range c now g i u mid seq total content s).1.ginvite_pending;
    }
unfolding ginvite_in_range
frame-ginvite_in_range c now g i u mid (pos seq) (pos total) content s =
    ground (arith, frame-invite_chunk c now g i u mid seq total content s)
frame-ginvite_in_range c now g i u mid (pos seq) (negsuc total) content s = refl
frame-ginvite_in_range c now g i u mid (negsuc seq) total content s = refl

pub frame-h_ginvite :
    (c : Crypto) (ls : List Text) (s : Relay)
    → (h_ginvite c ls s).1 ≡ record s { groups = (h_ginvite c ls s).1.groups }
unfolding h_ginvite
frame-h_ginvite c (g ∷ i ∷ u ∷ l ∷ ls) s = frame-apply_ginvite c g i u (join (l ∷ ls)) s
frame-h_ginvite c _ s = refl

pub frame-h_ginvite_chunked :
    (c : Crypto) (now : ℕ) (ls : List Text) (s : Relay)
    → (h_ginvite_chunked c now ls s).1 ≡ record s {
      groups = (h_ginvite_chunked c now ls s).1.groups;
      ginvite_pending = (h_ginvite_chunked c now ls s).1.ginvite_pending;
    }
unfolding h_ginvite_chunked
frame-h_ginvite_chunked c now (g ∷ i ∷ u ∷ mid ∷ seq ∷ total ∷ l ∷ ls) s =
    elim (Option-cases (int seq)) [
      | inl bad ↦ ground arith
      | inr (seq', good) ↦ elim (Option-cases (int total)) [
        | inl bad ↦ ground arith
        | inr (total', good') ↦
            ground (arith, frame-ginvite_in_range c now g i u mid seq' total' (join (l ∷ ls)) s)
      ]
    ]
frame-h_ginvite_chunked c now _ s = refl

pub frame-h_gsend :
    (now : ℕ) (ls : List Text) (s : Relay)
    → (h_gsend now ls s).1 ≡ record s {
      gm = (h_gsend now ls s).1.gm;
      delivered_mids = (h_gsend now ls s).1.delivered_mids;
    }
unfolding h_gsend
frame-h_gsend now (a ∷ b ∷ m ∷ i ∷ n ∷ l ∷ ls) s = ground arith
frame-h_gsend now _ s = refl

pub frame-read_group :
    (g u : Text) (s : Relay) → (read_group g u s).1 ≡ record s { gm = (read_group g u s).1.gm }
unfolding read_group
frame-read_group g u s = ground arith

pub frame-h_fheader :
    (now : ℕ) (ls : List Text) (s : Relay)
    → (h_fheader now ls s).1 ≡ record s { files = (h_fheader now ls s).1.files }
unfolding h_fheader header_in_range open_file
frame-h_fheader now (a ∷ b ∷ m ∷ i ∷ n ∷ l ∷ ls) s = ground arith
frame-h_fheader now _ s = refl

pub frame-h_fchunk :
    (ls : List Text) (s : Relay)
    → (h_fchunk ls s).1
      ≡ record s { files = (h_fchunk ls s).1.files; file_inbox = (h_fchunk ls s).1.file_inbox }
unfolding h_fchunk store_file_chunk add_file_chunk
frame-h_fchunk (a ∷ b ∷ m ∷ ls) s = ground arith
frame-h_fchunk _ s = refl

pub frame-take_file :
    (u : Text) (s : Relay)
    → (take_file u s).1 ≡ record s { file_inbox = (take_file u s).1.file_inbox }
unfolding take_file announce
frame-take_file u s = ground arith

pub frame-finish_disk :
    (c : Crypto) (now : ℕ) (user : Text) (entry : Account) (joined : Text) (rest : List Text)
    (s : Relay)
    → (finish_disk c now user entry joined rest s).1 ≡ record s {
      users = (finish_disk c now user entry joined rest s).1.users;
      seen_poll_nonces = (finish_disk c now user entry joined rest s).1.seen_poll_nonces;
      diskreg_pending = (finish_disk c now user entry joined rest s).1.diskreg_pending;
    }
unfolding finish_disk check_time sign_off
frame-finish_disk c now user entry joined (nonce ∷ ts ∷ l ∷ ls) s = ground arith
frame-finish_disk c now user entry joined _ s = refl

pub frame-after_chunk :
    (c : Crypto) (now : ℕ) (user : Text) (entry : Account) (seq n : ℕ) (p : Dict ℕ Text)
    (rest : List Text) (s : Relay)
    → (after_chunk c now user entry seq n p rest s).1 ≡ record s {
      users = (after_chunk c now user entry seq n p rest s).1.users;
      seen_poll_nonces = (after_chunk c now user entry seq n p rest s).1.seen_poll_nonces;
      diskreg_pending = (after_chunk c now user entry seq n p rest s).1.diskreg_pending;
    }
unfolding after_chunk
frame-after_chunk c now user entry seq n p [] s = refl
frame-after_chunk c now user entry seq n p (r ∷ rest) s = elim (Option-cases (gather n p)) [
  | inl missing ↦ ground arith
  | inr (joined, found) ↦ ground (arith, frame-finish_disk c now user entry joined (r ∷ rest) s)
]

pub frame-disk_chunk :
    (c : Crypto) (now : ℕ) (user : Text) (entry : Account) (seq n : ℕ) (content : Text)
    (rest : List Text) (s : Relay)
    → (disk_chunk c now user entry seq n content rest s).1 ≡ record s {
      users = (disk_chunk c now user entry seq n content rest s).1.users;
      seen_poll_nonces = (disk_chunk c now user entry seq n content rest s).1.seen_poll_nonces;
      diskreg_pending = (disk_chunk c now user entry seq n content rest s).1.diskreg_pending;
    }
unfolding disk_chunk
frame-disk_chunk c now user entry seq n content rest s =
    let old = if seq == 0 then [] else pending_chunks user s.diskreg_pending in
    let p = put seq content old in
    let s' : Relay = record s {
      diskreg_pending = put user (record { chunks = p; ts = now }) s.diskreg_pending;
    } in
    ground (arith, frame-after_chunk c now user entry seq n p rest s')

pub frame-disk_in_range :
    (c : Crypto) (now : ℕ) (user : Text) (seq n : ℤ) (content : Text) (rest : List Text) (s : Relay)
    → (disk_in_range c now user seq n content rest s).1 ≡ record s {
      users = (disk_in_range c now user seq n content rest s).1.users;
      seen_poll_nonces = (disk_in_range c now user seq n content rest s).1.seen_poll_nonces;
      diskreg_pending = (disk_in_range c now user seq n content rest s).1.diskreg_pending;
    }
unfolding disk_in_range disk_pinned
frame-disk_in_range c now user (pos seq) (pos n) content rest s =
    elim (Option-cases (get user s.users)) [
      | inl nobody ↦ ground arith
      | inr (entry, found) ↦ ground (arith, frame-disk_chunk c now user entry seq n content rest s)
    ]
frame-disk_in_range c now user (pos seq) (negsuc n) content rest s = refl
frame-disk_in_range c now user (negsuc seq) n content rest s = refl

pub frame-h_diskreg :
    (c : Crypto) (now : ℕ) (ls : List Text) (s : Relay)
    → (h_diskreg c now ls s).1 ≡ record s {
      users = (h_diskreg c now ls s).1.users;
      seen_poll_nonces = (h_diskreg c now ls s).1.seen_poll_nonces;
      diskreg_pending = (h_diskreg c now ls s).1.diskreg_pending;
    }
unfolding h_diskreg
frame-h_diskreg c now (user ∷ seq ∷ n ∷ content ∷ rest) s = elim (Option-cases (int seq)) [
  | inl bad ↦ ground arith
  | inr (seq', good) ↦ elim (Option-cases (int n)) [
    | inl bad ↦ ground arith
    | inr (n', fine) ↦ ground (arith, frame-disk_in_range c now user seq' n' content rest s)
  ]
]
frame-h_diskreg c now _ s = refl

-- What holds of the state after the check of a signed request, whether it is refused or goes on.
module _ (c : Crypto) (now : ℕ) (s : Relay) where
  pub with_auth-keeps :
      (P : Relay → Type 0) (user : Text) (ls : List Text) (f : Text → Text → Text → Bytes)
      (kind : Text) (run : Relay → Reply × Relay)
      → ((n : Dict Text ℕ) → P (record s { seen_poll_nonces = n }))
      → ((n : Dict Text ℕ) → P (run (record s { seen_poll_nonces = n })).1)
      → P (with_auth c now user ls f kind run s).1
  unfolding with_auth
  with_auth-keeps P user ls f kind run refused passed =
      let r = authorize_poll c now user (get user s.users) ls f kind s.seen_poll_nonces in
      elim (Option-cases (r.0)) [
        | inl ok ↦ rw (ok, with_auth) (passed (r.1))
        | inr (reply, stop) ↦ rw (stop, with_auth) (refused (r.1))
      ]
