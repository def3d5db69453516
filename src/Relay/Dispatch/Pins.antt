-- ===== src/Relay/Dispatch/Pins.antt =====
-- Which commands change the accounts, and what that leaves of a pin (server.py, the handlers).
use dns_messenger.Prelude.{
  ℕ, ◌≡◌, ◌∙◌, refl, Option, some, List, [], ◌∷◌, if◌then◌else◌, arith, list_nat_eq, nat_eq,
  list_eq_iff, ◌==◌, Option-cases, Bool-cases, inl, inr,
}
use dns_messenger.Prelude.Int.{ℤ, pos, negsuc}
use dns_messenger.Prelude.Text.{Text, Bytes, int, join}
use dns_messenger.Dict.{Dict, get, put}
use dns_messenger.Crypto.{Crypto, split_bundle}
use dns_messenger.Relay.State.{Relay, Account}
use dns_messenger.Relay.Reply.{Reply}
use dns_messenger.Relay.Auth.{with_auth}
use dns_messenger.Relay.Assembly.{h_poll, poll_box}
use dns_messenger.Relay.Groups.{
  h_glist, h_gleave, h_gkick, h_gmembers, list_groups, leave_group, kick_member, list_members,
}
use dns_messenger.Relay.GroupMail.{h_gpoll, read_group}
use dns_messenger.Relay.Files.{h_fpoll, h_fdownload, take_file}
use dns_messenger.Relay.Disk.{
  h_diskreg, h_disklist, sign_off, check_time, finish_disk, after_chunk, disk_chunk, disk_pinned,
  disk_in_range, pending_chunks,
}
use dns_messenger.Relay.Accounts.Pinned.{pin_of}
use dns_messenger.Prelude.Base64.{b64encode}
use dns_messenger.Protocol.{b32decode}
use dns_messenger.Relay.Assembly.{gather}
use dns_messenger.Dict.Laws.{get-put}
use mathlib.Core.Path.{subst}
use dns_messenger.Prelude.{sym, ap, ◌++◌}
use dns_messenger.Prelude.Text.{text}
use dns_messenger.Crypto.{
  poll_signing_input, gpoll_signing_input, glist_signing_input, gleave_signing_input,
  gkick_signing_input, gmembers_signing_input, fpoll_signing_input,
}
use dns_messenger.Relay.Accounts.{h_getkey, h_list_users}
use dns_messenger.Relay.Accounts.Pinned.{pin_of-h_register}
use dns_messenger.Relay.Evict.{evict, sweep_all}
use dns_messenger.Relay.Limiter.{rrl_allow}
use dns_messenger.Relay.Reply.{Exception}
use dns_messenger.Relay.Dispatch.{
  Command, call, handle, dispatch_table, labels_of, rstrip_dots, answer, handle_query, receive,
  Datagram, serve,
}
use dns_messenger.Relay.Dispatch.Frames.{
  frame-h_send, frame-poll_box, frame-h_gcreate, frame-h_ginvite, frame-h_ginvite_chunked,
  frame-h_gsend, frame-read_group, frame-list_groups, frame-leave_group, frame-kick_member,
  frame-list_members, frame-h_fheader, frame-h_fchunk, frame-take_file, with_auth-keeps,
}

-- The pins after a registration of a disk key, whose account keeps its bundle and its pin.
pin_of-sign_off :
    (c : Crypto) (now : ℕ) (user : Text) (entry : Account) (pk nonce ts : Text) (sig ed_pub : Bytes)
    (s : Relay) (u : Text)
    → get user s.users ≡ some entry
    → pin_of u (sign_off c now user entry pk nonce ts sig ed_pub s).1.users ≡ pin_of u s.users
unfolding sign_off
pin_of-sign_off c now user entry pk nonce ts sig ed_pub s u h =
    ground
      (arith, get-put user u (record entry { disk_pubkey = some pk }) s.users, list_eq_iff user u)

pin_of-finish_disk :
    (c : Crypto) (now : ℕ) (user : Text) (entry : Account) (joined : Text) (rest : List Text)
    (s : Relay) (u : Text)
    → get user s.users ≡ some entry
    → pin_of u (finish_disk c now user entry joined rest s).1.users ≡ pin_of u s.users
unfolding finish_disk check_time
pin_of-finish_disk c now user entry joined (nonce ∷ ts ∷ l ∷ ls) s u h =
    elim (Option-cases (b32decode (join (l ∷ ls)))) [
      | inl bad ↦ ground arith
      | inr (sig, good) ↦ elim (Option-cases (b32decode joined)) [
        | inl bad ↦ ground arith
        | inr (raw, fine) ↦ elim (Option-cases ((split_bundle entry.bundle).1)) [
          | inl short ↦ ground arith
          | inr (ed_pub, found) ↦
              ground
                (arith, pin_of-sign_off c now user entry (b64encode raw) nonce ts sig ed_pub s u h)
        ]
      ]
    ]
pin_of-finish_disk c now user entry joined [] s u h = refl
pin_of-finish_disk c now user entry joined (_ ∷ []) s u h = refl
pin_of-finish_disk c now user entry joined (_ ∷ _ ∷ []) s u h = refl

pin_of-after_chunk :
    (c : Crypto) (now : ℕ) (user : Text) (entry : Account) (seq n : ℕ) (p : Dict ℕ Text)
    (rest : List Text) (s : Relay) (u : Text)
    → get user s.users ≡ some entry
    → pin_of u (after_chunk c now user entry seq n p rest s).1.users ≡ pin_of u s.users
unfolding after_chunk
pin_of-after_chunk c now user entry seq n p [] s u h = refl
pin_of-after_chunk c now user entry seq n p (r ∷ rest) s u h = elim (Option-cases (gather n p)) [
  | inl missing ↦ ground arith
  | inr (joined, found) ↦
      ground (arith, pin_of-finish_disk c now user entry joined (r ∷ rest) s u h)
]

pin_of-disk_chunk :
    (c : Crypto) (now : ℕ) (user : Text) (entry : Account) (seq n : ℕ) (content : Text)
    (rest : List Text) (s : Relay) (u : Text)
    → get user s.users ≡ some entry
    → pin_of u (disk_chunk c now user entry seq n content rest s).1.users ≡ pin_of u s.users
unfolding disk_chunk
pin_of-disk_chunk c now user entry seq n content rest s u h =
    let old = if seq == 0 then [] else pending_chunks user s.diskreg_pending in
    let p = put seq content old in
    let s' : Relay = record s {
      diskreg_pending = put user (record { chunks = p; ts = now }) s.diskreg_pending;
    } in
    ground (arith, pin_of-after_chunk c now user entry seq n p rest s' u h)

pin_of-disk_in_range :
    (c : Crypto) (now : ℕ) (user : Text) (seq n : ℤ) (content : Text) (rest : List Text) (s : Relay)
    (u : Text)
    → pin_of u (disk_in_range c now user seq n content rest s).1.users ≡ pin_of u s.users
unfolding disk_in_range disk_pinned
pin_of-disk_in_range c now user (pos seq) (pos n) content rest s u =
    elim (Option-cases (get user s.users)) [
      | inl nobody ↦ ground arith
      | inr (entry, found) ↦
          ground (arith, pin_of-disk_chunk c now user entry seq n content rest s u found)
    ]
pin_of-disk_in_range c now user (pos seq) (negsuc n) content rest s u = refl
pin_of-disk_in_range c now user (negsuc seq) n content rest s u = refl

pin_of-h_diskreg :
    (c : Crypto) (now : ℕ) (ls : List Text) (s : Relay) (u : Text)
    → pin_of u (h_diskreg c now ls s).1.users ≡ pin_of u s.users
unfolding h_diskreg
pin_of-h_diskreg c now (user ∷ seq ∷ n ∷ content ∷ rest) s u = elim (Option-cases (int seq)) [
  | inl bad ↦ ground arith
  | inr (seq', good) ↦ elim (Option-cases (int n)) [
    | inl bad ↦ ground arith
    | inr (n', good') ↦ ground (arith, pin_of-disk_in_range c now user seq' n' content rest s u)
  ]
]
pin_of-h_diskreg c now _ s u = refl

module _ (c : Crypto) (now : ℕ) (s : Relay) (u : Text) (b : Bytes)
    (h : pin_of u s.users ≡ some b) where
  same : {users : Dict Text Account} → users ≡ s.users → pin_of u users ≡ some b
  same e = subst (λ x. pin_of u x ≡ some b) (sym e) h

  same_auth :
      (user : Text) (ls : List Text) (f : Text → Text → Text → Bytes) (kind : Text)
      (run : Relay → Reply × Relay)
      → ((s' : Relay) → (run s').1.users ≡ s'.users)
      → pin_of u (with_auth c now user ls f kind run s).1.users ≡ some b
  same_auth user ls f kind run e =
      with_auth-keeps c now s (λ s'. pin_of u s'.users ≡ some b) user ls f kind run (λ n. h)
        (λ n. same (e (record s { seen_poll_nonces = n })))

  pin_of-call : (k : Command) (ls : List Text) → pin_of u (call c now k ls s).1.users ≡ some b
  unfolding call h_poll h_gpoll h_glist h_gleave h_gkick h_gmembers h_fpoll h_getkey h_list_users
      h_fdownload h_disklist
  pin_of-call Command.register ls = pin_of-h_register c now ls s u b h
  pin_of-call Command.getkey [] = h
  pin_of-call Command.getkey (l ∷ ls) = same (ground arith)
  pin_of-call Command.send ls = same (ap (λ (r : Relay). r.users) (frame-h_send now ls s))
  pin_of-call Command.poll [] = h
  pin_of-call Command.poll (user ∷ ls) =
      same_auth user (user ∷ ls) poll_signing_input (text "dm") (poll_box user)
        (λ x. ap (λ (r : Relay). r.users) (frame-poll_box user x))
  pin_of-call Command.gcreate ls = same (ap (λ (r : Relay). r.users) (frame-h_gcreate now ls s))
  pin_of-call Command.ginvite ls = same (ap (λ (r : Relay). r.users) (frame-h_ginvite c ls s))
  pin_of-call Command.ginvite_chunked ls =
      same (ap (λ (r : Relay). r.users) (frame-h_ginvite_chunked c now ls s))
  pin_of-call Command.gsend ls = same (ap (λ (r : Relay). r.users) (frame-h_gsend now ls s))
  pin_of-call Command.gpoll (g ∷ user ∷ ls) =
      same_auth user (user ∷ ls) (λ x n ts. gpoll_signing_input g x n ts) (text "gpoll:" ++ g)
        (read_group g user) (λ x. ap (λ (r : Relay). r.users) (frame-read_group g user x))
  pin_of-call Command.gpoll (g ∷ []) = h
  pin_of-call Command.gpoll [] = h
  pin_of-call Command.glist [] = h
  pin_of-call Command.glist (user ∷ ls) =
      same_auth user (user ∷ ls) glist_signing_input (text "glist") (list_groups user)
        (λ x. ap (λ (r : Relay). r.users) (frame-list_groups user x))
  pin_of-call Command.gleave (g ∷ user ∷ ls) =
      same_auth user (user ∷ ls) (λ x n ts. gleave_signing_input g x n ts) (text "gleave:" ++ g)
        (leave_group g user) (λ x. ap (λ (r : Relay). r.users) (frame-leave_group g user x))
  pin_of-call Command.gleave (g ∷ []) = h
  pin_of-call Command.gleave [] = h
  pin_of-call Command.gkick (g ∷ user ∷ t ∷ ls) =
      same_auth user (t ∷ ls) (λ x n ts. gkick_signing_input g x t n ts) (text "gkick:" ++ g)
        (kick_member g user t) (λ x. ap (λ (r : Relay). r.users) (frame-kick_member g user t x))
  pin_of-call Command.gkick (g ∷ user ∷ []) = h
  pin_of-call Command.gkick (g ∷ []) = h
  pin_of-call Command.gkick [] = h
  pin_of-call Command.gmembers (g ∷ user ∷ ls) =
      same_auth user (user ∷ ls) (λ x n ts. gmembers_signing_input g x n ts) (text "gmembers:" ++ g)
        (list_members g user) (λ x. ap (λ (r : Relay). r.users) (frame-list_members g user x))
  pin_of-call Command.gmembers (g ∷ []) = h
  pin_of-call Command.gmembers [] = h
  pin_of-call Command.fheader ls = same (ap (λ (r : Relay). r.users) (frame-h_fheader now ls s))
  pin_of-call Command.fchunk ls = same (ap (λ (r : Relay). r.users) (frame-h_fchunk ls s))
  pin_of-call Command.fpoll [] = h
  pin_of-call Command.fpoll (user ∷ ls) =
      same_auth user (user ∷ ls) fpoll_signing_input (text "file") (take_file user)
        (λ x. ap (λ (r : Relay). r.users) (frame-take_file user x))
  pin_of-call Command.fdownload (f ∷ i ∷ ls) = same (ground arith)
  pin_of-call Command.fdownload (f ∷ []) = h
  pin_of-call Command.fdownload [] = h
  pin_of-call Command.list_users ls = same (ground arith)
  pin_of-call Command.diskreg ls = pin_of-h_diskreg c now ls s u ∙ h
  pin_of-call Command.disklist ls = same (ground arith)

  pin_of-handle : (q : Text × List Text) → pin_of u (handle c now q s).1.users ≡ some b
  unfolding handle
  pin_of-handle (cmd, args) = elim (Option-cases (get cmd dispatch_table)) [
    | inl unknown ↦ rw (unknown, handle) h
    | inr (k, found) ↦ rw (found, handle) (pin_of-call k args)
  ]

users-evict : (now : ℕ) (s : Relay) → (evict now s).users ≡ s.users
unfolding evict sweep_all
users-evict now s = ground arith

module _ (parse : Bytes → Option Text) (message : Exception → Text) (c : Crypto)
    (domain : Text) where
  pin_of-receive :
      (now : ℕ) (ip : Text) (raw : Bytes) (s : Relay) (u : Text) (b : Bytes)
      → pin_of u s.users ≡ some b
      → pin_of u (receive parse message c domain now ip raw s).1.users ≡ some b
  unfolding receive handle_query answer
  pin_of-receive now ip raw s u b h =
      let limited : Relay = record s { limiter = (rrl_allow now ip s.limiter).1 } in
      let swept = evict now limited in
      let kept : pin_of u swept.users ≡ some b =
        subst (λ x. pin_of u x ≡ some b) (sym (users-evict now limited)) h in
      elim (Bool-cases ((rrl_allow now ip s.limiter).0)) [
        | inr refused ↦ ground (arith, refused, h)
        | inl allowed ↦ elim (Option-cases (parse raw)) [
          | inl bad ↦ ground (arith, allowed, bad, kept)
          | inr (name, good) ↦ ground (
            arith,
            allowed,
            good,
            kept,
            pin_of-handle c now swept u b kept (labels_of domain (rstrip_dots name)),
          )
        ]
      ]

  -- A name that is pinned to a bundle stays pinned to it whatever datagrams the relay receives, in
  -- whatever order and from whatever addresses.
  pub pin_of-serve :
      (queries : List Datagram) (s : Relay) (u : Text) (b : Bytes)
      → pin_of u s.users ≡ some b
      → pin_of u (serve parse message c domain queries s).users ≡ some b
  unfolding serve
  pin_of-serve [] s u b h = h
  pin_of-serve (q ∷ queries) s u b h =
      pin_of-serve queries (receive parse message c domain q.time q.ip q.raw s).1 u b
        (pin_of-receive q.time q.ip q.raw s u b h)
