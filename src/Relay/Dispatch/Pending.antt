-- ===== src/Relay/Dispatch/Pending.antt =====
-- The size of the stores of unfinished invitations and folder keys (server.py).
use dns_messenger.Prelude.{
  ℕ, ◌≤◌, ◌<◌, ◌≡◌, refl, sym, ap, ◌&&◌, ◌||◌, not, some, List, [], ◌∷◌, arith, if◌then◌else◌, ltb,
  leb, ◌==◌, list_nat_eq, nat_eq, length, Option-cases, Bool-cases, inl, inr,
}
use mathlib.Core.Path.{subst}
use dns_messenger.Prelude.Int.{ℤ, pos, negsuc}
use dns_messenger.Prelude.Text.{Text, int, join}
use dns_messenger.Prelude.Base64.{b64encode}
use dns_messenger.Dict.{Dict, get, has, put, pop}
use dns_messenger.Dict.Laws.{length-put, length-put-le, length-pop-le, length-pop-lt}
use dns_messenger.Dict.Oldest.{has-oldest, oldest-some}
use dns_messenger.Protocol.{b32decode}
use dns_messenger.Crypto.{Crypto}
use dns_messenger.Relay.State.{Relay, Account, PendingInvite, PendingDisk, max_incomplete}
use dns_messenger.Relay.Reply.{Reply}
use dns_messenger.Relay.Assembly.{gather}
use dns_messenger.Relay.Invites.{
  save_invite, invite_chunk, invite_key, invite_room, ginvite_in_range, h_ginvite_chunked,
}
use dns_messenger.Relay.Disk.{
  pending_chunks, sign_off, check_time, finish_disk, after_chunk, disk_chunk, disk_pinned,
  disk_in_range, h_diskreg,
}
use dns_messenger.Relay.Dispatch.Frames.{frame-apply_ginvite}
use dns_messenger.Relay.Dispatch.Stores.{groups-apply_ginvite}

length-invite_room :
    (pending : Dict Text PendingInvite)
    → length pending ≤ max_incomplete
    → length (invite_room pending) < max_incomplete
unfolding invite_room
length-invite_room pending few = elim (Bool-cases (leb max_incomplete (length pending))) [
  | inr room ↦ ground arith
  | inl full ↦
      let (o, found) = oldest-some (λ (p : PendingInvite). p.ts) pending (ground arith) in
      ground (
        arith,
        found,
        length-pop-lt o pending (has-oldest (λ (p : PendingInvite). p.ts) pending o found),
      )
]

-- The groups that there were, and no more unfinished invitations than the limit.
abbrev pub Fits : Relay → Relay → Type 0
Fits s s' = (length s'.groups ≡ length s.groups) × (length s'.ginvite_pending ≤ max_incomplete)

module _ (c : Crypto) (s : Relay) where
  Fits-save_invite :
      (now : ℕ) (gid i u k : Text) (seq total : ℕ) (p : Dict ℕ Text) (q : Dict Text PendingInvite)
      → length q ≤ max_incomplete
      → ((x : PendingInvite) → length (put k x q) ≤ max_incomplete)
      → Fits s (save_invite c now gid i u k seq total p (record s { ginvite_pending = q })).1
  unfolding save_invite
  Fits-save_invite now gid i u k seq total p q few room =
      let x : PendingInvite = record { chunks = p; total = total; ts = now } in
      elim (Option-cases (gather total p)) [
        | inl missing ↦ (ground arith, ground (arith, room x))
        | inr (full, joined) ↦
            let s' : Relay = record s { ginvite_pending = pop k q } in
            let same =
              ap (λ (r : Relay). r.ginvite_pending) (frame-apply_ginvite c gid i u full s') in
            (
              ground (arith, groups-apply_ginvite c gid i u full s'),
              ground (arith, room x, same, length-pop-le k q),
            )
      ]

  module _ (few : length s.ginvite_pending ≤ max_incomplete) where
    Fits-invite_chunk :
        (now : ℕ) (gid i u mid : Text) (seq total : ℕ) (content : Text)
        → Fits s (invite_chunk c now gid i u mid seq total content s).1
    unfolding invite_chunk
    Fits-invite_chunk now gid i u mid seq total content =
        let k = invite_key i gid u mid in
        let q = invite_room s.ginvite_pending in
        let small = length-invite_room s.ginvite_pending few in
        elim (Option-cases (get k s.ginvite_pending)) [
          | inl new ↦
              rw (new, invite_chunk)
                (Fits-save_invite now gid i u k seq total (put seq content []) q
                  (omega (arith, small)) (λ x. omega (arith, small, length-put-le k x q)))
          | inr (p, found) ↦ elim (Bool-cases (p.total == total)) [
            | inr other ↦ (ground (arith, found, other), ground (arith, found, other, few))
            | inl same ↦
                let e : invite_chunk c now gid i u mid seq total content s
                    ≡ save_invite c now gid i u k seq total (put seq content p.chunks) s =
                  ground (arith, found, same) in
                subst (λ (r : Reply × Relay). Fits s r.1) (sym e)
                  (Fits-save_invite now gid i u k seq total (put seq content p.chunks)
                    s.ginvite_pending few
                    (λ x. ground (arith, found, few, length-put k x s.ginvite_pending)))
          ]
        ]

    Fits-ginvite_in_range :
        (now : ℕ) (gid i u mid : Text) (seq total : ℤ) (content : Text)
        → Fits s (ginvite_in_range c now gid i u mid seq total content s).1
    unfolding ginvite_in_range
    Fits-ginvite_in_range now gid i u mid (pos seq) (pos total) content =
        elim (Bool-cases (ltb total 1 || ltb 1000 total || leb total seq)) [
          | inl bad ↦ rw (bad, ginvite_in_range) (refl, few)
          | inr good ↦
              rw (good, ginvite_in_range) (Fits-invite_chunk now gid i u mid seq total content)
        ]
    Fits-ginvite_in_range now gid i u mid (pos seq) (negsuc total) content = (refl, few)
    Fits-ginvite_in_range now gid i u mid (negsuc seq) total content = (refl, few)

    pub Fits-h_ginvite_chunked :
        (now : ℕ) (ls : List Text) → Fits s (h_ginvite_chunked c now ls s).1
    unfolding h_ginvite_chunked
    Fits-h_ginvite_chunked now (gid ∷ i ∷ u ∷ mid ∷ seq ∷ total ∷ l ∷ ls) =
        elim (Option-cases (int seq)) [
          | inl bad ↦ rw (bad, h_ginvite_chunked) (refl, few)
          | inr (seq', good) ↦ elim (Option-cases (int total)) [
            | inl bad ↦ rw (good, bad, h_ginvite_chunked) (refl, few)
            | inr (total', fine) ↦
                rw (good, fine, h_ginvite_chunked)
                  (Fits-ginvite_in_range now gid i u mid seq' total' (join (l ∷ ls)))
          ]
        ]
    Fits-h_ginvite_chunked now _ = (refl, few)

-- The busy test lets a new name in up to 500 others.
abbrev pub max_diskreg_pending : ℕ
max_diskreg_pending = 501

-- The names that there were, and no more unfinished folder keys than the limit.
abbrev pub FitsDisk : Relay → Relay → Type 0
FitsDisk s s' =
    (length s'.users ≡ length s.users) × (length s'.diskreg_pending ≤ max_diskreg_pending)

module _ (c : Crypto) (now : ℕ) (user : Text) (entry : Account) where
  FitsDisk-finish_disk :
      (joined : Text) (rest : List Text) (s : Relay)
      → get user s.users ≡ some entry
      → length s.diskreg_pending ≤ max_diskreg_pending
      → FitsDisk s (finish_disk c now user entry joined rest s).1
  unfolding finish_disk check_time sign_off
  FitsDisk-finish_disk joined (nonce ∷ ts ∷ l ∷ ls) s found few =
      elim (Option-cases (b32decode joined)) [
        | inl bad ↦ (ground arith, ground (arith, few))
        | inr (raw, fine) ↦ (
          ground (
            arith,
            length-put user (record entry { disk_pubkey = some (b64encode raw) }) s.users,
          ),
          ground (arith, few, length-pop-le user s.diskreg_pending),
        )
      ]
  FitsDisk-finish_disk joined [] s found few = (refl, few)
  FitsDisk-finish_disk joined (_ ∷ []) s found few = (refl, few)
  FitsDisk-finish_disk joined (_ ∷ _ ∷ []) s found few = (refl, few)

  FitsDisk-after_chunk :
      (seq n : ℕ) (p : Dict ℕ Text) (rest : List Text) (s : Relay)
      → get user s.users ≡ some entry
      → length s.diskreg_pending ≤ max_diskreg_pending
      → FitsDisk s (after_chunk c now user entry seq n p rest s).1
  unfolding after_chunk
  FitsDisk-after_chunk seq n p [] s found few = (refl, few)
  FitsDisk-after_chunk seq n p (r ∷ rest) s found few = elim (Option-cases (gather n p)) [
    | inl missing ↦ (ground arith, ground (arith, few))
    | inr (joined, full) ↦
        let fits = FitsDisk-finish_disk joined (r ∷ rest) s found few in
        (ground (arith, full, fits.0), ground (arith, full, fits.1, few))
  ]

  FitsDisk-disk_chunk :
      (seq n : ℕ) (content : Text) (rest : List Text) (s : Relay)
      → get user s.users ≡ some entry
      → length s.diskreg_pending ≤ max_diskreg_pending
      → FitsDisk s (disk_chunk c now user entry seq n content rest s).1
  unfolding disk_chunk
  FitsDisk-disk_chunk seq n content rest s found few =
      let busy = ltb 500 (length s.diskreg_pending) && not (has user s.diskreg_pending) in
      elim (Bool-cases busy) [
        | inl full ↦ rw (full, disk_chunk) (refl, few)
        | inr room ↦
            let old = if seq == 0 then [] else pending_chunks user s.diskreg_pending in
            let p = put seq content old in
            let x : PendingDisk = record { chunks = p; ts = now } in
            let s' : Relay = record s { diskreg_pending = put user x s.diskreg_pending } in
            let few' : length s'.diskreg_pending ≤ 501 =
              ground (arith, room, few, length-put user x s.diskreg_pending) in
            rw (room, disk_chunk) (FitsDisk-after_chunk seq n p rest s' found few')
      ]

module _ (c : Crypto) (now : ℕ) (s : Relay)
    (few : length s.diskreg_pending ≤ max_diskreg_pending) where
  FitsDisk-disk_in_range :
      (user : Text) (seq n : ℤ) (content : Text) (rest : List Text)
      → FitsDisk s (disk_in_range c now user seq n content rest s).1
  unfolding disk_in_range disk_pinned
  FitsDisk-disk_in_range user (pos seq) (pos n) content rest =
      elim (Option-cases (get user s.users)) [
        | inl nobody ↦ (ground (arith, nobody), ground (arith, nobody, few))
        | inr (entry, found) ↦
            let fits = FitsDisk-disk_chunk c now user entry seq n content rest s found few in
            (ground (arith, found, fits.0), ground (arith, found, fits.1, few))
      ]
  FitsDisk-disk_in_range user (pos seq) (negsuc n) content rest = (refl, few)
  FitsDisk-disk_in_range user (negsuc seq) n content rest = (refl, few)

  pub FitsDisk-h_diskreg : (ls : List Text) → FitsDisk s (h_diskreg c now ls s).1
  unfolding h_diskreg
  FitsDisk-h_diskreg (user ∷ seq ∷ n ∷ content ∷ rest) = elim (Option-cases (int seq)) [
    | inl bad ↦ rw (bad, h_diskreg) (refl, few)
    | inr (seq', good) ↦ elim (Option-cases (int n)) [
      | inl bad ↦ rw (good, bad, h_diskreg) (refl, few)
      | inr (n', fine) ↦
          rw (good, fine, h_diskreg) (FitsDisk-disk_in_range user seq' n' content rest)
    ]
  ]
  FitsDisk-h_diskreg _ = (refl, few)
