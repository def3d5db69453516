-- ===== src/Relay/Invites/Joining.antt =====
-- Invitations in one query and in chunks (server.py, _h_ginvite, _h_ginvite_chunked).
use dns_messenger.Prelude.{
  ℕ, ◌≡◌, sym, ◌||◌, true, none, some, List, [], ◌∷◌, arith, ltb, leb, ◌==◌, list_nat_eq, nat_eq,
  length, Option-cases, Bool-cases, inl, inr,
}
use mathlib.Core.Path.{ap₂, subst}
use dns_messenger.Prelude.Int.{pos, negsuc}
use dns_messenger.Prelude.Text.{Text, int, join}
use dns_messenger.Dict.{Dict, get, put, pop}
use dns_messenger.Crypto.{Crypto}
use dns_messenger.Relay.State.{Relay, PendingInvite}
use dns_messenger.Relay.Reply.{Reply}
use dns_messenger.Relay.Assembly.{gather}
use dns_messenger.Relay.Groups.Membership.{in_group}
use dns_messenger.Relay.Invites.{
  h_ginvite, apply_ginvite, save_invite, invite_key, invite_room, invite_chunk, ginvite_in_range,
  h_ginvite_chunked,
}
use dns_messenger.Relay.Invites.Signed.{
  may_invite, Admits, JoinsBy, joins-apply_ginvite, signed_invite,
}

-- The request is an invitation of the name to the group, by a member, which signed it if its name is
-- pinned.
pub record IsInvited (c : Crypto) (labels : List Text) (gid user : Text) (s : Relay) : Type 0 where
  pub inviter : Text
  pub label : Text
  pub more : List Text
  pub sent : labels ≡ gid ∷ inviter ∷ user ∷ label ∷ more
  pub may : may_invite c gid inviter user (join (label ∷ more)) s ≡ true

-- The chunks that the relay has of an invitation.
abbrev pub stored_chunks : Text → Dict Text PendingInvite → Dict ℕ Text
stored_chunks k pending = elim (get k pending) [ none ↦ [] | some p ↦ p.chunks ]

-- The request is the last chunk of such an invitation: with those stored it makes the payload.
pub record IsInvitedInChunks (c : Crypto) (labels : List Text) (gid user : Text) (s : Relay)
    : Type 0 where
  pub inviter : Text
  pub mid : Text
  pub seq : Text
  pub total : Text
  pub label : Text
  pub more : List Text
  pub sent : labels ≡ gid ∷ inviter ∷ user ∷ mid ∷ seq ∷ total ∷ label ∷ more
  pub number : ℕ
  pub numbered : int seq ≡ some (pos number)
  pub count : ℕ
  pub counted : int total ≡ some (pos count)
  pub rest : Text
  pub gathered :
      gather count (
        put number
          (join (label ∷ more))
          (stored_chunks (invite_key inviter gid user mid) s.ginvite_pending))
      ≡ some rest
  pub may : may_invite c gid inviter user rest s ≡ true

module _ (c : Crypto) (h u : Text) (s : Relay) where
  IsJoin : Type 0 → Reply × Relay → Type 0
  IsJoin P r = JoinsBy P h u s r.1

  abbrev with_pending : Dict Text PendingInvite → Relay
  with_pending q = record s { ginvite_pending = q }

  -- The chunks make a payload with which the name is admitted.
  abbrev Complete : Text → Text → Text → ℕ → Dict ℕ Text → Type 0
  Complete gid inviter user total chunks =
      (rest : Text) × (gather total chunks ≡ some rest) × Admits c gid inviter user rest s h u

  joins-save_invite :
      (now : ℕ) (gid inviter user k : Text) (seq total : ℕ) (p : Dict ℕ Text)
      (q : Dict Text PendingInvite)
      → IsJoin
          (Complete gid inviter user total p)
          (save_invite c now gid inviter user k seq total p (with_pending q))
  unfolding save_invite IsJoin signed_invite
  joins-save_invite now gid inviter user k seq total p q =
      elim (Bool-cases (ltb (length p) total)) [
        | inl more ↦ λ there. inl (ground (arith, more, there))
        | inr full ↦ elim (Option-cases (gather total p)) [
          | inl missing ↦ λ there. inl (ground (arith, full, missing, there))
          | inr (joined, gathered) ↦ λ there.
              let after : in_group h u
                    (apply_ginvite c gid inviter user joined (with_pending (pop k q))).1.groups
                  ≡ true =
                ground (arith, full, gathered, there) in
              elim (joins-apply_ginvite c h u gid inviter user joined (with_pending (pop k q))
                after) [ inl before ↦ inl before | inr admitted ↦ inr (joined, gathered, admitted) ]
        ]
      ]

  joins-invite_chunk :
      (now : ℕ) (gid inviter user mid : Text) (seq total : ℕ) (content : Text)
      → IsJoin
          (Complete gid inviter user total
            (put seq content (stored_chunks (invite_key inviter gid user mid) s.ginvite_pending)))
          (invite_chunk c now gid inviter user mid seq total content s)
  unfolding invite_chunk IsJoin
  joins-invite_chunk now gid inviter user mid seq total content =
      let k = invite_key inviter gid user mid in
      elim (Option-cases (get k s.ginvite_pending)) [
        | inl new ↦
            let none_stored : stored_chunks k s.ginvite_pending ≡ [] = ground (arith, new) in
            subst
              (λ old.
                IsJoin (Complete gid inviter user total (put seq content old))
                  (invite_chunk c now gid inviter user mid seq total content s))
              (sym none_stored)
              (rw (new, invite_chunk)
                (joins-save_invite now gid inviter user k seq total (put seq content [])
                  (invite_room s.ginvite_pending)))
        | inr (p, found) ↦ elim (Bool-cases (p.total == total)) [
          | inr other ↦ λ there. inl (ground (arith, found, other, there))
          | inl same ↦
              let e : invite_chunk c now gid inviter user mid seq total content s
                  ≡ save_invite c now gid inviter user k seq total (put seq content p.chunks) s =
                ground (arith, found, same) in
              let stored : stored_chunks k s.ginvite_pending ≡ p.chunks = ground (arith, found) in
              subst
                (λ old.
                  IsJoin (Complete gid inviter user total (put seq content old))
                    (invite_chunk c now gid inviter user mid seq total content s))
                (sym stored)
                (subst (IsJoin (Complete gid inviter user total (put seq content p.chunks))) (sym e)
                  (joins-save_invite now gid inviter user k seq total (put seq content p.chunks)
                    s.ginvite_pending))
        ]
      ]

  joins-ginvite_in_range :
      (now : ℕ) (gid inviter user mid : Text) (seq total : ℕ) (content : Text)
      → IsJoin
          (Complete gid inviter user total
            (put seq content (stored_chunks (invite_key inviter gid user mid) s.ginvite_pending)))
          (ginvite_in_range c now gid inviter user mid (pos seq) (pos total) content s)
  unfolding ginvite_in_range IsJoin
  joins-ginvite_in_range now gid inviter user mid seq total content =
      elim (Bool-cases (ltb total 1 || ltb 1000 total || leb total seq)) [
        | inl bad ↦ λ there. inl (ground (arith, bad, there))
        | inr good ↦
            rw (good, ginvite_in_range)
              (joins-invite_chunk now gid inviter user mid seq total content)
      ]

  pub joins-h_ginvite :
      (labels : List Text) → JoinsBy (IsInvited c labels h u s) h u s (h_ginvite c labels s).1
  unfolding h_ginvite
  joins-h_ginvite (gid ∷ inviter ∷ user ∷ l ∷ ls) there =
      elim (joins-apply_ginvite c h u gid inviter user (join (l ∷ ls)) s there) [
        | inl before ↦ inl before
        | inr (e, e', may) ↦ inr (record {
          inviter = inviter;
          label = l;
          more = ls;
          sent = ap₂ (λ (x y : Text). x ∷ inviter ∷ y ∷ l ∷ ls) e e';
          may = rw (sym e, sym e') may;
        })
      ]
  joins-h_ginvite _ there = inl there

  pub joins-h_ginvite_chunked :
      (now : ℕ) (labels : List Text)
      → JoinsBy (IsInvitedInChunks c labels h u s) h u s (h_ginvite_chunked c now labels s).1
  unfolding h_ginvite_chunked ginvite_in_range IsJoin
  joins-h_ginvite_chunked now (gid ∷ inviter ∷ user ∷ mid ∷ seq ∷ total ∷ l ∷ ls) there =
      elim (Option-cases (int seq)) [
        | inl bad ↦ inl (ground (arith, bad, there))
        | inr (negsuc n, good) ↦ inl (ground (arith, good, there))
        | inr (pos n, good) ↦ elim (Option-cases (int total)) [
          | inl bad ↦ inl (ground (arith, good, bad, there))
          | inr (negsuc m, fine) ↦ inl (ground (arith, good, fine, there))
          | inr (pos m, fine) ↦
              let same : h_ginvite_chunked c now (gid ∷ inviter ∷ user ∷ mid ∷ seq ∷ total ∷ l ∷ ls)
                    s
                  ≡ ginvite_in_range c now gid inviter user mid (pos n) (pos m) (join (l ∷ ls)) s =
                ground (arith, good, fine) in
              let after =
                subst (λ (r : Reply × Relay). in_group h u r.1.groups ≡ true) same there in
              elim (joins-ginvite_in_range now gid inviter user mid n m (join (l ∷ ls)) after) [
                | inl before ↦ inl before
                | inr (rest, gathered, (e, e', may)) ↦ inr (record {
                  inviter = inviter;
                  mid = mid;
                  seq = seq;
                  total = total;
                  label = l;
                  more = ls;
                  sent = ap₂ (λ (x y : Text). x ∷ inviter ∷ y ∷ mid ∷ seq ∷ total ∷ l ∷ ls) e e';
                  number = n;
                  numbered = good;
                  count = m;
                  counted = fine;
                  rest = rest;
                  gathered = rw (sym e, sym e') gathered;
                  may = rw (sym e, sym e') may;
                })
              ]
        ]
      ]
  joins-h_ginvite_chunked now _ there = inl there
