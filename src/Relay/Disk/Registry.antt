-- ===== src/Relay/Disk/Registry.antt =====
-- Who sets a disk key (server.py, _h_diskreg).
use dns_messenger.Prelude.{
  ℕ, ◌+◌, ◌≡◌, ◌≢◌, ◌⊎◌, refl, sym, ap, ◌∙◌, true, false, ◌&&◌, ◌||◌, not, Option, none, some, List,
  [], ◌∷◌, ◌++◌, arith, if◌then◌else◌, ltb, leb, ◌==◌, list_eq, list_eq_iff, list_nat_eq, nat_eq,
  length, Option-cases, Bool-cases, inl, inr,
}
use mathlib.Core.Path.{subst}
use dns_messenger.Prelude.Int.{ℤ, pos, negsuc}
use dns_messenger.Prelude.Text.{Text, Bytes, text, join, int, isdigit}
use dns_messenger.Prelude.Base64.{b64encode}
use dns_messenger.Dict.{Dict, get, has, put}
use dns_messenger.Dict.Laws.{get-put}
use dns_messenger.Protocol.{b32decode}
use dns_messenger.Crypto.{Crypto, split_bundle, verify_sig, disk_register_signing_input}
use dns_messenger.Relay.State.{Relay, Account}
use dns_messenger.Relay.Reply.{Reply}
use dns_messenger.Relay.Auth.{accept_poll_nonce, outside_window}
use dns_messenger.Relay.Assembly.{gather}
use dns_messenger.Relay.Disk.{
  pending_chunks, sign_off, check_time, finish_disk, after_chunk, disk_chunk, disk_pinned,
  disk_in_range, h_diskreg,
}

-- The folder key that a name has registered.
abbrev pub disk_key_of : Text → Dict Text Account → Option Text
disk_key_of u users = elim (get u users) [ none ↦ none | some a ↦ a.disk_pubkey ]

-- The request carries, behind its chunk, a signature under the key of the name's own bundle, over the name, the hash of
-- the folder key, a nonce that the relay had not seen, and a time that is near.
pub record IsRegistered (c : Crypto) (now : ℕ) (rest : List Text) (user pubkey : Text) (s : Relay)
    : Type 0 where
  pub label : Text
  pub more : List Text
  pub entry : Account
  pub found : get user s.users ≡ some entry
  pub pinned : entry.pinned ≡ true
  pub ed_pub : Bytes
  pub bundled : (split_bundle entry.bundle).1 ≡ some ed_pub
  pub nonce : Text
  pub ts : Text
  pub time : ℤ
  pub sent : rest ≡ nonce ∷ ts ∷ label ∷ more
  pub stamped : int ts ≡ some time
  pub near : outside_window now time ≡ false
  pub sig : Bytes
  pub decoded : b32decode (join (label ∷ more)) ≡ some sig
  pub signed : verify_sig c ed_pub (disk_register_signing_input c user pubkey nonce ts) sig ≡ true
  pub fresh : (accept_poll_nonce now (text "diskreg:" ++ user) nonce s.seen_poll_nonces).0 ≡ true

module _ (c : Crypto) (now : ℕ) (user : Text) (s : Relay) where
  -- The accounts are the same, or the name has a key that counts.
  Outcome : List Text → Dict Text Account → Type 0
  Outcome rest users =
      (users ≡ s.users)
      ⊎ ((pk : Text) × (r : IsRegistered c now rest user pk s) × (users
            ≡ put user (record (r.entry) { disk_pubkey = some pk }) s.users))

  module _ (entry : Account) (found : get user s.users ≡ some entry)
      (pinned : entry.pinned ≡ true) where
    module _ (s' : Relay) (same : s'.users ≡ s.users)
        (same_seen : s'.seen_poll_nonces ≡ s.seen_poll_nonces) where
      outcome-check_time :
          (pk nonce ts label : Text) (more : List Text) (sig : Bytes)
          → b32decode (join (label ∷ more)) ≡ some sig
          → Outcome
              (nonce ∷ ts ∷ label ∷ more)
              (check_time c now user entry pk nonce ts sig s').1.users
      unfolding check_time sign_off Outcome
      outcome-check_time pk nonce ts label more sig decoded = elim (Option-cases (int ts)) [
        | inl bad ↦ inl (ground arith)
        | inr (t, stamped) ↦ elim (Bool-cases (outside_window now t)) [
          | inl far ↦ inl (ground arith)
          | inr near ↦ elim (Option-cases ((split_bundle entry.bundle).1)) [
            | inl short ↦ inl (ground arith)
            | inr (ed_pub, bundled) ↦
                let message = disk_register_signing_input c user pk nonce ts in
                elim (Bool-cases (length sig == 64 && verify_sig c ed_pub message sig)) [
                  | inr forged ↦ inl (ground arith)
                  | inl good ↦
                      let scope = text "diskreg:" ++ user in
                      elim (Bool-cases
                        ((accept_poll_nonce now scope nonce s'.seen_poll_nonces).0)) [
                          | inr stale ↦ inl (ground arith)
                          | inl new ↦ inr (
                            pk,
                            record {
                              entry = entry;
                              found = found;
                              pinned = pinned;
                              ed_pub = ed_pub;
                              bundled = bundled;
                              label = label;
                              more = more;
                              nonce = nonce;
                              ts = ts;
                              time = t;
                              sent = refl;
                              decoded = decoded;
                              stamped = stamped;
                              near = near;
                              sig = sig;
                              signed = ground arith;
                              fresh =
                                  subst (λ n. (accept_poll_nonce now scope nonce n).0 ≡ true)
                                    same_seen new;
                            },
                            ground arith,
                          )
                        ]
                ]
          ]
        ]
      ]

      outcome-finish_disk :
          (joined : Text) (rest : List Text)
          → Outcome rest (finish_disk c now user entry joined rest s').1.users
      unfolding finish_disk Outcome
      outcome-finish_disk joined (nonce ∷ ts ∷ l ∷ ls) = elim (Bool-cases (isdigit ts)) [
        | inr bad ↦ inl (ground arith)
        | inl digits ↦ elim (Option-cases (b32decode (join (l ∷ ls)))) [
          | inl bad ↦ inl (ground arith)
          | inr (sig, good) ↦ elim (Option-cases (b32decode joined)) [
            | inl bad ↦ inl (ground arith)
            | inr (raw, fine) ↦
                rw (digits, good, fine, finish_disk)
                  (outcome-check_time (b64encode raw) nonce ts l ls sig good)
          ]
        ]
      ]
      outcome-finish_disk joined [] = inl same
      outcome-finish_disk joined (_ ∷ []) = inl same
      outcome-finish_disk joined (_ ∷ _ ∷ []) = inl same

      outcome-after_chunk :
          (seq n : ℕ) (p : Dict ℕ Text) (rest : List Text)
          → Outcome rest (after_chunk c now user entry seq n p rest s').1.users
      unfolding after_chunk Outcome
      outcome-after_chunk seq n p [] = inl same
      outcome-after_chunk seq n p (r ∷ rest) = elim (Bool-cases (seq + 1 == n)) [
        | inr early ↦ inl (ground arith)
        | inl last ↦ elim (Bool-cases (length p == n)) [
          | inr few ↦ inl (ground arith)
          | inl full ↦ elim (Option-cases (gather n p)) [
            | inl missing ↦ inl (ground arith)
            | inr (joined, gathered) ↦
                rw (last, full, gathered, after_chunk) (outcome-finish_disk joined (r ∷ rest))
          ]
        ]
      ]

    outcome-disk_chunk :
        (seq n : ℕ) (content : Text) (rest : List Text)
        → Outcome rest (disk_chunk c now user entry seq n content rest s).1.users
    unfolding disk_chunk Outcome
    outcome-disk_chunk seq n content rest =
        elim (Bool-cases (ltb 500 (length s.diskreg_pending) && not (has user s.diskreg_pending))) [
          | inl busy ↦ inl (ground arith)
          | inr room ↦
              let old = if seq == 0 then [] else pending_chunks user s.diskreg_pending in
              let p = put seq content old in
              let s' : Relay = record s {
                diskreg_pending = put user (record { chunks = p; ts = now }) s.diskreg_pending;
              } in
              rw (room, disk_chunk) (outcome-after_chunk s' refl refl seq n p rest)
        ]

  outcome-disk_in_range :
      (seq n : ℤ) (content : Text) (rest : List Text)
      → Outcome rest (disk_in_range c now user seq n content rest s).1.users
  unfolding disk_in_range disk_pinned Outcome
  outcome-disk_in_range (pos seq) (pos n) content rest =
      elim (Bool-cases (n == 0 || ltb 8 n || leb n seq)) [
        | inl bad ↦ inl (ground arith)
        | inr good ↦ elim (Option-cases (get user s.users)) [
          | inl nobody ↦ inl (ground arith)
          | inr (entry, found) ↦ elim (Bool-cases entry.pinned) [
            | inr free ↦ inl (ground arith)
            | inl pinned ↦
                let e : disk_in_range c now user (pos seq) (pos n) content rest s
                    ≡ disk_chunk c now user entry seq n content rest s =
                  ground (arith, good, found, pinned) in
                subst (λ (r : Reply × Relay). Outcome rest r.1.users) (sym e)
                  (outcome-disk_chunk entry found pinned seq n content rest)
          ]
        ]
      ]
  outcome-disk_in_range (pos seq) (negsuc n) content rest = inl refl
  outcome-disk_in_range (negsuc seq) n content rest = inl refl

  -- The accounts stay, or the labels carry such a request.
  outcome-h_diskreg :
      (labels : List Text)
      → ((h_diskreg c now (user ∷ labels) s).1.users ≡ s.users)
        ⊎ ((seq count content : Text) × (rest : List Text) × (labels ≡ seq ∷ count ∷ content ∷ rest)
            × Outcome rest (h_diskreg c now (user ∷ labels) s).1.users)
  unfolding h_diskreg Outcome
  outcome-h_diskreg (seq ∷ n ∷ content ∷ rest) = elim (Option-cases (int seq)) [
    | inl bad ↦ inl (ground arith)
    | inr (seq', good) ↦ elim (Option-cases (int n)) [
      | inl bad ↦ inl (ground arith)
      | inr (n', fine) ↦ inr (
        seq,
        n,
        content,
        rest,
        refl,
        rw (good, fine, h_diskreg) (outcome-disk_in_range seq' n' content rest),
      )
    ]
  ]
  outcome-h_diskreg [] = inl refl
  outcome-h_diskreg (_ ∷ []) = inl refl
  outcome-h_diskreg (_ ∷ _ ∷ []) = inl refl

  -- A request of a name changes no folder key but its own, which it sets under such a signature.
  pub disk_key_of-h_diskreg :
      (labels : List Text) (u : Text)
      → disk_key_of u (h_diskreg c now (user ∷ labels) s).1.users ≢ disk_key_of u s.users
      → (user ≡ u)
        × ((pk seq count content : Text) × (rest : List Text) × (labels
              ≡ seq ∷ count ∷ content ∷ rest)
            × (disk_key_of u (h_diskreg c now (user ∷ labels) s).1.users ≡ some pk)
            × IsRegistered c now rest user pk s)
  unfolding Outcome
  disk_key_of-h_diskreg labels u changed = elim (outcome-h_diskreg labels) [
    | inl same ↦ absurd (changed (ap (disk_key_of u) same))
    | inr (seq, count, content, rest, sent, inl same) ↦ absurd (changed (ap (disk_key_of u) same))
    | inr (seq, count, content, rest, sent, inr (pk, r, stored)) ↦
        let law = get-put user u (record (r.entry) { disk_pubkey = some pk }) s.users in
        let now_key = ap (disk_key_of u) stored in
        elim (Bool-cases (list_eq user u)) [
          | inr other ↦ absurd (changed (now_key ∙ ground (arith, law, other)))
          | inl mine ↦ (
            (list_eq_iff user u).0 mine,
            (pk, seq, count, content, rest, sent, now_key ∙ ground (arith, law, mine), r),
          )
        ]
  ]
