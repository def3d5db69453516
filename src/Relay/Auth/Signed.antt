-- ===== src/Relay/Auth/Signed.antt =====
-- Who gets past the check of a poll (server.py, _authorize_poll).
use dns_messenger.Prelude.{
  ℕ, ◌+◌, ◌*◌, ◌≤◌, ◌<◌, ◌≡◌, ◌≢◌, inl, inr, Bool, true, false, none, some, List, ◌∷◌, ◌++◌, arith,
  All, ap, sym, ◌∙◌, list_nat_eq, Option-cases,
}
use dns_messenger.Prelude.Int.{ℤ, pos, negsuc}
use dns_messenger.Prelude.Text.{Text, Bytes, int}
use dns_messenger.Dict.{Dict}
use dns_messenger.Crypto.{Crypto}
use dns_messenger.Relay.State.{Account, poll_nonce_ttl}
use dns_messenger.Relay.Auth.{
  SignedPoll, parse_signed, outside_window, verified_by, nonce_key, accept_key, accept_poll_nonce,
  check_signed, authorize_poll,
}
use dns_messenger.Relay.Auth.Replay.{accept_calls, accept_key_once}

-- The time in a request is at most the window away from the relay's.
abbrev pub IsNear : ℕ → ℤ → Type 0
IsNear now (pos t) = (now ≤ t * 1000 + 120000) × (t * 1000 ≤ now + 120000)
IsNear now (negsuc t) = now + (t + 1) * 1000 ≤ 120000

IsNear-outside_window : (now : ℕ) (t : ℤ) → outside_window now t ≡ false → IsNear now t
unfolding outside_window
IsNear-outside_window now (pos t) h = ground arith
IsNear-outside_window now (negsuc t) h = ground arith

-- A poll that a pinned name's key signed, near in time, with a nonce not seen before.
pub record IsAuthorized (c : Crypto) (now : ℕ) (user : Text) (bundle : Bytes) (labels : List Text)
    (signing_input : Text → Text → Text → Bytes) (kind : Text) (seen seen' : Dict Text ℕ)
    : Type 0 where
  pub request : SignedPoll
  pub parsed : parse_signed labels ≡ some request
  pub time : ℤ
  pub stamped : int request.ts ≡ some time
  pub near : IsNear now time
  pub signed : verified_by c bundle (signing_input user request.nonce request.ts) request.sig ≡ true
  pub fresh : accept_poll_nonce now (kind ++ b':' ∷ user) request.nonce seen ≡ (true, seen')

module _ (c : Crypto) (now : ℕ) (user : Text) (entry : Account) (labels : List Text)
    (signing_input : Text → Text → Text → Bytes) (kind : Text) (seen : Dict Text ℕ) where
  check_signed_sound :
      (p : SignedPoll) (t : ℤ) (seen' : Dict Text ℕ)
      → int p.ts ≡ some t
      → check_signed c now user entry.bundle p signing_input kind seen ≡ (none, seen')
      → (outside_window now t ≡ false)
        × (verified_by c entry.bundle (signing_input user p.nonce p.ts) p.sig ≡ true)
        × (accept_poll_nonce now (kind ++ b':' ∷ user) p.nonce seen ≡ (true, seen'))
  unfolding check_signed
  check_signed_sound p t seen' e h = ground arith

  check_signed_time :
      (p : SignedPoll) (seen' : Dict Text ℕ)
      → check_signed c now user entry.bundle p signing_input kind seen ≡ (none, seen')
      → (t : ℤ) × (int p.ts ≡ some t)
  unfolding check_signed
  check_signed_time p seen' h = elim (Option-cases (int p.ts)) [
    | inl bad ↦ absurd (ground arith)
    | inr found ↦ found
  ]

  -- A pinned name's request is let through only if it is authorized: its own key signed the name,
  -- the nonce and the time, the time is near, and the nonce is fresh.
  pub authorize_poll_sound :
      (seen' : Dict Text ℕ)
      → entry.pinned ≡ true
      → authorize_poll c now user (some entry) labels signing_input kind seen ≡ (none, seen')
      → IsAuthorized c now user entry.bundle labels signing_input kind seen seen'
  unfolding authorize_poll
  authorize_poll_sound seen' pinned h = elim (Option-cases (parse_signed labels)) [
    | inl bad ↦ absurd (ground arith)
    | inr (p, parsed) ↦
        let checked : check_signed c now user entry.bundle p signing_input kind seen
            ≡ (none, seen') =
          ground arith in
        let (t, stamped) = check_signed_time p seen' checked in
        let (near, signed, fresh) = check_signed_sound p t seen' stamped checked in
        record {
          request = p;
          parsed = parsed;
          time = t;
          stamped = stamped;
          near = IsNear-outside_window now t near;
          signed = signed;
          fresh = fresh;
        }
  ]

  check_signed_fresh :
      (later : ℕ) (p : SignedPoll) (seen' : Dict Text ℕ)
      → (accept_poll_nonce later (kind ++ b':' ∷ user) p.nonce seen').0 ≡ false
      → (check_signed c later user entry.bundle p signing_input kind seen').0 ≢ none
  unfolding check_signed
  check_signed_fresh later p seen' stale = ground arith

  -- A request that a pinned name got through once is refused when it is sent again before the nonce
  -- expires, whatever nonces came in between.
  pub authorize_poll_once :
      (seen' : Dict Text ℕ) (calls : List (ℕ × Text)) (later : ℕ)
      → entry.pinned ≡ true
      → authorize_poll c now user (some entry) labels signing_input kind seen ≡ (none, seen')
      → All (λ call. call.0 < now + poll_nonce_ttl) calls
      → later < now + poll_nonce_ttl
      → (authorize_poll c later user
          (some entry)
          labels
          signing_input
          kind
          (accept_calls calls seen')).0
        ≢ none
  unfolding authorize_poll accept_poll_nonce
  authorize_poll_once seen' calls later pinned h times lt =
      let a = authorize_poll_sound seen' pinned h in
      let k = nonce_key (kind ++ b':' ∷ user) a.request.nonce in
      let first : (accept_key now k seen).0 ≡ true = ap (λ (r : Bool × Dict Text ℕ). r.0) a.fresh in
      let rest : (accept_key now k seen).1 ≡ seen' = ap (λ (r : Bool × Dict Text ℕ). r.1) a.fresh in
      let again : (accept_key later k (accept_calls calls seen')).0 ≡ false =
        ap (λ (m : Dict Text ℕ). (accept_key later k (accept_calls calls m)).0) (sym rest)
        ∙ accept_key_once now later k seen calls first times lt in
      ground (arith, a.parsed, check_signed_fresh later a.request (accept_calls calls seen') again)
