-- ===== src/Relay/Auth.antt =====
-- Signed polls (server.py, _accept_poll_nonce and _authorize_poll).
pub mod Replay
pub mod Signed
use dns_messenger.Prelude.{
  ℕ, ◌+◌, ◌-◌, ◌*◌, ◌≡◌, Bool, true, false, ◌&&◌, ◌||◌, Option, none, some, List, [], ◌∷◌, ◌++◌,
  if◌then◌else◌, ltb, ◌==◌, list_nat_eq, length,
}
use dns_messenger.Prelude.Int.{ℤ, pos, negsuc}
use dns_messenger.Prelude.Text.{Text, Bytes, text, join, isdigit, int}
use dns_messenger.Dict.{Dict, get, put, restrict}
use dns_messenger.Protocol.{b32decode}
use dns_messenger.Crypto.{Crypto, split_bundle, verify_sig}
use dns_messenger.Relay.State.{Relay, Account, second, poll_nonce_ttl, poll_ts_window}
use dns_messenger.Relay.Reply
use dns_messenger.Relay.Reply.{Reply, err, raised, value_error}

abbrev pub nonce_limit : ℕ
nonce_limit = 10000

-- The nonces, without those that have expired if there are too many.
unfoldable pub purge_nonces : ℕ → Dict Text ℕ → Dict Text ℕ
purge_nonces now seen =
    if ltb nonce_limit (length seen) then restrict (λ v. ltb now v) seen else seen

-- f'{scope}:{nonce}'
abbrev pub nonce_key : Text → Text → Text
nonce_key scope nonce = scope ++ b':' ∷ nonce

unfoldable pub accept_key : ℕ → Text → Dict Text ℕ → Bool × Dict Text ℕ
accept_key now k seen =
    let kept = purge_nonces now seen in
    elim (get k kept) [
      | none ↦ (true, put k (now + poll_nonce_ttl) kept)
      | some expiry ↦
          if ltb now expiry then (false, kept) else (true, put k (now + poll_nonce_ttl) kept)
    ]

unfoldable pub accept_poll_nonce : ℕ → Text → Text → Dict Text ℕ → Bool × Dict Text ℕ
accept_poll_nonce now scope nonce seen = accept_key now (nonce_key scope nonce) seen

pub record SignedPoll : Type 0 where
  pub nonce : Text
  pub ts : Text
  pub sig : Bytes

-- [user, nonce, ts, sig labels…], with a signature of 64 bytes and a time of digits
unfoldable pub parse_signed : List Text → Option SignedPoll
parse_signed (_ ∷ nonce ∷ ts ∷ label ∷ labels) = elim (b32decode (join (label ∷ labels))) [
  | none ↦ none
  | some sig ↦
      if length sig == 64 && isdigit ts
      then some (record { nonce = nonce; ts = ts; sig = sig })
      else none
]
parse_signed _ = none

-- abs(time.time() - t) > POLL_TS_WINDOW, for a time in seconds
unfoldable pub outside_window : ℕ → ℤ → Bool
outside_window now (pos t) =
    ltb poll_ts_window (now - t * second) || ltb poll_ts_window (t * second - now)
outside_window now (negsuc t) = ltb poll_ts_window (now + (t + 1) * second)

-- The bundle's Ed25519 key verifies the signature of a text.
unfoldable pub verified_by : Crypto → Bytes → Bytes → Bytes → Bool
verified_by c bundle signed sig = elim ((split_bundle bundle).1) [
  | none ↦ false
  | some ed_pub ↦ verify_sig c ed_pub signed sig
]

-- The checks of a signed poll by a pinned name: `none` lets the request through.
unfoldable pub check_signed :
    Crypto
    → ℕ
    → Text
    → Bytes
    → SignedPoll
    → (Text → Text → Text → Bytes)
    → Text
    → Dict Text ℕ
    → Option Reply × Dict Text ℕ
check_signed c now user bundle p signing_input kind seen = elim (int p.ts) [
  | none ↦ (some (raised value_error), seen)
  | some t ↦
      if outside_window now t
      then (some (err Reply.auth), seen)
      else if verified_by c bundle (signing_input user p.nonce p.ts) p.sig
      then (let (fresh, seen') = accept_poll_nonce now (kind ++ b':' ∷ user) p.nonce seen in
          (if fresh then none else some (err Reply.replay), seen'))
      else (some (err Reply.auth), seen)
]

unfoldable pub authorize_poll :
    Crypto
    → ℕ
    → Text
    → Option Account
    → List Text
    → (Text → Text → Text → Bytes)
    → Text
    → Dict Text ℕ
    → Option Reply × Dict Text ℕ
authorize_poll c now user none labels signing_input kind seen = (none, seen)
authorize_poll c now user (some entry) labels signing_input kind seen =
    if entry.pinned
    then elim (parse_signed labels) [
      | none ↦ (some (err Reply.auth), seen)
      | some p ↦ check_signed c now user entry.bundle p signing_input kind seen
    ]
    else (none, seen)

-- The requests of a member: authorized like a poll, under a kind of their own; then `run`.
unfoldable pub with_auth :
    Crypto
    → ℕ
    → Text
    → List Text
    → (Text → Text → Text → Bytes)
    → Text
    → (Relay → Reply × Relay)
    → Relay
    → Reply × Relay
with_auth c now user labels signing_input kind run s =
    let (refused, nonces) =
      authorize_poll c now user (get user s.users) labels signing_input kind s.seen_poll_nonces in
    let s' : Relay = record s { seen_poll_nonces = nonces } in
    elim refused [ some reply ↦ (reply, s') | none ↦ run s' ]
