-- ===== src/Web/Throttle.antt =====
-- The limits on attempts (web_client.py, rate_limited to note_login_failure). Times are in
-- milliseconds.
pub mod Failures
use dns_messenger.Prelude.{
  ℕ, ◌+◌, ◌-◌, Bool, true, false, Option, none, some, List, [], ◌∷◌, ◌++◌, if◌then◌else◌, ltb, leb,
  length, list_nat_eq, keep,
}
use dns_messenger.Prelude.Text.{Text}
use dns_messenger.Dict.{Dict, get, put, restrict, map_values}
use dns_messenger.Relay.Limiter.{is_nonempty}

abbrev pub rate_limit_sweep_interval : ℕ
rate_limit_sweep_interval = 300000

abbrev pub account_fail_window : ℕ
account_fail_window = 900000

abbrev pub account_fail_max : ℕ
account_fail_max = 20

-- now - t < window
abbrev pub is_fresh : ℕ → ℕ → ℕ → Bool
is_fresh window now t = ltb now (t + window)

pub record Throttle : Type 0 where
  pub hits : Dict Text (List ℕ)
  pub last_sweep : ℕ

abbrev pub times_of : Text → Dict Text (List ℕ) → List ℕ
times_of key d = elim (get key d) [ none ↦ [] | some ts ↦ ts ]

-- The sweep goes by the window of the call that starts it, for all keys.
unfoldable pub sweep_hits : ℕ → ℕ → Throttle → Throttle
sweep_hits window now r =
    if ltb rate_limit_sweep_interval (now - r.last_sweep)
    then record {
      hits = restrict is_nonempty (map_values (keep (is_fresh window now)) r.hits);
      last_sweep = now;
    }
    else r

unfoldable pub rate_limited : ℕ → Text → ℕ → ℕ → Throttle → Bool × Throttle
unfolding sweep_hits
rate_limited now key max_attempts window r =
    let swept = sweep_hits window now r in
    let hits = keep (is_fresh window now) (times_of key swept.hits) in
    if leb max_attempts (length hits)
    then (true, record swept { hits = put key hits swept.hits })
    else (false, record swept { hits = put key (hits ++ now ∷ []) swept.hits })

abbrev pub recent_failures : ℕ → Text → Dict Text (List ℕ) → List ℕ
recent_failures now username failures =
    keep (is_fresh account_fail_window now) (times_of username failures)

unfoldable pub account_throttled : ℕ → Text → Dict Text (List ℕ) → Bool × Dict Text (List ℕ)
account_throttled now username failures =
    let hits = recent_failures now username failures in
    (leb account_fail_max (length hits), put username hits failures)

unfoldable pub note_login_failure : ℕ → Text → Dict Text (List ℕ) → Dict Text (List ℕ)
note_login_failure now username failures =
    put username (recent_failures now username failures ++ now ∷ []) failures
