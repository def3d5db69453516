-- ===== src/Relay/Limiter.antt =====
-- Response rate limiting (server.py, _rrl_allow).
pub mod Window
use dns_messenger.Prelude.{
  ℕ, ◌+◌, ◌-◌, Bool, true, false, Option, none, some, List, [], ◌∷◌, ◌++◌, if◌then◌else◌, ltb, leb,
  list_nat_eq, length, keep,
}
use dns_messenger.Prelude.Text.{Text}
use dns_messenger.Dict.{Dict, get, put, restrict, map_values}
use dns_messenger.Relay.State.{Limiter, udp_rrl_max, udp_rrl_window, udp_rrl_sweep_interval}

-- t > now - UDP_RRL_WINDOW
abbrev pub is_recent : ℕ → ℕ → Bool
is_recent now t = ltb now (t + udp_rrl_window)

abbrev pub is_nonempty {ℓ} : {A : Type ℓ} → List A → Bool
is_nonempty [] = false
is_nonempty (t ∷ ts) = true

unfoldable pub sweep : ℕ → Limiter → Limiter
sweep now l =
    if ltb udp_rrl_sweep_interval (now - l.last_sweep)
    then record {
      hits = restrict is_nonempty (map_values (keep (is_recent now)) l.hits);
      last_sweep = now;
    }
    else l

-- while hits and hits[0] <= cutoff: hits.pop(0)
unfoldable pub drop_old : ℕ → List ℕ → List ℕ
drop_old now [] = []
drop_old now (t ∷ ts) = let rest = drop_old now ts in if is_recent now t then t ∷ ts else rest

abbrev pub hits_of : Text → Dict Text (List ℕ) → List ℕ
hits_of ip hits = elim (get ip hits) [ none ↦ [] | some ts ↦ ts ]

unfoldable pub rrl_allow : ℕ → Text → Limiter → Bool × Limiter
rrl_allow now ip l =
    let swept = sweep now l in
    let hits = drop_old now (hits_of ip swept.hits) in
    if leb udp_rrl_max (length hits)
    then (false, record swept { hits = put ip hits swept.hits })
    else (true, record swept { hits = put ip (hits ++ now ∷ []) swept.hits })
