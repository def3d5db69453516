-- ===== src/Relay/Auth/Replay.antt =====
-- A nonce that was accepted is refused until it expires (server.py, _accept_poll_nonce).
use dns_messenger.Prelude.{
  ℕ, ◌+◌, ◌<◌, ◌≡◌, true, false, some, List, [], ◌∷◌, arith, ltb, list_nat_eq, list_eq_iff, All,
}
use dns_messenger.Prelude.Text.{Text}
use dns_messenger.Dict.{Dict, get}
use dns_messenger.Dict.Laws.{get-put, get-restrict}
use dns_messenger.Relay.State.{poll_nonce_ttl}
use dns_messenger.Relay.Auth.{purge_nonces, accept_key}

-- Calls for any keys, each at its time.
pub accept_calls : List (ℕ × Text) → Dict Text ℕ → Dict Text ℕ
accept_calls [] seen = seen
accept_calls ((now, k) ∷ calls) seen = accept_calls calls (accept_key now k seen).1

module _ (k : Text) (expiry : ℕ) where
  get-purge_nonces :
      (now : ℕ) (seen : Dict Text ℕ)
      → get k seen ≡ some expiry
      → now < expiry
      → get k (purge_nonces now seen) ≡ some expiry
  unfolding purge_nonces
  get-purge_nonces now seen h lt = ground (arith, get-restrict (λ v. ltb now v) k seen)

  accept_key_seen :
      (now : ℕ) (seen : Dict Text ℕ)
      → get k seen ≡ some expiry
      → now < expiry
      → (accept_key now k seen).0 ≡ false
  unfolding accept_key
  accept_key_seen now seen h lt = ground (arith, get-purge_nonces now seen h lt)

  get-accept_key :
      (now : ℕ) (j : Text) (seen : Dict Text ℕ)
      → get k seen ≡ some expiry
      → now < expiry
      → get k (accept_key now j seen).1 ≡ some expiry
  unfolding accept_key
  get-accept_key now j seen h lt = ground (
    arith,
    get-purge_nonces now seen h lt,
    get-put j k (now + poll_nonce_ttl) (purge_nonces now seen),
    list_eq_iff j k,
  )

  get-accept_calls :
      (calls : List (ℕ × Text)) (seen : Dict Text ℕ)
      → get k seen ≡ some expiry
      → All (λ c. c.0 < expiry) calls
      → get k (accept_calls calls seen) ≡ some expiry
  unfolding accept_calls
  get-accept_calls [] seen h times = h
  get-accept_calls ((now, j) ∷ calls) seen h times =
      get-accept_calls calls (accept_key now j seen).1 (get-accept_key now j seen h times.0) times.1

pub get-accept_key_new :
    (now : ℕ) (k : Text) (seen : Dict Text ℕ)
    → (accept_key now k seen).0 ≡ true
    → get k (accept_key now k seen).1 ≡ some (now + poll_nonce_ttl)
unfolding accept_key
get-accept_key_new now k seen h =
    ground (arith, get-put k k (now + poll_nonce_ttl) (purge_nonces now seen), list_eq_iff k k)

-- Once a nonce is accepted, and whatever other nonces are presented before its time is over, it is
-- not accepted again.
pub accept_key_once :
    (now later : ℕ) (k : Text) (seen : Dict Text ℕ) (calls : List (ℕ × Text))
    → (accept_key now k seen).0 ≡ true
    → All (λ c. c.0 < now + poll_nonce_ttl) calls
    → later < now + poll_nonce_ttl
    → (accept_key later k (accept_calls calls (accept_key now k seen).1)).0 ≡ false
accept_key_once now later k seen calls h times lt =
    accept_key_seen k (now + poll_nonce_ttl) later _
      (get-accept_calls k (now + poll_nonce_ttl) calls (accept_key now k seen).1
        (get-accept_key_new now k seen h) times)
      lt
