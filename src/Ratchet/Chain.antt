-- ===== src/Ratchet/Chain.antt =====
-- The keys of a chain, and what skipping leaves (ratchet.py, _kdf_ck and _skip_recv).
use dns_messenger.Prelude.{
  ℕ, zero, suc, ◌+◌, ◌≤◌, ◌≡◌, refl, Option, none, some, [], ◌∷◌, arith, pair_eq, option_eq,
  list_nat_eq, nat_eq, pair_beq_iff,
}
use dns_messenger.Prelude.Text.{Bytes}
use dns_messenger.Dict.{Dict, get, put}
use dns_messenger.Dict.Laws.{get-put}
use dns_messenger.Crypto.Cipher.{Primitives}
use dns_messenger.Ratchet.{kdf_ck}
use dns_messenger.Ratchet.Session.{Session, Slot, forget_oldest, skip_one, skip_rounds}

module _ (p : Primitives) where
  -- The key of a chain after `k` messages.
  unfoldable pub chain_at : ℕ → Bytes → Bytes
  chain_at zero chain = chain
  chain_at (suc k) chain = chain_at k ((kdf_ck p chain).0)

  pub chain_at-suc :
      (k : ℕ) (chain : Bytes) → chain_at (suc k) chain ≡ (kdf_ck p (chain_at k chain)).0
  unfolding chain_at
  chain_at-suc zero chain = refl
  chain_at-suc (suc k) chain = chain_at-suc k ((kdf_ck p chain).0)

  -- The message keys that `k` rounds put away.
  unfoldable pub skip_keys : ℕ → Bytes → Option Bytes → ℕ → Dict Slot Bytes → Dict Slot Bytes
  unfolding forget_oldest
  skip_keys zero chain key n d = d
  skip_keys (suc k) chain key n d =
      skip_keys k ((kdf_ck p chain).0) key (n + 1)
        (forget_oldest (put (key, n) ((kdf_ck p chain).1) d))

  -- The loop as a whole.
  pub skip_rounds-eq :
      (k : ℕ) (chain : Bytes) (s : Session)
      → s.recv_chain ≡ some chain
      → skip_rounds p k chain s ≡ record s {
        recv_chain = some (chain_at k chain);
        skipped = skip_keys k chain s.dhr s.recv_n s.skipped;
        recv_n = s.recv_n + k;
      }
  unfolding skip_rounds chain_at skip_keys
  skip_rounds-eq zero chain s on = ground arith
  skip_rounds-eq (suc k) chain s on =
      ground (arith, skip_rounds-eq k ((kdf_ck p chain).0) (skip_one p chain s))

  get-forget_oldest :
      (slot : Slot) (d : Dict Slot Bytes) → get slot d ≡ none → get slot (forget_oldest d) ≡ none
  unfolding forget_oldest get
  get-forget_oldest slot [] absent = ground arith
  get-forget_oldest slot ((other, key) ∷ d) absent = ground arith

  -- A slot that is free, and is not one of those that are filled, stays free.
  pub get-skip_keys :
      (k : ℕ) (chain : Bytes) (key other : Option Bytes) (n j : ℕ) (d : Dict Slot Bytes)
      → (key ≡ other → n + k ≤ j)
      → get (other, j) d ≡ none
      → get (other, j) (skip_keys k chain key n d) ≡ none
  unfolding skip_keys
  get-skip_keys zero chain key other n j d beyond absent = absent
  get-skip_keys (suc k) chain key other n j d beyond absent =
      let kept = put (key, n) ((kdf_ck p chain).1) d in
      get-skip_keys k ((kdf_ck p chain).0) key other (n + 1) j (forget_oldest kept)
        (λ same. omega (arith, beyond same))
        (get-forget_oldest (other, j) kept
          (ground (
            arith,
            get-put (key, n) (other, j) ((kdf_ck p chain).1) d,
            pair_beq_iff (key, n) (other, j),
            beyond,
          )))
