-- ===== src/Web/Retry.antt =====
-- Queries that are sent again (web_client.py, _is_transient_err and _q_reliable).
use dns_messenger.Prelude.{
  ℕ, zero, suc, ◌+◌, ◌≤◌, ◌<◌, ◌≡◌, ◌==◌, ==_iff, refl, ap, ◌∙◌, Bool, true, false, ◌&&◌, ◌||◌,
  arith, if◌then◌else◌, Bool-cases, inl, inr,
}
use dns_messenger.Prelude.Text.{Text, text, startswith, has_part}

abbrev pub send_retries : ℕ
send_retries = 3

unfoldable pub is_transient_err : Text → Bool
is_transient_err res =
    startswith (text "ERR") res
    && (has_part (text "timeout") res
        || has_part (text "no_response") res
        || has_part (text "no_transport") res)

-- The loop, with the retries left; the reply to the n-th query is `reply n`.
unfoldable pub retry : ℕ → (ℕ → Text) → ℕ → Text
unfolding is_transient_err
retry zero reply n = reply n
retry (suc left) reply n =
    let again = retry left reply (n + 1) in if is_transient_err (reply n) then again else reply n

unfoldable pub q_reliable : (ℕ → Text) → Text
unfolding retry
q_reliable reply = retry send_retries reply 0

retry-cases :
    (left : ℕ) (reply : ℕ → Text) (n : ℕ)
    → (k : ℕ) × (n ≤ k)
      × (k ≤ n + left)
      × (retry left reply n ≡ reply k)
      × ((j : ℕ) → n ≤ j → j < k → is_transient_err (reply j) ≡ true)
      × (k < n + left → is_transient_err (reply k) ≡ false)
unfolding retry
retry-cases zero reply n =
    (n, omega arith, omega arith, refl, λ j a b. absurd (omega arith), λ a. absurd (omega arith))
retry-cases (suc left) reply n = elim (Bool-cases (is_transient_err (reply n))) [
  | inr settled ↦
      (n, omega arith, omega arith, ground arith, λ j a b. absurd (omega arith), λ _. settled)
  | inl lost ↦
      let (k, low, high, same, before, last) = retry-cases left reply (n + 1) in
      (
        k,
        omega arith,
        omega arith,
        ground (arith, same),
        λ j a b. elim (Bool-cases (j == n)) [
          | inl first ↦ ap (λ m. is_transient_err (reply m)) ((==_iff j n).0 first) ∙ lost
          | inr later ↦ before j (ground (arith, later, a)) b
        ],
        λ a. last (omega arith),
      )
]

-- At most four queries are sent, and the result is the first reply that is no transient error, or the
-- last of the four where all are transient errors.
pub q_reliable-first :
    (reply : ℕ → Text)
    → (k : ℕ) × (k ≤ 3)
      × (q_reliable reply ≡ reply k)
      × ((j : ℕ) → j < k → is_transient_err (reply j) ≡ true)
      × (k < 3 → is_transient_err (reply k) ≡ false)
unfolding q_reliable
q_reliable-first reply =
    let (k, low, high, same, before, last) = retry-cases 3 reply 0 in
    (k, omega arith, same, λ j b. before j (omega arith) b, λ a. last (omega arith))
