-- ===== src/Ratchet/Forged.antt =====
-- What a message does to a session before its ciphertext is checked (ratchet.py, decrypt).
use dns_messenger.Prelude.{
  ℕ, zero, suc, ◌+◌, ◌-◌, ◌≤◌, ◌≡◌, refl, sym, subst, ap, ◌∙◌, false, none, some, arith, ltb,
  length, take, drop, pair_eq, option_eq, list_nat_eq, nat_eq, option_beq, Option-cases, Bool-cases,
  inl, inr,
}
use dns_messenger.Prelude.Text.{Bytes}
use dns_messenger.Dict.{get}
use dns_messenger.Crypto.Cipher.{Primitives}
use dns_messenger.Ratchet.{value, raise}
use dns_messenger.Ratchet.Header.{Header, header_len, unpack_header}
use dns_messenger.Ratchet.Session.{
  Session, Step, after, skip_recv, skip_rounds, skip_one, dh_ratchet_step, open_next, receive,
  decrypt,
}
use dns_messenger.Ratchet.Steps.{
  skip_recv_idle, skip_recv_far, skip_recv_near, follow_new, open_message_new, decrypt_read,
}
use dns_messenger.Ratchet.Turn.{dh_ratchet_step-stepped, stepped, Closed-near}

-- The session that a step leaves receives under the key, and has lost its place in the sent chain.
abbrev Turned {ℓ} : {A : Type ℓ} → Bytes → Step A → Type 0
Turned key t = (t.1.dhr ≡ some key) × (t.1.send_n ≡ 0)

module _ (p : Primitives) (key : Bytes) where
  skip_rounds-Turned :
      (k : ℕ) (chain : Bytes) (s : Session)
      → (s.dhr ≡ some key) × (s.send_n ≡ 0)
      → ((skip_rounds p k chain s).dhr ≡ some key) × ((skip_rounds p k chain s).send_n ≡ 0)
  unfolding skip_rounds skip_one
  skip_rounds-Turned zero chain s h = h
  skip_rounds-Turned (suc k) chain s h = skip_rounds-Turned k _ (skip_one p chain s) h

  skip_recv-Turned :
      (until : ℕ) (s : Session)
      → (s.dhr ≡ some key) × (s.send_n ≡ 0)
      → Turned key (skip_recv p until s)
  skip_recv-Turned until s h = elim (Option-cases s.recv_chain) [
    | inl idle ↦ subst (Turned key) (sym (skip_recv_idle p s until idle)) h
    | inr (chain, on) ↦ elim (Bool-cases (ltb 1000 (until - s.recv_n))) [
      | inl far ↦ subst (Turned key) (sym (skip_recv_far p s until chain on far)) h
      | inr near ↦
          subst (Turned key) (sym (skip_recv_near p s until chain on near))
            (skip_rounds-Turned (until - s.recv_n) chain s h)
    ]
  ]

  open_next-Turned :
      (header ct : Bytes) (t : Step (Unit {0}))
      → Turned key t
      → Turned key (after t (open_next p header ct))
  unfolding open_next
  open_next-Turned header ct (raise e, s) h = h
  open_next-Turned header ct (value u, s) h = ground arith

  receive-Turned :
      (header ct : Bytes) (n : ℕ) (s : Session)
      → (s.dhr ≡ some key) × (s.send_n ≡ 0)
      → Turned key (receive p header ct n s)
  unfolding receive
  receive-Turned header ct n s h =
      open_next-Turned header ct (skip_recv p n s) (skip_recv-Turned n s h)

-- A header with a ratchet key that the session does not have turns the session to that key, whatever
-- the ciphertext under it is and whether or not it opens, and its next message is numbered from
-- nothing: where the session has a key pair, the two exchanges with that key succeed, no message key
-- waits for the header, and the chain it names for closing is at most a thousand messages ahead.
pub decrypt-Turned :
    (p : Primitives) (fresh message own out next : Bytes) (h : Header) (s : Session)
    → ltb (length message) header_len ≡ false
    → unpack_header (take header_len message) ≡ some h
    → get (some h.0, h.2) s.skipped ≡ none
    → option_beq s.dhr (some h.0) ≡ false
    → h.1 ≤ s.recv_n + 1000
    → s.dhs ≡ some own
    → p.exchange own h.0 ≡ some out
    → p.exchange fresh h.0 ≡ some next
    → ((decrypt p fresh message s).1.dhr ≡ some h.0) × ((decrypt p fresh message s).1.send_n ≡ 0)
decrypt-Turned p fresh message own out next (key, pn, n) s long read new other short pair agreed
      answer =
    let header = take header_len message in
    let ct = drop header_len message in
    let c = Closed-near p key pn s other short in
    let turned = stepped p fresh key own out next c.kept (c.same_pair ∙ pair) agreed answer in
    let opening =
      decrypt_read p s fresh message (key, pn, n) long read
      ∙ open_message_new p s fresh header ct key pn n new
      ∙ ap (λ t. after t (λ _. receive p header ct n))
          (follow_new p s fresh key pn other
            ∙ ap (λ t. after t (λ _. dh_ratchet_step p fresh key)) c.skipping
            ∙ dh_ratchet_step-stepped p fresh key own out next c.kept (c.same_pair ∙ pair) agreed
                answer) in
    subst (Turned key) (sym opening) (receive-Turned p key header ct n turned (refl, refl))
