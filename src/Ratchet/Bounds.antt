-- ===== src/Ratchet/Bounds.antt =====
-- How many message keys a session keeps, and what it refuses (ratchet.py, _skip_recv).
use dns_messenger.Prelude.{
  ℕ, zero, suc, ◌-◌, ◌≤◌, ◌≡◌, sym, subst, true, false, none, some, List, [], ◌∷◌, arith, ltb,
  if◌then◌else◌, length, take, drop, length-drop, Bool-cases, Option-cases, inl, inr, pair_eq,
  option_eq, list_nat_eq, nat_eq, option_beq,
}
use dns_messenger.Prelude.Text.{Bytes}
use dns_messenger.Dict.{Dict, get, put}
use dns_messenger.Dict.Laws.{length-put-le, length-pop-le}
use dns_messenger.Crypto.Cipher.{Primitives}
use dns_messenger.Ratchet.{value, raise, ratchet_error, kdf_ck}
use dns_messenger.Ratchet.Header.{Header, header_len, unpack_header}
use dns_messenger.Ratchet.Steps.{
  skip_recv_idle, skip_recv_far, skip_recv_near, decrypt_read, open_message_new, follow_same,
  follow_new,
}
use dns_messenger.Ratchet.Session.{
  Session, Step, Slot, after, forget_oldest, encrypt, skip_one, skip_rounds, skip_recv,
  dh_ratchet_step, follow, open_next, receive, open_message, decrypt,
}

abbrev pub IsBounded : Session → Type 0
IsBounded s = length s.skipped ≤ 1000

forget_oldest-le : (d : Dict Slot Bytes) → length d ≤ 1001 → length (forget_oldest d) ≤ 1000
unfolding forget_oldest
forget_oldest-le d h = ground (arith, length-drop 1 d)

-- The session that a step leaves is bounded.
abbrev Left {ℓ} : {A : Type ℓ} → Step A → Type 0
Left r = IsBounded r.1

module _ (p : Primitives) where
  skip_one-IsBounded : (chain : Bytes) (s : Session) → IsBounded s → IsBounded (skip_one p chain s)
  unfolding skip_one
  skip_one-IsBounded chain s h =
      let kept = put (s.dhr, s.recv_n) ((kdf_ck p chain).1) s.skipped in
      forget_oldest-le kept
        (omega (arith, length-put-le (s.dhr, s.recv_n) ((kdf_ck p chain).1) s.skipped))

  skip_rounds-IsBounded :
      (k : ℕ) (chain : Bytes) (s : Session) → IsBounded s → IsBounded (skip_rounds p k chain s)
  unfolding skip_rounds
  skip_rounds-IsBounded zero chain s h = h
  skip_rounds-IsBounded (suc k) chain s h =
      skip_rounds-IsBounded k ((kdf_ck p chain).0) (skip_one p chain s)
        (skip_one-IsBounded chain s h)

  skip_recv-IsBounded : (until : ℕ) (s : Session) → IsBounded s → IsBounded (skip_recv p until s).1
  skip_recv-IsBounded until s h = elim (Option-cases s.recv_chain) [
    | inl idle ↦ subst Left (sym (skip_recv_idle p s until idle)) h
    | inr (chain, on) ↦ elim (Bool-cases (ltb 1000 (until - s.recv_n))) [
      | inl far ↦ subst Left (sym (skip_recv_far p s until chain on far)) h
      | inr near ↦
          subst Left (sym (skip_recv_near p s until chain on near))
            (skip_rounds-IsBounded (until - s.recv_n) chain s h)
    ]
  ]

  dh_ratchet_step-IsBounded :
      (fresh key : Bytes) (s : Session) → IsBounded s → IsBounded (dh_ratchet_step p fresh key s).1
  unfolding dh_ratchet_step
  dh_ratchet_step-IsBounded fresh key s h = ground arith

  -- The second call of a sequence keeps the bound if each of the two does.
  after-IsBounded {ℓ κ} :
      {A : Type ℓ} {B : Type κ} (m : Step A) (f : A → Session → Step B)
      → IsBounded m.1
      → ((a : A) (s : Session) → IsBounded s → IsBounded (f a s).1)
      → IsBounded (after m f).1
  after-IsBounded (value a, s) f h keep = keep a s h
  after-IsBounded (raise e, s) f h keep = h

  open_next-IsBounded :
      (header ct : Bytes) (u : Unit {0}) (s : Session)
      → IsBounded s
      → IsBounded (open_next p header ct u s).1
  unfolding open_next
  open_next-IsBounded header ct u s h = ground arith

  receive-IsBounded :
      (header ct : Bytes) (n : ℕ) (s : Session)
      → IsBounded s
      → IsBounded (receive p header ct n s).1
  unfolding receive
  receive-IsBounded header ct n s h =
      after-IsBounded (skip_recv p n s) (open_next p header ct) (skip_recv-IsBounded n s h)
        (open_next-IsBounded header ct)

  follow-IsBounded :
      (fresh key : Bytes) (pn : ℕ) (s : Session)
      → IsBounded s
      → IsBounded (follow p fresh key pn s).1
  unfolding follow
  follow-IsBounded fresh key pn s h = elim (Bool-cases (option_beq s.dhr (some key))) [
    | inl same ↦ rw same h
    | inr new ↦ rw new (
        after-IsBounded (skip_recv p pn s) (λ _. dh_ratchet_step p fresh key)
          (skip_recv-IsBounded pn s h) (λ _. dh_ratchet_step-IsBounded fresh key))
  ]

  open_message-IsBounded :
      (fresh header ct : Bytes) (h : Header) (s : Session)
      → IsBounded s
      → IsBounded (open_message p fresh header ct h s).1
  unfolding open_message
  open_message-IsBounded fresh header ct (key, pn, n) s b =
      elim (Option-cases (get (some key, n) s.skipped)) [
        | inl new ↦
            rw (new, open_message)
              (after-IsBounded (follow p fresh key pn s) (λ _. receive p header ct n)
                (follow-IsBounded fresh key pn s b) (λ _. receive-IsBounded header ct n))
        | inr (kept, found) ↦
            rw (found, open_message) (omega (arith, length-pop-le (some key, n) s.skipped))
      ]

  decrypt-IsBounded :
      (fresh message : Bytes) (s : Session) → IsBounded s → IsBounded (decrypt p fresh message s).1
  unfolding decrypt
  decrypt-IsBounded fresh message s b = elim (Bool-cases (ltb (length message) header_len)) [
    | inl short ↦ rw short b
    | inr long ↦ elim (Option-cases (unpack_header (take header_len message))) [
      | inl broken ↦ rw (long, broken) b
      | inr (h, read) ↦
          rw (long, read)
            (open_message-IsBounded fresh (take header_len message) (drop header_len message) h s b)
    ]
  ]

  encrypt-IsBounded :
      (nonce plaintext : Bytes) (s : Session)
      → IsBounded s
      → IsBounded (encrypt p nonce plaintext s).1
  unfolding encrypt
  encrypt-IsBounded nonce plaintext s b = ground arith

pub data Call : Type 0 where
  sends receives : Bytes → Bytes → Call

-- The session that a run of calls leaves, whichever of them raise.
unfoldable pub run : Primitives → List Call → Session → Session
unfolding encrypt decrypt
run p [] s = s
run p (Call.sends nonce plaintext ∷ calls) s = run p calls ((encrypt p nonce plaintext s).1)
run p (Call.receives fresh message ∷ calls) s = run p calls ((decrypt p fresh message s).1)

-- Whatever arrives, forged headers too, a session that keeps at most a thousand message keys keeps at
-- most a thousand after any run of encryptions and decryptions.
pub run-IsBounded :
    (p : Primitives) (calls : List Call) (s : Session) → IsBounded s → IsBounded (run p calls s)
unfolding run
run-IsBounded p [] s b = b
run-IsBounded p (Call.sends nonce plaintext ∷ calls) s b =
    run-IsBounded p calls ((encrypt p nonce plaintext s).1)
      (encrypt-IsBounded p nonce plaintext s b)
run-IsBounded p (Call.receives fresh message ∷ calls) s b =
    run-IsBounded p calls ((decrypt p fresh message s).1) (decrypt-IsBounded p fresh message s b)

-- The key that the session compares a message's number with: the present chain's, or the old one's.
abbrev pub last_of : Session → Header → ℕ
last_of s (key, pn, n) = if option_beq s.dhr (some key) then n else pn

-- A message that would need more than a thousand skipped keys of the chain that the session receives
-- on, by its number or by the length it names for that chain, raises RatchetError, and the session
-- stays as it was.
pub decrypt_far :
    (p : Primitives) (fresh message chain : Bytes) (h : Header) (s : Session)
    → ltb (length message) header_len ≡ false
    → unpack_header (take header_len message) ≡ some h
    → get (some h.0, h.2) s.skipped ≡ none
    → s.recv_chain ≡ some chain
    → ltb 1000 (last_of s h - s.recv_n) ≡ true
    → decrypt p fresh message s ≡ (raise ratchet_error, s)
unfolding receive
decrypt_far p fresh message chain (key, pn, n) s long read new on far =
    elim (Bool-cases (option_beq s.dhr (some key))) [
      | inl same ↦ ground (
        arith,
        decrypt_read p s fresh message (key, pn, n) long read,
        open_message_new p s fresh (take header_len message) (drop header_len message) key pn n new,
        follow_same p s fresh key pn same,
        skip_recv_far p s n chain on,
      )
      | inr other ↦ ground (
        arith,
        decrypt_read p s fresh message (key, pn, n) long read,
        open_message_new p s fresh (take header_len message) (drop header_len message) key pn n new,
        follow_new p s fresh key pn other,
        skip_recv_far p s pn chain on,
      )
    ]
