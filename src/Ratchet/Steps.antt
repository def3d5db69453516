-- ===== src/Ratchet/Steps.antt =====
-- The branches of the session's methods as equations (ratchet.py, RatchetSession).
use dns_messenger.Prelude.{
  ℕ, ◌+◌, ◌-◌, ◌≡◌, true, false, none, some, ◌++◌, arith, ltb, length, take, drop, pair_eq,
  option_eq, list_nat_eq, nat_eq, option_beq,
}
use dns_messenger.Prelude.Text.{Bytes}
use dns_messenger.Dict.{get}
use dns_messenger.Crypto.Cipher
use dns_messenger.Crypto.Cipher.{Primitives}
use dns_messenger.Ratchet.{value, raise, ratchet_error, kdf_ck}
use dns_messenger.Ratchet.Header.{Header, header_len, pack_header, unpack_header}
use dns_messenger.Ratchet.Session.{
  Session, after, encrypt, skip_rounds, skip_recv, dh_ratchet_step, follow, opened, open_next,
  receive, open_message, decrypt,
}

module _ (p : Primitives) (s : Session) where
  pub skip_recv_idle : (until : ℕ) → s.recv_chain ≡ none → skip_recv p until s ≡ (value tt, s)
  unfolding skip_recv
  skip_recv_idle until idle = ground arith

  pub skip_recv_far :
      (until : ℕ) (chain : Bytes)
      → s.recv_chain ≡ some chain
      → ltb 1000 (until - s.recv_n) ≡ true
      → skip_recv p until s ≡ (raise ratchet_error, s)
  unfolding skip_recv
  skip_recv_far until chain on far = ground arith

  pub skip_recv_near :
      (until : ℕ) (chain : Bytes)
      → s.recv_chain ≡ some chain
      → ltb 1000 (until - s.recv_n) ≡ false
      → skip_recv p until s ≡ (value tt, skip_rounds p (until - s.recv_n) chain s)
  unfolding skip_recv
  skip_recv_near until chain on near = ground arith

  pub follow_same :
      (fresh key : Bytes) (pn : ℕ)
      → option_beq s.dhr (some key) ≡ true
      → follow p fresh key pn s ≡ (value tt, s)
  unfolding follow
  follow_same fresh key pn same = ground arith

  pub follow_new :
      (fresh key : Bytes) (pn : ℕ)
      → option_beq s.dhr (some key) ≡ false
      → follow p fresh key pn s ≡ after (skip_recv p pn s) (λ _. dh_ratchet_step p fresh key)
  unfolding follow
  follow_new fresh key pn new = ground arith

  pub open_message_new :
      (fresh header ct key : Bytes) (pn n : ℕ)
      → get (some key, n) s.skipped ≡ none
      → open_message p fresh header ct (key, pn, n) s
        ≡ after (follow p fresh key pn s) (λ _. receive p header ct n)
  unfolding open_message
  open_message_new fresh header ct key pn n new = ground arith

  pub open_next_on :
      (header ct chain : Bytes)
      → s.recv_chain ≡ some chain
      → open_next p header ct tt s ≡ (
        opened p header ct ((kdf_ck p chain).1),
        record s { recv_chain = some ((kdf_ck p chain).0); recv_n = s.recv_n + 1 },
      )
  unfolding open_next
  open_next_on header ct chain on = ground arith

  pub encrypt_on :
      (nonce plaintext chain header : Bytes)
      → s.send_chain ≡ some chain
      → pack_header s.dhs_pub s.prev_chain_len s.send_n ≡ some header
      → encrypt p nonce plaintext s ≡ (
        value (header ++ Cipher.encrypt p nonce plaintext ((kdf_ck p chain).1) (some header)),
        record s { send_chain = some ((kdf_ck p chain).0); send_n = s.send_n + 1 },
      )
  unfolding encrypt
  encrypt_on nonce plaintext chain header on packed = ground arith

  pub decrypt_read :
      (fresh message : Bytes) (h : Header)
      → ltb (length message) header_len ≡ false
      → unpack_header (take header_len message) ≡ some h
      → decrypt p fresh message s
        ≡ open_message p fresh (take header_len message) (drop header_len message) h s
  unfolding decrypt
  decrypt_read fresh message h long read = ground arith
