-- ===== src/Ratchet/Delivery.antt =====
-- What one side encrypts the other decrypts, whatever was lost before (ratchet.py, encrypt, decrypt).
use mathlib.Core.Path.{ap₂}
use mathlib.Core.List.{append-nil}
use dns_messenger.Prelude.{
  ℕ, suc, ◌+◌, ◌-◌, ◌≤◌, ◌<◌, ◌≡◌, refl, sym, subst, ap, ◌∙◌, false, none, some, [], ◌++◌, arith,
  ltb, length, pair_eq, option_eq, list_nat_eq, nat_eq, take-append, drop-append, length-append,
}
use dns_messenger.Prelude.Text.{Bytes}
use dns_messenger.Dict.{get}
use dns_messenger.Crypto.Cipher
use dns_messenger.Crypto.Cipher.{Primitives}
use dns_messenger.Crypto.Sealing.{Unseals, decrypt-encrypt}
use dns_messenger.Ratchet.{value, called, invalid_tag, kdf_ck}
use dns_messenger.Ratchet.Header.{
  Header, u32_mod, pack_header, unpack_header, unpack_header-pack_header, length-pack_header,
}
use dns_messenger.Ratchet.Session.{
  Session, after, encrypt, skip_rounds, skip_recv, follow, opened, open_next, receive, open_message,
  decrypt,
}
use dns_messenger.Ratchet.Steps.{
  skip_recv_near, open_message_new, open_next_on, encrypt_on, decrypt_read,
}
use dns_messenger.Ratchet.Chain.{chain_at, chain_at-suc, skip_keys, skip_rounds-eq, get-skip_keys}

-- The receiver follows the sender's chain, and is `gap` messages behind.
pub record Behind (p : Primitives) (gap : ℕ) (s r : Session) : Type 0 where
  pub chain : Bytes
  pub receiving : r.recv_chain ≡ some chain
  pub sending : s.send_chain ≡ some (chain_at p gap chain)
  pub paired : r.dhr ≡ some s.dhs_pub
  pub sized : length s.dhs_pub ≡ 32
  pub numbered : s.send_n ≡ r.recv_n + gap
  pub free : (j : ℕ) → r.recv_n ≤ j → get (some s.dhs_pub, j) r.skipped ≡ none

module _ (p : Primitives) {gap : ℕ} {s r : Session} (b : Behind p gap s r)
    (nonce plaintext : Bytes) where
  -- One more message that does not arrive.
  pub encrypt-Behind :
      (header : Bytes)
      → pack_header s.dhs_pub s.prev_chain_len s.send_n ≡ some header
      → Behind p (suc gap) (encrypt p nonce plaintext s).1 r
  encrypt-Behind header packed =
      subst (λ t. Behind p (suc gap) t.1 r)
        (sym (encrypt_on p s nonce plaintext (chain_at p gap b.chain) header b.sending packed))
        (record {
          chain = b.chain;
          receiving = b.receiving;
          sending = ap some (sym (chain_at-suc p gap b.chain));
          paired = b.paired;
          sized = b.sized;
          numbered = omega (arith, b.numbered);
          free = b.free;
        })

  -- The receiver's session once the skipped keys are put away.
  abbrev pub caught_up : Session
  caught_up = record r {
    recv_chain = some (chain_at p gap b.chain);
    skipped = skip_keys p gap b.chain r.dhr r.recv_n r.skipped;
    recv_n = r.recv_n + gap;
  }

  skip_recv-caught_up : gap ≤ 1000 → skip_recv p s.send_n r ≡ (value tt, caught_up)
  skip_recv-caught_up few =
      let rounds : s.send_n - r.recv_n ≡ gap = omega (arith, b.numbered) in
      let near : ltb 1000 (s.send_n - r.recv_n) ≡ false = ground arith in
      skip_recv_near p r s.send_n b.chain b.receiving near
      ∙ ap (λ (k : ℕ). (value tt, skip_rounds p k b.chain r)) rounds
      ∙ ap (λ (t : Session). (value tt, t)) (skip_rounds-eq p gap b.chain r b.receiving)

  abbrev pub received : Session
  received = record r {
    recv_chain = some ((kdf_ck p (chain_at p gap b.chain)).0);
    skipped = skip_keys p gap b.chain r.dhr r.recv_n r.skipped;
    recv_n = r.recv_n + gap + 1;
  }

  receive-caught_up :
      (header ct : Bytes)
      → gap ≤ 1000
      → receive p header ct s.send_n r
        ≡ (opened p header ct ((kdf_ck p (chain_at p gap b.chain)).1), received)
  unfolding receive
  receive-caught_up header ct few =
      ap (λ t. after t (open_next p header ct)) (skip_recv-caught_up few)
      ∙ open_next_on p caught_up header ct (chain_at p gap b.chain) refl

  abbrev pub moved : Session
  moved = record s {
    send_chain = some ((kdf_ck p (chain_at p gap b.chain)).0);
    send_n = s.send_n + 1;
  }

  -- The sender's session and the receiver's after the message.
  received-Behind : Behind p 0 moved received
  unfolding chain_at
  received-Behind = record {
    chain = (kdf_ck p (chain_at p gap b.chain)).0;
    receiving = refl;
    sending = refl;
    paired = b.paired;
    sized = b.sized;
    numbered = omega (arith, b.numbered);
    free = λ j later.
        get-skip_keys p gap b.chain r.dhr (some s.dhs_pub) r.recv_n j r.skipped
          (λ _. omega (arith, later)) (b.free j (omega (arith, later)));
  }

-- What the two sides have after one message: the text, and sessions that are level.
pub record Arrived (p : Primitives) (fresh nonce plaintext : Bytes) (s r : Session) : Type 0 where
  pub message : Bytes
  pub sent : (encrypt p nonce plaintext s).0 ≡ value message
  pub read : (decrypt p fresh message r).0 ≡ value plaintext
  pub level : Behind p 0 (encrypt p nonce plaintext s).1 (decrypt p fresh message r).1

decrypt_framed :
    (p : Primitives) (fresh header ct : Bytes) (h : Header) (r : Session)
    → length header ≡ 40
    → unpack_header header ≡ some h
    → decrypt p fresh (header ++ ct) r ≡ open_message p fresh header ct h r
decrypt_framed p fresh header ct h r long read =
    decrypt_read p r fresh (header ++ ct) h (ground (arith, length-append header ct))
      (ap unpack_header (take-append header ct 40 long) ∙ read)
    ∙ ap₂ (λ (x y : Bytes). open_message p fresh x y h r) (take-append header ct 40 long)
        (drop-append header ct 40 long)

-- The receiver that has turned to the sender's ratchet key, as `follow` leaves it.
pub Arrived-follow :
    (p : Primitives)
    → Unseals p
    → (fresh nonce plaintext : Bytes) (gap : ℕ) (s r r' : Session) → Behind p gap s r'
    → follow p fresh s.dhs_pub s.prev_chain_len r ≡ (value tt, r')
    → get (some s.dhs_pub, s.send_n) r.skipped ≡ none
    → gap ≤ 1000
    → length nonce ≡ 12
    → s.prev_chain_len < u32_mod
    → s.send_n < u32_mod
    → Arrived p fresh nonce plaintext s r
unfolding opened
Arrived-follow p unseals fresh nonce plaintext gap s r r' b turned new few sized small_pn small_n =
    let chain = chain_at p gap b.chain in
    let key = (kdf_ck p chain).1 in
    let (header, packed, unpacked) =
      unpack_header-pack_header s.dhs_pub [] s.prev_chain_len s.send_n b.sized small_pn small_n in
    let ct = Cipher.encrypt p nonce plaintext key (some header) in
    let opens : opened p header ct key ≡ value plaintext =
      ap (called invalid_tag) (decrypt-encrypt p unseals nonce plaintext key (some header) sized) in
    let sending = encrypt_on p s nonce plaintext chain header b.sending packed in
    let reading =
      decrypt_framed p fresh header ct (s.dhs_pub, s.prev_chain_len, s.send_n) r
        (length-pack_header s.dhs_pub header s.prev_chain_len s.send_n b.sized packed)
        (sym (ap unpack_header (append-nil header)) ∙ unpacked)
      ∙ open_message_new p r fresh header ct s.dhs_pub s.prev_chain_len s.send_n new
      ∙ ap (λ t. after t (λ _. receive p header ct s.send_n)) turned
      ∙ receive-caught_up p b nonce plaintext header ct few in
    record {
      message = header ++ ct;
      sent = ap (λ t. t.0) sending;
      read = ap (λ t. t.0) reading ∙ opens;
      level =
          subst (λ t. Behind p 0 t.1 (decrypt p fresh (header ++ ct) r).1) (sym sending)
            (subst (λ t. Behind p 0 (moved p b nonce plaintext) t.1) (sym reading)
              (received-Behind p b nonce plaintext));
    }
