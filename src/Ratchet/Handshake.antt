-- ===== src/Ratchet/Handshake.antt =====
-- From the shared secret to the first messages, and to the first reply (ratchet.py, init_initiator,
-- init_responder).
use dns_messenger.Prelude.{
  ◌≤◌, ◌≡◌, refl, ap, ◌∙◌, true, some, List, arith, length, All, pair_eq, option_eq, list_nat_eq,
  nat_eq, Option-cases, inl, inr, option_beq,
}
use dns_messenger.Prelude.Text.{Bytes}
use dns_messenger.Dict.{get}
use dns_messenger.Crypto.Cipher.{Primitives}
use dns_messenger.Crypto.Sealing.{Unseals, Commutes}
use dns_messenger.Ratchet.{value, kdf_rk, dh}
use dns_messenger.Ratchet.Header.{u32_mod}
use dns_messenger.Ratchet.Session.{Session, empty, init_initiator, init_responder}
use dns_messenger.Ratchet.Chain.{chain_at}
use dns_messenger.Ratchet.Turn.{Facing}
use dns_messenger.Ratchet.Conversation.{
  Mail, IsNonce, converse, arrived, tolerable, converse-Linked,
}

module _ (p : Primitives) (commutes : Commutes p) (secret prekey mine fresh : Bytes)
    (sized : length (p.x_public mine) ≡ 32) (s : Session)
    (started : init_initiator p mine secret (p.x_public prekey) ≡ value s) (next : Bytes)
    (answer : p.exchange fresh (p.x_public mine) ≡ some next) where
  -- The initiator's first ratchet key is new to the responder, who derives the same chain.
  pub Facing-start : Facing p fresh 0 s (init_responder p secret prekey)
  unfolding init_initiator init_responder dh chain_at get option_beq
  Facing-start = elim (Option-cases (p.exchange mine (p.x_public prekey))) [
    | inl broken ↦ absurd (ground arith)
    | inr (out, agreed) ↦
        let made : s ≡ record empty {
          root_key = (kdf_rk p secret out).0;
          dhs = some mine;
          dhs_pub = p.x_public mine;
          dhr = some (p.x_public prekey);
          send_chain = some ((kdf_rk p secret out).1);
        } =
          ground arith in
        record {
          own = prekey;
          out = out;
          next = next;
          pair = refl;
          agreed =
              ap (λ (t : Session). p.exchange prekey t.dhs_pub) made
              ∙ commutes prekey mine
              ∙ agreed;
          answering = ap (λ (t : Session). p.exchange fresh t.dhs_pub) made ∙ answer;
          sending = ap (λ (t : Session). t.send_chain) made;
          other = refl;
          sized = ap (λ (t : Session). length t.dhs_pub) made ∙ sized;
          numbered = ap (λ (t : Session). t.send_n) made;
          short = ground (arith, made);
          free = λ j. refl;
        }
  ]

  pub counters_start : (s.send_n ≡ 0) × (s.prev_chain_len ≡ 0)
  unfolding init_initiator dh
  counters_start = elim (Option-cases (p.exchange mine (p.x_public prekey))) [
    | inl broken ↦ absurd (ground arith)
    | inr (out, agreed) ↦ ground arith
  ]

-- The two sides of one secret: of all that the initiator sends, the responder reads exactly the
-- messages that arrive, whichever are lost, if they come in order, no message that arrives follows
-- more than a thousand lost ones, and there are at most 2^32. X25519 is taken to commute and
-- ChaCha20-Poly1305 to open what it sealed, the exchanges of the two key pairs to succeed, a public
-- key to have 32 bytes and a nonce 12.
pub converse-start :
    (p : Primitives)
    → Commutes p
    → Unseals p
    → (secret prekey mine fresh next : Bytes) (s : Session) → length (p.x_public mine) ≡ 32
    → init_initiator p mine secret (p.x_public prekey) ≡ value s
    → p.exchange fresh (p.x_public mine) ≡ some next
    → (ms : List Mail) → tolerable 0 ms ≡ true
    → All IsNonce ms
    → length ms ≤ u32_mod
    → converse p fresh ms s (init_responder p secret prekey) ≡ arrived ms
converse-start p commutes unseals secret prekey mine fresh next s sized started answer ms near
      nonces few =
    let zeros = counters_start p commutes secret prekey mine fresh sized s started next answer in
    converse-Linked p unseals fresh ms 0 s (init_responder p secret prekey)
      (inr (Facing-start p commutes secret prekey mine fresh sized s started next answer)) near
      nonces (omega (arith, zeros.1)) (omega (arith, zeros.0))
