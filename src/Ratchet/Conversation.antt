-- ===== src/Ratchet/Conversation.antt =====
-- A run of messages from the start of a session, some of which are lost (ratchet.py).
use dns_messenger.Prelude.{
  ℕ, suc, ◌+◌, ◌≤◌, ◌<◌, ◌≡◌, ◌⊎◌, inl, inr, refl, sym, subst, ap, Bool, true, ◌&&◌, some, List, [],
  ◌∷◌, arith, leb, if◌then◌else◌, length, All, pair_eq, option_eq, list_nat_eq, nat_eq,
  option_beq_iff, Bool-cases,
}
use dns_messenger.Prelude.Text.{Bytes}
use dns_messenger.Crypto.Cipher.{Primitives}
use dns_messenger.Crypto.Sealing.{Unseals}
use dns_messenger.Ratchet.{Outcome, value, raise, kdf_rk}
use dns_messenger.Ratchet.Header.{u32_mod, pack_header, unpack_header-pack_header}
use dns_messenger.Ratchet.Session.{Session, Step, encrypt, decrypt}
use dns_messenger.Ratchet.Steps.{encrypt_on}
use dns_messenger.Ratchet.Chain.{chain_at, chain_at-suc}
use dns_messenger.Ratchet.Delivery.{Behind, encrypt-Behind, Arrived, Arrived-follow}
use dns_messenger.Ratchet.Steps.{follow_same}
use dns_messenger.Ratchet.Turn.{Facing, Arrived-Facing}

pub record Mail : Type 0 where
  pub nonce : Bytes
  pub plaintext : Bytes
  pub arrives : Bool

unfoldable pub deliver : Primitives → Bytes → Outcome Bytes → Session → Step Bytes
unfolding decrypt
deliver p fresh (value message) r = decrypt p fresh message r
deliver p fresh (raise e) r = (raise e, r)

-- What the receiver reads, if the messages come in order or not at all.
unfoldable pub converse : Primitives → Bytes → List Mail → Session → Session → List (Outcome Bytes)
unfolding encrypt deliver
converse p fresh [] s r = []
converse p fresh (m ∷ ms) s r =
    let (out, s') = encrypt p m.nonce m.plaintext s in
    let (read, r') = deliver p fresh out r in
    let heard = read ∷ converse p fresh ms s' r' in
    let lost = converse p fresh ms s' r in if m.arrives then heard else lost

-- The texts of the messages that arrive.
unfoldable pub arrived : List Mail → List (Outcome Bytes)
arrived [] = []
arrived (m ∷ ms) = let rest = arrived ms in if m.arrives then value m.plaintext ∷ rest else rest

-- No message that arrives follows more than a thousand lost ones; `gap` were lost before.
unfoldable pub tolerable : ℕ → List Mail → Bool
tolerable gap [] = true
tolerable gap (m ∷ ms) =
    let near = leb gap 1000 && tolerable 0 ms in
    let lost = tolerable (suc gap) ms in if m.arrives then near else lost

-- The receiver follows the sender, or will with the next message.
abbrev pub Linked : Primitives → Bytes → ℕ → Session → Session → Type 0
Linked p fresh gap s r = Behind p gap s r ⊎ Facing p fresh gap s r

module _ (p : Primitives) (fresh nonce plaintext : Bytes) (gap : ℕ) (s r : Session)
    (small_pn : s.prev_chain_len < u32_mod) (small_n : s.send_n < u32_mod) where
  Arrived-Linked :
      Unseals p
      → gap ≤ 1000
      → length nonce ≡ 12
      → Linked p fresh gap s r
      → Arrived p fresh nonce plaintext s r
  Arrived-Linked unseals few sized (inl b) =
      Arrived-follow p unseals fresh nonce plaintext gap s r r b
        (follow_same p r fresh s.dhs_pub s.prev_chain_len
          (ground (arith, b.paired, option_beq_iff r.dhr (some s.dhs_pub))))
        (b.free s.send_n (omega (arith, b.numbered))) few sized small_pn small_n
  Arrived-Linked unseals few sized (inr f) =
      Arrived-Facing p unseals fresh nonce plaintext gap s r f few sized small_pn small_n

  encrypt-Facing :
      (header : Bytes)
      → pack_header s.dhs_pub s.prev_chain_len s.send_n ≡ some header
      → Facing p fresh gap s r
      → Facing p fresh (suc gap) (encrypt p nonce plaintext s).1 r
  encrypt-Facing header packed f =
      subst (λ t. Facing p fresh (suc gap) t.1 r)
        (sym (
          encrypt_on p s nonce plaintext (chain_at p gap ((kdf_rk p r.root_key f.out).1)) header
            f.sending packed))
        (record {
          own = f.own;
          out = f.out;
          next = f.next;
          pair = f.pair;
          agreed = f.agreed;
          answering = f.answering;
          sending = ap some (sym (chain_at-suc p gap ((kdf_rk p r.root_key f.out).1)));
          other = f.other;
          sized = f.sized;
          numbered = omega (arith, f.numbered);
          short = f.short;
          free = f.free;
        })

  encrypt-Linked :
      Linked p fresh gap s r → Linked p fresh (suc gap) (encrypt p nonce plaintext s).1 r
  encrypt-Linked (inl b) =
      let h =
        unpack_header-pack_header s.dhs_pub [] s.prev_chain_len s.send_n b.sized small_pn small_n in
      inl (encrypt-Behind p b nonce plaintext h.0 h.1)
  encrypt-Linked (inr f) =
      let h =
        unpack_header-pack_header s.dhs_pub [] s.prev_chain_len s.send_n f.sized small_pn small_n in
      inr (encrypt-Facing h.0 h.1 f)

  -- The counters of the header.
  encrypt_counts :
      ((encrypt p nonce plaintext s).1.send_n ≤ s.send_n + 1)
      × ((encrypt p nonce plaintext s).1.prev_chain_len ≡ s.prev_chain_len)
  unfolding encrypt
  encrypt_counts = ground arith

abbrev pub IsNonce : Mail → Type 0
IsNonce m = length m.nonce ≡ 12

pub converse-Linked :
    (p : Primitives)
    → Unseals p
    → (fresh : Bytes) (ms : List Mail) (gap : ℕ) (s r : Session) → Linked p fresh gap s r
    → tolerable gap ms ≡ true
    → All IsNonce ms
    → s.prev_chain_len < u32_mod
    → s.send_n + length ms ≤ u32_mod
    → converse p fresh ms s r ≡ arrived ms
unfolding converse arrived tolerable deliver
converse-Linked p unseals fresh [] gap s r linked near nonces pn n = refl
converse-Linked p unseals fresh (m ∷ ms) gap s r linked near nonces pn n =
    elim (Bool-cases m.arrives) [
      | inl arrives ↦
          let a =
            Arrived-Linked p fresh m.nonce m.plaintext gap s r pn (omega arith) unseals
              (ground (arith, near)) nonces.0 linked in
          ground (
            arith,
            a.sent,
            a.read,
            encrypt_counts p fresh m.nonce m.plaintext gap s r pn (omega arith),
            converse-Linked p unseals fresh ms 0 ((encrypt p m.nonce m.plaintext s).1)
                ((decrypt p fresh a.message r).1) (inl a.level),
          )
      | inr lost ↦ ground (
        arith,
        encrypt_counts p fresh m.nonce m.plaintext gap s r pn (omega arith),
        converse-Linked p unseals fresh ms (suc gap) ((encrypt p m.nonce m.plaintext s).1) r
            (encrypt-Linked p fresh m.nonce m.plaintext gap s r pn (omega arith) linked),
      )
    ]
