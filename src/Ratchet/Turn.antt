-- ===== src/Ratchet/Turn.antt =====
-- The first message under a new ratchet key (ratchet.py, _dh_ratchet_step).
use dns_messenger.Prelude.{
  ℕ, ◌+◌, ◌-◌, ◌≤◌, ◌<◌, ◌≡◌, refl, sym, ap, ◌∙◌, false, none, some, arith, length, pair_eq,
  option_eq, list_nat_eq, nat_eq, option_beq, option_beq_iff, Option-cases, inl, inr,
}
use dns_messenger.Prelude.Text.{Bytes}
use dns_messenger.Dict.{get}
use dns_messenger.Crypto.Cipher.{Primitives}
use dns_messenger.Crypto.Sealing.{Unseals}
use dns_messenger.Ratchet.{value, kdf_rk, dh}
use dns_messenger.Ratchet.Header.{u32_mod}
use dns_messenger.Ratchet.Session.{Session, after, skip_recv, dh_self, dh_ratchet_step}
use dns_messenger.Ratchet.Steps.{skip_recv_near, skip_recv_idle, follow_new}
use dns_messenger.Ratchet.Chain.{chain_at, skip_keys, skip_rounds-eq, get-skip_keys}
use dns_messenger.Ratchet.Delivery.{Behind, Arrived, Arrived-follow}

-- The sender has a ratchet key that the receiver has not seen, has sent `gap` messages under it, and
-- the receiver will derive the sender's chain from it. `fresh` is the key the receiver will take.
pub record Facing (p : Primitives) (fresh : Bytes) (gap : ℕ) (s r : Session) : Type 0 where
  pub own : Bytes
  pub out : Bytes
  pub next : Bytes
  pub pair : r.dhs ≡ some own
  pub agreed : p.exchange own s.dhs_pub ≡ some out
  pub answering : p.exchange fresh s.dhs_pub ≡ some next
  pub sending : s.send_chain ≡ some (chain_at p gap ((kdf_rk p r.root_key out).1))
  pub other : option_beq r.dhr (some s.dhs_pub) ≡ false
  pub sized : length s.dhs_pub ≡ 32
  pub numbered : s.send_n ≡ gap
  pub short : s.prev_chain_len ≤ r.recv_n + 1000
  pub free : (j : ℕ) → get (some s.dhs_pub, j) r.skipped ≡ none

-- What the receiver has put away of its old chain.
pub record Closed (p : Primitives) (key : Bytes) (until : ℕ) (r : Session) : Type 0 where
  pub kept : Session
  pub skipping : skip_recv p until r ≡ (value tt, kept)
  pub same_pair : kept.dhs ≡ r.dhs
  pub same_root : kept.root_key ≡ r.root_key
  pub still_free :
      (j : ℕ) → get (some key, j) r.skipped ≡ none → get (some key, j) kept.skipped ≡ none

pub Closed-near :
    (p : Primitives) (key : Bytes) (until : ℕ) (r : Session)
    → option_beq r.dhr (some key) ≡ false
    → until ≤ r.recv_n + 1000
    → Closed p key until r
Closed-near p key until r other short = elim (Option-cases r.recv_chain) [
  | inl idle ↦ record {
    kept = r;
    skipping = skip_recv_idle p r until idle;
    same_pair = refl;
    same_root = refl;
    still_free = λ j free. free;
  }
  | inr (chain, on) ↦
      let k = until - r.recv_n in
      record {
        kept = record r {
          recv_chain = some (chain_at p k chain);
          skipped = skip_keys p k chain r.dhr r.recv_n r.skipped;
          recv_n = r.recv_n + k;
        };
        skipping =
            skip_recv_near p r until chain on (ground arith)
            ∙ ap (λ (t : Session). (value tt, t)) (skip_rounds-eq p k chain r on);
        same_pair = refl;
        same_root = refl;
        still_free = λ j free.
            get-skip_keys p k chain r.dhr (some key) r.recv_n j r.skipped
              (λ same. absurd (ground (arith, option_beq_iff r.dhr (some key)))) free;
      }
]

module _ (p : Primitives) (fresh key own out next : Bytes) (s : Session) (pair : s.dhs ≡ some own)
    (agreed : p.exchange own key ≡ some out) (answering : p.exchange fresh key ≡ some next) where
  abbrev pub stepped : Session
  stepped = record s {
    prev_chain_len = s.send_n;
    send_n = 0;
    recv_n = 0;
    dhr = some key;
    root_key = (kdf_rk p ((kdf_rk p s.root_key out).0) next).0;
    recv_chain = some ((kdf_rk p s.root_key out).1);
    dhs = some fresh;
    dhs_pub = p.x_public fresh;
    send_chain = some ((kdf_rk p ((kdf_rk p s.root_key out).0) next).1);
  }

  pub dh_ratchet_step-stepped : dh_ratchet_step p fresh key s ≡ (value tt, stepped)
  unfolding dh_ratchet_step dh_self dh
  dh_ratchet_step-stepped = ground arith

-- The receiver turns to the sender's key, and is then behind by what the sender has sent.
pub Arrived-Facing :
    (p : Primitives)
    → Unseals p
    → (fresh nonce plaintext : Bytes) (gap : ℕ) (s r : Session) → Facing p fresh gap s r
    → gap ≤ 1000
    → length nonce ≡ 12
    → s.prev_chain_len < u32_mod
    → s.send_n < u32_mod
    → Arrived p fresh nonce plaintext s r
Arrived-Facing p unseals fresh nonce plaintext gap s r f few sized small_pn small_n =
    let c = Closed-near p s.dhs_pub s.prev_chain_len r f.other f.short in
    let r' =
      stepped p fresh s.dhs_pub f.own f.out f.next c.kept (c.same_pair ∙ f.pair) f.agreed
        f.answering in
    let b : Behind p gap s r' = record {
      chain = (kdf_rk p c.kept.root_key f.out).1;
      receiving = refl;
      sending =
          f.sending ∙ ap (λ k. some (chain_at p gap ((kdf_rk p k f.out).1))) (sym c.same_root);
      paired = refl;
      sized = f.sized;
      numbered = omega (arith, f.numbered);
      free = λ j _. c.still_free j (f.free j);
    } in
    Arrived-follow p unseals fresh nonce plaintext gap s r r' b
      (follow_new p r fresh s.dhs_pub s.prev_chain_len f.other
        ∙ ap (λ t. after t (λ _. dh_ratchet_step p fresh s.dhs_pub)) c.skipping
        ∙ dh_ratchet_step-stepped p fresh s.dhs_pub f.own f.out f.next c.kept (c.same_pair ∙ f.pair)
            f.agreed f.answering)
      (f.free s.send_n) few sized small_pn small_n
