-- ===== src/Ratchet/Session.antt =====
-- The double ratchet of one pair of users (ratchet.py, RatchetSession). A method returns what it
-- gives and the session it leaves, also when it raises. A fresh key pair and the nonce are arguments.
use dns_messenger.Prelude.{
  ℕ, zero, suc, ◌+◌, ◌-◌, Option, none, some, [], ◌++◌, ltb, if◌then◌else◌, length, take, drop,
  option_beq, list_nat_eq, nat_eq, option_eq, pair_eq,
}
use dns_messenger.Prelude.Text.{Bytes}
use dns_messenger.Dict.{Dict, get, put, pop}
use dns_messenger.Crypto.Cipher
use dns_messenger.Crypto.Cipher.{Primitives}
use dns_messenger.Ratchet.{
  Outcome, value, raise, ratchet_error, struct_error, type_error, attribute_error, invalid_tag,
  called, dh, kdf_rk, kdf_ck,
}
use dns_messenger.Ratchet.Header.{Header, header_len, pack_header, unpack_header}

abbrev pub max_skipped_keys : ℕ
max_skipped_keys = 1000

-- The ratchet key and the number that a message key is kept for.
abbrev pub Slot : Type 0
Slot = Option Bytes × ℕ

pub record Session : Type 0 where
  pub root_key : Bytes
  pub dhs : Option Bytes
  pub dhs_pub : Bytes
  pub dhr : Option Bytes
  pub send_chain : Option Bytes
  pub recv_chain : Option Bytes
  pub send_n : ℕ
  pub recv_n : ℕ
  pub prev_chain_len : ℕ
  pub skipped : Dict Slot Bytes

abbrev pub Step {ℓ} : Type ℓ → Type ℓ
Step A = Outcome A × Session

-- A call, and what comes after it if it does not raise.
abbrev pub after {ℓ κ} : {A : Type ℓ} {B : Type κ} → Step A → (A → Session → Step B) → Step B
after (raise e, s) f = (raise e, s)
after (value a, s) f = f a s

-- __init__
abbrev pub empty : Session
empty = record {
  root_key = [];
  dhs = none;
  dhs_pub = [];
  dhr = none;
  send_chain = none;
  recv_chain = none;
  send_n = 0;
  recv_n = 0;
  prev_chain_len = 0;
  skipped = [];
}

-- del self.skipped[next(iter(self.skipped))], above the limit
unfoldable pub forget_oldest : Dict Slot Bytes → Dict Slot Bytes
forget_oldest d = if ltb max_skipped_keys (length d) then drop 1 d else d

module _ (p : Primitives) where
  unfoldable pub init_initiator : Bytes → Bytes → Bytes → Outcome Session
  init_initiator fresh shared_secret peer_prekey_pub = elim (dh p fresh peer_prekey_pub) [
    | raise e ↦ raise e
    | value out ↦
        let (root, chain) = kdf_rk p shared_secret out in
        value (record empty {
          root_key = root;
          dhs = some fresh;
          dhs_pub = p.x_public fresh;
          dhr = some peer_prekey_pub;
          send_chain = some chain;
        })
  ]

  unfoldable pub init_responder : Bytes → Bytes → Session
  init_responder shared_secret own_prekey = record empty {
    root_key = shared_secret;
    dhs = some own_prekey;
    dhs_pub = p.x_public own_prekey;
  }

  -- The chain moves on before the header is packed.
  unfoldable pub encrypt : Bytes → Bytes → Session → Step Bytes
  encrypt nonce plaintext s = elim s.send_chain [
    | none ↦ (raise ratchet_error, s)
    | some chain ↦
        let (next, key) = kdf_ck p chain in
        let moved = record s { send_chain = some next } in
        elim (pack_header s.dhs_pub s.prev_chain_len s.send_n) [
          | none ↦ (raise struct_error, moved)
          | some header ↦ (
            value (header ++ Cipher.encrypt p nonce plaintext key (some header)),
            record moved { send_n = s.send_n + 1 },
          )
        ]
  ]

  -- One round of the loop, on the receiving chain `chain`.
  unfoldable pub skip_one : Bytes → Session → Session
  unfolding forget_oldest
  skip_one chain s = record s {
    recv_chain = some ((kdf_ck p chain).0);
    skipped = forget_oldest (put (s.dhr, s.recv_n) ((kdf_ck p chain).1) s.skipped);
    recv_n = s.recv_n + 1;
  }

  -- while self.recv_n < until, by the count of rounds
  unfoldable pub skip_rounds : ℕ → Bytes → Session → Session
  unfolding skip_one
  skip_rounds zero chain s = s
  skip_rounds (suc k) chain s = skip_rounds k ((kdf_ck p chain).0) (skip_one chain s)

  unfoldable pub skip_recv : ℕ → Session → Step (Unit {0})
  unfolding skip_rounds
  skip_recv until s = elim s.recv_chain [
    | none ↦ (value tt, s)
    | some chain ↦
        if ltb max_skipped_keys (until - s.recv_n)
        then (raise ratchet_error, s)
        else (value tt, skip_rounds (until - s.recv_n) chain s)
  ]

  -- _dh(self.dhs, key), TypeError without a pair
  unfoldable pub dh_self : Option Bytes → Bytes → Outcome Bytes
  dh_self none key = raise attribute_error
  dh_self (some priv) key = dh p priv key

  unfoldable pub dh_ratchet_step : Bytes → Bytes → Session → Step (Unit {0})
  unfolding dh_self
  dh_ratchet_step fresh new_dhr s =
      let turned = record s {
        prev_chain_len = s.send_n;
        send_n = 0;
        recv_n = 0;
        dhr = some new_dhr;
      } in
      elim (dh_self s.dhs new_dhr) [
        | raise e ↦ (raise e, turned)
        | value out ↦
            let (root, chain) = kdf_rk p s.root_key out in
            let receiving = record turned {
              root_key = root;
              recv_chain = some chain;
              dhs = some fresh;
              dhs_pub = p.x_public fresh;
            } in
            elim (dh p fresh new_dhr) [
              | raise e ↦ (raise e, receiving)
              | value out' ↦
                  let (root', chain') = kdf_rk p root out' in
                  (value tt, record receiving { root_key = root'; send_chain = some chain' })
            ]
      ]

  -- The rest of the old chain, then the new one, where the message names another ratchet key.
  unfoldable pub follow : Bytes → Bytes → ℕ → Session → Step (Unit {0})
  unfolding skip_recv dh_ratchet_step
  follow fresh dh_pub pn s =
      if option_beq s.dhr (some dh_pub)
      then (value tt, s)
      else after (skip_recv pn s) (λ _. dh_ratchet_step fresh dh_pub)

  unfoldable pub opened : Bytes → Bytes → Bytes → Outcome Bytes
  opened header ct key = called invalid_tag (Cipher.decrypt p ct key (some header))

  unfoldable pub open_next : Bytes → Bytes → Unit {0} → Session → Step Bytes
  unfolding opened
  open_next header ct _ s = elim s.recv_chain [
    | none ↦ (raise type_error, s)
    | some chain ↦ (
      opened header ct ((kdf_ck p chain).1),
      record s { recv_chain = some ((kdf_ck p chain).0); recv_n = s.recv_n + 1 },
    )
  ]

  -- The key of the message `n` of the present chain, and its text.
  unfoldable pub receive : Bytes → Bytes → ℕ → Session → Step Bytes
  unfolding skip_recv open_next
  receive header ct n s = after (skip_recv n s) (open_next header ct)

  unfoldable pub open_message : Bytes → Bytes → Bytes → Header → Session → Step Bytes
  unfolding follow receive opened
  open_message fresh header ct (dh_pub, pn, n) s = elim (get (some dh_pub, n) s.skipped) [
    | some key ↦ (opened header ct key, record s { skipped = pop (some dh_pub, n) s.skipped })
    | none ↦ after (follow fresh dh_pub pn s) (λ _. receive header ct n)
  ]

  unfoldable pub decrypt : Bytes → Bytes → Session → Step Bytes
  unfolding open_message
  decrypt fresh message s =
      let header = take header_len message in
      if ltb (length message) header_len
      then (raise ratchet_error, s)
      else elim (unpack_header header) [
        | none ↦ (raise struct_error, s)
        | some h ↦ open_message fresh header (drop header_len message) h s
      ]
