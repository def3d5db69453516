-- ===== src/Ratchet/Storage.antt =====
-- The saved form of a session (ratchet.py, RatchetSession.to_dict and from_dict).
use dns_messenger.Prelude.{
  ℕ, ◌≡◌, refl, sym, ap, ◌∙◌, Bool, true, false, ◌&&◌, Option, none, some, List, [], ◌∷◌, ◌++◌,
  arith, length, All, map, pair_eq, option_eq, list_nat_eq, nat_eq, pair_beq_iff, contains, not,
}
use mathlib.Core.List.{append-nil, append_assoc}
use dns_messenger.Prelude.Text.{Text, Bytes}
use dns_messenger.Prelude.Base64.{b64encode, b64decode}
use dns_messenger.Prelude.Base64.Round.{b64decode-b64encode}
use dns_messenger.Protocol.Base32.{IsBytes}
use dns_messenger.Dict.{Dict, put, keys}
use dns_messenger.Crypto.Cipher.{raw_key}
use dns_messenger.Ratchet.Session.{Session, Slot}

-- One entry of 'skipped': the ratchet key, the number, the message key.
abbrev pub SavedKey : Type 0
SavedKey = Option Text × ℕ × Text

pub record Saved : Type 0 where
  pub root_key : Text
  pub dhs_priv : Option Text
  pub dhs_pub : Option Text
  pub dhr : Option Text
  pub send_chain : Option Text
  pub recv_chain : Option Text
  pub send_n : ℕ
  pub recv_n : ℕ
  pub prev_chain_len : ℕ
  pub skipped : List SavedKey

unfoldable pub b64 : Option Bytes → Option Text
b64 none = none
b64 (some x) = some (b64encode x)

-- b64(self.dhs_pub) if self.dhs_pub else None
unfoldable pub b64_nonempty : Bytes → Option Text
b64_nonempty [] = none
b64_nonempty (c ∷ x) = some (b64encode (c ∷ x))

unfoldable pub save_key : Slot × Bytes → SavedKey
unfolding b64
save_key ((dh, n), mk) = (b64 dh, n, b64encode mk)

unfoldable pub to_dict : Session → Saved
unfolding b64 b64_nonempty save_key
to_dict s = record {
  root_key = b64encode s.root_key;
  dhs_priv = b64 s.dhs;
  dhs_pub = b64_nonempty s.dhs_pub;
  dhr = b64 s.dhr;
  send_chain = b64 s.send_chain;
  recv_chain = b64 s.recv_chain;
  send_n = s.send_n;
  recv_n = s.recv_n;
  prev_chain_len = s.prev_chain_len;
  skipped = map save_key s.skipped;
}

-- `none` is an exception, from here on.
infixl 5 ◌>>=◌
abbrev ◌>>=◌ {ℓ κ} : {A : Type ℓ} {B : Type κ} → Option A → (A → Option B) → Option B
none >>= f = none
some a >>= f = f a

unfoldable pub ub64 : Option Text → Option (Option Bytes)
ub64 none = some none
ub64 (some x) = elim (b64decode x) [ none ↦ none | some bytes ↦ some (some bytes) ]

-- prekey_from_private_bytes(priv) if priv else None
unfoldable pub load_pair : Option Bytes → Option (Option Bytes)
unfolding raw_key
load_pair none = some none
load_pair (some []) = some none
load_pair (some (b ∷ priv)) = elim (raw_key (b ∷ priv)) [ none ↦ none | some k ↦ some (some k) ]

-- … or b''
abbrev pub or_empty : Option Bytes → Bytes
or_empty none = []
or_empty (some x) = x

-- {(ub64(dh), n): ub64(mk) for dh, n, mk in …}, into the keys read so far
unfoldable pub load_keys : Dict Slot Bytes → List SavedKey → Option (Dict Slot Bytes)
unfolding ub64
load_keys d [] = some d
load_keys d ((dh, n, mk) ∷ saved) =
    ub64 dh >>= λ key. b64decode mk >>= λ bytes. load_keys (put (key, n) bytes d) saved

unfoldable pub from_dict : Saved → Option Session
unfolding ub64 load_pair load_keys
from_dict d = do
  root_key ← b64decode d.root_key
  priv ← ub64 d.dhs_priv
  dhs ← load_pair priv
  dhs_pub ← ub64 d.dhs_pub
  dhr ← ub64 d.dhr
  send_chain ← ub64 d.send_chain
  recv_chain ← ub64 d.recv_chain
  skipped ← load_keys [] d.skipped
  some (record {
    root_key = root_key;
    dhs = dhs;
    dhs_pub = or_empty dhs_pub;
    dhr = dhr;
    send_chain = send_chain;
    recv_chain = recv_chain;
    send_n = d.send_n;
    recv_n = d.recv_n;
    prev_chain_len = d.prev_chain_len;
    skipped = skipped;
  })

abbrev pub AreBytes : Option Bytes → Type 0
AreBytes none = Unit
AreBytes (some x) = IsBytes x

abbrev pub IsPair : Option Bytes → Type 0
IsPair none = Unit
IsPair (some k) = IsBytes k × (length k ≡ 32)

abbrev pub IsSavable : Slot × Bytes → Type 0
IsSavable ((dh, n), mk) = AreBytes dh × IsBytes mk

-- A dictionary does not hold a key twice.
unfoldable pub distinct : Dict Slot Bytes → Bool
unfolding contains keys
distinct [] = true
distinct ((k, v) ∷ d) = not (contains k (keys d)) && distinct d

ub64-b64 : (x : Option Bytes) → AreBytes x → ub64 (b64 x) ≡ some x
unfolding ub64 b64
ub64-b64 none h = refl
ub64-b64 (some x) h = ground (arith, b64decode-b64encode x h)

ub64-b64_nonempty :
    (x : Bytes)
    → IsBytes x
    → (y : Option Bytes) × (ub64 (b64_nonempty x) ≡ some y) × (or_empty y ≡ x)
unfolding ub64 b64_nonempty
ub64-b64_nonempty [] h = (none, refl, refl)
ub64-b64_nonempty (c ∷ x) h = (some (c ∷ x), ground (arith, b64decode-b64encode (c ∷ x) h), refl)

load_pair-id : (x : Option Bytes) → IsPair x → load_pair x ≡ some x
unfolding load_pair raw_key
load_pair-id none h = refl
load_pair-id (some []) h = absurd (omega (arith, h.1))
load_pair-id (some (b ∷ k)) h = ground (arith, h.1)

put_new :
    (k : Slot) (v : Bytes) (d : Dict Slot Bytes)
    → contains k (keys d) ≡ false
    → put k v d ≡ d ++ (k, v) ∷ []
unfolding put contains keys
put_new k v [] h = refl
put_new k v ((j, w) ∷ d) h = ground (arith, put_new k v d)

contains-middle :
    (k : Slot) (v : Bytes) (acc d : Dict Slot Bytes) → contains k (keys (acc ++ (k, v) ∷ d)) ≡ true
unfolding contains keys
contains-middle k v [] d = ground (arith, pair_beq_iff k k)
contains-middle k v ((j, w) ∷ acc) d = ground (arith, contains-middle k v acc d)

distinct-middle :
    (k : Slot) (v : Bytes) (acc d : Dict Slot Bytes)
    → distinct (acc ++ (k, v) ∷ d) ≡ true
    → contains k (keys acc) ≡ false
unfolding contains keys distinct
distinct-middle k v [] d h = refl
distinct-middle k v ((j, w) ∷ acc) d h =
    ground (arith, distinct-middle k v acc d, contains-middle k v acc d, pair_beq_iff j k)

load_keys-save_key :
    (acc d : Dict Slot Bytes)
    → All IsSavable d
    → distinct (acc ++ d) ≡ true
    → load_keys acc (map save_key d) ≡ some (acc ++ d)
unfolding load_keys save_key
load_keys-save_key acc [] h apart = ap some (sym (append-nil acc))
load_keys-save_key acc (((dh, n), mk) ∷ d) h apart =
    let grown = acc ++ ((dh, n), mk) ∷ [] in
    let same : grown ++ d ≡ acc ++ ((dh, n), mk) ∷ d = append_assoc acc (((dh, n), mk) ∷ []) d in
    let rest : load_keys grown (map save_key d) ≡ some (acc ++ ((dh, n), mk) ∷ d) =
      load_keys-save_key grown d h.1 (ap distinct same ∙ apart) ∙ ap some same in
    ground (
      arith,
      ub64-b64 dh h.0.0,
      b64decode-b64encode mk h.0.1,
      put_new (dh, n) mk acc (distinct-middle (dh, n) mk acc d apart),
      rest,
    )

-- What a session holds: keys of bytes, a key pair of 32 bytes, and message keys under distinct slots.
pub record IsStored (s : Session) : Type 0 where
  pub root : IsBytes s.root_key
  pub pair : IsPair s.dhs
  pub shown : IsBytes s.dhs_pub
  pub peer : AreBytes s.dhr
  pub sending : AreBytes s.send_chain
  pub receiving : AreBytes s.recv_chain
  pub keys_of : All IsSavable s.skipped
  pub apart : distinct s.skipped ≡ true

IsPair-AreBytes : (x : Option Bytes) → IsPair x → AreBytes x
IsPair-AreBytes none h = tt
IsPair-AreBytes (some k) h = h.0

-- A session that is saved and loaded again is the same session, with its chains, counters and all of
-- its message keys in their order.
pub from_dict-to_dict : (s : Session) → IsStored s → from_dict (to_dict s) ≡ some s
unfolding from_dict to_dict
from_dict-to_dict s h =
    let (shown, read, same) = ub64-b64_nonempty s.dhs_pub h.shown in
    ground (
      arith,
      b64decode-b64encode s.root_key h.root,
      ub64-b64 s.dhs (IsPair-AreBytes s.dhs h.pair),
      load_pair-id s.dhs h.pair,
      read,
      same,
      ub64-b64 s.dhr h.peer,
      ub64-b64 s.send_chain h.sending,
      ub64-b64 s.recv_chain h.receiving,
      load_keys-save_key [] s.skipped h.keys_of h.apart,
    )
