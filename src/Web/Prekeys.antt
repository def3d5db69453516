-- ===== src/Web/Prekeys.antt =====
-- The prekeys of an account, private and published (web_client.py, bootstrap_or_replenish_prekeys to
-- take_prekey_bundle). Fresh keys are arguments, and so is the order in which a set is listed.
pub mod Pool
use dns_messenger.Prelude.{
  ℕ, zero, suc, ◌+◌, ◌-◌, Bool, true, false, ◌||◌, Option, none, some, List, [], ◌∷◌, ◌++◌, map,
  if◌then◌else◌, ltb, length, list_nat_eq,
}
use dns_messenger.Prelude.Sets.{add}
use dns_messenger.Prelude.Base64.{b64encode, b64decode}
use dns_messenger.Prelude.Text.{Text, Bytes}
use dns_messenger.Dict.{Dict, get, put, keys}
use dns_messenger.Crypto.Cipher.{Primitives, Identity}
use dns_messenger.Ratchet.{sign_prekey}

abbrev pub one_time_prekey_pool_target : ℕ
one_time_prekey_pool_target = 50

abbrev pub one_time_prekey_replenish_threshold : ℕ
one_time_prekey_replenish_threshold = 10

-- Seven days, in milliseconds.
abbrev pub signed_prekey_rotate_after : ℕ
signed_prekey_rotate_after = 604800000

pub record Store : Type 0 where
  pub signed_priv : Bytes
  pub signed_pub : Bytes
  pub signed_sig : Bytes
  pub signed_ts : ℕ
  -- public half → private key
  pub one_time : Dict Bytes Bytes

module _ (p : Primitives) (i : Identity) where
  -- A signed prekey from the key pair `priv`, beside the one-time keys.
  unfoldable pub signed_store : Bytes → ℕ → Dict Bytes Bytes → Store
  signed_store priv now one_time = record {
    signed_priv = priv;
    signed_pub = p.x_public priv;
    signed_sig = sign_prekey p i (p.x_public priv);
    signed_ts = now;
    one_time = one_time;
  }

  -- for _ in range(count), the keys being `draw n`, `draw (n + 1)`, …
  unfoldable pub add_one_time : (ℕ → Bytes) → ℕ → ℕ → Dict Bytes Bytes → Dict Bytes Bytes
  add_one_time draw n zero keys = keys
  add_one_time draw n (suc count) keys =
      add_one_time draw (n + 1) count (put (p.x_public (draw n)) (draw n) keys)

  unfoldable pub rotate : Bytes → ℕ → Option Store → Store × Bool
  unfolding signed_store
  rotate fresh now none = (signed_store fresh now [], true)
  rotate fresh now (some store) =
      if ltb signed_prekey_rotate_after (now - store.signed_ts)
      then (signed_store fresh now store.one_time, true)
      else (store, false)

  unfoldable pub bootstrap_or_replenish_prekeys :
      Bytes → (ℕ → Bytes) → ℕ → Option Store → Store × Bool
  unfolding rotate add_one_time
  bootstrap_or_replenish_prekeys fresh draw now existing =
      let (store, changed) = rotate fresh now existing in
      let count = length store.one_time in
      if ltb count one_time_prekey_replenish_threshold
      then (
        record store {
          one_time = add_one_time draw 0 (one_time_prekey_pool_target - count) store.one_time;
        },
        true,
      )
      else (store, changed)

-- An entry of the file of published bundles.
pub record Published : Type 0 where
  pub signed_pub : Text
  pub signed_sig : Text
  pub signed_ts : ℕ
  pub one_time : List Text

-- {base64.b64decode(p) for p in …}; `none` is binascii.Error.
unfoldable pub decode_set : List Text → Option (List Bytes)
decode_set [] = some []
decode_set (t ∷ ts) =
    let rest = decode_set ts in
    elim (b64decode t) [
      | none ↦ none
      | some key ↦ elim rest [ none ↦ none | some keys ↦ some (add key keys) ]
    ]

-- s | t
unfoldable pub union : List Bytes → List Bytes → List Bytes
union s [] = s
union s (k ∷ ks) = union (add k s) ks

abbrev pub pool_of : Text → Dict Text Published → List Text
pool_of username store = elim (get username store) [ none ↦ [] | some e ↦ e.one_time ]

unfoldable pub publish_prekey_bundle :
    (List Bytes → List Bytes) → Text → Store → Dict Text Published → Option (Dict Text Published)
unfolding decode_set union
publish_prekey_bundle arrange username store published =
    elim (decode_set (pool_of username published)) [
      | none ↦ none
      | some already ↦ some (
          put username
            (record {
              signed_pub = b64encode store.signed_pub;
              signed_sig = b64encode store.signed_sig;
              signed_ts = store.signed_ts;
              one_time = map b64encode (arrange (union (keys store.one_time) already));
            })
            published)
    ]

pub record Bundle : Type 0 where
  pub signed_pub : Bytes
  pub signed_sig : Bytes
  pub one_time_pub : Option Bytes

pub data Taken : Type 0 where
  bundle : Bundle → Taken
  -- None, and binascii.Error
  absent damaged : Taken

-- base64.b64decode(one_time_pub) if one_time_pub else None
unfoldable pub decode_one_time : Option Text → Option (Option Bytes)
decode_one_time none = some none
decode_one_time (some []) = some none
decode_one_time (some (c ∷ s)) = elim (b64decode (c ∷ s)) [ none ↦ none | some k ↦ some (some k) ]

unfoldable pub bundle_of : Published → Option Text → Taken
unfolding decode_one_time
bundle_of e key = elim (b64decode e.signed_pub) [
  | none ↦ Taken.damaged
  | some signed_pub ↦ elim (b64decode e.signed_sig) [
    | none ↦ Taken.damaged
    | some signed_sig ↦ elim (decode_one_time key) [
      | none ↦ Taken.damaged
      | some one_time ↦
          Taken.bundle
            (record { signed_pub = signed_pub; signed_sig = signed_sig; one_time_pub = one_time })
    ]
  ]
]

-- The pool is saved before the keys are decoded.
unfoldable pub take_prekey_bundle : Text → Dict Text Published → Taken × Dict Text Published
unfolding bundle_of
take_prekey_bundle username published = elim (get username published) [
  | none ↦ (Taken.absent, published)
  | some e ↦ elim e.one_time [
    | [] ↦ (bundle_of e none, published)
    | key ∷ rest ↦ (bundle_of e (some key), put username (record e { one_time = rest }) published)
  ]
]
