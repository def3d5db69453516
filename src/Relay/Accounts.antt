-- ===== src/Relay/Accounts.antt =====
-- Names and their keys (server.py, _h_register, _h_getkey, _h_list_users).
pub mod Pinned
use dns_messenger.Prelude.{
  ℕ, ◌≡◌, Bool, true, false, ◌&&◌, not, Option, none, some, List, [], ◌∷◌, if◌then◌else◌, ltb, leb,
  ◌==◌, list_eq, list_nat_eq, length, take, drop,
}
use dns_messenger.Prelude.Text.{Text, Bytes, join}
use dns_messenger.Dict.{Dict, get, put, pop, keys, keys_where, stamp_of, min_by}
use dns_messenger.Protocol.{b32decode}
use dns_messenger.Crypto.{Crypto, split_bundle, verify_sig, reg_signing_input}
use dns_messenger.Relay.State.{Relay, Account, bundle_b32_len, max_users, max_list_users_reply}
use dns_messenger.Relay.Reply
use dns_messenger.Relay.Reply.{Reply, err, ok, key}

-- The signature under the bundle is there and its own Ed25519 key verifies it.
unfoldable pub signed_bundle : Crypto → Text → Bytes → Text → Bool
signed_bundle c user bundle [] = false
signed_bundle c user bundle (s ∷ sig_b32) = elim ((split_bundle bundle).1) [
  | none ↦ false
  | some ed_pub ↦ elim (b32decode (s ∷ sig_b32)) [
    | none ↦ false
    | some sig ↦ length sig == 64 && verify_sig c ed_pub (reg_signing_input user bundle) sig
  ]
]

abbrev pub account : Bytes → Bool → ℕ → Account
account bundle pinned now = record {
  bundle = bundle;
  pinned = pinned;
  ts = now;
  disk_pubkey = none;
}

abbrev pub is_unpinned : Account → Bool
is_unpinned a = not a.pinned

-- A new name: at the limit, the oldest name without a pin makes room, or there is none.
unfoldable pub add_user : ℕ → Text → Bytes → Bool → Dict Text Account → Option (Dict Text Account)
add_user now user bundle sig_ok users =
    if leb max_users (length users)
    then elim (min_by (stamp_of (λ a. a.ts) users) (keys_where is_unpinned users)) [
      | none ↦ none
      | some victim ↦ some (put user (account bundle sig_ok now) (pop victim users))
    ]
    else some (put user (account bundle sig_ok now) users)

-- The three branches under the lock; the reply beside the users.
unfoldable pub store_user : ℕ → Text → Bytes → Bool → Dict Text Account → Reply × Dict Text Account
store_user now user bundle sig_ok users = elim (get user users) [
  | none ↦ elim (add_user now user bundle sig_ok users) [
    | none ↦ (err Reply.full, users)
    | some users' ↦ (ok user, users')
  ]
  | some entry ↦
      if entry.pinned
      then if sig_ok && list_eq bundle entry.bundle
        then (ok user, put user (account bundle true now) users)
        else (err Reply.pinned, users)
      else (ok user, put user (account bundle (sig_ok && list_eq bundle entry.bundle) now) users)
]

unfoldable pub h_register : Crypto → ℕ → List Text → Relay → Reply × Relay
h_register c now (user ∷ label ∷ labels) s =
    let blob = join (label ∷ labels) in
    elim (b32decode (take bundle_b32_len blob)) [
      | none ↦ (err Reply.bad_reg, s)
      | some bundle ↦
          let sig_ok = signed_bundle c user bundle (drop bundle_b32_len blob) in
          let (reply, users) = store_user now user bundle sig_ok s.users in
          (reply, record s { users = users })
    ]
h_register c now _ s = (err Reply.bad_reg, s)

unfoldable pub h_getkey : List Text → Relay → Reply × Relay
h_getkey [] s = (err Reply.no_user, s)
h_getkey (user ∷ _) s = elim (get user s.users) [
  | none ↦ (err Reply.not_found, s)
  | some entry ↦
      if list_eq entry.bundle []
      then (err Reply.not_found, s)
      else (key entry.pinned entry.bundle, s)
]

unfoldable pub h_list_users : List Text → Relay → Reply × Relay
h_list_users _ s =
    let user_list = take max_list_users_reply (keys s.users) in
    elim user_list [ [] ↦ (Reply.empty, s) | u ∷ us ↦ (Reply.users (u ∷ us), s) ]
