-- ===== src/Web/Peers.antt =====
-- The pinned keys of other users (web_client.py, UserMessenger._remember_peer to peer_verify_key). The
-- relay's reply to a key request is an argument.
pub mod Pins
pub mod Fetch
use dns_messenger.Prelude.{
  ℕ, ◌+◌, ◌*◌, ◌==◌, Bool, true, false, ◌&&◌, ◌||◌, not, Option, none, some, List, [], ◌∷◌, ◌++◌,
  if◌then◌else◌, length, take, drop, list_eq, list_nat_eq,
}
use dns_messenger.Prelude.Sets.{add, discard}
use dns_messenger.Prelude.Text.{Text, Bytes, text, startswith}
use dns_messenger.Dict.{Dict, get, put}
use dns_messenger.Protocol.{b32encode, b32decode}
use dns_messenger.Crypto.{split_bundle, key_len}

pub record Peers : Type 0 where
  -- user → bundle in base32, also on disk
  pub pins : Dict Text Text
  pub peer_keys : Dict Text Bytes
  pub peer_verify : Dict Text Bytes
  pub key_alerts : List Text

pub data Found : Type 0 where
  peer_key : Bytes → Found
  -- None
  missing : Found
  -- binascii.Error on a damaged pin
  damaged : Found

-- self.peer_keys[user] = x; if ed: self.peer_verify[user] = ed
unfoldable pub keep_halves : Text → Bytes → Peers → Found × Peers
keep_halves user bundle s =
    let (x, ed) = split_bundle bundle in
    let known = record s { peer_keys = put user x s.peer_keys } in
    (
      Found.peer_key x,
      elim ed [ none ↦ known | some e ↦ record known { peer_verify = put user e s.peer_verify } ],
    )

unfoldable pub remember_peer : Text → Bytes → Peers → Found × Peers
unfolding keep_halves
remember_peer user bundle s = elim (get user s.pins) [
  | none ↦ keep_halves user bundle (record s {
    pins = put user (b32encode bundle) s.pins;
    key_alerts = discard user s.key_alerts;
  })
  | some pinned ↦
      if list_eq pinned (b32encode bundle)
      then keep_halves user bundle (record s { key_alerts = discard user s.key_alerts })
      else let alerted = record s { key_alerts = add user s.key_alerts } in
        elim (b32decode pinned) [
          | none ↦ (Found.damaged, alerted)
          | some trusted ↦ keep_halves user trusted alerted
        ]
]

-- s.partition(':'), without the separator
unfoldable pub partition_colon : Text → Text × Text
partition_colon [] = ([], [])
partition_colon (c ∷ s) =
    let (head, tail) = partition_colon s in if c == b':' then ([], s) else (c ∷ head, tail)

-- The lengths that a bundle may have under the flag '0' or '1'.
unfoldable pub bundle_fits : Text → Bytes → Bool
bundle_fits flag bundle =
    (length bundle == key_len || length bundle == 2 * key_len)
    && not (list_eq flag (text "1") && not (length bundle == 2 * key_len))

-- The bundle in a reply, if it is well formed.
unfoldable pub bundle_in : Text → Option Bytes
unfolding bundle_fits partition_colon
bundle_in res =
    let (flag, bundle_b32) = partition_colon (drop 4 res) in
    if startswith (text "KEY:") res
    then if list_eq flag (text "0") || list_eq flag (text "1")
      then elim (b32decode bundle_b32) [
        | none ↦ none
        | some bundle ↦ if bundle_fits flag bundle then some bundle else none
      ]
      else none
    else none

unfoldable pub get_peer_key : Text → Text → Peers → Found × Peers
unfolding bundle_in remember_peer
get_peer_key res user s = elim (get user s.peer_keys) [
  | some x ↦ (Found.peer_key x, s)
  | none ↦ elim (bundle_in res) [
    | none ↦ (Found.missing, s)
    | some bundle ↦ remember_peer user bundle s
  ]
]

-- Whether peer_verify_key raises: the user is looked up, and the pin is damaged.
unfoldable pub peer_verify_raises : Text → Text → Peers → Bool
unfolding get_peer_key
peer_verify_raises res user s = elim (get user s.peer_verify) [
  | some ed ↦ false
  | none ↦ elim (get_peer_key res user s).0 [
    | Found.damaged ↦ true
    | Found.missing ↦ false
    | Found.peer_key x ↦ false
  ]
]

-- The key that it gives where it does not raise.
unfoldable pub peer_verify_key : Text → Text → Peers → Option Bytes × Peers
unfolding get_peer_key
peer_verify_key res user s = elim (get user s.peer_verify) [
  | some ed ↦ (some ed, s)
  | none ↦ elim (get user s.peer_keys) [
    | some x ↦ (none, s)
    | none ↦ let s' = (get_peer_key res user s).1 in (get user s'.peer_verify, s')
  ]
]
