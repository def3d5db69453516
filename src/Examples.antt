-- ===== src/Examples.antt =====
-- The toy primitives and the small states that the examples run the model on.
mod Codec
mod Requests
mod Delivery
mod Membership
mod Mail
mod Files
mod Commands
mod Toys
mod Meeting
mod Groups
mod Secrets
mod Client
mod Bridge
use dns_messenger.Prelude.{
  ℕ, Bool, true, false, ◌&&◌, Option, none, some, List, [], ◌∷◌, replicate, ◌==◌,
}
use dns_messenger.Prelude.Text.{Text, Bytes, text}
use dns_messenger.Dict.{Dict}
use dns_messenger.Crypto.{Crypto}
use dns_messenger.Relay.State.{Relay, Account, Group, GroupKey, Message, init}

-- A signature verifies under a key where both begin with the same byte.
toy_verify : Bytes → Bytes → Bytes → Bool
toy_verify (k ∷ key) (m ∷ message) (s ∷ sig) = k == s
toy_verify key message sig = false

unfoldable pub toy : Crypto
unfolding toy_verify
toy = record { ed25519_verify = toy_verify; sha256_hex = λ x. x }

abbrev pub alice : Text
alice = text "alice"

abbrev pub bob : Text
bob = text "bob"

abbrev pub carol : Text
carol = text "carol"

-- 64 bytes: the second half begins with 7.
abbrev pub alice_bundle : Bytes
alice_bundle = replicate 64 7

abbrev pub alice_account : Account
alice_account = record { bundle = alice_bundle; pinned = true; ts = 1000; disk_pubkey = none }

unfoldable pub with_alice : Relay
unfolding init
with_alice = record (init 1000) { users = (alice, alice_account) ∷ [] }

abbrev pub team : Group
team = record {
  creator = alice;
  members = alice ∷ bob ∷ [];
  keys = (bob, record { sealed = text "aaaa"; from_user = alice }) ∷ [];
  ts = 1000;
}

abbrev pub team_id : Text
team_id = text "team"

unfoldable pub with_team : Relay
unfolding with_alice
with_team = record with_alice { groups = (team_id, team) ∷ [] }
