-- ===== src/Examples/Requests.antt =====
-- Runs of the accounts, the signed requests and the limiter.
use dns_messenger.Prelude.{
  ℕ, ◌≡◌, ◌≢◌, ◌≤◌, refl, none, some, List, [], ◌∷◌, replicate, arith, list_nat_eq, list_eq,
}
use dns_messenger.Prelude.Text.{Text, text, join, isdigit, is_digit, int, parse_digits, join_with}
use dns_messenger.Dict.{Dict, get, put}
use dns_messenger.Protocol.{b32encode, codec}
use dns_messenger.Crypto.{
  poll_signing_input, signing_input, context, verify_sig, split_bundle, reg_signing_input,
}
use dns_messenger.Relay.State.{init}
use dns_messenger.Relay.Accounts.{h_register, store_user, signed_bundle, add_user}
use dns_messenger.Relay.Accounts.Pinned.{pin_of, OwnsBundle, pin_of-h_register_new}
use dns_messenger.Relay.Auth.{
  authorize_poll, parse_signed, check_signed, outside_window, verified_by, accept_poll_nonce,
  accept_key, purge_nonces,
}
use dns_messenger.Relay.Auth.Replay.{accept_calls}
use dns_messenger.Relay.Auth.Signed.{IsAuthorized, authorize_poll_sound, authorize_poll_once}
use dns_messenger.Relay.Limiter.Window.{Ask, window, replies, rising, replies-window}
use dns_messenger.Relay.Dispatch.{serve}
use dns_messenger.Relay.Dispatch.Pins.{pin_of-serve}
use dns_messenger.Relay.Dispatch.Within.{IsWithin}
use dns_messenger.Relay.Dispatch.Limits.{IsWithin-serve-init}
use dns_messenger.Examples.{toy, toy_verify, alice, bob, alice_bundle, alice_account, with_alice}

-- Another bundle under the pinned name, without a signature.
abbrev stolen : List Text
stolen = alice ∷ text "aaaaaaaa" ∷ []

-- A registration that its own key signs.
abbrev signed_labels : List Text
signed_labels = bob ∷ b32encode alice_bundle ∷ b32encode (replicate 64 7) ∷ []

new_pin : pin_of bob (h_register toy 2000 signed_labels (init 0)).1.users ≡ some alice_bundle
unfolding h_register store_user add_user signed_bundle codec join split_bundle verify_sig toy
    toy_verify reg_signing_input signing_input context join_with get put list_eq init
new_pin = refl

no_pin_before : pin_of bob (init 0).users ≢ some alice_bundle
unfolding init get
no_pin_before e = ground (arith, e)

pin_of-h_register_new_example : OwnsBundle toy bob alice_bundle
pin_of-h_register_new_example =
    pin_of-h_register_new toy 2000 signed_labels (init 0) bob alice_bundle no_pin_before new_pin

pin_of-serve_example :
    pin_of alice
      (serve
        (λ raw. some raw)
        (λ e. [])
        toy
        (text "msg")
        (record { time = 2000; ip = text "1.2.3.4"; raw = text "r.alice.aaaaaaaa.msg" } ∷ [])
        with_alice).users
    ≡ some alice_bundle
unfolding with_alice get list_eq
pin_of-serve_example =
    pin_of-serve (λ raw. some raw) (λ e. []) toy (text "msg")
      (record { time = 2000; ip = text "1.2.3.4"; raw = text "r.alice.aaaaaaaa.msg" } ∷ [])
      with_alice alice alice_bundle refl

-- A poll that alice's key signed at the second 2.
abbrev signed_poll : List Text
signed_poll = alice ∷ text "n1" ∷ text "2" ∷ b32encode (replicate 64 7) ∷ []

abbrev seen_once : Dict Text ℕ
seen_once = (text "dm:alice:n1", 302000) ∷ []

let_through :
    authorize_poll toy 2000 alice (some alice_account) signed_poll poll_signing_input (text "dm") []
    ≡ (none, seen_once)
unfolding authorize_poll parse_signed check_signed outside_window verified_by accept_poll_nonce
    accept_key purge_nonces codec join isdigit is_digit int parse_digits split_bundle verify_sig toy
    toy_verify poll_signing_input signing_input context join_with get put list_eq
let_through = refl

authorize_poll_sound_example :
    IsAuthorized toy 2000 alice alice_bundle signed_poll poll_signing_input (text "dm") [] seen_once
authorize_poll_sound_example =
    authorize_poll_sound toy 2000 alice alice_account signed_poll poll_signing_input (text "dm") []
      seen_once refl let_through

authorize_poll_once_example :
    (authorize_poll toy 4000 alice
      (some alice_account)
      signed_poll
      poll_signing_input
      (text "dm")
      (accept_calls ((3000, text "dm:alice:n2") ∷ []) seen_once)).0
    ≢ none
authorize_poll_once_example =
    authorize_poll_once toy 2000 alice alice_account signed_poll poll_signing_input (text "dm") []
      seen_once ((3000, text "dm:alice:n2") ∷ []) 4000 refl let_through (omega arith) (omega arith)

abbrev burst : List Ask
burst = (2000, alice) ∷ (2500, bob) ∷ (2500, alice) ∷ (9000, alice) ∷ []

replies-window_example :
    window 2000 (replies alice burst (record { hits = []; last_sweep = 1000 })) ≤ 20
unfolding rising
replies-window_example =
    replies-window alice burst (record { hits = []; last_sweep = 1000 }) 1000 2000 refl

IsWithin-serve-init_example : IsWithin (
    serve
      (λ raw. some raw)
      (λ e. [])
      toy
      (text "msg")
      (record { time = 2000; ip = text "1.2.3.4"; raw = text "r.alice.aaaaaaaa.msg" } ∷ [])
      (init 1000))
IsWithin-serve-init_example =
    IsWithin-serve-init (λ raw. some raw) (λ e. []) toy (text "msg") 1000
      (record { time = 2000; ip = text "1.2.3.4"; raw = text "r.alice.aaaaaaaa.msg" } ∷ [])
