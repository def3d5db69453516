-- ===== src/Examples/Commands.antt =====
-- Runs of whole commands.
use dns_messenger.Prelude.{
  ◌≡◌, ◌≢◌, ◌⊎◌, refl, sym, ◌∙◌, true, false, some, List, [], ◌∷◌, list_eq, list_nat_eq, nat_eq,
  replicate, arith, contains, take, drop, ◌++◌,
}
use dns_messenger.Prelude.Text.{Text, text, join, int, parse_digits, isdigit, is_digit, join_with}
use dns_messenger.Prelude.Base64.{b64encode}
use dns_messenger.Dict.{get, put, pop}
use dns_messenger.Protocol.{b32encode, codec}
use dns_messenger.Crypto.{
  split_bundle, verify_sig, disk_register_signing_input, signing_input, context,
  ginvite_signing_input,
}
use dns_messenger.Relay.State.{Relay, init}
use dns_messenger.Prelude.Sets.{add}
use dns_messenger.Relay.Invites.{
  h_ginvite_chunked, ginvite_in_range, invite_chunk, save_invite, apply_ginvite, store_invite,
  add_member, invite_key,
}
use dns_messenger.Relay.Auth.{
  accept_poll_nonce, accept_key, purge_nonces, verified_by, outside_window,
}
use dns_messenger.Relay.Assembly.{gather, gather_from}
use dns_messenger.Relay.Groups.Membership.{in_group}
use dns_messenger.Relay.Disk.{
  h_diskreg, disk_in_range, disk_pinned, disk_chunk, after_chunk, finish_disk, check_time, sign_off,
}
use dns_messenger.Relay.Disk.Registry.{disk_key_of}
use dns_messenger.Relay.Dispatch.{Command, call}
use dns_messenger.Relay.Dispatch.Folders.{IsEntered, IsForgotten, disk_key_of-call}
use dns_messenger.Relay.Dispatch.Joining.{Lets, joins-call}
use dns_messenger.Examples.{toy, toy_verify, alice, carol, team_id, with_alice, with_team}

-- Alice, who is pinned, invites Carol: the payload is in two chunks.
abbrev invitation : Text
invitation = b32encode (replicate 64 7) ++ text "sealed"

abbrev invite_chunk_of : Text → Text → List Text
invite_chunk_of seq content = team_id ∷ alice ∷ carol ∷ text "m1" ∷ seq ∷ text "2" ∷ content ∷ []

half_invited : Relay
unfolding with_team
half_invited = record with_team {
  ginvite_pending =
      (
        invite_key alice team_id carol (text "m1"),
        record { chunks = (0, take 60 invitation) ∷ []; total = 2; ts = 1500 },
      )
      ∷ [];
}

last_chunk : List Text
last_chunk = invite_chunk_of (text "1") (drop 60 invitation)

carol_new : in_group team_id carol half_invited.groups ≡ false
unfolding half_invited with_team get contains list_eq
carol_new = refl

joined :
    in_group team_id carol (call toy 2000 Command.ginvite_chunked last_chunk half_invited).1.groups
    ≡ true
unfolding call last_chunk half_invited with_team with_alice init get put pop list_eq contains
    h_ginvite_chunked int parse_digits is_digit isdigit ginvite_in_range invite_chunk save_invite
    join join_with gather gather_from apply_ginvite codec verified_by split_bundle verify_sig toy
    toy_verify ginvite_signing_input signing_input context store_invite add_member add
joined = refl

joins-call_example : Lets toy Command.ginvite_chunked last_chunk team_id carol half_invited
joins-call_example =
    joins-call toy 2000 half_invited team_id carol carol_new Command.ginvite_chunked last_chunk
      joined

-- The whole key in one chunk, signed at the second 2.
disk_labels : List Text
disk_labels =
    text "0"
    ∷ text "1"
    ∷ b32encode (1 ∷ 2 ∷ [])
    ∷ text "n1"
    ∷ text "2"
    ∷ b32encode (replicate 64 7)
    ∷ []

no_key : disk_key_of alice with_alice.users ≢ some (b64encode (1 ∷ 2 ∷ []))
unfolding with_alice get list_eq
no_key e = ground (arith, e)

key_set :
    disk_key_of alice (h_diskreg toy 2000 (alice ∷ disk_labels) with_alice).1.users
    ≡ some (b64encode (1 ∷ 2 ∷ []))
unfolding h_diskreg disk_in_range disk_pinned disk_chunk after_chunk finish_disk check_time sign_off
    disk_labels with_alice init get put pop list_eq int parse_digits is_digit isdigit join join_with
    codec split_bundle verify_sig toy toy_verify disk_register_signing_input signing_input context
    accept_poll_nonce accept_key purge_nonces outside_window gather gather_from
key_set = refl

disk_key_of-call_example :
    IsEntered toy 2000 Command.diskreg (alice ∷ disk_labels) alice with_alice
    ⊎ IsForgotten toy 2000 Command.diskreg (alice ∷ disk_labels) alice with_alice
unfolding call
disk_key_of-call_example =
    disk_key_of-call toy 2000 with_alice alice Command.diskreg (alice ∷ disk_labels)
      (λ e. no_key (sym e ∙ key_set))
