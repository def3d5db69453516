-- ===== src/Examples/Groups.antt =====
-- A group message from Anna to Boris, with toy primitives.
use dns_messenger.Prelude.{
  ◌≡◌, refl, ap, some, [], ◌∷◌, ◌++◌, arith, replicate, contains, list_nat_eq, list_eq, false,
}
use dns_messenger.Prelude.Text.{Text, Bytes, text}
use dns_messenger.Dict.{Dict, get}
use dns_messenger.Protocol.{b32encode}
use dns_messenger.Crypto.{build_signed}
use dns_messenger.Crypto.Cipher
use dns_messenger.Crypto.Cipher.{Identity, verify_bytes, sign}
use dns_messenger.Web.Peers.{Peers}
use dns_messenger.Web.GroupMail.{shown, genuine, send_group, read_group_message}
use dns_messenger.Web.GroupMail.Marks.{
  Signed, read_group_message-genuine, read_group_message-send_group,
}
use dns_messenger.Examples.Toys.{sum_of, toy_public, toy_primitives, toy-Unseals, toy-Signs, seed}

abbrev anna_keys : Identity
anna_keys = record { private_key = seed 2; signing_key = seed 3 }

abbrev keys_of_boris : Dict Text Bytes
keys_of_boris = (text "team", seed 9) ∷ []

abbrev peers_of_boris : Peers
peers_of_boris = record {
  pins = [];
  peer_keys = (text "anna", toy_public (seed 2)) ∷ [];
  peer_verify = (text "anna", verify_bytes toy_primitives anna_keys) ∷ [];
  key_alerts = [];
}

-- A nonce, a byte that names the group key, and the signed text.
abbrev group_ct : Bytes
group_ct =
    replicate 12 1
    ++ 23
      ∷ build_signed (sign toy_primitives anna_keys) (text "anna" ++ 0 ∷ text "team") (text "hi")

sealed_text :
    send_group toy_primitives
      (replicate 12 1)
      anna_keys
      (text "anna")
      (text "team")
      (text "hi")
      keys_of_boris
    ≡ some group_ct
unfolding send_group get Cipher.encrypt toy_primitives sum_of
sealed_text = refl

read_group_message-send_group_example :
    read_group_message toy_primitives
      (λ x. some x)
      []
      (text "boris")
      (text "team")
      (text "anna")
      (b32encode group_ct)
      keys_of_boris
      peers_of_boris
    ≡ (some (shown (text "hi") genuine), peers_of_boris)
unfolding get contains list_eq build_signed sign toy_primitives sum_of
read_group_message-send_group_example =
    read_group_message-send_group toy_primitives toy-Unseals toy-Signs (λ x. some x) anna_keys
      (replicate 12 1) (text "hi") group_ct [] (text "boris") (text "team") (text "anna")
      (text "hi") keys_of_boris keys_of_boris peers_of_boris refl sealed_text refl refl refl refl
      refl (ground arith)

read_group_message-genuine_example :
    (list_eq (text "anna") (text "boris") ≡ false)
    × Signed toy_primitives
        (λ x. some x)
        []
        (text "team")
        (text "anna")
        (b32encode group_ct)
        (text "hi")
        keys_of_boris
        peers_of_boris
unfolding get contains list_eq build_signed sign toy_primitives sum_of
read_group_message-genuine_example =
    read_group_message-genuine toy_primitives (λ x. some x) [] (text "boris") (text "team")
      (text "anna") (b32encode group_ct) (text "hi") keys_of_boris peers_of_boris
      (ap (λ r. r.0)
        (read_group_message-send_group toy_primitives toy-Unseals toy-Signs (λ x. some x) anna_keys
          (replicate 12 1) (text "hi") group_ct [] (text "boris") (text "team") (text "anna")
          (text "hi") keys_of_boris keys_of_boris peers_of_boris refl sealed_text refl refl refl
          refl refl (ground arith)))
