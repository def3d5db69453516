-- ===== src/Examples/Secrets.antt =====
-- Runs of the ratchet, the identity file and the group keys, with toy primitives.
use dns_messenger.Prelude.{
  ◌≡◌, refl, true, false, some, List, [], ◌∷◌, ◌++◌, arith, if◌then◌else◌, replicate, option_beq,
  list_eq, pair_beq, contains,
}
use dns_messenger.Prelude.Text.{Bytes, text}
use dns_messenger.Dict.{get, keys}
use dns_messenger.Crypto.{verify_sig}
use dns_messenger.Crypto.Cipher
use dns_messenger.Crypto.Cipher.{
  Primitives, Identity, Loaded, identity, public_bytes, verify_bytes, seal_group_key,
  unseal_group_key, save, load, private_bytes,
}
use dns_messenger.Crypto.Sealing.{load-save, unseal_group_key-seal_group_key}
use dns_messenger.Ratchet.{value, raise, ratchet_error, x3dh_initiate, x3dh_respond, kdf_rk, dh}
use dns_messenger.Ratchet.Agreement.{public_half, x3dh_initiate-respond}
use dns_messenger.Ratchet.Header.{unpack_header}
use dns_messenger.Ratchet.Session.{Session, empty, init_initiator, init_responder, decrypt}
use dns_messenger.Ratchet.Bounds.{Call, run, IsBounded, run-IsBounded}
use dns_messenger.Ratchet.Conversation.{Mail, converse, arrived, tolerable}
use dns_messenger.Ratchet.Handshake.{converse-start}
use dns_messenger.Ratchet.Forged.{decrypt-Turned}
use dns_messenger.Ratchet.Storage.{to_dict, from_dict, IsStored, from_dict-to_dict, distinct}
use dns_messenger.Protocol.{from_base}
use dns_messenger.Examples.Toys.{
  sum_of, toy_public, toy_primitives, toy-Commutes, toy-Unseals, toy-Proper, seed,
}

abbrev anna : Identity
anna = record { private_key = seed 2; signing_key = seed 3 }

abbrev boris : Identity
boris = record { private_key = seed 4; signing_key = seed 5 }

x3dh_initiate-respond_example :
    x3dh_initiate toy_primitives anna
      (seed 6)
      (public_bytes toy_primitives boris)
      (verify_bytes toy_primitives boris)
      (toy_primitives.x_public (seed 7))
      (5 ∷ [])
      (public_half toy_primitives (some (seed 8)))
    ≡ (if verify_sig toy_primitives.crypto
          (verify_bytes toy_primitives boris)
          (toy_primitives.x_public (seed 7))
          (5 ∷ [])
        then x3dh_respond toy_primitives boris
            (seed 7)
            (some (seed 8))
            (public_bytes toy_primitives anna)
            (toy_primitives.x_public (seed 6))
        else raise ratchet_error)
x3dh_initiate-respond_example =
    x3dh_initiate-respond toy_primitives toy-Commutes toy-Proper anna boris (seed 6) (seed 7)
      (5 ∷ []) (some (seed 8))

abbrev shared : Bytes
shared = replicate 32 9

abbrev first_out : Bytes
first_out = 149 ∷ []

abbrev opened_session : Session
opened_session = record empty {
  root_key = (kdf_rk toy_primitives shared first_out).0;
  dhs = some (seed 6);
  dhs_pub = toy_public (seed 6);
  dhr = some (toy_public (seed 7));
  send_chain = some ((kdf_rk toy_primitives shared first_out).1);
}

session_opens :
    init_initiator toy_primitives (seed 6) shared (toy_primitives.x_public (seed 7))
    ≡ value opened_session
unfolding init_initiator dh toy_primitives sum_of
session_opens = refl

-- The second of three messages is lost.
abbrev letters : List Mail
letters =
    record { nonce = replicate 12 1; plaintext = text "one"; arrives = true }
    ∷ record { nonce = replicate 12 2; plaintext = text "two"; arrives = false }
    ∷ record { nonce = replicate 12 3; plaintext = text "three"; arrives = true }
    ∷ []

converse-start_example :
    converse toy_primitives
      (seed 10)
      letters
      opened_session
      (init_responder toy_primitives shared (seed 7))
    ≡ arrived letters
unfolding toy_primitives sum_of tolerable
converse-start_example =
    converse-start toy_primitives toy-Commutes toy-Unseals shared (seed 7) (seed 6) (seed 10)
      (242 ∷ []) opened_session refl session_opens refl letters refl (refl, (refl, (refl, tt)))
      (omega arith)

-- A header of 40 bytes: a ratchet key, and two numbers of four bytes.
abbrev forged_message : Bytes
forged_message = (1 ∷ seed 20) ++ (0 ∷ 0 ∷ 0 ∷ 0 ∷ 0 ∷ 0 ∷ 7 ∷ 208 ∷ 99 ∷ [])

run-IsBounded_example : IsBounded (
    run toy_primitives
      (Call.sends (replicate 12 1) (text "hi") ∷ Call.receives (seed 11) forged_message ∷ [])
      opened_session)
run-IsBounded_example =
    run-IsBounded toy_primitives
      (Call.sends (replicate 12 1) (text "hi") ∷ Call.receives (seed 11) forged_message ∷ [])
      opened_session (omega arith)

decrypt-Turned_example :
    ((decrypt toy_primitives (seed 11) forged_message opened_session).1.dhr ≡ some (1 ∷ seed 20))
    × ((decrypt toy_primitives (seed 11) forged_message opened_session).1.send_n ≡ 0)
unfolding unpack_header from_base get toy_primitives sum_of option_beq list_eq
decrypt-Turned_example =
    decrypt-Turned toy_primitives (seed 11) forged_message (seed 6) (40 ∷ []) (195 ∷ [])
      ((1 ∷ seed 20), 0, 2000) opened_session refl refl refl refl (omega arith) refl refl refl

abbrev kept_session : Session
kept_session = record empty {
  root_key = shared;
  dhs = some (replicate 32 6);
  dhs_pub = replicate 32 7;
  send_chain = some shared;
  send_n = 3;
  skipped = ((some shared, 4), replicate 32 8) ∷ ((some shared, 5), replicate 32 9) ∷ [];
}

kept : IsStored kept_session
unfolding distinct contains keys pair_beq option_beq list_eq
kept = record {
  root = omega arith;
  pair = omega arith;
  shown = omega arith;
  peer = tt;
  sending = omega arith;
  receiving = tt;
  keys_of = omega arith;
  apart = refl;
}

from_dict-to_dict_example : from_dict (to_dict kept_session) ≡ some kept_session
from_dict-to_dict_example = from_dict-to_dict kept_session kept

abbrev whole : Identity
whole = record { private_key = replicate 32 2; signing_key = replicate 32 3 }

load-save_example :
    load toy_primitives []
      (save toy_primitives (replicate 16 4) (replicate 12 5) (text "secret") whole)
      (text "secret")
    ≡ identity whole
load-save_example =
    load-save toy_primitives toy-Unseals [] (replicate 16 4) (replicate 12 5) (text "secret") whole
      (refl, refl) refl refl (λ e. absurd (ground (arith, e)))

group_secret_sealed :
    seal_group_key toy_primitives
      (replicate 12 5)
      (text "group key")
      anna
      (public_bytes toy_primitives boris)
      (text "team")
    ≡ some (replicate 12 5 ++ 128 ∷ text "group key")
unfolding seal_group_key toy_primitives sum_of public_bytes Cipher.derive_shared_key
group_secret_sealed = refl

unseal_group_key-seal_group_key_example :
    unseal_group_key toy_primitives
      (replicate 12 5 ++ 128 ∷ text "group key")
      boris
      (public_bytes toy_primitives anna)
      (text "team")
    ≡ some (text "group key")
unfolding public_bytes toy_primitives
unseal_group_key-seal_group_key_example =
    unseal_group_key-seal_group_key toy_primitives toy-Commutes toy-Unseals (replicate 12 5)
      (text "group key") (replicate 12 5 ++ 128 ∷ text "group key") anna boris (text "team") refl
      refl refl group_secret_sealed
