-- ===== src/Examples/Codec.antt =====
-- Runs of the codec and of the signed texts.
use dns_messenger.Prelude.{◌≡◌, refl, none, some, [], ◌∷◌, arith, replicate, if◌then◌else◌, ◌≢◌}
use dns_messenger.Prelude.Text.{Bytes, text}
use dns_messenger.Protocol.{b32encode, b32decode, codec}
use dns_messenger.Protocol.Base32.{b32decode-b32encode}
use dns_messenger.Crypto.{
  poll, fpoll, build_signed, open_signed, verified, forged, unverified, verify_sig,
}
use dns_messenger.Crypto.Signing.{signing_input-injective}
use dns_messenger.Crypto.Signed.{open_signed-build_signed}
use dns_messenger.Crypto.Safety.{safety_number, safety_number-symmetric}
use dns_messenger.Prelude.{take, ◌++◌}
use dns_messenger.Examples.{toy, alice, bob}

encoded : b32encode (104 ∷ 105 ∷ []) ≡ text "nbuq"
unfolding codec
encoded = refl

b32decode-b32encode_example : b32decode (b32encode (104 ∷ 105 ∷ 0 ∷ [])) ≡ some (104 ∷ 105 ∷ 0 ∷ [])
b32decode-b32encode_example = b32decode-b32encode (104 ∷ 105 ∷ 0 ∷ []) (omega arith)

poll-not-fpoll : poll ≢ fpoll
poll-not-fpoll e = ground (arith, e)

signing_input-injective_example :
    (poll ≡ poll) × (text "alice" ∷ text "n1" ∷ [] ≡ text "alice" ∷ text "n1" ∷ [])
signing_input-injective_example =
    signing_input-injective poll poll (text "alice") (text "alice") (text "n1" ∷ [])
      (text "n1" ∷ []) (omega arith) (omega arith) refl

sign_with_7 : Bytes → Bytes
sign_with_7 message = replicate 64 7

open_signed-build_signed_example :
    (open_signed toy (build_signed sign_with_7 (1 ∷ []) (text "hi")) (some (7 ∷ [])) (1 ∷ []) ≡ (
      text "hi",
      if verify_sig toy (7 ∷ []) (1 ∷ text "hi") (replicate 64 7) then verified else forged,
    ))
    × (open_signed toy (build_signed sign_with_7 (1 ∷ []) (text "hi")) none (1 ∷ [])
        ≡ (text "hi", unverified))
unfolding sign_with_7
open_signed-build_signed_example =
    open_signed-build_signed toy sign_with_7 (7 ∷ []) (1 ∷ []) (text "hi") refl

toy_hash : Bytes → Bytes
toy_hash x = take 64 (x ++ replicate 64 9)

alice-not-bob : alice ≢ bob
alice-not-bob e = ground (arith, e)

safety_number-symmetric_example :
    safety_number toy_hash alice (replicate 64 7) bob (replicate 64 8)
    ≡ safety_number toy_hash bob (replicate 64 8) alice (replicate 64 7)
safety_number-symmetric_example =
    safety_number-symmetric toy_hash alice bob (replicate 64 7) (replicate 64 8) alice-not-bob
