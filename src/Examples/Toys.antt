-- ===== src/Examples/Toys.antt =====
-- Toy primitives that obey the laws which the theorems ask for.
use dns_messenger.Prelude.{
  ℕ, ◌+◌, ◌%◌, ◌==◌, refl, ap, Option, none, some, [], ◌∷◌, ◌++◌, arith, if◌then◌else◌, replicate,
  length, take, list_eq, list_eq_iff, length-take, length-append,
}
use dns_messenger.Prelude.Text.{Bytes}
use dns_messenger.Crypto.Cipher.{Primitives}
use dns_messenger.Crypto.Sealing.{Commutes, Unseals}
use dns_messenger.Ratchet.Agreement.{Proper}
use dns_messenger.Web.Messages.Meeting.{Sized}
use dns_messenger.Web.Messages.First.{Signs}

unfoldable pub sum_of : Bytes → ℕ
sum_of [] = 0
sum_of (b ∷ bs) = b + sum_of bs

abbrev pub total : Bytes → ℕ
total bs = sum_of bs % 256

-- A sealed text is under a byte that names its key.
unfoldable toy_unseal : Bytes → Bytes → Option Bytes
unfolding sum_of
toy_unseal key [] = none
toy_unseal key (b ∷ ct) = if b == total key then some ct else none

-- The public half: 32 bytes of the key, filled with ones.
abbrev pub toy_public : Bytes → Bytes
toy_public k = take 32 (k ++ replicate 32 1)

abbrev toy_sign : Bytes → Bytes → Bytes
toy_sign key m = total (key ++ m) ∷ replicate 63 0

unfoldable pub toy_primitives : Primitives
unfolding sum_of toy_unseal list_eq
toy_primitives = record {
  crypto = record {
    ed25519_verify = λ key m sig. list_eq sig (toy_sign key m);
    sha256_hex = λ x. x;
  };
  x_public = toy_public;
  exchange = λ a b. some (((sum_of (toy_public a) + sum_of b) % 256) ∷ []);
  ed_public = λ k. k;
  ed_sign = toy_sign;
  hkdf = λ n salt info ikm. replicate n (total ikm);
  hmac = λ key m. total (key ++ m) ∷ [];
  scrypt = λ salt password. salt ++ password;
  seal = λ key nonce plaintext aad. total key ∷ plaintext;
  unseal = λ key nonce ct aad. toy_unseal key ct;
}

pub toy-Commutes : Commutes toy_primitives
unfolding toy_primitives
toy-Commutes a b = ap (λ (n : ℕ). some ((n % 256) ∷ [])) (omega arith)

pub toy-Unseals : Unseals toy_primitives
unfolding toy_primitives toy_unseal
toy-Unseals key nonce plaintext aad = ground arith

pub toy-Sized : Sized toy_primitives
unfolding toy_primitives
toy-Sized k = omega (arith, length-take 32 (k ++ replicate 32 1), length-append k (replicate 32 1))

pub toy-Proper : Proper toy_primitives
toy-Proper k e = absurd (omega (arith, toy-Sized k, ap (λ (x : Bytes). length x) e))

pub toy-Signs : Signs toy_primitives
unfolding toy_primitives
toy-Signs = record {
  accepts = λ key m. (list_eq_iff (toy_sign key m) (toy_sign key m)).1 refl;
  sig_sized = λ key m. refl;
}

-- Keys of 31 bytes.
abbrev pub seed : ℕ → Bytes
seed n = replicate 31 n
