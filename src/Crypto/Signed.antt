-- ===== src/Crypto/Signed.antt =====
-- The signed payload inside a message (crypto_utils.py, build_signed and open_signed).
use dns_messenger.Prelude.{
  ℕ, Bool, ◌==◌, ◌&&◌, ◌≤◌, ◌≡◌, false, sym, ap, subst, Bool-cases, inl, inr, refl, true, Option,
  none, some, [], ◌∷◌, ◌++◌, if◌then◌else◌, arith, length, take, drop, leb, length-append,
  take-append, drop-append, suc, take-append-drop, length-take,
}
use dns_messenger.Prelude.Text.{Bytes}
use dns_messenger.Crypto.{
  Crypto, Status, verify_sig, build_signed, open_signed, verified, forged, unverified,
}

-- A payload that is long enough, cut after the signature.
open_signed-cut :
    (c : Crypto) (sig pt ctx : Bytes) (key : Option Bytes)
    → length sig ≡ 64
    → open_signed c (1 ∷ (sig ++ pt)) key ctx ≡ elim key [
      | none ↦ (pt, unverified)
      | some k ↦ (pt, if verify_sig c k (ctx ++ pt) sig then verified else forged)
    ]
unfolding open_signed
open_signed-cut c sig pt ctx none h =
    let long : leb 65 (suc (length (sig ++ pt))) ≡ true = ground (arith, length-append sig pt) in
    rw (long, drop-append sig pt 64 h)
open_signed-cut c sig pt ctx (some k) h =
    let long : leb 65 (suc (length (sig ++ pt))) ≡ true = ground (arith, length-append sig pt) in
    rw (long, take-append sig pt 64 h, drop-append sig pt 64 h)

-- A payload signed with the key that the receiver holds for the sender opens as verified, with its
-- text; without a key it is unverified, and with a key that refuses the signature it is forged.
pub open_signed-build_signed :
    (c : Crypto) (sign : Bytes → Bytes) (key ctx pt : Bytes)
    → length (sign (ctx ++ pt)) ≡ 64
    → (open_signed c (build_signed sign ctx pt) (some key) ctx
        ≡ (pt, if verify_sig c key (ctx ++ pt) (sign (ctx ++ pt)) then verified else forged))
      × (open_signed c (build_signed sign ctx pt) none ctx ≡ (pt, unverified))
unfolding build_signed
open_signed-build_signed c sign key ctx pt h = (
  open_signed-cut c (sign (ctx ++ pt)) pt ctx (some key) h,
  open_signed-cut c (sign (ctx ++ pt)) pt ctx none h,
)

if-verified : (b : Bool) → (if b then verified else forged) ≡ verified → b ≡ true
if-verified true h = refl
if-verified false h = absurd (ground (arith, h))

-- What the test of open_signed says.
version-long :
    (v : ℕ) (body : Bytes)
    → (v == 1 && leb 65 (length (v ∷ body))) ≡ true
    → (v ≡ 1) × (64 ≤ length body)
version-long v body h = ground (arith, h)

take-sized : (body : Bytes) → 64 ≤ length body → length (take 64 body) ≡ 64
take-sized body h = omega (arith, h, length-take 64 body)

-- A payload opens as verified only where it is a version byte, a signature of 64 bytes and the text,
-- the receiver holds a key, and that key verifies this signature over the context with the text.
pub open_signed-verified :
    (c : Crypto) (blob ctx pt : Bytes) (key : Option Bytes)
    → open_signed c blob key ctx ≡ (pt, verified)
    → (k : Bytes) × (sig : Bytes) × (key ≡ some k)
      × (blob ≡ 1 ∷ (sig ++ pt))
      × (length sig ≡ 64)
      × (verify_sig c k (ctx ++ pt) sig ≡ true)
unfolding open_signed
open_signed-verified c [] ctx pt key h = ground arith
open_signed-verified c (v ∷ body) ctx pt none h = ground arith
open_signed-verified c (v ∷ body) ctx pt (some k) h =
    let sig = take 64 body in
    elim (Bool-cases (v == 1 && leb 65 (length (v ∷ body)))) [
      | inr short ↦ absurd (ground (arith, short, h))
      | inl fits ↦
          let opens : ◌≡◌ {A = Bytes × Status}
              (drop 64 body, if verify_sig c k (ctx ++ drop 64 body) sig then verified else forged)
              (pt, verified) =
            ground (arith, fits, h) in
          let rest = ap (λ r. r.0) opens in
          let (version, long) = version-long v body fits in
          (
            k,
            sig,
            refl,
            rw (version, sym rest, take-append-drop) refl,
            take-sized body long,
            subst (λ x. verify_sig c k (ctx ++ x) sig ≡ true) rest
                (if-verified (verify_sig c k (ctx ++ drop 64 body) sig) (ap (λ r. r.1) opens)),
          )
    ]
