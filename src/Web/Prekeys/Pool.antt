-- ===== src/Web/Prekeys/Pool.antt =====
-- One-time keys are handed out in order, each once, until they are published again (web_client.py,
-- take_prekey_bundle and publish_prekey_bundle).
use dns_messenger.Prelude.{
  ℕ, zero, suc, ◌≡◌, refl, ap, ◌∙◌, true, ◌||◌, Option, none, some, List, [], ◌∷◌, map, arith,
  list_nat_eq, list_eq_iff, contains, Option-cases, inl, inr,
}
use dns_messenger.Prelude.Sets.{add, contains-add}
use dns_messenger.Prelude.Base64.{b64encode}
use dns_messenger.Prelude.Text.{Text, Bytes}
use dns_messenger.Dict.{Dict, get, put, keys}
use dns_messenger.Dict.Laws.{get-put_self}
use dns_messenger.Web.Prekeys.{
  Store, Published, Taken, pool_of, bundle_of, take_prekey_bundle, decode_set, union,
  publish_prekey_bundle,
}

-- What a run of requests for the bundle of one user gives.
unfoldable pub takes : ℕ → Text → Dict Text Published → List Taken
unfolding take_prekey_bundle
takes zero username published = []
takes (suc n) username published =
    let (taken, rest) = take_prekey_bundle username published in taken ∷ takes n username rest

-- The bundle with each of the keys of a pool, and without a key once the pool is empty.
unfoldable pub offers : ℕ → Published → List Text → List Taken
unfolding bundle_of
offers zero e pool = []
offers (suc n) e [] = bundle_of e none ∷ offers n e []
offers (suc n) e (key ∷ pool) = bundle_of e (some key) ∷ offers n e pool

bundle_of-pool :
    (e : Published) (pool : List Text) (key : Option Text)
    → bundle_of (record e { one_time = pool }) key ≡ bundle_of e key
unfolding bundle_of
bundle_of-pool e pool key = refl

takes-record :
    (n : ℕ) (username : Text) (published : Dict Text Published) (e : Published) (pool : List Text)
    → get username published ≡ some (record e { one_time = pool })
    → takes n username published ≡ offers n e pool
unfolding takes offers take_prekey_bundle
takes-record zero username published e pool found = refl
takes-record (suc n) username published e [] found =
    ground (arith, bundle_of-pool e [] none, takes-record n username published e [] found)
takes-record (suc n) username published e (key ∷ pool) found =
    let next = put username (record e { one_time = pool }) published in
    ground (
      arith,
      bundle_of-pool e (key ∷ pool) (some key),
      takes-record n username next e pool
          (get-put_self username (record e { one_time = pool }) published),
    )

-- Requests for a user's bundle get the one-time keys of the pool in order, each of them once, and the
-- bundle without one when the pool is used up; the signed prekey is the same every time.
pub takes-offers :
    (n : ℕ) (username : Text) (published : Dict Text Published) (e : Published)
    → get username published ≡ some e
    → takes n username published ≡ offers n e e.one_time
takes-offers n username published e found = takes-record n username published e e.one_time found

contains-union :
    (k : Bytes) (s t : List Bytes) → contains k (union s t) ≡ (contains k s || contains k t)
unfolding union contains
contains-union k s [] = ground arith
contains-union k s (x ∷ t) = ground (arith, contains-union k (add x s) t, contains-add k x s)

contains-map-b64encode :
    (k : Bytes) (s : List Bytes)
    → contains k s ≡ true
    → contains (b64encode k) (map b64encode s) ≡ true
unfolding contains
contains-map-b64encode k [] h = absurd (ground arith)
contains-map-b64encode k (x ∷ s) h = ground (
  arith,
  list_eq_iff x k,
  list_eq_iff (b64encode x) (b64encode k),
  ap b64encode,
  contains-map-b64encode k s,
)

-- Publishing puts every one-time key of the private store into the pool, also one that was handed out
-- before and still waits for its message: the order in which the set is listed keeps its keys.
pub contains-publish :
    (arrange : List Bytes → List Bytes) (username : Text) (store : Store)
    (published published' : Dict Text Published) (k : Bytes)
    → ((s : List Bytes) → contains k (arrange s) ≡ contains k s)
    → publish_prekey_bundle arrange username store published ≡ some published'
    → contains k (keys store.one_time) ≡ true
    → contains (b64encode k) (pool_of username published') ≡ true
unfolding publish_prekey_bundle
contains-publish arrange username store published published' k arranged done held =
    elim (Option-cases (decode_set (pool_of username published))) [
      | inl broken ↦ absurd (ground arith)
      | inr (already, read) ↦
          let all = union (keys store.one_time) already in
          let listed : contains (b64encode k) (map b64encode (arrange all)) ≡ true =
            contains-map-b64encode k (arrange all)
              (arranged all ∙ ground (arith, contains-union k (keys store.one_time) already)) in
          let entry : Published = record {
            signed_pub = b64encode store.signed_pub;
            signed_sig = b64encode store.signed_sig;
            signed_ts = store.signed_ts;
            one_time = map b64encode (arrange all);
          } in
          ground (arith, listed, get-put_self username entry published)
    ]
