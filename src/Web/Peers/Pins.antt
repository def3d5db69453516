-- ===== src/Web/Peers/Pins.antt =====
-- A pin does not change, and the keys in use are those that are pinned (web_client.py, _remember_peer).
use dns_messenger.Prelude.{
  ◌≡◌, sym, subst, ap, ◌∙◌, none, some, List, [], ◌∷◌, arith, take, drop, list_eq, list_eq_iff,
  list_nat_eq, Option-cases, Bool-cases, inl, inr,
}
use dns_messenger.Prelude.Text.{Text, Bytes}
use dns_messenger.Dict.{get, put}
use dns_messenger.Dict.Laws.{get-put}
use dns_messenger.Protocol.{b32encode, b32decode}
use dns_messenger.Protocol.Base32.{IsBytes, b32decode-b32encode}
use dns_messenger.Prelude.Sets.{add, discard}
use dns_messenger.Protocol.Decoded.{b32decode-IsBytes}
use dns_messenger.Crypto.{split_bundle}
use dns_messenger.Web.Peers.{
  Peers, Found, peer_key, keep_halves, remember_peer, partition_colon, bundle_in, get_peer_key,
}

-- Each key in use is the first half of the bundle pinned under its name.
abbrev pub IsPinned : Peers → Type 0
IsPinned s =
    (u : Text) (x : Bytes)
    → get u s.peer_keys ≡ some x
    → (b32 : Text) × (bundle : Bytes) × (get u s.pins ≡ some b32)
      × (b32decode b32 ≡ some bundle)
      × (x ≡ take 32 bundle)

keep_halves-IsPinned :
    (user b32 : Text) (bundle : Bytes) (s : Peers)
    → IsPinned s
    → get user s.pins ≡ some b32
    → b32decode b32 ≡ some bundle
    → IsPinned ((keep_halves user bundle s).1)
unfolding keep_halves split_bundle
keep_halves-IsPinned user b32 bundle s h pinned reads u x known =
    elim (Bool-cases (list_eq user u)) [
      | inl same ↦
          let own : x ≡ take 32 bundle =
            ground (arith, get-put user u (take 32 bundle) s.peer_keys) in
          let is : user ≡ u = (list_eq_iff user u).0 same in
          (b32, bundle, ground (arith, is, pinned), reads, own)
      | inr other ↦
          let old : get u s.peer_keys ≡ some x =
            ground (arith, get-put user u (take 32 bundle) s.peer_keys) in
          let (b, bu, p, r, e) = h u x old in (b, bu, ground (arith, p), r, e)
    ]

module _ (user : Text) (bundle : Bytes) (s : Peers) where
  keep_halves-pins : (keep_halves user bundle s).1.pins ≡ s.pins
  unfolding keep_halves
  keep_halves-pins = ground arith

  -- A pin that is there stays as it is.
  pins-remember_peer :
      (u p : Text) → get u s.pins ≡ some p → get u ((remember_peer user bundle s).1.pins) ≡ some p
  unfolding remember_peer keep_halves
  pins-remember_peer u p pinned = elim (Option-cases (get user s.pins)) [
    | inl new ↦ ground (arith, get-put user u (b32encode bundle) s.pins, list_eq_iff user u)
    | inr (b32, old) ↦ elim (Option-cases (b32decode b32)) [
      | inl broken ↦ ground arith
      | inr (trusted, reads) ↦ ground arith
    ]
  ]

IsPinned-remember_new :
    (user : Text) (bundle : Bytes) (alerts : List Text) (s : Peers)
    → IsBytes bundle
    → get user s.pins ≡ none
    → IsPinned s
    → IsPinned (
        (keep_halves user bundle
          (record s { pins = put user (b32encode bundle) s.pins; key_alerts = alerts })).1)
IsPinned-remember_new user bundle alerts s bytes new h =
    keep_halves-IsPinned user (b32encode bundle) bundle
      (record s { pins = put user (b32encode bundle) s.pins; key_alerts = alerts })
      (λ u x known.
        let (b, bu, p, r, e) = h u x known in
        (
          b,
          bu,
          ground (arith, get-put user u (b32encode bundle) s.pins, list_eq_iff user u, p, new),
          r,
          e,
        ))
      (ground (arith, get-put user user (b32encode bundle) s.pins, list_eq_iff user user))
      (b32decode-b32encode bundle bytes)

-- The keys that a call leaves are pinned.
abbrev Left : Found × Peers → Type 0
Left r = IsPinned r.1

IsPinned-remember_peer :
    (user : Text) (bundle : Bytes) (s : Peers)
    → IsBytes bundle
    → IsPinned s
    → IsPinned ((remember_peer user bundle s).1)
unfolding remember_peer
IsPinned-remember_peer user bundle s bytes h = elim (Option-cases (get user s.pins)) [
  | inl new ↦
      let made : remember_peer user bundle s
          ≡ keep_halves user bundle (record s {
            pins = put user (b32encode bundle) s.pins;
            key_alerts = discard user s.key_alerts;
          }) =
        ground arith in
      subst Left (sym made)
        (IsPinned-remember_new user bundle (discard user s.key_alerts) s bytes new h)
  | inr (b32, old) ↦ elim (Bool-cases (list_eq b32 (b32encode bundle))) [
    | inl same ↦
        let is : b32 ≡ b32encode bundle = (list_eq_iff b32 (b32encode bundle)).0 same in
        let calm = record s { key_alerts = discard user s.key_alerts } in
        let made : remember_peer user bundle s ≡ keep_halves user bundle calm = ground arith in
        subst Left (sym made) (
          keep_halves-IsPinned user b32 bundle calm h old
            (ap b32decode is ∙ b32decode-b32encode bundle bytes))
    | inr other ↦
        let alerted = record s { key_alerts = add user s.key_alerts } in
        elim (Option-cases (b32decode b32)) [
          | inl broken ↦
              let made : remember_peer user bundle s ≡ (Found.damaged, alerted) = ground arith in
              subst Left (sym made) h
          | inr (trusted, reads) ↦
              let made : remember_peer user bundle s ≡ keep_halves user trusted alerted =
                ground arith in
              subst Left (sym made) (keep_halves-IsPinned user b32 trusted alerted h old reads)
        ]
  ]
]

bundle_in-IsBytes : (res : Text) (bundle : Bytes) → bundle_in res ≡ some bundle → IsBytes bundle
unfolding bundle_in
bundle_in-IsBytes res bundle h =
    let part = (partition_colon (drop 4 res)).1 in
    elim (Option-cases (b32decode part)) [
      | inl broken ↦ absurd (ground arith)
      | inr (b, read) ↦
          let is : bundle ≡ b = ground arith in
          subst IsBytes (sym is) (b32decode-IsBytes part b read)
    ]

-- The client after a run of replies to key requests, each for a name.
unfoldable pub lookups : List (Text × Text) → Peers → Peers
unfolding get_peer_key
lookups [] s = s
lookups ((res, user) ∷ calls) s = lookups calls ((get_peer_key res user s).1)

-- A call leaves pinned keys, and the pins that were there.
abbrev Kept : Peers → Found × Peers → Type 0
Kept s r = IsPinned r.1 × ((u p : Text) → get u s.pins ≡ some p → get u r.1.pins ≡ some p)

get_peer_key-kept :
    (res user : Text) (s : Peers)
    → IsPinned s
    → IsPinned ((get_peer_key res user s).1)
      × ((u p : Text) → get u s.pins ≡ some p → get u ((get_peer_key res user s).1.pins) ≡ some p)
unfolding get_peer_key
get_peer_key-kept res user s h = elim (Option-cases (get user s.peer_keys)) [
  | inr (x, known) ↦
      let made : get_peer_key res user s ≡ (peer_key x, s) = ground arith in
      subst (Kept s) (sym made) (h, λ u p pinned. pinned)
  | inl new ↦ elim (Option-cases (bundle_in res)) [
    | inl refused ↦
        let made : get_peer_key res user s ≡ (Found.missing, s) = ground arith in
        subst (Kept s) (sym made) (h, λ u p pinned. pinned)
    | inr (bundle, read) ↦
        let made : get_peer_key res user s ≡ remember_peer user bundle s = ground arith in
        subst (Kept s) (sym made) (
          IsPinned-remember_peer user bundle s (bundle_in-IsBytes res bundle read) h,
          pins-remember_peer user bundle s,
        )
  ]
]

-- Whatever the relay replies, in any run of key requests: a name that is pinned keeps its pin, and
-- every key in use is the first half of the bundle that is pinned under its name, if that was so
-- before the run.
pub lookups-IsPinned :
    (calls : List (Text × Text)) (s : Peers)
    → IsPinned s
    → IsPinned (lookups calls s)
      × ((u p : Text) → get u s.pins ≡ some p → get u (lookups calls s).pins ≡ some p)
unfolding lookups
lookups-IsPinned [] s h = (h, λ u p pinned. pinned)
lookups-IsPinned ((res, user) ∷ calls) s h =
    let step = get_peer_key-kept res user s h in
    let rest = lookups-IsPinned calls ((get_peer_key res user s).1) step.0 in
    (rest.0, λ u p pinned. rest.1 u p (step.1 u p pinned))
