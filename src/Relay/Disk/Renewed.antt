-- ===== src/Relay/Disk/Renewed.antt =====
-- What a registration leaves of the folder keys (server.py, _h_register).
use dns_messenger.Prelude.{
  ℕ, Bool, ◌≡◌, ◌⊎◌, refl, sym, ap, true, ◌&&◌, none, some, List, [], ◌∷◌, arith, list_eq,
  list_eq_iff, list_nat_eq, take, drop, leb, length, Option-cases, Bool-cases, inl, inr,
}
use dns_messenger.Prelude.Text.{Text, Bytes, join}
use dns_messenger.Dict.{Dict, get, pop, stamp_of, keys_where, min_by}
use dns_messenger.Dict.Laws.{get-put, get-pop}
use dns_messenger.Crypto.{Crypto}
use dns_messenger.Protocol.{b32decode}
use dns_messenger.Relay.State.{Relay, Account, bundle_b32_len, max_users}
use dns_messenger.Relay.Accounts.{
  signed_bundle, account, is_unpinned, add_user, store_user, h_register,
}
use dns_messenger.Relay.Accounts.Pinned.{pin_of, victim-unpinned}
use dns_messenger.Relay.Disk.Registry.{disk_key_of}

module _ (now : ℕ) (user : Text) (bundle : Bytes) (sig_ok : Bool) (users : Dict Text Account)
    (u : Text) where
  -- The name was not pinned, or renews the registration of its own pin.
  abbrev pub IsReplaced : Type 0
  IsReplaced =
      (pin_of u users ≡ none) ⊎ ((user ≡ u) × (pin_of u users ≡ some bundle) × (sig_ok ≡ true))

  abbrev pub Outcome : Dict Text Account → Type 0
  Outcome users' =
      (disk_key_of u users' ≡ disk_key_of u users) ⊎ ((disk_key_of u users' ≡ none) × IsReplaced)

  disk_key_of-new : get user users ≡ none → Outcome (store_user now user bundle sig_ok users).1
  unfolding store_user add_user
  disk_key_of-new new =
      elim (Option-cases (min_by (stamp_of (λ a. a.ts) users) (keys_where is_unpinned users))) [
        | inl nobody ↦ inl (
            ground (
              arith,
              new,
              nobody,
              get-put user u (account bundle sig_ok now) users,
              list_eq_iff user u,
            ))
        | inr (v, found) ↦ elim (Bool-cases (list_eq v u)) [
          | inl same ↦ elim (Bool-cases (list_eq user u)) [
            | inl mine ↦ inl (
                ground (
                  arith,
                  new,
                  found,
                  mine,
                  get-put user u (account bundle sig_ok now) users,
                  get-put user u (account bundle sig_ok now) (pop v users),
                  list_eq_iff user u,
                ))
            | inr other ↦ elim (Bool-cases (leb max_users (length users))) [
              | inr room ↦ inl (
                  ground
                    (arith, new, room, other, get-put user u (account bundle sig_ok now) users))
              | inl full ↦ inr (
                ground (
                  arith,
                  new,
                  found,
                  full,
                  other,
                  same,
                  get-put user u (account bundle sig_ok now) (pop v users),
                  get-pop v u users,
                ),
                inl (ground (arith, victim-unpinned users v found, list_eq_iff v u, same)),
              )
            ]
          ]
          | inr kept ↦ inl (
              ground (
                arith,
                new,
                found,
                kept,
                get-put user u (account bundle sig_ok now) users,
                get-put user u (account bundle sig_ok now) (pop v users),
                get-pop v u users,
                list_eq_iff user u,
              ))
        ]
      ]

  disk_key_of-old :
      (entry : Account)
      → get user users ≡ some entry
      → Outcome (store_user now user bundle sig_ok users).1
  unfolding store_user
  disk_key_of-old entry old = elim (Bool-cases (list_eq user u)) [
    | inr other ↦ inl (
        ground (
          arith,
          old,
          other,
          get-put user u (account bundle true now) users,
          get-put user u (account bundle (sig_ok && list_eq bundle entry.bundle) now) users,
        ))
    | inl mine ↦ elim (Bool-cases entry.pinned) [
      | inr free ↦ inr (
        ground (
          arith,
          old,
          mine,
          free,
          get-put user u (account bundle (sig_ok && list_eq bundle entry.bundle) now) users,
        ),
        inl (ground (arith, old, mine, free, list_eq_iff user u)),
      )
      | inl pinned ↦ elim (Bool-cases (sig_ok && list_eq bundle entry.bundle)) [
        | inr refused ↦ inl (ground (arith, old, pinned, refused))
        | inl good ↦ inr (
          ground (arith, old, mine, pinned, good, get-put user u (account bundle true now) users),
          inr (
            (list_eq_iff user u).0 mine,
            ground (
              arith,
              old,
              mine,
              pinned,
              good,
              list_eq_iff user u,
              list_eq_iff bundle entry.bundle,
            ),
            ground (arith, good),
          ),
        )
      ]
    ]
  ]

  pub disk_key_of-store_user : Outcome (store_user now user bundle sig_ok users).1
  disk_key_of-store_user = elim (Option-cases (get user users)) [
    | inl new ↦ disk_key_of-new new
    | inr (entry, old) ↦ disk_key_of-old entry old
  ]

-- The request is a registration of the name, under the bundle that the name is pinned to and with a
-- signature that counts.
pub record IsRenewal (c : Crypto) (labels : List Text) (u : Text) (s : Relay) : Type 0 where
  pub label : Text
  pub more : List Text
  pub sent : labels ≡ u ∷ label ∷ more
  pub bundle : Bytes
  pub decoded : b32decode (take bundle_b32_len (join (label ∷ more))) ≡ some bundle
  pub pinned : pin_of u s.users ≡ some bundle
  pub signed : signed_bundle c u bundle (drop bundle_b32_len (join (label ∷ more))) ≡ true

-- A registration keeps a folder key or forgets it; a pinned name's key is forgotten only where the
-- name renews its registration.
pub disk_key_of-h_register :
    (c : Crypto) (now : ℕ) (labels : List Text) (s : Relay) (u : Text)
    → (disk_key_of u (h_register c now labels s).1.users ≡ disk_key_of u s.users)
      ⊎ ((disk_key_of u (h_register c now labels s).1.users ≡ none)
          × ((pin_of u s.users ≡ none) ⊎ IsRenewal c labels u s))
unfolding h_register
disk_key_of-h_register c now (user ∷ label ∷ more) s u =
    let blob = join (label ∷ more) in
    elim (Option-cases (b32decode (take bundle_b32_len blob))) [
      | inl bad ↦ inl (ground (arith, bad))
      | inr (bundle, good) ↦
          let sig_ok = signed_bundle c user bundle (drop bundle_b32_len blob) in
          elim (disk_key_of-store_user now user bundle sig_ok s.users u) [
            | inl kept ↦ inl (ground (arith, good, kept))
            | inr (gone, inl free) ↦ inr (ground (arith, good, gone), inl free)
            | inr (gone, inr (same, pinned, signed)) ↦ inr (
              ground (arith, good, gone),
              inr (record {
                label = label;
                more = more;
                sent = ap (λ (x : Text). x ∷ label ∷ more) same;
                bundle = bundle;
                decoded = good;
                pinned = pinned;
                signed = rw (sym same) signed;
              }),
            )
          ]
    ]
disk_key_of-h_register c now [] s u = inl refl
disk_key_of-h_register c now (_ ∷ []) s u = inl refl
