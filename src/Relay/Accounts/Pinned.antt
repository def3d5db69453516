-- ===== src/Relay/Accounts/Pinned.antt =====
-- A pinned name keeps its key (server.py, _h_register).
use dns_messenger.Prelude.{
  ℕ, ◌≤◌, ◌≡◌, ◌≢◌, Bool, true, ◌&&◌, Option, none, some, List, [], ◌∷◌, if◌then◌else◌, list_eq,
  list_eq_iff, list_nat_eq, length, arith, Option-cases, inl, inr, take, drop,
}
use dns_messenger.Prelude.Text.{Text, Bytes, join}
use dns_messenger.Dict.{Dict, get, pop, stamp_of, test_at, keys_where, min_by}
use dns_messenger.Dict.Laws.{get-put, get-pop, length-put, length-put-le, length-pop-lt}
use dns_messenger.Dict.Oldest.{test_at-min_by}
use dns_messenger.Crypto.{Crypto, split_bundle, verify_sig, reg_signing_input}
use dns_messenger.Protocol.{b32decode}
use dns_messenger.Relay.State.{Relay, Account, max_users, bundle_b32_len}
use dns_messenger.Relay.Accounts.{
  signed_bundle, account, is_unpinned, add_user, store_user, h_register,
}

-- The bundle that a name is pinned to.
abbrev pub pin_of : Text → Dict Text Account → Option Bytes
pin_of u users = elim (get u users) [
  | none ↦ none
  | some a ↦ if a.pinned then some a.bundle else none
]

-- The entry that makes room is not pinned.
pub victim-unpinned :
    (users : Dict Text Account) (v : Text)
    → min_by (stamp_of (λ a. a.ts) users) (keys_where is_unpinned users) ≡ some v
    → test_at is_unpinned users v ≡ true
victim-unpinned users v h = test_at-min_by is_unpinned (stamp_of (λ a. a.ts) users) users v h

module _ (now : ℕ) (user : Text) (bundle : Bytes) (sig_ok : Bool) (users : Dict Text Account) where
  -- Adding a name that is not there keeps every pin.
  pin_of-add_user :
      (users' : Dict Text Account) (u : Text) (b : Bytes)
      → get user users ≡ none
      → add_user now user bundle sig_ok users ≡ some users'
      → pin_of u users ≡ some b
      → pin_of u users' ≡ some b
  unfolding add_user
  pin_of-add_user users' u b new e h =
      elim (Option-cases (min_by (stamp_of (λ a. a.ts) users) (keys_where is_unpinned users))) [
        | inl nobody ↦
            ground (arith, get-put user u (account bundle sig_ok now) users, list_eq_iff user u)
        | inr (v, found) ↦ ground (
          arith,
          victim-unpinned users v found,
          get-put user u (account bundle sig_ok now) users,
          get-put user u (account bundle sig_ok now) (pop v users),
          get-pop v u users,
          list_eq_iff user u,
          list_eq_iff v u,
        )
      ]

  pin_of-store_user :
      (u : Text) (b : Bytes)
      → pin_of u users ≡ some b
      → pin_of u (store_user now user bundle sig_ok users).1 ≡ some b
  unfolding store_user
  pin_of-store_user u b h = elim (Option-cases (get user users)) [
    | inl new ↦ elim (Option-cases (add_user now user bundle sig_ok users)) [
      | inl full ↦ ground arith
      | inr (users', added) ↦ ground (arith, pin_of-add_user users' u b new added h)
    ]
    | inr (entry, old) ↦ ground (
      arith,
      get-put user u (account bundle true now) users,
      get-put user u (account bundle (sig_ok && list_eq bundle entry.bundle) now) users,
      list_eq_iff user u,
      list_eq_iff bundle entry.bundle,
    )
  ]

  -- A name that is pinned after a registration and was not pinned to that key before is the one
  -- registered, with the signature checked.
  pin_of-store_user_new :
      (u : Text) (b : Bytes)
      → pin_of u users ≢ some b
      → pin_of u (store_user now user bundle sig_ok users).1 ≡ some b
      → (u ≡ user) × (b ≡ bundle) × (sig_ok ≡ true)
  unfolding store_user add_user
  pin_of-store_user_new u b h e = elim (Option-cases (get user users)) [
    | inl new ↦
        elim (Option-cases (min_by (stamp_of (λ a. a.ts) users) (keys_where is_unpinned users))) [
          | inl nobody ↦
              ground (arith, get-put user u (account bundle sig_ok now) users, list_eq_iff user u)
          | inr (v, found) ↦ ground (
            arith,
            get-put user u (account bundle sig_ok now) users,
            get-put user u (account bundle sig_ok now) (pop v users),
            get-pop v u users,
            list_eq_iff user u,
          )
        ]
    | inr (entry, old) ↦ ground (
      arith,
      get-put user u (account bundle true now) users,
      get-put user u (account bundle (sig_ok && list_eq bundle entry.bundle) now) users,
      list_eq_iff user u,
      list_eq_iff bundle entry.bundle,
    )
  ]

  length-add_user :
      (users' : Dict Text Account)
      → length users ≤ max_users
      → add_user now user bundle sig_ok users ≡ some users'
      → length users' ≤ max_users
  unfolding add_user
  length-add_user users' h e =
      elim (Option-cases (min_by (stamp_of (λ a. a.ts) users) (keys_where is_unpinned users))) [
        | inl nobody ↦ ground (arith, length-put-le user (account bundle sig_ok now) users)
        | inr (v, found) ↦ ground (
          arith,
          victim-unpinned users v found,
          length-pop-lt v users,
          length-put-le user (account bundle sig_ok now) users,
          length-put-le user (account bundle sig_ok now) (pop v users),
        )
      ]

  length-store_user :
      length users ≤ max_users → length (store_user now user bundle sig_ok users).1 ≤ max_users
  unfolding store_user
  length-store_user h = elim (Option-cases (get user users)) [
    | inl new ↦ elim (Option-cases (add_user now user bundle sig_ok users)) [
      | inl full ↦ ground arith
      | inr (users', added) ↦ ground (arith, length-add_user users' h added)
    ]
    | inr (entry, old) ↦ ground (
      arith,
      length-put user (account bundle true now) users,
      length-put user (account bundle (sig_ok && list_eq bundle entry.bundle) now) users,
    )
  ]

-- A handler's users are the old ones, or what `store_user` makes of them for a decoded bundle.
users-h_register :
    (P : Dict Text Account → Type 0) (c : Crypto) (now : ℕ) (labels : List Text) (s : Relay)
    → P s.users
    → ((user : Text) (bundle : Bytes) (sig : Text)
        → P (store_user now user bundle (signed_bundle c user bundle sig) s.users).1)
    → P (h_register c now labels s).1.users
unfolding h_register
users-h_register P c now [] s same step = same
users-h_register P c now (user ∷ []) s same step = same
users-h_register P c now (user ∷ label ∷ labels) s same step =
    let blob = join (label ∷ labels) in
    elim (Option-cases (b32decode (take bundle_b32_len blob))) [
      | inl bad ↦ rw (bad, h_register) same
      | inr (bundle, good) ↦ rw (good, h_register) (step user bundle (drop bundle_b32_len blob))
    ]

-- A signature over a name and a bundle, by the key inside of the bundle.
abbrev pub OwnsBundle : Crypto → Text → Bytes → Type 0
OwnsBundle c user bundle =
    (ed_pub : Bytes) × (sig : Bytes) × ((split_bundle bundle).1 ≡ some ed_pub)
    × (length sig ≡ 64)
    × (verify_sig c ed_pub (reg_signing_input user bundle) sig ≡ true)

signed_bundle_owns :
    (c : Crypto) (user : Text) (bundle : Bytes) (sig_b32 : Text)
    → signed_bundle c user bundle sig_b32 ≡ true
    → OwnsBundle c user bundle
unfolding signed_bundle
signed_bundle_owns c user bundle [] h = absurd (ground arith)
signed_bundle_owns c user bundle (x ∷ sig_b32) h = elim (Option-cases ((split_bundle bundle).1)) [
  | inl short ↦ absurd (ground arith)
  | inr (ed_pub, found) ↦ elim (Option-cases (b32decode (x ∷ sig_b32))) [
    | inl bad ↦ absurd (ground arith)
    | inr (sig, good) ↦ (ed_pub, sig, found, ground arith, ground arith)
  ]
]

module _ (c : Crypto) (now : ℕ) (labels : List Text) (s : Relay) where
  -- Whatever a registration asks for, a name that is pinned to a bundle stays pinned to it.
  pub pin_of-h_register :
      (u : Text) (b : Bytes)
      → pin_of u s.users ≡ some b
      → pin_of u (h_register c now labels s).1.users ≡ some b
  pin_of-h_register u b h =
      users-h_register (λ users. pin_of u users ≡ some b) c now labels s h
        (λ user bundle sig.
          pin_of-store_user now user bundle (signed_bundle c user bundle sig) s.users u b h)

  -- The registered names stay within their limit.
  pub length-h_register :
      length s.users ≤ max_users → length (h_register c now labels s).1.users ≤ max_users
  length-h_register h =
      users-h_register (λ users. length users ≤ max_users) c now labels s h
        (λ user bundle sig.
          length-store_user now user bundle (signed_bundle c user bundle sig) s.users h)

  -- A registration pins a name to a bundle only if the key inside of the bundle signed both.
  pub pin_of-h_register_new :
      (u : Text) (b : Bytes)
      → pin_of u s.users ≢ some b
      → pin_of u (h_register c now labels s).1.users ≡ some b
      → OwnsBundle c u b
  pin_of-h_register_new u b h =
      users-h_register (λ users. pin_of u users ≡ some b → OwnsBundle c u b) c now labels s
        (λ e. absurd (h e))
        (λ user bundle sig e.
          let (same_user, same_bundle, signed) =
            pin_of-store_user_new now user bundle (signed_bundle c user bundle sig) s.users u b h
              e in
          rw (same_user, same_bundle) (signed_bundle_owns c user bundle sig signed))
