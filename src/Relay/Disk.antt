-- ===== src/Relay/Disk.antt =====
-- The registry of Yandex.Disk folders (server.py, _h_diskreg, _h_disklist).
pub mod Registry
pub mod Renewed
use dns_messenger.Prelude.{
  ℕ, ◌+◌, ◌&&◌, ◌||◌, not, none, some, List, [], ◌∷◌, ◌++◌, if◌then◌else◌, ltb, leb, ◌==◌,
  list_nat_eq, nat_eq, length,
}
use dns_messenger.Prelude.Int.{ℤ, pos}
use dns_messenger.Prelude.Base64.{b64encode}
use dns_messenger.Prelude.Text.{Text, Bytes, text, join, join_with, isdigit, int}
use dns_messenger.Dict.{Dict, get, has, put, pop}
use dns_messenger.Protocol.{b32encode, b32decode}
use dns_messenger.Crypto.{Crypto, split_bundle, verify_sig, disk_register_signing_input}
use dns_messenger.Relay.State.{Relay, Account, PendingDisk, max_diskreg_chunks}
use dns_messenger.Relay.Reply
use dns_messenger.Relay.Reply.{Reply, err, raised, value_error, type_error}
use dns_messenger.Relay.Auth.{outside_window, accept_poll_nonce}
use dns_messenger.Relay.Assembly.{gather}

abbrev pub pending_chunks : Text → Dict Text PendingDisk → Dict ℕ Text
pending_chunks user pending = elim (get user pending) [ none ↦ [] | some p ↦ p.chunks ]

-- The signature over the name, the hash of the key, the nonce and the time; then the nonce; then
-- the key is the account's.
unfoldable pub sign_off :
    Crypto → ℕ → Text → Account → Text → Text → Text → Bytes → Bytes → Relay → Reply × Relay
sign_off c now user entry pubkey nonce ts sig ed_pub s =
    if length sig == 64
      && verify_sig c ed_pub (disk_register_signing_input c user pubkey nonce ts) sig
    then (let (fresh, nonces) =
          accept_poll_nonce now (text "diskreg:" ++ user) nonce s.seen_poll_nonces in
        if fresh
        then (
          Reply.ok_plain,
          record s {
            seen_poll_nonces = nonces;
            users = put user (record entry { disk_pubkey = some pubkey }) s.users;
            diskreg_pending = pop user s.diskreg_pending;
          },
        )
        else (err Reply.replay, record s { seen_poll_nonces = nonces }))
    else (err Reply.auth, s)

-- The time of the request, and the verify key of the account.
unfoldable pub check_time :
    Crypto → ℕ → Text → Account → Text → Text → Text → Bytes → Relay → Reply × Relay
check_time c now user entry pubkey nonce ts sig s = elim (int ts) [
  | none ↦ (raised value_error, s)
  | some t ↦
      if outside_window now t
      then (err Reply.auth, s)
      else if length sig == 64
      then elim ((split_bundle entry.bundle).1) [
        | none ↦ (raised type_error, s)
        | some ed_pub ↦ sign_off c now user entry pubkey nonce ts sig ed_pub s
      ]
      else (err Reply.auth, s)
]

-- All of the chunks are there: they are the key's bytes.
unfoldable pub finish_disk : Crypto → ℕ → Text → Account → Text → List Text → Relay → Reply × Relay
finish_disk c now user entry joined (nonce ∷ ts ∷ label ∷ labels) s =
    if isdigit ts
    then elim (b32decode (join (label ∷ labels))) [
      | none ↦ (err Reply.bad_diskreg, s)
      | some sig ↦ elim (b32decode joined) [
        | none ↦ (err Reply.bad_diskreg, s)
        | some raw ↦ check_time c now user entry (b64encode raw) nonce ts sig s
      ]
    ]
    else (err Reply.bad_diskreg, s)
finish_disk c now user entry joined _ s = (err Reply.bad_diskreg, s)

-- What follows once the chunk is stored; `rest` is what stands behind it in the request.
unfoldable pub after_chunk :
    Crypto → ℕ → Text → Account → ℕ → ℕ → Dict ℕ Text → List Text → Relay → Reply × Relay
after_chunk c now user entry seq n chunks [] s = (Reply.ok_chunk, s)
after_chunk c now user entry seq n chunks (r ∷ rest) s =
    if seq + 1 == n
    then (if length chunks == n
        then elim (gather n chunks) [
          | none ↦ (err Reply.incomplete, s)
          | some joined ↦ finish_disk c now user entry joined (r ∷ rest) s
        ]
        else (err Reply.incomplete, s))
    else (err Reply.bad_diskreg, s)

unfoldable pub disk_chunk :
    Crypto → ℕ → Text → Account → ℕ → ℕ → Text → List Text → Relay → Reply × Relay
disk_chunk c now user entry seq n content rest s =
    if ltb 500 (length s.diskreg_pending) && not (has user s.diskreg_pending)
    then (err Reply.busy, s)
    else let old = if seq == 0 then [] else pending_chunks user s.diskreg_pending in
      let chunks = put seq content old in
      after_chunk c now user entry seq n chunks rest (record s {
        diskreg_pending = put user (record { chunks = chunks; ts = now }) s.diskreg_pending;
      })

unfoldable pub disk_pinned : Crypto → ℕ → Text → ℕ → ℕ → Text → List Text → Relay → Reply × Relay
disk_pinned c now user seq n content rest s = elim (get user s.users) [
  | none ↦ (err Reply.unpinned, s)
  | some entry ↦
      if entry.pinned
      then disk_chunk c now user entry seq n content rest s
      else (err Reply.unpinned, s)
]

unfoldable pub disk_in_range : Crypto → ℕ → Text → ℤ → ℤ → Text → List Text → Relay → Reply × Relay
disk_in_range c now user (pos seq) (pos n) content rest s =
    if n == 0 || ltb max_diskreg_chunks n || leb n seq
    then (err Reply.bad_diskreg, s)
    else disk_pinned c now user seq n content rest s
disk_in_range c now user _ _ content rest s = (err Reply.bad_diskreg, s)

unfoldable pub h_diskreg : Crypto → ℕ → List Text → Relay → Reply × Relay
h_diskreg c now (user ∷ seq ∷ n ∷ content ∷ rest) s = elim (int seq) [
  | none ↦ (err Reply.bad_diskreg, s)
  | some seq' ↦ elim (int n) [
    | none ↦ (err Reply.bad_diskreg, s)
    | some n' ↦ disk_in_range c now user seq' n' content rest s
  ]
]
h_diskreg c now _ s = (err Reply.bad_diskreg, s)

-- '{u}:{b32encode(pk)}' for each account with a registered key
unfoldable pub disk_entries : Dict Text Account → List Text
disk_entries [] = []
disk_entries ((u, a) ∷ users) =
    let rest = disk_entries users in
    elim a.disk_pubkey [
      | none ↦ rest
      | some pk ↦ elim pk [
        | [] ↦ rest
        | ch ∷ pk' ↦ join_with (text ":") (u ∷ b32encode (ch ∷ pk') ∷ []) ∷ rest
      ]
    ]

unfoldable pub h_disklist : List Text → Relay → Reply × Relay
h_disklist _ s = elim (disk_entries s.users) [
  | [] ↦ (Reply.empty, s)
  | x ∷ xs ↦ (Reply.registry (x ∷ xs), s)
]
