-- ===== src/Bridge/Registry.antt =====
-- The relay's registry, as the bridge reads it (server.py, _h_disklist; disk_bridge.py, fetch_registry).
use dns_messenger.Prelude.{
  ℕ, ◌≤◌, ◌≡◌, refl, ap, ◌∙◌, false, ◌||◌, Option, none, some, List, [], ◌∷◌, ◌++◌, map, arith,
  take, All, contains, nat_eq, list_nat_eq, list_eq, All-append, All-take,
}
use dns_messenger.Prelude.Text.{Text, Bytes, text, startswith, join_with}
use dns_messenger.Dict.{Dict, put}
use dns_messenger.Protocol.{to_base, from_base, symbol, encode_group, b32encode}
use dns_messenger.Protocol.Base32.{IsBytes, b32decode-b32encode}
use dns_messenger.Relay.State.{Relay, Account}
use dns_messenger.Relay.Reply.{Reply, Exception, render}
use dns_messenger.Relay.Disk.{disk_entries, h_disklist}
use dns_messenger.Web.Peers.{partition_colon}
use dns_messenger.Bridge.{split_commas, read_entry, read_entries, fetch_registry}

-- What the registry is to hold: the names with a folder key, each with its key.
abbrev pub note_key : Text → Option Text → Dict Text Text → Dict Text Text
note_key u none out = out
note_key u (some []) out = out
note_key u (some (c ∷ pk)) out = put u (c ∷ pk) out

unfoldable pub folder_keys : Dict Text Account → Dict Text Text → Dict Text Text
folder_keys [] out = out
folder_keys ((u, a) ∷ users) out = folder_keys users (note_key u a.disk_pubkey out)

-- The name has no comma and no colon, and the key is text that decodes.
abbrev IsReadable : (Bytes → Option Text) → Option Text → Type 0
IsReadable utf8 none = Unit
IsReadable utf8 (some pk) = IsBytes pk × (utf8 pk ≡ some pk)

abbrev pub IsListable : (Bytes → Option Text) → Text × Account → Type 0
IsListable utf8 (u, a) =
    (contains b',' u ≡ false) × (contains b':' u ≡ false) × IsReadable utf8 a.disk_pubkey

symbols_high : (ds : List ℕ) → All (λ c. 50 ≤ c) (map symbol ds)
unfolding symbol
symbols_high [] = tt
symbols_high (d ∷ ds) = (ground arith, symbols_high ds)

group_high : (n : ℕ) (x : List ℕ) → All (λ c. 50 ≤ c) (take n (encode_group x))
unfolding encode_group
group_high n x =
    All-take (λ c. 50 ≤ c) n (map symbol (to_base 32 8 (from_base 256 0 x)))
      (symbols_high (to_base 32 8 (from_base 256 0 x)))

-- No character of base32 is a comma.
b32encode_high : (x : Bytes) → All (λ c. 50 ≤ c) (b32encode x)
unfolding b32encode encode_group
b32encode_high [] = tt
b32encode_high (a ∷ []) = group_high 2 (a ∷ 0 ∷ 0 ∷ 0 ∷ 0 ∷ [])
b32encode_high (a ∷ b ∷ []) = group_high 4 (a ∷ b ∷ 0 ∷ 0 ∷ 0 ∷ [])
b32encode_high (a ∷ b ∷ c ∷ []) = group_high 5 (a ∷ b ∷ c ∷ 0 ∷ 0 ∷ [])
b32encode_high (a ∷ b ∷ c ∷ d ∷ []) = group_high 7 (a ∷ b ∷ c ∷ d ∷ 0 ∷ [])
b32encode_high (a ∷ b ∷ c ∷ d ∷ e ∷ rest) =
    let group = a ∷ b ∷ c ∷ d ∷ e ∷ [] in
    All-append (λ c. 50 ≤ c) (encode_group group) (b32encode rest)
      (symbols_high (to_base 32 8 (from_base 256 0 group))) (b32encode_high rest)

no_comma : (s : Text) → All (λ c. 50 ≤ c) s → contains b',' s ≡ false
unfolding contains
no_comma [] h = refl
no_comma (c ∷ s) h = ground (arith, h.0, no_comma s h.1)

contains-append_nat : (x : ℕ) (s t : Text) → contains x (s ++ t) ≡ (contains x s || contains x t)
unfolding contains
contains-append_nat x [] t = refl
contains-append_nat x (c ∷ s) t = ground (arith, contains-append_nat x s t)

split_commas-whole : (s : Text) → contains b',' s ≡ false → split_commas s ≡ (s, [])
unfolding split_commas contains
split_commas-whole [] h = refl
split_commas-whole (c ∷ s) h = ground (arith, split_commas-whole s (ground (arith, h)))

split_commas-append :
    (s t : Text)
    → contains b',' s ≡ false
    → split_commas (s ++ b',' ∷ t) ≡ (s, (split_commas t).0 ∷ (split_commas t).1)
unfolding split_commas contains
split_commas-append [] t h = refl
split_commas-append (c ∷ s) t h = ground (arith, split_commas-append s t (ground (arith, h)))

split_commas-join :
    (x : Text) (xs : List Text)
    → All (λ s. contains b',' s ≡ false) (x ∷ xs)
    → split_commas (join_with (text ",") (x ∷ xs)) ≡ (x, xs)
unfolding join_with
split_commas-join x [] h = split_commas-whole x h.0
split_commas-join x (y ∷ ys) h =
    split_commas-append x (join_with (text ",") (y ∷ ys)) h.0
    ∙ ap (λ (r : Text × List Text). (x, r.0 ∷ r.1)) (split_commas-join y ys h.1)

partition_colon-append :
    (u s : Text) → contains b':' u ≡ false → partition_colon (u ++ b':' ∷ s) ≡ (u, s)
unfolding partition_colon contains
partition_colon-append [] s h = refl
partition_colon-append (c ∷ u) s h = ground (arith, partition_colon-append u s (ground (arith, h)))

-- The text of an entry.
abbrev entry_of : Text → Bytes → Text
entry_of u pk = join_with (text ":") (u ∷ b32encode pk ∷ [])

-- The entries, where `o` is the folder key of the first account.
abbrev entry_before : Text → Option Text → List Text → List Text
entry_before u o rest = elim o [
  | none ↦ rest
  | some pk ↦ elim pk [ [] ↦ rest | c ∷ pk' ↦ entry_of u (c ∷ pk') ∷ rest ]
]

-- The reply for these entries.
abbrev listing : List Text → Reply
listing [] = Reply.empty
listing (x ∷ xs) = Reply.registry (x ∷ xs)

no_comma_in_entry : (u pk : Text) → contains b',' u ≡ false → contains b',' (entry_of u pk) ≡ false
unfolding join_with contains
no_comma_in_entry u pk h =
    contains-append_nat b',' u (b':' ∷ b32encode pk)
    ∙ ground (arith, h, no_comma (b32encode pk) (b32encode_high pk))

module _ (utf8 : Bytes → Option Text) where
  read_entry-entry :
      (u pk : Text) (out : Dict Text Text)
      → contains b':' u ≡ false
      → IsBytes pk
      → utf8 pk ≡ some pk
      → read_entry utf8 (entry_of u pk) out ≡ put u pk out
  unfolding read_entry join_with contains
  read_entry-entry u pk out h bytes reads = ground (
    arith,
    partition_colon-append u (b32encode pk) h,
    contains-append_nat b':' u (b':' ∷ b32encode pk),
    b32decode-b32encode pk bytes,
    reads,
  )

  no_commas_before :
      (u : Text) (o : Option Text) (rest : List Text)
      → contains b',' u ≡ false
      → All (λ s. contains b',' s ≡ false) rest
      → All (λ s. contains b',' s ≡ false) (entry_before u o rest)
  no_commas_before u none rest h all = all
  no_commas_before u (some []) rest h all = all
  no_commas_before u (some (c ∷ pk)) rest h all = (no_comma_in_entry u (c ∷ pk) h, all)

  no_commas :
      (users : Dict Text Account)
      → All (IsListable utf8) users
      → All (λ s. contains b',' s ≡ false) (disk_entries users)
  unfolding disk_entries
  no_commas [] h = tt
  no_commas ((u, a) ∷ users) h =
      no_commas_before u a.disk_pubkey (disk_entries users) h.0.0 (no_commas users h.1)

  read_entries_before :
      (u : Text) (o : Option Text) (rest : List Text) (out : Dict Text Text)
      → contains b':' u ≡ false
      → IsReadable utf8 o
      → read_entries utf8 (entry_before u o rest) out ≡ read_entries utf8 rest (note_key u o out)
  unfolding read_entries
  read_entries_before u none rest out h readable = refl
  read_entries_before u (some []) rest out h readable = refl
  read_entries_before u (some (c ∷ pk)) rest out h readable =
      ap (read_entries utf8 rest) (read_entry-entry u (c ∷ pk) out h readable.0 readable.1)

  read_entries-disk_entries :
      (users : Dict Text Account) (out : Dict Text Text)
      → All (IsListable utf8) users
      → read_entries utf8 (disk_entries users) out ≡ folder_keys users out
  unfolding read_entries disk_entries folder_keys
  read_entries-disk_entries [] out h = refl
  read_entries-disk_entries ((u, a) ∷ users) out h =
      read_entries_before u a.disk_pubkey (disk_entries users) out h.0.1 h.0.2
      ∙ read_entries-disk_entries users (note_key u a.disk_pubkey out) h.1

  -- The answer for a list of entries.
  fetch_registry-render :
      (message : Exception → Text) (entries : List Text)
      → All (λ e. contains b',' e ≡ false) entries
      → fetch_registry utf8 (some (render message (listing entries))) ≡ read_entries utf8 entries []
  unfolding fetch_registry render startswith list_eq read_entries
  fetch_registry-render message [] h = refl
  fetch_registry-render message (x ∷ xs) h =
      ap (λ (r : Text × List Text). read_entries utf8 (r.0 ∷ r.1) []) (split_commas-join x xs h)

reply_of :
    (labels : List Text) (s : Relay) → (h_disklist labels s).0 ≡ listing (disk_entries s.users)
unfolding h_disklist
reply_of labels s = cases (disk_entries s.users)
  where
    cases :
        (entries : List Text)
        → (elim entries as (λ _. Reply × Relay) [
          | [] ↦ (Reply.empty, s)
          | x ∷ xs ↦ (Reply.registry (x ∷ xs), s)
        ]).0
          ≡ listing entries
    cases [] = refl
    cases (x ∷ xs) = refl

-- The bridge reads from the relay's answer to a registry request just the names that have registered a
-- folder key, each with its key, in the relay's order: where the relay has none, it reads nothing.
-- Names have no comma and no colon, and keys are text whose bytes decode to it.
pub fetch_registry-h_disklist :
    (utf8 : Bytes → Option Text) (message : Exception → Text) (labels : List Text) (s : Relay)
    → All (IsListable utf8) s.users
    → fetch_registry utf8 (some (render message (h_disklist labels s).0)) ≡ folder_keys s.users []
unfolding fetch_registry h_disklist render
fetch_registry-h_disklist utf8 message labels s h =
    ap (λ r. fetch_registry utf8 (some (render message r))) (reply_of labels s)
    ∙ fetch_registry-render utf8 message (disk_entries s.users) (no_commas utf8 s.users h)
    ∙ read_entries-disk_entries utf8 s.users [] h
