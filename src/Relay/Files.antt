-- ===== src/Relay/Files.antt =====
-- Files in transit (server.py, _h_fheader, _h_fchunk, _h_fpoll, _h_fdownload).
pub mod Upload
pub mod Download
pub mod Room
use dns_messenger.Prelude.{
  ℕ, suc, ◌+◌, ◌-◌, ◌*◌, ◌/◌, true, false, ◌&&◌, ◌||◌, not, Option, none, some, List, [], ◌∷◌, ◌++◌,
  if◌then◌else◌, ltb, leb, ◌==◌, list_nat_eq, nat_eq, length, take, drop, keep, contains,
}
use dns_messenger.Prelude.Int.{ℤ, pos, negsuc}
use dns_messenger.Prelude.Text.{Text, text, join, int}
use dns_messenger.Dict.{Dict, get, has, put, pop, keys, values, stamp_of, min_by}
use dns_messenger.Crypto.{Crypto, fpoll_signing_input}
use dns_messenger.Relay.State.{Relay, FileInfo, max_files, max_file_chunks, download_piece}
use dns_messenger.Relay.Reply
use dns_messenger.Relay.Reply.{Reply, err, raised, ok, value_error, key_error}
use dns_messenger.Relay.Auth.{with_auth}
use dns_messenger.Relay.Assembly.{gather}

-- {f for fids in file_inbox.values() for f in fids}
unfoldable pub all_pending : List (List Text) → List Text
all_pending [] = []
all_pending (fids ∷ rest) = fids ++ all_pending rest

abbrev pub pending_files : Dict Text (List Text) → List Text
pending_files inbox = all_pending (values inbox)

-- [k for k in files if k not in pending]
unfoldable pub evictable : Dict Text (List Text) → Dict Text FileInfo → List Text
evictable inbox files = keep (λ k. not (contains k (pending_files inbox))) (keys files)

-- The files with room for `fid`: the oldest one that nobody waits for is dropped, or there is none.
unfoldable pub file_room :
    Text → Dict Text (List Text) → Dict Text FileInfo → Option (Dict Text FileInfo)
file_room fid inbox files =
    if not (has fid files) && leb max_files (length files)
    then elim (min_by (stamp_of (λ f. f.ts) files) (evictable inbox files)) [
      | none ↦ none
      | some oldest ↦ some (pop oldest files)
    ]
    else some files

abbrev pub new_file : ℕ → Text → Text → Text → ℤ → ℕ → FileInfo
new_file now to_u fr_u name_b32 size total = record {
  name = name_b32;
  sender = fr_u;
  dest = to_u;
  size = size;
  total = total;
  chunks = [];
  complete = false;
  data_b32 = [];
  ts = now;
}

unfoldable pub open_file : ℕ → Text → FileInfo → Relay → Reply × Relay
open_file now fid f s = elim (file_room fid s.file_inbox s.files) [
  | none ↦ (err Reply.full, s)
  | some files ↦ (ok fid, record s { files = put fid f files })
]

unfoldable pub header_in_range : ℕ → Text → Text → Text → Text → ℤ → ℤ → Relay → Reply × Relay
header_in_range now to_u fr_u fid name_b32 size (pos total) s =
    if ltb total 1 || ltb max_file_chunks total
    then (err Reply.bad_total, s)
    else open_file now fid (new_file now to_u fr_u name_b32 size total) s
header_in_range now to_u fr_u fid name_b32 size (negsuc total) s = (err Reply.bad_total, s)

unfoldable pub h_fheader : ℕ → List Text → Relay → Reply × Relay
h_fheader now (to_u ∷ fr_u ∷ fid ∷ name_b32 ∷ size ∷ total ∷ _) s = elim (int size) [
  | none ↦ (raised value_error, s)
  | some size' ↦ elim (int total) [
    | none ↦ (raised value_error, s)
    | some total' ↦ header_in_range now to_u fr_u fid name_b32 size' total' s
  ]
]
h_fheader now _ s = (err Reply.bad_fheader, s)

-- file_inbox[dest], of a defaultdict
abbrev pub inbox_of : Text → Dict Text (List Text) → List Text
inbox_of dest inbox = elim (get dest inbox) [ none ↦ [] | some fids ↦ fids ]

abbrev pub completed : Text → FileInfo → FileInfo
completed full f = record f { data_b32 = full; complete = true; chunks = [] }

-- A chunk with its number in range, of a file that is not complete.
unfoldable pub add_file_chunk : Text → FileInfo → ℕ → Text → Relay → Reply × Relay
add_file_chunk fid f seq content s =
    let chunks = put seq content f.chunks in
    let stored : Relay = record s { files = put fid (record f { chunks = chunks }) s.files } in
    if length chunks == f.total
    then elim (gather f.total chunks) [
      | none ↦ (raised key_error, stored)
      | some full ↦ (
        Reply.complete,
        record s {
          files = put fid (completed full f) s.files;
          file_inbox = put f.dest (inbox_of f.dest s.file_inbox ++ fid ∷ []) s.file_inbox;
        },
      )
    ]
    else (Reply.file_chunk seq, stored)

unfoldable pub store_file_chunk : Text → ℤ → Text → Relay → Reply × Relay
store_file_chunk fid seq content s = elim (get fid s.files) [
  | none ↦ (err Reply.no_file, s)
  | some f ↦ if f.complete then (Reply.complete, s) else elim seq [
    | pos n ↦ if leb f.total n then (err Reply.bad_seq, s) else add_file_chunk fid f n content s
    | negsuc n ↦ (err Reply.bad_seq, s)
  ]
]

unfoldable pub h_fchunk : List Text → Relay → Reply × Relay
h_fchunk (fid ∷ seq ∷ label ∷ labels) s = elim (int seq) [
  | none ↦ (raised value_error, s)
  | some seq' ↦ store_file_chunk fid seq' (join (label ∷ labels)) s
]
h_fchunk _ s = (err Reply.bad_fchunk, s)

-- The first file of the inbox is announced, and leaves the inbox.
unfoldable pub announce : Text → List Text → Text → Relay → Reply × Relay
announce user rest fid s =
    let s' : Relay = record s { file_inbox = put user rest s.file_inbox } in
    elim (get fid s.files) [
      | none ↦ (Reply.empty, s')
      | some f ↦
          if f.complete then (Reply.file fid f.sender f.name f.size, s') else (Reply.empty, s')
    ]

unfoldable pub take_file : Text → Relay → Reply × Relay
take_file user s = elim (inbox_of user s.file_inbox) [
  | [] ↦ (Reply.empty, s)
  | fid ∷ rest ↦ announce user rest fid s
]

unfoldable pub h_fpoll : Crypto → ℕ → List Text → Relay → Reply × Relay
h_fpoll c now [] s = (err Reply.no_user, s)
h_fpoll c now (user ∷ rest) s =
    with_auth c now user (user ∷ rest) fpoll_signing_input (text "file") (take_file user) s

-- s[start:start + size] for start = -(k + 1) * size: Python counts from the end, and for k = 0 the
-- end is 0.
unfoldable pub slice_back : ℕ → ℕ → Text → Text
slice_back size k s =
    let start = length s - suc k * size in
    let stop = length s - k * size in if k == 0 then [] else take (stop - start) (drop start s)

unfoldable pub piece_of : ℤ → Text → Reply
piece_of (pos n) content =
    let start = n * download_piece in
    let total_seq = (length content + download_piece - 1) / download_piece in
    if leb (length content) start
    then Reply.eof
    else Reply.piece (pos n) total_seq (take download_piece (drop start content))
piece_of (negsuc k) content =
    let total_seq = (length content + download_piece - 1) / download_piece in
    Reply.piece (negsuc k) total_seq (slice_back download_piece k content)

unfoldable pub download : Text → ℤ → Relay → Reply
download fid seq s = elim (get fid s.files) [
  | none ↦ err Reply.no_file
  | some f ↦ if f.complete then piece_of seq f.data_b32 else err Reply.no_file
]

unfoldable pub h_fdownload : List Text → Relay → Reply × Relay
h_fdownload (fid ∷ seq ∷ _) s = elim (int seq) [
  | none ↦ (raised value_error, s)
  | some seq' ↦ (download fid seq' s, s)
]
h_fdownload _ s = (err Reply.bad_fdl, s)
