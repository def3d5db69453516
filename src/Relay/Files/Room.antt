-- ===== src/Relay/Files/Room.antt =====
-- The room for a new file (server.py, _h_fheader).
use dns_messenger.Prelude.{
  ℕ, ◌≤◌, ◌≡◌, ◌≢◌, refl, ltb, Bool, true, ◌&&◌, ◌||◌, not, some, List, [], ◌∷◌, arith, list_eq_iff,
  list_nat_eq, length, contains, Option-cases, Bool-cases, inl, inr,
}
use dns_messenger.Prelude.Int.{ℤ, pos, negsuc}
use dns_messenger.Prelude.Text.{Text, int}
use dns_messenger.Dict.{Dict, get, has, put, pop, keys, stamp_of, min_by}
use dns_messenger.Dict.Laws.{
  get-put, get-pop, length-put-le, length-put, length-pop-lt, contains-keep, contains-keys,
}
use dns_messenger.Dict.Oldest.{contains-min_by}
use dns_messenger.Relay.State.{Relay, FileInfo, max_files}
use dns_messenger.Relay.Files.{
  pending_files, evictable, file_room, new_file, open_file, header_in_range, h_fheader,
}

-- Somebody's inbox names the file.
abbrev pub is_waiting : Text → Relay → Bool
is_waiting fid s = contains fid (pending_files s.file_inbox)

contains-evictable :
    (k : Text) (inbox : Dict Text (List Text)) (files : Dict Text FileInfo)
    → contains k (evictable inbox files) ≡ (has k files && not (contains k (pending_files inbox)))
unfolding evictable
contains-evictable k inbox files = ground (
  arith,
  contains-keep (λ x. not (contains x (pending_files inbox))) k (keys files),
  contains-keys k files,
)

module _ (fid : Text) (inbox : Dict Text (List Text)) (files files' : Dict Text FileInfo) where
  -- What makes room is a file that nobody waits for.
  file_room-waiting :
      (k : Text)
      → file_room fid inbox files ≡ some files'
      → contains k (pending_files inbox) ≡ true
      → get k files' ≡ get k files
  unfolding file_room
  file_room-waiting k e waits =
      elim (Option-cases (min_by (stamp_of (λ f. f.ts) files) (evictable inbox files))) [
        | inl nobody ↦ ground arith
        | inr (o, found) ↦ ground (
          arith,
          contains-min_by (stamp_of (λ f. f.ts) files) (evictable inbox files) o found,
          contains-evictable o inbox files,
          get-pop o k files,
          list_eq_iff o k,
        )
      ]

  length-file_room :
      (f : FileInfo)
      → file_room fid inbox files ≡ some files'
      → length files ≤ max_files
      → length (put fid f files') ≤ max_files
  unfolding file_room
  length-file_room f e few =
      elim (Option-cases (min_by (stamp_of (λ f. f.ts) files) (evictable inbox files))) [
        | inl nobody ↦ ground (arith, length-put fid f files, length-put-le fid f files)
        | inr (o, found) ↦ ground (
          arith,
          contains-min_by (stamp_of (λ f. f.ts) files) (evictable inbox files) o found,
          contains-evictable o inbox files,
          length-pop-lt o files,
          length-put-le fid f (pop o files),
          length-put fid f files,
          length-put-le fid f files,
        )
      ]

module _ (P : Dict Text FileInfo → Type 0) (now : ℕ) (to_u fr_u fid : Text) (s : Relay)
    (same : P s.files)
    (step : (f : FileInfo) (files' : Dict Text FileInfo)
      → file_room fid s.file_inbox s.files ≡ some files'
      → P (put fid f files')) where
  files-open_file : (f : FileInfo) → P (open_file now fid f s).1.files
  unfolding open_file
  files-open_file f = elim (Option-cases (file_room fid s.file_inbox s.files)) [
    | inl full ↦ rw (full, open_file) same
    | inr (files', room) ↦ rw (room, open_file) (step f files' room)
  ]

  files-header_in_range :
      (name : Text) (size total : ℤ)
      → P (header_in_range now to_u fr_u fid name size total s).1.files
  unfolding header_in_range
  files-header_in_range name size (pos n) = elim (Bool-cases (ltb n 1 || ltb 8000 n)) [
    | inl bad ↦ rw (bad, header_in_range) same
    | inr good ↦ rw (good, header_in_range) (files-open_file (new_file now to_u fr_u name size n))
  ]
  files-header_in_range name size (negsuc n) = same

  -- A handler's files are the old ones, or some of them with the new file.
  files-h_fheader : (labels : List Text) → P (h_fheader now (to_u ∷ fr_u ∷ fid ∷ labels) s).1.files
  unfolding h_fheader
  files-h_fheader (name ∷ size ∷ total ∷ labels) = elim (Option-cases (int size)) [
    | inl bad ↦ rw (bad, h_fheader) same
    | inr (size', good) ↦ elim (Option-cases (int total)) [
      | inl bad ↦ rw (good, bad, h_fheader) same
      | inr (total', fine) ↦ rw (good, fine, h_fheader) (files-header_in_range name size' total')
    ]
  ]
  files-h_fheader [] = same
  files-h_fheader (_ ∷ []) = same
  files-h_fheader (_ ∷ _ ∷ []) = same

module _ (now : ℕ) (to_u fr_u fid : Text) (labels : List Text) (s : Relay) where
  -- A file that somebody's inbox names stays as it is, whatever header comes in for another file.
  pub files-h_fheader_waiting :
      (k : Text)
      → is_waiting k s ≡ true
      → fid ≢ k
      → get k (h_fheader now (to_u ∷ fr_u ∷ fid ∷ labels) s).1.files ≡ get k s.files
  files-h_fheader_waiting k waits other =
      files-h_fheader (λ files. get k files ≡ get k s.files) now to_u fr_u fid s refl
        (λ f files' room. ground (
          arith,
          file_room-waiting fid s.file_inbox s.files files' k room waits,
          get-put fid k f files',
          list_eq_iff fid k,
        ))
        labels

  -- The files stay within their limit.
  pub length-h_fheader :
      length s.files ≤ max_files
      → length (h_fheader now (to_u ∷ fr_u ∷ fid ∷ labels) s).1.files ≤ max_files
  length-h_fheader few =
      files-h_fheader (λ files. length files ≤ max_files) now to_u fr_u fid s few
        (λ f files' room. length-file_room fid s.file_inbox s.files files' f room few) labels
