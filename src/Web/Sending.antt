-- ===== src/Web/Sending.antt =====
-- A message cut into queries (web_client.py, _send_chunked).
pub mod Fits
pub mod Whole
use Prim.Native.Nat.{max}
use dns_messenger.Prelude.{
  ℕ, suc, ◌+◌, ◌-◌, ◌*◌, ◌/◌, Bool, true, false, Option, none, some, List, [], ◌∷◌, ◌++◌,
  if◌then◌else◌, length,
}
use dns_messenger.Prelude.Text.{Text, Bytes, text, startswith, join_with, show}
use dns_messenger.Protocol.{b32encode, chunk_string, max_label_len, max_domain_len, nonce_overhead}

-- '.'.join([cmd] + prefix + [mid, '00', '00', ''])
unfoldable pub overhead_of : List Text → Text
overhead_of head = join_with (text ".") (head ++ text "00" ∷ text "00" ∷ [] ∷ [])

-- The characters of data in a query, for the labels [cmd] + prefix + [mid]. `avail` may be negative in
-- the source; both then give one label.
unfoldable pub per_query : List Text → Text → ℕ
unfolding overhead_of
per_query head domain =
    let avail = max_domain_len - length (overhead_of head) - length domain - 2 - nonce_overhead in
    max max_label_len (avail / (max_label_len + 1) * max_label_len)

-- chunk_string(data_b32, per_q) if data_b32 else ['']
unfoldable pub chunks_for : Text → ℕ → List Text
chunks_for [] size = [] ∷ []
chunks_for (c ∷ s) size = chunk_string (c ∷ s) size

unfoldable pub chunk_labels : List Text → ℕ → ℕ → Text → List Text
chunk_labels head seq total chunk =
    head ++ (show seq ∷ show total ∷ chunk_string chunk max_label_len)

-- The labels of all queries, from the number `seq` on.
unfoldable pub all_labels : List Text → ℕ → ℕ → List Text → List (List Text)
unfolding chunk_labels
all_labels head seq total [] = []
all_labels head seq total (chunk ∷ chunks) =
    chunk_labels head seq total chunk ∷ all_labels head (seq + 1) total chunks

-- The loop: it ends with the first error. What was asked, and whether all was accepted.
unfoldable pub ask_all : (List Text → Text) → List (List Text) → Bool × List (List Text)
ask_all ask [] = (true, [])
ask_all ask (q ∷ qs) =
    let (ok, asked) = ask_all ask qs in
    if startswith (text "ERR") (ask q) then (false, q ∷ []) else (ok, q ∷ asked)

-- The queries of a message; `head` is [cmd] + prefix + [mid].
unfoldable pub queries : List Text → Text → Bytes → List (List Text)
unfolding chunks_for per_query all_labels
queries head domain ct =
    let chunks = chunks_for (b32encode ct) (per_query head domain) in
    all_labels head 0 (length chunks) chunks

unfoldable pub send_chunked :
    (List Text → Text) → List Text → Text → Bytes → Bool × List (List Text)
unfolding queries ask_all
send_chunked ask head domain ct = ask_all ask (queries head domain ct)
