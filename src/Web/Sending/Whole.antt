-- ===== src/Web/Sending/Whole.antt =====
-- The pieces of a message join to it again, and a failure stops the sending (web_client.py,
-- _send_chunked).
use dns_messenger.Prelude.{
  ℕ, ◌+◌, ◌<◌, ◌≡◌, refl, ap, ◌∙◌, Bool, true, false, some, [], ◌∷◌, ◌++◌, List, arith, length, All,
  Bool-cases, inl, inr, drop, drop-append,
}
use dns_messenger.Prelude.Text.{Text, Bytes, text, startswith, join, show}
use dns_messenger.Protocol.{b32encode, b32decode, chunk_string}
use dns_messenger.Protocol.Base32.{IsBytes, b32decode-b32encode}
use dns_messenger.Protocol.Chunks.{join-chunk_string}
use dns_messenger.Web.Sending.{
  per_query, chunks_for, chunk_labels, all_labels, ask_all, queries, send_chunked,
}

-- The data labels of a query, joined, where `n` labels come before the two numbers.
unfoldable pub data_of : ℕ → List Text → Text
data_of n labels = join (drop 2 (drop n labels))

unfoldable pub data_of_all : ℕ → List (List Text) → List Text
data_of_all n [] = []
data_of_all n (q ∷ qs) = data_of n q ∷ data_of_all n qs

data_of-chunk_labels :
    (head : List Text) (seq total : ℕ) (chunk : Text)
    → data_of (length head) (chunk_labels head seq total chunk) ≡ chunk
unfolding data_of chunk_labels
data_of-chunk_labels head seq total chunk =
    ap (λ (ls : List Text). join (drop 2 ls))
      (drop-append head (show seq ∷ show total ∷ chunk_string chunk 63) (length head) refl)
    ∙ (join-chunk_string chunk 63 (omega arith)).0

data_of_all-all_labels :
    (head : List Text) (seq total : ℕ) (chunks : List Text)
    → data_of_all (length head) (all_labels head seq total chunks) ≡ chunks
unfolding data_of_all all_labels
data_of_all-all_labels head seq total [] = refl
data_of_all-all_labels head seq total (c ∷ chunks) = ground (
  arith,
  data_of-chunk_labels head seq total c,
  data_of_all-all_labels head (seq + 1) total chunks,
)

join-chunks_for : (s : Text) (size : ℕ) → 0 < size → join (chunks_for s size) ≡ s
unfolding chunks_for join
join-chunks_for [] size h = refl
join-chunks_for (c ∷ s) size h = (join-chunk_string (c ∷ s) size h).0

per_query-pos : (head : List Text) (domain : Text) → 0 < per_query head domain
unfolding per_query
per_query-pos head domain = omega arith

-- The data labels of all queries, joined in order, decode to the message, whatever its length and the
-- labels before the data.
pub decode-queries :
    (head : List Text) (domain : Text) (ct : Bytes)
    → IsBytes ct
    → b32decode (join (data_of_all (length head) (queries head domain ct))) ≡ some ct
unfolding queries
decode-queries head domain ct bytes =
    let size = per_query head domain in
    let chunks = chunks_for (b32encode ct) size in
    ap (λ (cs : List Text). b32decode (join cs))
      (data_of_all-all_labels head 0 (length chunks) chunks)
    ∙ ap b32decode (join-chunks_for (b32encode ct) size (per_query-pos head domain))
    ∙ b32decode-b32encode ct bytes

abbrev pub refused : (List Text → Text) → List Text → Bool
refused ask q = startswith (text "ERR") (ask q)

ask_all-cases :
    (ask : List Text → Text) (qs : List (List Text))
    → ((ask_all ask qs).0 ≡ true → ((ask_all ask qs).1 ≡ qs) × All (λ q. refused ask q ≡ false) qs)
      × ((ask_all ask qs).0 ≡ false
          → (sent : List (List Text)) × (q : List Text) × (rest : List (List Text)) × ((ask_all ask
                qs).1
              ≡ sent ++ q ∷ [])
            × (qs ≡ sent ++ q ∷ rest)
            × (refused ask q ≡ true))
unfolding ask_all
ask_all-cases ask [] = (λ h. (refl, tt), λ h. absurd (ground arith))
ask_all-cases ask (q ∷ qs) = elim (Bool-cases (refused ask q)) [
  | inl error ↦ (λ h. absurd (ground arith), λ h. ([], q, qs, ground arith, refl, error))
  | inr fine ↦
      let rest = ask_all-cases ask qs in
      (
        λ h. let r = rest.0 (ground arith) in (ground (arith, r.0), (fine, r.1)),
        λ h.
            let (sent, bad, after, asked, all, error) = rest.1 (ground arith) in
            (q ∷ sent, bad, after, ground (arith, asked), ap (◌∷◌ q) all, error),
      )
]

-- Sending reports success only where each query of the message was asked and none was refused; and
-- where it reports failure, the last query asked is one that was refused, those before it were asked
-- in order, and none after it.
pub send_chunked-cases :
    (ask : List Text → Text) (head : List Text) (domain : Text) (ct : Bytes)
    → ((send_chunked ask head domain ct).0 ≡ true
        → ((send_chunked ask head domain ct).1 ≡ queries head domain ct)
          × All (λ q. refused ask q ≡ false) (queries head domain ct))
      × ((send_chunked ask head domain ct).0 ≡ false
          → (sent : List (List Text)) × (q : List Text) × (rest : List (List Text)) × ((send_chunked
                ask head domain ct).1
              ≡ sent ++ q ∷ [])
            × (queries head domain ct ≡ sent ++ q ∷ rest)
            × (refused ask q ≡ true))
unfolding send_chunked
send_chunked-cases ask head domain ct = ask_all-cases ask (queries head domain ct)
