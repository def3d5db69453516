-- ===== src/Web/Sending/Fits.antt =====
-- Every query of a message fits into a DNS name (web_client.py, _send_chunked; transport.py,
-- _build_query).
use mathlib.Core.List.{reverse, reverse-append}
use dns_messenger.Prelude.{
  ℕ, zero, suc, ◌+◌, ◌-◌, ◌*◌, ◌/◌, ◌^◌, ◌≤◌, ◌<◌, ◌≡◌, refl, subst, ap, ◌∙◌, [], ◌∷◌, ◌++◌, List,
  arith, length, drop, All, length-append, length-take, length-drop,
}
use dns_messenger.Prelude.Text.{Text, Bytes, text, join_with, show, digits_of}
use dns_messenger.Protocol.{b32encode, chunks_of, chunk_string}
use dns_messenger.Protocol.Chunks.{join-chunk_string}
use dns_messenger.Transport.{query_name}
use dns_messenger.Web.Sending.{
  overhead_of, per_query, chunks_for, chunk_labels, all_labels, queries,
}

-- The characters of labels, each with a dot.
unfoldable pub weight : List Text → ℕ
weight [] = 0
weight (l ∷ ls) = length l + 1 + weight ls

weight-append : (xs ys : List Text) → weight (xs ++ ys) ≡ weight xs + weight ys
unfolding weight
weight-append [] ys = omega arith
weight-append (x ∷ xs) ys = omega (arith, weight-append xs ys)

length-join_with :
    (l : Text) (ls : List Text) → length (join_with (text ".") (l ∷ ls)) + 1 ≡ weight (l ∷ ls)
unfolding join_with weight
length-join_with l [] = omega arith
length-join_with l (m ∷ ls) =
    omega (arith, length-append l (b'.' ∷ join_with (text ".") (m ∷ ls)), length-join_with m ls)

length-query_name :
    (nonce domain l : Text) (ls : List Text)
    → length nonce ≡ 8
    → length (query_name nonce (l ∷ ls) domain) ≡ 9 + weight (l ∷ ls) + length domain
unfolding query_name
length-query_name nonce domain l ls h =
    let name = join_with (text ".") (l ∷ ls) in
    omega (
      arith,
      length-append nonce (b'.' ∷ (name ++ (b'.' ∷ domain))),
      length-append name (b'.' ∷ domain),
      length-join_with l ls,
    )

-- Labels of at most 63 characters: a dot for each 63.
weight-chunks_of :
    (k fuel : ℕ) (s : Text) → length s ≤ 63 * k → weight (chunks_of fuel 63 s) ≤ 64 * k
unfolding weight chunks_of
weight-chunks_of k zero s h = omega arith
weight-chunks_of k (suc fuel) [] h = omega arith
weight-chunks_of zero (suc fuel) (c ∷ s) h = absurd (omega arith)
weight-chunks_of (suc k) (suc fuel) (c ∷ s) h = omega (
  arith,
  length-take 63 (c ∷ s),
  length-drop 63 (c ∷ s),
  weight-chunks_of k fuel (drop 63 (c ∷ s)),
)

-- A number below 10 ^ k has at most k digits.
length-digits_of : (k fuel n : ℕ) → n < 10 ^ suc k → length (digits_of fuel n) ≤ suc k
unfolding digits_of
length-digits_of k zero n h = omega arith
length-digits_of zero (suc fuel) n h = ground arith
length-digits_of (suc k) (suc fuel) n h = ground (arith, length-digits_of k fuel (n / 10))

length-reverse : (xs : Text) → length (reverse xs) ≡ length xs
length-reverse [] = refl
length-reverse (x ∷ xs) =
    ap length (reverse-append (x ∷ []) xs)
    ∙ omega (arith, length-append (reverse xs) (x ∷ []), length-reverse xs)

length-show : (n : ℕ) → n < 1000 → length (show n) ≤ 3
unfolding show
length-show n h = omega (arith, length-reverse (digits_of (n + 1) n), length-digits_of 2 (n + 1) n)

length-overhead_of :
    (l : Text) (ls : List Text) → length (overhead_of (l ∷ ls)) ≡ weight (l ∷ ls) + 6
unfolding overhead_of weight
length-overhead_of l ls =
    let tail = text "00" ∷ text "00" ∷ [] ∷ [] in
    omega (arith, length-join_with l (ls ++ tail), weight-append ls tail)

-- How many labels of data a query has room for.
abbrev pub room : List Text → Text → ℕ
room head domain = (253 - length (overhead_of head) - length domain - 2 - 9) / 64

module _ (nonce domain l : Text) (ls : List Text) (sized : length nonce ≡ 8)
    (short : length (overhead_of (l ∷ ls)) + length domain + 75 ≤ 253) where
  chunk_labels-fits :
      (seq total : ℕ) (chunk : Text)
      → seq < 1000
      → total < 1000
      → length chunk ≤ 63 * room (l ∷ ls) domain
      → length (query_name nonce (chunk_labels (l ∷ ls) seq total chunk) domain) ≤ 253
  unfolding chunk_labels chunk_string weight
  chunk_labels-fits seq total chunk few_seq few cut =
      let k = room (l ∷ ls) domain in
      let cs = chunks_of (length chunk) 63 chunk in
      omega (
        arith,
        length-query_name nonce domain l (ls ++ (show seq ∷ show total ∷ cs)) sized,
        weight-append ls (show seq ∷ show total ∷ cs),
        weight-chunks_of k (length chunk) chunk cut,
        length-show seq few_seq,
        length-show total few,
        length-overhead_of l ls,
      )

  all_labels-fits :
      (seq total : ℕ) (chunks : List Text)
      → seq + length chunks ≤ total
      → total < 1000
      → All (λ c. length c ≤ 63 * room (l ∷ ls) domain) chunks
      → All (λ q. length (query_name nonce q domain) ≤ 253) (all_labels (l ∷ ls) seq total chunks)
  unfolding all_labels
  all_labels-fits seq total [] inside few cut = tt
  all_labels-fits seq total (c ∷ chunks) inside few cut = (
    chunk_labels-fits seq total c (omega arith) few cut.0,
    all_labels-fits (seq + 1) total chunks (omega arith) few cut.1,
  )

per_query-room :
    (head : List Text) (domain : Text)
    → length (overhead_of head) + length domain + 75 ≤ 253
    → per_query head domain ≡ 63 * room head domain
unfolding per_query
per_query-room head domain short = omega arith

chunks_for-cut : (s : Text) (size : ℕ) → 0 < size → All (λ c. length c ≤ size) (chunks_for s size)
unfolding chunks_for
chunks_for-cut [] size h = (omega arith, tt)
chunks_for-cut (c ∷ s) size h = (join-chunk_string (c ∷ s) size h).1

-- Every query of a message, with its nonce and the domain, is a name of at most 253 characters, and so
-- can be sent: where the labels before the data and the domain leave room for one label of data, and
-- the message is cut into fewer than a thousand pieces.
pub queries-fit :
    (nonce domain l : Text) (ls : List Text) (ct : Bytes)
    → length nonce ≡ 8
    → length (overhead_of (l ∷ ls)) + length domain + 75 ≤ 253
    → length (chunks_for (b32encode ct) (per_query (l ∷ ls) domain)) < 1000
    → All (λ q. length (query_name nonce q domain) ≤ 253) (queries (l ∷ ls) domain ct)
unfolding queries
queries-fit nonce domain l ls ct sized short few =
    let size = per_query (l ∷ ls) domain in
    let chunks = chunks_for (b32encode ct) size in
    let room_is = per_query-room (l ∷ ls) domain short in
    all_labels-fits nonce domain l ls sized short 0 (length chunks) chunks (omega arith) few (
      subst (λ n. All (λ c. length c ≤ n) chunks) room_is
        (chunks_for-cut (b32encode ct) size (omega (arith, room_is))))
