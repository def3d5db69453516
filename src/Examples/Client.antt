-- ===== src/Examples/Client.antt =====
-- Runs of the web client and of the transports.
use dns_messenger.Prelude.{
  ℕ, ◌+◌, ◌≤◌, ◌<◌, ◌≡◌, refl, true, false, not, none, some, List, [], ◌∷◌, ◌++◌, arith,
  if◌then◌else◌, replicate, length, leb, keep, contains, list_eq, All, list_nat_eq, take, inl,
}
use dns_messenger.Prelude.Text.{Text, Bytes, text, join, join_with}
use dns_messenger.Dict.{Dict, get}
use dns_messenger.Protocol.{b32encode, b32decode, chunk_string, chunks_of, codec}
use dns_messenger.Crypto.{split_bundle}
use dns_messenger.Relay.Accounts.{h_getkey}
use dns_messenger.Relay.Reply.{render}
use dns_messenger.Transport.{query_name}
use dns_messenger.Web.Accounts.{Pbkdf2}
use dns_messenger.Web.BackupCodes.{Codes, codes_of, unused}
use dns_messenger.Web.BackupCodes.Once.{attempts, attempts-unused}
use dns_messenger.Web.Peers.{Peers, peer_key, get_peer_key}
use dns_messenger.Web.Peers.Pins.{IsPinned, lookups, lookups-IsPinned}
use dns_messenger.Web.Peers.Fetch.{get_peer_key-h_getkey}
use dns_messenger.Web.Prekeys.{Published}
use dns_messenger.Web.Prekeys.Pool.{takes, offers, takes-offers}
use dns_messenger.Web.Retry.{q_reliable, is_transient_err, q_reliable-first}
use dns_messenger.Web.Sending.{overhead_of, per_query, chunks_for, queries, send_chunked}
use dns_messenger.Web.Sending.Fits.{queries-fit}
use dns_messenger.Web.Sending.Whole.{data_of_all, refused, decode-queries, send_chunked-cases}
use dns_messenger.Web.Sessions.{current_user_sv, is_current}
use dns_messenger.Web.Sessions.Revoked.{bump_all, is_current-bump_all}
use dns_messenger.Web.Throttle.{account_fail_max, account_fail_window, is_fresh, account_throttled}
use dns_messenger.Web.Throttle.Failures.{Event, run, ordered, failures_of, account_throttled-run}
use dns_messenger.Examples.{alice, bob, carol, alice_bundle, alice_account, with_alice}

abbrev toy_hash : Pbkdf2
toy_hash password salt = salt ++ password

abbrev two_codes : Codes
two_codes =
    (
      alice,
      record { hash = text "sABCDE"; salt = text "s"; used = false }
          ∷ record { hash = text "tFGHJK"; salt = text "t"; used = false }
          ∷ [],
    )
    ∷ []

-- The second attempt repeats the first, and the third is wrong.
abbrev tries : List (Text × Text)
tries = (text "x", text "abc-de") ∷ (text "x", text "ABCDE") ∷ (text "x", text "nonsense") ∷ []

attempts-unused_example :
    (attempts toy_hash alice tries two_codes).0
      + unused (codes_of alice ((attempts toy_hash alice tries two_codes).1))
    ≡ unused (codes_of alice two_codes)
attempts-unused_example = attempts-unused toy_hash alice tries two_codes

abbrev nobody : Peers
nobody = record { pins = []; peer_keys = []; peer_verify = []; key_alerts = [] }

nobody-IsPinned : IsPinned nobody
unfolding get
nobody-IsPinned u x known = absurd (ground arith)

abbrev key_replies : List (Text × Text)
key_replies = (text "KEY:1:" ++ b32encode alice_bundle, alice) ∷ (text "ERR:timeout", bob) ∷ []

lookups-IsPinned_example :
    IsPinned (lookups key_replies nobody)
    × ((u p : Text) → get u nobody.pins ≡ some p → get u (lookups key_replies nobody).pins ≡ some p)
lookups-IsPinned_example = lookups-IsPinned key_replies nobody nobody-IsPinned

get_peer_key-h_getkey_example :
    let result =
      get_peer_key (render (λ e. []) ((h_getkey (alice ∷ []) with_alice).0)) alice nobody in
    (result.0 ≡ peer_key (take 32 alice_bundle))
    × (get alice result.1.pins ≡ some (b32encode alice_bundle))
    × (get alice result.1.peer_verify ≡ elim ((split_bundle alice_bundle).1) [
      | none ↦ get alice nobody.peer_verify
      | some ed ↦ some ed
    ])
unfolding with_alice get list_eq
get_peer_key-h_getkey_example =
    get_peer_key-h_getkey (λ e. []) alice [] with_alice alice_account nobody refl
      (omega arith, inl refl) refl refl

abbrev offered : Published
offered = record {
  signed_pub = text "AAAA";
  signed_sig = text "BBBB";
  signed_ts = 1;
  one_time = text "AQ==" ∷ text "Ag==" ∷ [];
}

takes-offers_example :
    takes 3 alice ((alice, offered) ∷ []) ≡ offers 3 offered (text "AQ==" ∷ text "Ag==" ∷ [])
unfolding get list_eq
takes-offers_example = takes-offers 3 alice ((alice, offered) ∷ []) offered refl

-- The first two queries time out.
abbrev flaky : ℕ → Text
flaky n = if leb n 1 then text "ERR:timeout" else text "OK"

q_reliable-first_example :
    (k : ℕ) × (k ≤ 3)
    × (q_reliable flaky ≡ flaky k)
    × ((j : ℕ) → j < k → is_transient_err (flaky j) ≡ true)
    × (k < 3 → is_transient_err (flaky k) ≡ false)
q_reliable-first_example = q_reliable-first flaky

abbrev head : List Text
head = text "s" ∷ bob ∷ alice ∷ text "abcdefg" ∷ []

abbrev long_text : Bytes
long_text = replicate 120 65

queries-fit_example :
    All
      (λ q. length (query_name (text "nnnnnnnn") q (text "msg.tunnel.local")) ≤ 253)
      (queries head (text "msg.tunnel.local") long_text)
unfolding overhead_of per_query chunks_for chunk_string chunks_of codec join_with
queries-fit_example =
    queries-fit (text "nnnnnnnn") (text "msg.tunnel.local") (text "s")
      (bob ∷ alice ∷ text "abcdefg" ∷ []) long_text refl (omega arith) (omega arith)

decode-queries_example :
    b32decode (join (data_of_all (length head) (queries head (text "msg.tunnel.local") long_text)))
    ≡ some long_text
decode-queries_example = decode-queries head (text "msg.tunnel.local") long_text (omega arith)

-- A relay that refuses a query of the second piece.
abbrev picky : List Text → Text
picky q = if contains (text "1") q then text "ERR:full" else text "OK"

send_chunked-cases_example :
    let result = send_chunked picky head (text "msg.tunnel.local") long_text in
    let all = queries head (text "msg.tunnel.local") long_text in
    (result.0 ≡ true → (result.1 ≡ all) × All (λ q. refused picky q ≡ false) all)
    × (result.0 ≡ false
        → (sent : List (List Text)) × (q : List Text) × (rest : List (List Text)) × (result.1
            ≡ sent ++ q ∷ [])
          × (all ≡ sent ++ q ∷ rest)
          × (refused picky q ≡ true))
send_chunked-cases_example = send_chunked-cases picky head (text "msg.tunnel.local") long_text

abbrev versions : Dict Text ℕ
versions = (alice, 2) ∷ (bob, 1) ∷ []

is_current-bump_all_example :
    is_current
      (some (current_user_sv alice versions))
      alice
      (bump_all (bob ∷ alice ∷ carol ∷ []) versions)
    ≡ not (contains alice (bob ∷ alice ∷ carol ∷ []))
is_current-bump_all_example = is_current-bump_all (bob ∷ alice ∷ carol ∷ []) alice versions

abbrev logins : List Event
logins = Event.fails 1000 alice ∷ Event.checks 2000 alice ∷ Event.fails 3000 bob ∷ []

account_throttled-run_example :
    (account_throttled 4000 alice (run logins [])).0
    ≡ leb account_fail_max
        (length (keep (is_fresh account_fail_window 4000) (failures_of alice logins)))
unfolding ordered
account_throttled-run_example = account_throttled-run logins alice 1000 4000 refl
