-- ===== src/Transport/Choice.antt =====
-- Which transport's reply is used, and where DoH may go (transport.py).
use dns_messenger.Prelude.{
  ◌≡◌, refl, Bool, true, false, some, List, [], ◌∷◌, ◌++◌, arith, All, list_eq, sym, list_nat_eq,
  contains, list_eq_iff, Bool-cases, Option-cases, inl, inr, ap, ◌∙◌,
}
use dns_messenger.Prelude.Text.{Text, text, startswith}
use dns_messenger.Dict.{get, values}
use dns_messenger.Transport.{Transport, try_each, query, doh_servers, doh_url}

abbrev pub fails : Text → Bool
fails = startswith (text "ERR")

-- All transports of a list fail on the labels.
abbrev pub AllFail : List Text → List Transport → Type 0
AllFail labels = All (λ t. fails (t labels) ≡ true)

-- The reply of the last transport of a list.
unfoldable pub last_reply : List Text → Text → List Transport → Text
last_reply labels last [] = last
last_reply labels last (t ∷ ts) = last_reply labels (t labels) ts

try_each-failed :
    (labels : List Text) (last : Text) (before after : List Transport)
    → AllFail labels before
    → try_each labels last (before ++ after) ≡ try_each labels (last_reply labels last before) after
unfolding try_each last_reply
try_each-failed labels last [] after h = refl
try_each-failed labels last (t ∷ before) after h =
    ground (arith, h.0, try_each-failed labels (t labels) before after h.1)

-- After transports that all fail, the reply is that of the next one if it does not fail, whatever the
-- transports behind it would do; and if no transport is left, it is the last error.
pub query-first :
    (labels : List Text) (before after : List Transport) (t : Transport)
    → AllFail labels before
    → fails (t labels) ≡ false
    → (query (before ++ t ∷ after) labels ≡ t labels)
      × (query (before ++ []) labels ≡ last_reply labels (text "ERR:no_transports") before)
unfolding query try_each
query-first labels before after t failed works = (
  try_each-failed labels (text "ERR:no_transports") before (t ∷ after) failed
      ∙ ground (arith, works),
  try_each-failed labels (text "ERR:no_transports") before [] failed,
)

-- What holds of all elements holds of an element.
contains-All :
    (P : Text → Bool) (x : Text) (xs : List Text)
    → All (λ y. P y ≡ true) xs
    → contains x xs ≡ true
    → P x ≡ true
unfolding contains
contains-All P x [] h there = absurd (ground arith)
contains-All P x (y ∷ xs) h there = elim (Bool-cases (list_eq y x)) [
  | inl same ↦ ap P (sym ((list_eq_iff y x).0 same)) ∙ h.0
  | inr other ↦ contains-All P x xs h.1 (ground (arith, there, other))
]

https : Text → Bool
https = startswith (text "https://")

servers-https : All (λ url. https url ≡ true) (values doh_servers)
unfolding doh_servers values https startswith list_eq
servers-https = (refl, (refl, (refl, tt)))

-- Whatever the provider is, DoH goes to an https URL or is refused.
pub doh_url-https :
    (provider url : Text) → doh_url provider ≡ some url → startswith (text "https://") url ≡ true
unfolding doh_url https
doh_url-https provider url h = elim (Bool-cases (contains url (values doh_servers))) [
  | inl known ↦ contains-All https url (values doh_servers) servers-https known
  | inr other ↦ elim (Option-cases (get provider doh_servers)) [
    | inl custom ↦ ground arith
    | inr (u, found) ↦ ground arith
  ]
]
