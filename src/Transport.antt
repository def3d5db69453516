-- ===== src/Transport.antt =====
-- transport.py: the name of a query, the resolver of DoH and the choice among transports. Sockets,
-- HTTP and dnslib are left out: a transport is the function from labels to its reply.
pub mod Choice
use dns_messenger.Prelude.{
  ℕ, Bool, true, false, ◌||◌, Option, none, some, List, [], ◌∷◌, ◌++◌, if◌then◌else◌, list_nat_eq,
  contains, ltb, length,
}
use dns_messenger.Prelude.Text.{Text, Bytes, text, startswith, join_with, join}
use dns_messenger.Dict.{Dict, get, values}

-- The name in the packet of _build_query, for the nonce that gen_nonce gives.
unfoldable pub query_name : Text → List Text → Text → Text
query_name nonce labels domain =
    nonce ++ (text "." ++ (join_with (text ".") labels ++ (text "." ++ domain)))

unfoldable pub doh_servers : Dict Text Text
doh_servers =
    (text "google", text "https://dns.google/dns-query")
    ∷ (text "cloudflare", text "https://cloudflare-dns.com/dns-query")
    ∷ (text "yandex", text "https://common.dot.dns.yandex.net/dns-query")
    ∷ []

-- DoHTransport.__init__: the URL, or `none` for ValueError.
unfoldable pub doh_url : Text → Option Text
unfolding doh_servers
doh_url provider =
    let url : Text = elim (get provider doh_servers) [ none ↦ provider | some u ↦ u ] in
    if contains url (values doh_servers) || startswith (text "https://") url then some url else none

abbrev pub max_doh_response : ℕ
max_doh_response = 65536

-- The first TXT record of an answer, its strings joined. A record is its TXT strings, or another type.
unfoldable pub first_txt : List (Option (List Text)) → Option Text
first_txt [] = none
first_txt (none ∷ rrs) = first_txt rrs
first_txt (some strings ∷ rrs) = some (join strings)

-- DoHTransport.query on what the resolver sends: the body, and what dnslib and UTF-8 make of it.
unfoldable pub doh_reply : (Bytes → Option (List (Option (List Text)))) → Text → Bytes → Text
unfolding first_txt
doh_reply parse failure body =
    if ltb max_doh_response (length body)
    then text "ERR:doh_response_too_large"
    else elim (parse body) [
      | none ↦ text "ERR:" ++ failure
      | some rrs ↦ elim (first_txt rrs) [ none ↦ text "ERR:no_response" | some t ↦ t ]
    ]

abbrev pub Transport : Type 0
Transport = List Text → Text

-- The loop of MultiTransport.query; `last` is the reply before.
unfoldable pub try_each : List Text → Text → List Transport → Text
try_each labels last [] = last
try_each labels last (t ∷ ts) =
    let rest = try_each labels (t labels) ts in
    if startswith (text "ERR") (t labels) then rest else t labels

unfoldable pub query : List Transport → List Text → Text
unfolding try_each
query transports labels = try_each labels (text "ERR:no_transports") transports
