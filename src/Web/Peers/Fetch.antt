-- ===== src/Web/Peers/Fetch.antt =====
-- A key request from the relay's reply to the client's pin (server.py, _h_getkey; web_client.py,
-- get_peer_key).
use dns_messenger.Prelude.{
  ◌≡◌, ◌⊎◌, ap, ◌∙◌, Bool, true, false, none, some, List, [], ◌∷◌, ◌++◌, arith, if◌then◌else◌,
  length, take, drop, list_eq, list_eq_iff, list_nat_eq, inl, inr,
}
use dns_messenger.Prelude.Text.{Text, Bytes, text, startswith}
use dns_messenger.Dict.{get}
use dns_messenger.Dict.Laws.{get-put_self}
use dns_messenger.Protocol.{b32encode}
use dns_messenger.Protocol.Base32.{IsBytes, b32decode-b32encode}
use dns_messenger.Crypto.{split_bundle}
use dns_messenger.Relay.State.{Relay, Account}
use dns_messenger.Relay.Reply.{Exception, render, key}
use dns_messenger.Relay.Accounts.{h_getkey}
use dns_messenger.Web.Peers.{
  Peers, peer_key, keep_halves, remember_peer, partition_colon, bundle_fits, bundle_in,
  get_peer_key,
}

-- A bundle of the new form, or of the old one, which is not pinned.
abbrev pub IsProper : Bool → Bytes → Type 0
IsProper pinned bundle =
    IsBytes bundle × ((length bundle ≡ 64) ⊎ ((length bundle ≡ 32) × (pinned ≡ false)))

bundle_in-render :
    (pinned : Bool) (bundle : Bytes)
    → IsProper pinned bundle
    → bundle_in
        (text "KEY:" ++ ((if pinned then text "1" else text "0") ++ (text ":" ++ b32encode bundle)))
      ≡ some bundle
unfolding bundle_in bundle_fits partition_colon startswith list_eq
bundle_in-render true bundle (bytes, inl long) = ground (arith, b32decode-b32encode bundle bytes)
bundle_in-render true bundle (bytes, inr short) = absurd (ground arith)
bundle_in-render false bundle (bytes, inl long) = ground (arith, b32decode-b32encode bundle bytes)
bundle_in-render false bundle (bytes, inr short) = ground (arith, b32decode-b32encode bundle bytes)

h_getkey-found :
    (user : Text) (rest : List Text) (relay : Relay) (entry : Account)
    → get user relay.users ≡ some entry
    → IsProper entry.pinned entry.bundle
    → (h_getkey (user ∷ rest) relay).0 ≡ key entry.pinned entry.bundle
unfolding h_getkey
h_getkey-found user rest relay entry found (bytes, inl long) =
    ground (arith, list_eq_iff entry.bundle [])
h_getkey-found user rest relay entry found (bytes, inr short) =
    ground (arith, list_eq_iff entry.bundle [])

-- A first look at a name: the reply that the relay makes of the account it holds gives the client the
-- first half of the registered bundle, pins the whole bundle and keeps its second half, if it has one,
-- as the key that signatures are checked with. The client has neither a pin nor a key for the name,
-- and the bundle has 64 bytes, or 32 bytes and no pin at the relay.
pub get_peer_key-h_getkey :
    (message : Exception → Text) (user : Text) (rest : List Text) (relay : Relay) (entry : Account)
    (s : Peers)
    → get user relay.users ≡ some entry
    → IsProper entry.pinned entry.bundle
    → get user s.peer_keys ≡ none
    → get user s.pins ≡ none
    → let result = get_peer_key (render message ((h_getkey (user ∷ rest) relay).0)) user s in
      (result.0 ≡ peer_key (take 32 entry.bundle))
      × (get user result.1.pins ≡ some (b32encode entry.bundle))
      × (get user result.1.peer_verify ≡ elim ((split_bundle entry.bundle).1) [
        | none ↦ get user s.peer_verify
        | some ed ↦ some ed
      ])
unfolding get_peer_key remember_peer keep_halves split_bundle render
get_peer_key-h_getkey message user rest relay entry s found proper new unpinned =
    let reply : render message ((h_getkey (user ∷ rest) relay).0)
        ≡ text "KEY:"
          ++ ((if entry.pinned then text "1" else text "0")
              ++ (text ":" ++ b32encode entry.bundle)) =
      ap (render message) (h_getkey-found user rest relay entry found proper) in
    let read = ap bundle_in reply ∙ bundle_in-render entry.pinned entry.bundle proper in
    ground (
      arith,
      read,
      get-put_self user (b32encode entry.bundle) s.pins,
      get-put_self user (take 32 (drop 32 entry.bundle)) s.peer_verify,
    )
