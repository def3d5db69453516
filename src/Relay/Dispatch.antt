-- ===== src/Relay/Dispatch.antt =====
-- From a datagram to its answer (server.py, DISPATCH, handle_query and the body of run's loop).
-- DNSRecord.parse of dnslib is a parameter, which gives the name of the question; `none` is its
-- exception. Time stands still while a query is handled.
pub mod Pins
pub mod Folders
pub mod Frames
pub mod Stores
pub mod Pending
pub mod Within
pub mod Limits
pub mod Joining
use dns_messenger.Prelude.{
  ℕ, ◌+◌, ◌-◌, Bool, true, false, Option, none, some, List, [], ◌∷◌, ◌++◌, if◌then◌else◌, ltb, leb,
  ◌==◌, not, ◌&&◌, list_eq, list_nat_eq, length, take, drop,
}
use dns_messenger.Prelude.Text.{Text, Bytes, text}
use dns_messenger.Dict.{Dict, get, has}
use dns_messenger.Protocol.{chunk_string}
use dns_messenger.Crypto.{Crypto}
use dns_messenger.Relay.State.{Relay}
use dns_messenger.Relay.Reply
use dns_messenger.Relay.Reply.{Reply, Exception, err, render}
use dns_messenger.Relay.Accounts.{h_register, h_getkey, h_list_users}
use dns_messenger.Relay.Assembly.{h_send, h_poll}
use dns_messenger.Relay.Groups.{h_gcreate, h_glist, h_gleave, h_gkick, h_gmembers}
use dns_messenger.Relay.Invites.{h_ginvite, h_ginvite_chunked}
use dns_messenger.Relay.GroupMail.{h_gsend, h_gpoll}
use dns_messenger.Relay.Files.{h_fheader, h_fchunk, h_fpoll, h_fdownload}
use dns_messenger.Relay.Disk.{h_diskreg, h_disklist}
use dns_messenger.Relay.Limiter.{rrl_allow}
use dns_messenger.Relay.Evict.{evict}

pub data Command : Type 0 where
  register getkey send poll gcreate ginvite ginvite_chunked gsend gpoll glist : Command
  gleave gkick gmembers fheader fchunk fpoll fdownload list_users diskreg disklist : Command

-- DISPATCH
unfoldable pub dispatch_table : Dict Text Command
dispatch_table =
    (text "r", register)
    ∷ (text "k", getkey)
    ∷ (text "s", send)
    ∷ (text "p", poll)
    ∷ (text "c", gcreate)
    ∷ (text "i", ginvite)
    ∷ (text "j", ginvite_chunked)
    ∷ (text "g", gsend)
    ∷ (text "q", gpoll)
    ∷ (text "l", glist)
    ∷ (text "e", gleave)
    ∷ (text "m", gkick)
    ∷ (text "b", gmembers)
    ∷ (text "h", fheader)
    ∷ (text "f", fchunk)
    ∷ (text "t", fpoll)
    ∷ (text "x", fdownload)
    ∷ (text "u", list_users)
    ∷ (text "y", diskreg)
    ∷ (text "z", disklist)
    ∷ []

-- getattr(self, handler)(labels)
unfoldable pub call : Crypto → ℕ → Command → List Text → Relay → Reply × Relay
call c now register ls s = h_register c now ls s
call c now getkey ls s = h_getkey ls s
call c now send ls s = h_send now ls s
call c now poll ls s = h_poll c now ls s
call c now gcreate ls s = h_gcreate now ls s
call c now ginvite ls s = h_ginvite c ls s
call c now ginvite_chunked ls s = h_ginvite_chunked c now ls s
call c now gsend ls s = h_gsend now ls s
call c now gpoll ls s = h_gpoll c now ls s
call c now glist ls s = h_glist c now ls s
call c now gleave ls s = h_gleave c now ls s
call c now gkick ls s = h_gkick c now ls s
call c now gmembers ls s = h_gmembers c now ls s
call c now fheader ls s = h_fheader now ls s
call c now fchunk ls s = h_fchunk ls s
call c now fpoll ls s = h_fpoll c now ls s
call c now fdownload ls s = h_fdownload ls s
call c now list_users ls s = h_list_users ls s
call c now diskreg ls s = h_diskreg c now ls s
call c now disklist ls s = h_disklist ls s

-- s.split('.'), the first piece and the others
unfoldable pub split_dots : Text → Text × List Text
split_dots [] = ([], [])
split_dots (c ∷ s) =
    let (piece, pieces) = split_dots s in
    if c == b'.' then ([], piece ∷ pieces) else (c ∷ piece, pieces)

-- s.rstrip('.')
unfoldable pub rstrip_dots : Text → Text
rstrip_dots [] = []
rstrip_dots (c ∷ s) = elim (rstrip_dots s) [
  | [] ↦ if c == b'.' then [] else c ∷ []
  | d ∷ r ↦ c ∷ d ∷ r
]

-- s.endswith(end)
unfoldable pub endswith : Text → Text → Bool
endswith s end = leb (length end) (length s) && list_eq (drop (length s - length end) s) end

-- The first label is a nonce where it is no command and another label follows.
unfoldable pub strip_nonce : Text × List Text → Text × List Text
strip_nonce (first, []) = (first, [])
strip_nonce (first, next ∷ rest) =
    if not (has first dispatch_table) then (next, rest) else (first, next ∷ rest)

-- The command and its arguments of a name under the domain.
unfoldable pub labels_of : Text → Text → Text × List Text
labels_of domain qname = strip_nonce (split_dots (take (length qname - (length domain + 1)) qname))

-- handler = DISPATCH.get(cmd): the reply and the state after it
unfoldable pub handle : Crypto → ℕ → Text × List Text → Relay → Reply × Relay
handle c now (cmd, args) s = elim (get cmd dispatch_table) [
  | none ↦ (err Reply.unknown_cmd, s)
  | some command ↦ call c now command args s
]

-- No datagram; a reply without an answer; a reply with a TXT record of these strings.
pub data Answer : Type 0 where
  silence bare : Answer
  txt : List Text → Answer

-- What sock.recvfrom returns, and when.
pub record Datagram : Type 0 where
  pub time : ℕ
  pub ip : Text
  pub raw : Bytes

module _ (parse : Bytes → Option Text) (message : Exception → Text) (c : Crypto)
    (domain : Text) where
  unfoldable pub answer : ℕ → Text → Relay → Answer × Relay
  answer now qname s =
      if not (endswith qname domain)
      then (bare, s)
      else let (reply, s') = handle c now (labels_of domain qname) s in
        (txt (chunk_string (render message reply) 255), s')

  unfoldable pub handle_query : ℕ → Bytes → Relay → Answer × Relay
  handle_query now raw s =
      let swept = evict now s in
      elim (parse raw) [
        | none ↦ (silence, swept)
        | some qname ↦ answer now (rstrip_dots qname) swept
      ]

  -- One round of run's loop, for a datagram from an address.
  unfoldable pub receive : ℕ → Text → Bytes → Relay → Answer × Relay
  receive now ip raw s =
      let (allowed, limiter) = rrl_allow now ip s.limiter in
      let s' : Relay = record s { limiter = limiter } in
      if allowed then handle_query now raw s' else (silence, s')

  -- while True: the state after the datagrams
  unfoldable pub serve : List Datagram → Relay → Relay
  serve [] s = s
  serve (q ∷ queries) s = serve queries (receive q.time q.ip q.raw s).1
