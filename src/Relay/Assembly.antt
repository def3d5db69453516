-- ===== src/Relay/Assembly.antt =====
-- Messages in chunks, and the mailboxes (server.py, _assemble, _remember_delivered, _h_send, _h_poll).
pub mod Parts
pub mod Assembling
pub mod Delivery
pub mod Bounds
use dns_messenger.Prelude.{
  ℕ, zero, suc, ◌+◌, ◌-◌, ◌/◌, ◌≡◌, Bool, true, false, ◌&&◌, ◌||◌, Option, none, some, List, [],
  ◌∷◌, ◌++◌, if◌then◌else◌, ltb, leb, ◌==◌, list_eq, list_nat_eq, nat_eq, length, drop, get_elem?,
  sorted,
}
use dns_messenger.Prelude.Int.{ℤ, pos, negsuc}
use dns_messenger.Prelude.Text.{Text, Bytes, text, join, int}
use dns_messenger.Dict.{Dict, get, has, put, pop, oldest, values, restrict}
use dns_messenger.Protocol.{b32encode, b32decode}
use dns_messenger.Crypto.{Crypto, poll_signing_input}
use dns_messenger.Relay.State.{
  Relay, Assembler, Meta, Message, second, max_msg_chunks, max_incomplete, max_mailbox_msgs,
}
use dns_messenger.Relay.Reply
use dns_messenger.Relay.Reply.{Reply, err, raised, value_error, key_error, binascii_error}
use dns_messenger.Relay.Auth.{with_auth}

abbrev pub delivered_limit : ℕ
delivered_limit = 10000

abbrev pub Delivered : Type 0
Delivered = Dict Text ℕ

-- Over the limit only the entries from the 2001st oldest time on are kept. The list is longer than
-- 2000 then, so `none` does not occur.
unfoldable pub trim_delivered : Delivered → Delivered
trim_delivered d =
    if ltb delivered_limit (length d)
    then elim (get_elem? (sorted leb (values d)) 2000) [
      | none ↦ d
      | some cutoff ↦ restrict (λ t. leb cutoff t) d
    ]
    else d

unfoldable pub remember_delivered : ℕ → Text → Delivered → Delivered
remember_delivered now mid d = trim_delivered (put mid now d)

-- ''.join(parts[i] for i in range(i, i + n)): `none` is KeyError.
unfoldable pub gather_from : ℕ → ℕ → Dict ℕ Text → Option Text
gather_from i zero parts = some []
gather_from i (suc n) parts =
    let rest = gather_from (i + 1) n parts in
    elim (get i parts) [
      | none ↦ none
      | some t ↦ elim rest [ none ↦ none | some ts ↦ some (t ++ ts) ]
    ]

unfoldable pub gather : ℕ → Dict ℕ Text → Option Text
gather total parts = gather_from 0 total parts

-- mail_store[dest], of a defaultdict
abbrev pub box_of : Text → Dict Text (List Message) → List Message
box_of dest mail = elim (get dest mail) [ none ↦ [] | some box ↦ box ]

-- The message goes to the end of the box, of which the newest are kept.
unfoldable pub push_mail : Message → List Message → List Message
push_mail m box = let long = box ++ m ∷ [] in drop (length long - max_mailbox_msgs) long

abbrev pub Outcome : Type 0
Outcome = Reply × Assembler × Delivered

abbrev pub same_source : Meta → Text → ℕ → Text → Bool
same_source m dest total sender = list_eq m.dest dest && m.total == total && list_eq m.sender sender

-- f'{fr_u}:{mid}'
abbrev pub delivery_key : Text → Text → Text
delivery_key sender mid = sender ++ b':' ∷ mid

-- {'from', 'data', 'ts', 'id'} of a message that is complete
abbrev pub message_of : ℕ → Text → Meta → Bytes → Message
message_of now mid m encrypted = record {
  sender = m.sender;
  payload = b32encode encrypted;
  ts = now / second;
  id = mid;
  readers = [];
}

-- chunks_store.pop(mid), meta_store.pop(mid)
abbrev pub forget : Text → Assembler → Assembler
forget mid a = record a { chunks = pop mid a.chunks; meta = pop mid a.meta }

-- mail_store[dest].append(message), capped
abbrev pub post : Text → Message → Assembler → Assembler
post dest message a = record a { mail = put dest (push_mail message (box_of dest a.mail)) a.mail }

-- All the chunks are there: the message is decoded and delivered, and the assembly is forgotten.
unfoldable pub complete_message :
    ℕ → Text → Text → Meta → Dict ℕ Text → Assembler → Delivered → Outcome
complete_message now mid dkey m parts a d = elim (gather m.total parts) [
  | none ↦ (raised key_error, a, d)
  | some full ↦ elim (b32decode full) [
    | none ↦ (raised binascii_error, a, d)
    | some encrypted ↦ (
      Reply.delivered,
      forget mid (post m.dest (message_of now mid m encrypted) a),
      remember_delivered now dkey d,
    )
  ]
]

-- chunks_store[mid][seq] = data, and what follows
unfoldable pub add_chunk : ℕ → Text → Text → Meta → ℕ → Text → Assembler → Delivered → Outcome
add_chunk now mid dkey m seq content a d = elim (get mid a.chunks) [
  | none ↦ (raised key_error, a, d)
  | some parts ↦
      let parts' = put seq content parts in
      let a' : Assembler = record a { chunks = put mid parts' a.chunks } in
      if length parts' == m.total
      then complete_message now mid dkey m parts' a' d
      else (Reply.chunk seq m.total, a', d)
]

-- The oldest assembly makes room for a new one: `none` is ValueError of min().
unfoldable pub make_room : Assembler → Option Assembler
make_room a =
    if leb max_incomplete (length a.chunks)
    then elim (oldest (λ m. m.ts) a.meta) [ none ↦ none | some o ↦ some (forget o a) ]
    else some a

unfoldable pub open_assembly : Text → Meta → Assembler → Assembler
open_assembly mid m a = record a { chunks = put mid [] a.chunks; meta = put mid m a.meta }

-- A chunk whose numbers are in range.
unfoldable pub store_chunk : ℕ → Text → ℕ → ℕ → Text → Text → Text → Assembler → Delivered → Outcome
store_chunk now mid seq total content sender dest a d =
    let dkey = delivery_key sender mid in
    if has dkey d then (Reply.delivered, a, d) else elim (get mid a.meta) [
      | none ↦ elim (make_room a) [
        | none ↦ (raised value_error, a, d)
        | some a' ↦
            let m : Meta = record { dest = dest; total = total; sender = sender; ts = now } in
            add_chunk now mid dkey m seq content (open_assembly mid m a') d
      ]
      | some m ↦
          if same_source m dest total sender
          then add_chunk now mid dkey m seq content a d
          else (err Reply.mid_conflict, a, d)
    ]

unfoldable pub assemble : ℕ → Text → ℤ → ℤ → Text → Text → Text → Assembler → Delivered → Outcome
assemble now mid (pos seq) (pos total) content sender dest a d =
    if ltb total 1 || ltb max_msg_chunks total || leb total seq
    then (err Reply.bad_chunk, a, d)
    else store_chunk now mid seq total content sender dest a d
assemble now mid _ _ content sender dest a d = (err Reply.bad_chunk, a, d)

unfoldable pub h_send : ℕ → List Text → Relay → Reply × Relay
h_send now (to_u ∷ fr_u ∷ mid ∷ seq ∷ total ∷ label ∷ labels) s = elim (int seq) [
  | none ↦ (raised value_error, s)
  | some seq' ↦ elim (int total) [
    | none ↦ (raised value_error, s)
    | some total' ↦
        let (reply, dm, d) =
          assemble now mid seq' total' (join (label ∷ labels)) fr_u to_u s.dm s.delivered_mids in
        (reply, record s { dm = dm; delivered_mids = d })
  ]
]
h_send now _ s = (err Reply.bad_send, s)

-- The first message leaves the box.
unfoldable pub take_message : Text → Assembler → Reply × Assembler
take_message user a = elim (get user a.mail) [
  | none ↦ (Reply.empty, a)
  | some box ↦ elim box [
    | [] ↦ (Reply.empty, a)
    | m ∷ rest ↦ (Reply.msg m.sender m.payload, record a { mail = put user rest a.mail })
  ]
]

unfoldable pub poll_box : Text → Relay → Reply × Relay
poll_box user s = let (reply, dm) = take_message user s.dm in (reply, record s { dm = dm })

unfoldable pub h_poll : Crypto → ℕ → List Text → Relay → Reply × Relay
h_poll c now [] s = (err Reply.no_user, s)
h_poll c now (user ∷ rest) s =
    with_auth c now user (user ∷ rest) poll_signing_input (text "dm") (poll_box user) s
