-- ===== src/Relay/Dispatch/Stores.antt =====
-- The size of each store after a handler (server.py).
use dns_messenger.Prelude.{
  ℕ, ◌≤◌, ◌<◌, ◌≡◌, refl, true, some, List, [], ◌∷◌, arith, leb, list_eq_iff, list_nat_eq, nat_eq,
  length, drop, contains, Option-cases, Bool-cases, inl, inr,
}
use dns_messenger.Prelude.Int.{pos, negsuc}
use dns_messenger.Prelude.Text.{Text, int, join}
use dns_messenger.Dict.{Dict, get, has, put, pop, oldest}
use dns_messenger.Dict.Laws.{get-put, get-pop, length-put, length-put-le, length-pop-lt}
use dns_messenger.Dict.Oldest.{has-oldest, oldest-some}
use dns_messenger.Crypto.{Crypto}
use dns_messenger.Relay.State.{Relay, Assembler, Message, Group, bundle_b32_len, max_groups}
use dns_messenger.Relay.Assembly.{h_send, poll_box, gather}
use dns_messenger.Relay.Assembly.Bounds.{IsBounded, assemble-IsSound, take_message-IsBounded}
use dns_messenger.Relay.Groups.{drop_member, evict_group, h_gcreate, leave_group, kick_member}
use dns_messenger.Relay.Invites.{add_member, store_invite, apply_ginvite, h_ginvite}
use dns_messenger.Relay.GroupMail.{h_gsend, read_next, read_first, read_box, read_group, is_member}
use dns_messenger.Relay.Files.{h_fchunk, store_file_chunk, add_file_chunk, completed}

-- Mail that is no longer than before.
IsBounded-mail :
    {a : Assembler} (u : Text) (box box' : List Message)
    → IsBounded a
    → get u a.mail ≡ some box
    → length box' ≤ length box
    → IsBounded (record a { mail = put u box' a.mail })
IsBounded-mail {a} u box box' b found shorter = record {
  same_keys = b.same_keys;
  few = b.few;
  boxes = λ v x h.
      ground (arith, get-put u v box' a.mail, b.boxes v x, b.boxes u box found, list_eq_iff u v);
  parts = b.parts;
}

IsBounded-pop_mail :
    {a : Assembler} (o : Text) → IsBounded a → IsBounded (record a { mail = pop o a.mail })
IsBounded-pop_mail {a} o b = record {
  same_keys = b.same_keys;
  few = b.few;
  boxes = λ v x h. ground (arith, get-pop o v a.mail, b.boxes v x);
  parts = b.parts;
}

-- Direct messages.
pub dm-h_send :
    (now : ℕ) (ls : List Text) (s : Relay) → IsBounded s.dm → IsBounded (h_send now ls s).1.dm
unfolding h_send
dm-h_send now (to_u ∷ fr_u ∷ mid ∷ seq ∷ total ∷ l ∷ ls) s b = elim (Option-cases (int seq)) [
  | inl bad ↦ rw (bad, h_send) b
  | inr (seq', good) ↦ elim (Option-cases (int total)) [
    | inl bad ↦ rw (good, bad, h_send) b
    | inr (total', fine) ↦
        rw (good, fine, h_send)
          ((assemble-IsSound now mid (join (l ∷ ls)) fr_u to_u b s.delivered_mids seq' total').0)
  ]
]
dm-h_send now _ s b = b

pub dm-poll_box : (u : Text) (s : Relay) → IsBounded s.dm → IsBounded (poll_box u s).1.dm
unfolding poll_box
dm-poll_box u s b = take_message-IsBounded u b

-- Group mail.
pub gm-h_gsend :
    (now : ℕ) (ls : List Text) (s : Relay) → IsBounded s.gm → IsBounded (h_gsend now ls s).1.gm
unfolding h_gsend
gm-h_gsend now (gid ∷ fr_u ∷ mid ∷ seq ∷ total ∷ l ∷ ls) s b = elim (Option-cases (int seq)) [
  | inl bad ↦ rw (bad, h_gsend) b
  | inr (seq', good) ↦ elim (Option-cases (int total)) [
    | inl bad ↦ rw (good, bad, h_gsend) b
    | inr (total', fine) ↦ elim (Bool-cases (is_member gid fr_u s)) [
      | inr stranger ↦ rw (good, fine, stranger, h_gsend) b
      | inl member ↦
          rw (good, fine, member, h_gsend)
            ((assemble-IsSound now mid (join (l ∷ ls)) fr_u gid b s.delivered_mids seq' total').0)
    ]
  ]
]
gm-h_gsend now _ s b = b

length-read_next :
    (u : Text) (box : List Message) (m : Message) (box' : List Message)
    → read_next u box ≡ some (m, box')
    → length box' ≡ length box
unfolding read_next
length-read_next u [] m box' h = absurd (ground arith)
length-read_next u (x ∷ box) m box' h = elim (Option-cases (read_next u box)) [
  | inl nothing ↦ ground arith
  | inr ((found, rest), more) ↦ ground (arith, length-read_next u box found rest more)
]

length-read_box :
    (u : Text) (members : List Text) (box : List Message)
    → length (read_box u members box).1 ≤ length box
unfolding read_box read_first
length-read_box u members [] = omega arith
length-read_box u members (m ∷ box) = elim (Option-cases (read_next u (m ∷ box))) [
  | inl nothing ↦ ground arith
  | inr ((found, rest), more) ↦ ground (arith, length-read_next u (m ∷ box) found rest more)
]

pub gm-read_group :
    (gid u : Text) (s : Relay) → IsBounded s.gm → IsBounded (read_group gid u s).1.gm
unfolding read_group
gm-read_group gid u s b = elim (Option-cases (get gid s.groups)) [
  | inl missing ↦ rw (missing, read_group) b
  | inr (g, found) ↦ elim (Bool-cases (contains u g.members)) [
    | inr stranger ↦ rw (found, stranger, read_group) b
    | inl member ↦ elim (Option-cases (get gid s.gm.mail)) [
      | inl nothing ↦ rw (found, member, nothing, read_group) b
      | inr (box, mail) ↦
          rw (found, member, mail, read_group)
            (IsBounded-mail gid box ((read_box u g.members box).1) b mail
              (length-read_box u g.members box))
    ]
  ]
]

-- Groups.
has-some : (o : Text) (d : Dict Text Group) (g : Group) → get o d ≡ some g → has o d ≡ true
has-some o d g h = ground arith

length-evict_group :
    (s : Relay) → length s.groups ≤ max_groups → length (evict_group s).groups < max_groups
unfolding evict_group
length-evict_group s few = elim (Bool-cases (leb max_groups (length s.groups))) [
  | inr room ↦ ground arith
  | inl full ↦
      let (o, found) = oldest-some (λ (g : Group). g.ts) s.groups (ground arith) in
      ground
        (arith, found, length-pop-lt o s.groups (has-oldest (λ (g : Group). g.ts) s.groups o found))
]

gm-evict_group : (s : Relay) → IsBounded s.gm → IsBounded (evict_group s).gm
unfolding evict_group
gm-evict_group s b = elim (Bool-cases (leb max_groups (length s.groups))) [
  | inr room ↦ rw (room, evict_group) b
  | inl full ↦ elim (Option-cases (oldest (λ (g : Group). g.ts) s.groups)) [
    | inl nobody ↦ rw (full, nobody, evict_group) b
    | inr (o, found) ↦ rw (full, found, evict_group) (IsBounded-pop_mail o b)
  ]
]

pub groups-h_gcreate :
    (now : ℕ) (ls : List Text) (s : Relay)
    → length s.groups ≤ max_groups
    → length (h_gcreate now ls s).1.groups ≤ max_groups
unfolding h_gcreate
groups-h_gcreate now (gid ∷ creator ∷ rest) s few =
    let g : Group = record { creator = creator; members = creator ∷ []; keys = []; ts = now } in
    ground (arith, length-evict_group s few, length-put-le gid g (evict_group s).groups)
groups-h_gcreate now [] s few = few
groups-h_gcreate now (_ ∷ []) s few = few

pub gm-h_gcreate :
    (now : ℕ) (ls : List Text) (s : Relay) → IsBounded s.gm → IsBounded (h_gcreate now ls s).1.gm
unfolding h_gcreate
gm-h_gcreate now (gid ∷ creator ∷ rest) s b = elim (Bool-cases (has gid s.groups)) [
  | inl old ↦ rw (old, h_gcreate) b
  | inr fresh ↦ rw (fresh, h_gcreate) (gm-evict_group s b)
]
gm-h_gcreate now [] s b = b
gm-h_gcreate now (_ ∷ []) s b = b

pub groups-leave_group :
    (gid u : Text) (s : Relay) → length (leave_group gid u s).1.groups ≡ length s.groups
unfolding leave_group
groups-leave_group gid u s = elim (Option-cases (get gid s.groups)) [
  | inl missing ↦ ground arith
  | inr (g, found) ↦ ground (arith, length-put gid (drop_member u g) s.groups)
]

pub groups-kick_member :
    (gid k t : Text) (s : Relay) → length (kick_member gid k t s).1.groups ≡ length s.groups
unfolding kick_member
groups-kick_member gid k t s = elim (Option-cases (get gid s.groups)) [
  | inl missing ↦ ground arith
  | inr (g, found) ↦ ground (arith, length-put gid (drop_member t g) s.groups)
]

groups-store_invite :
    (gid i u k : Text) (s : Relay) → length (store_invite gid i u k s).1.groups ≡ length s.groups
unfolding store_invite
groups-store_invite gid i u k s = elim (Option-cases (get gid s.groups)) [
  | inl missing ↦ ground arith
  | inr (g, found) ↦ ground (arith, length-put gid (add_member i u k g) s.groups)
]

pub groups-apply_ginvite :
    (c : Crypto) (gid i u r : Text) (s : Relay)
    → length (apply_ginvite c gid i u r s).1.groups ≡ length s.groups
unfolding apply_ginvite
groups-apply_ginvite c gid i u r s =
    ground (
      arith,
      groups-store_invite gid i u (drop bundle_b32_len r) s,
      groups-store_invite gid i u r s,
    )

pub groups-h_ginvite :
    (c : Crypto) (ls : List Text) (s : Relay) → length (h_ginvite c ls s).1.groups ≡ length s.groups
unfolding h_ginvite
groups-h_ginvite c (gid ∷ i ∷ u ∷ l ∷ ls) s = groups-apply_ginvite c gid i u (join (l ∷ ls)) s
groups-h_ginvite c _ s = refl

-- Files.
pub files-h_fchunk : (ls : List Text) (s : Relay) → length (h_fchunk ls s).1.files ≡ length s.files
unfolding h_fchunk store_file_chunk add_file_chunk
files-h_fchunk (fid ∷ seq ∷ l ∷ ls) s = elim (Option-cases (get fid s.files)) [
  | inl missing ↦ ground arith
  | inr (f, found) ↦ elim (Option-cases (int seq)) [
    | inl bad ↦ ground arith
    | inr (negsuc n, good) ↦ ground arith
    | inr (pos n, good) ↦
        let p = put n (join (l ∷ ls)) f.chunks in
        elim (Option-cases (gather f.total p)) [
          | inl gap ↦ ground (arith, length-put fid (record f { chunks = p }) s.files)
          | inr (full, joined) ↦ ground (
            arith,
            length-put fid (record f { chunks = p }) s.files,
            length-put fid (completed full f) s.files,
          )
        ]
  ]
]
files-h_fchunk _ s = refl
