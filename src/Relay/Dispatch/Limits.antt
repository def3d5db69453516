-- ===== src/Relay/Dispatch/Limits.antt =====
-- The limits of all stores, whatever datagrams the relay receives (server.py, _evict, run).
use dns_messenger.Prelude.{
  ℕ, ◌-◌, ◌*◌, ◌≤◌, ◌≡◌, Option, some, List, [], ◌∷◌, arith, list_nat_eq, length, keep, ltb, leb,
  length-drop, Option-cases, Bool-cases, inl, inr,
}
use dns_messenger.Prelude.Text.{Text, Bytes}
use dns_messenger.Dict.{Dict, get, keys_where, map_values}
use dns_messenger.Dict.Laws.{
  get-pop_all, length-pop_all-le, get-restrict, get-map_values, length-restrict-le,
}
use dns_messenger.Crypto.{Crypto}
use dns_messenger.Relay.State.{Relay, Assembler, Message, init, assembly_ttl, max_mailbox_msgs}
use dns_messenger.Relay.Reply.{Exception}
use dns_messenger.Relay.Assembly.Bounds.{IsBounded, IsBounded-no_mail}
use dns_messenger.Relay.Limiter.{is_nonempty, rrl_allow}
use dns_messenger.Relay.Evict.{
  sweep_assembler, sweep_files, fresh_mail, sweep_mail, sweep_dm, sweep_disk, sweep_invites,
  sweep_all, evict,
}
use dns_messenger.Relay.Dispatch.{
  dispatch_table, handle, labels_of, endswith, rstrip_dots, answer, handle_query, receive, Datagram,
  serve,
}
use dns_messenger.Relay.Dispatch.Within.{IsWithin, IsWithin-call}

IsBounded-sweep_assembler :
    (now : ℕ) {a : Assembler} → IsBounded a → IsBounded (sweep_assembler now a)
unfolding sweep_assembler
IsBounded-sweep_assembler now {a} b =
    let stale = keys_where (λ m. ltb assembly_ttl (now - m.ts)) a.meta in
    record {
      same_keys = λ k.
          ground (arith, get-pop_all stale k a.meta, get-pop_all stale k a.chunks, b.same_keys k);
      few = omega (arith, length-pop_all-le stale a.chunks, b.few);
      boxes = b.boxes;
      parts = λ k m p h h'.
          ground (arith, get-pop_all stale k a.meta, get-pop_all stale k a.chunks, b.parts k m p);
    }

length-fresh_mail : (now : ℕ) (box : List Message) → length (fresh_mail now box) ≤ max_mailbox_msgs
unfolding fresh_mail
length-fresh_mail now box =
    let kept = keep (λ (m : Message). ltb (now - m.ts * 1000) 86400000) box in
    omega (arith, length-drop (length kept - 500) kept)

length-sweep_mail :
    (now : ℕ) (mail : Dict Text (List Message)) (u : Text) (box : List Message)
    → get u (sweep_mail now mail) ≡ some box
    → length box ≤ max_mailbox_msgs
unfolding sweep_mail
length-sweep_mail now mail u box h = elim (Option-cases (get u mail)) [
  | inl nothing ↦ absurd (
      ground (
        arith,
        h,
        get-restrict is_nonempty u (map_values (fresh_mail now) mail),
        get-map_values (fresh_mail now) u mail,
      ))
  | inr (old, found) ↦ ground (
    arith,
    h,
    get-restrict is_nonempty u (map_values (fresh_mail now) mail),
    get-map_values (fresh_mail now) u mail,
    length-fresh_mail now old,
  )
]

IsBounded-sweep_dm : (now : ℕ) {a : Assembler} → IsBounded a → IsBounded (sweep_dm now a)
unfolding sweep_dm
IsBounded-sweep_dm now {a} b =
    let swept = IsBounded-sweep_assembler now b in
    record {
      same_keys = swept.same_keys;
      few = swept.few;
      boxes = length-sweep_mail now (sweep_assembler now a).mail;
      parts = swept.parts;
    }

IsWithin-evict : (now : ℕ) {s : Relay} → IsWithin s → IsWithin (evict now s)
unfolding evict sweep_all sweep_files sweep_disk sweep_invites
IsWithin-evict now {s} w = elim (Bool-cases (ltb (now - s.last_evict) 30000)) [
  | inl early ↦ rw (early, evict) w
  | inr due ↦
      rw (due, evict)
        (record {
          dm = IsBounded-sweep_dm now w.dm;
          gm = IsBounded-sweep_assembler now w.gm;
          users = w.users;
          groups = w.groups;
          files =
              omega (arith, length-restrict-le (λ f. leb (now - f.ts) 3600000) s.files, w.files);
          invites = omega (
            arith,
            length-restrict-le (λ p. leb (now - p.ts) 120000) s.ginvite_pending,
            w.invites,
          );
          disk =
              omega (
                arith,
                length-restrict-le (λ p. leb (now - p.ts) 120000) s.diskreg_pending,
                w.disk,
              );
        })
]

IsWithin-handle :
    (c : Crypto) (now : ℕ) (q : Text × List Text) {s : Relay}
    → IsWithin s
    → IsWithin (handle c now q s).1
unfolding handle
IsWithin-handle c now (cmd, args) w = elim (Option-cases (get cmd dispatch_table)) [
  | inl unknown ↦ rw (unknown, handle) w
  | inr (k, found) ↦ rw (found, handle) (IsWithin-call c now w k args)
]

IsWithin-limiter : {s : Relay} → IsWithin s → (l : _) → IsWithin (record s { limiter = l })
IsWithin-limiter w l = record {
  dm = w.dm;
  gm = w.gm;
  users = w.users;
  groups = w.groups;
  files = w.files;
  invites = w.invites;
  disk = w.disk;
}

pub IsWithin-init : (now : ℕ) → IsWithin (init now)
unfolding init
IsWithin-init now = record {
  dm = IsBounded-no_mail;
  gm = IsBounded-no_mail;
  users = omega arith;
  groups = omega arith;
  files = omega arith;
  invites = omega arith;
  disk = omega arith;
}

module _ (parse : Bytes → Option Text) (message : Exception → Text) (c : Crypto)
    (domain : Text) where
  IsWithin-answer :
      (now : ℕ) (qname : Text) {s : Relay}
      → IsWithin s
      → IsWithin (answer parse message c domain now qname s).1
  unfolding answer
  IsWithin-answer now qname w = elim (Bool-cases (endswith qname domain)) [
    | inr foreign ↦ rw (foreign, answer) w
    | inl ours ↦ rw (ours, answer) (IsWithin-handle c now (labels_of domain qname) w)
  ]

  IsWithin-receive :
      (now : ℕ) (ip : Text) (raw : Bytes) {s : Relay}
      → IsWithin s
      → IsWithin (receive parse message c domain now ip raw s).1
  unfolding receive handle_query
  IsWithin-receive now ip raw {s} w =
      let w' = IsWithin-limiter w ((rrl_allow now ip s.limiter).1) in
      elim (Bool-cases ((rrl_allow now ip s.limiter).0)) [
        | inr refused ↦ rw (refused, receive) w'
        | inl allowed ↦ elim (Option-cases (parse raw)) [
          | inl bad ↦ rw (allowed, bad, receive, handle_query) (IsWithin-evict now w')
          | inr (name, good) ↦
              rw (allowed, good, receive, handle_query)
                (IsWithin-answer now (rstrip_dots name) (IsWithin-evict now w'))
        ]
      ]

  IsWithin-serve :
      (queries : List Datagram) {s : Relay}
      → IsWithin s
      → IsWithin (serve parse message c domain queries s)
  unfolding serve
  IsWithin-serve [] w = w
  IsWithin-serve (q ∷ queries) w = IsWithin-serve queries (IsWithin-receive q.time q.ip q.raw w)

  -- From its start on, and whatever datagrams come in: the relay holds at most 50000 names, 5000
  -- groups, 500 files, 1000 unfinished messages of each kind and as many invitations, 501 unfinished
  -- folder keys, and 500 messages in a mailbox; and the two stores of unfinished messages of each
  -- kind name the same ones.
  pub IsWithin-serve-init :
      (start : ℕ) (queries : List Datagram)
      → IsWithin (serve parse message c domain queries (init start))
  IsWithin-serve-init start queries = IsWithin-serve queries (IsWithin-init start)
