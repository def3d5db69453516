-- ===== src/Relay/Assembly/Bounds.antt =====
-- What an assembler keeps, whoever sends (server.py, _assemble): its two stores name the same
-- messages, within the limit, and no mailbox is longer than the cap.
use dns_messenger.Prelude.{
  ℕ, ◌-◌, ◌≤◌, ◌<◌, ◌≡◌, ◌≢◌, refl, sym, ◌∙◌, true, ◌||◌, some, List, [], ◌∷◌, ◌++◌, arith, ltb,
  leb, ◌==◌, ==_iff, list_eq_iff, list_nat_eq, nat_eq, length, length-drop, Option-cases,
  Bool-cases, inl, inr,
}
use mathlib.Core.Path.{subst}
use dns_messenger.Prelude.Int.{ℤ, pos, negsuc}
use dns_messenger.Prelude.Text.{Text}
use dns_messenger.Dict.{Dict, get, has, put, oldest}
use dns_messenger.Dict.Laws.{
  get-put, get-put_self, get-pop, length-put, length-put-le, length-pop-le, length-pop-lt,
}
use dns_messenger.Dict.Oldest.{has-oldest, oldest-some}
use dns_messenger.Protocol.{b32decode}
use dns_messenger.Relay.State.{no_mail, Assembler, Meta, Message, max_incomplete, max_mailbox_msgs}
use dns_messenger.Relay.Reply
use dns_messenger.Relay.Reply.{err, raised, value_error, key_error, binascii_error}
use dns_messenger.Relay.Assembly.{
  Delivered, Outcome, message_of, forget, post, remember_delivered, box_of, push_mail, same_source,
  complete_message, add_chunk, make_room, open_assembly, store_chunk, assemble, take_message,
  delivery_key,
}
use dns_messenger.Relay.Assembly.Parts.{IsParts, IsParts-nil, IsParts-put, gather-some}

pub record IsBounded (a : Assembler) : Type 0 where
  pub same_keys : (k : Text) → has k a.meta ≡ has k a.chunks
  pub few : length a.chunks ≤ max_incomplete
  pub boxes :
      (u : Text) (box : List Message) → get u a.mail ≡ some box → length box ≤ max_mailbox_msgs
  pub parts :
      (k : Text) (m : Meta) (p : Dict ℕ Text)
      → get k a.meta ≡ some m
      → get k a.chunks ≡ some p
      → IsParts m.total p

length-push_mail : (m : Message) (box : List Message) → length (push_mail m box) ≤ max_mailbox_msgs
unfolding push_mail
length-push_mail m box = omega (arith, length-drop (length (box ++ m ∷ []) - 500) (box ++ m ∷ []))

get-open : (mid : Text) (m : Meta) (a : Assembler) → get mid (open_assembly mid m a).meta ≡ some m
unfolding open_assembly
get-open mid m a = get-put_self mid m a.meta

module _ {a : Assembler} (b : IsBounded a) where
  IsBounded-forget : (o : Text) → IsBounded (forget o a)
  IsBounded-forget o = record {
    same_keys = λ k. ground (arith, get-pop o k a.meta, get-pop o k a.chunks, b.same_keys k);
    few = omega (arith, length-pop-le o a.chunks, b.few);
    boxes = b.boxes;
    parts = λ k m p h h'. ground (arith, get-pop o k a.meta, get-pop o k a.chunks, b.parts k m p);
  }

  -- There is something to evict where the stores are full.
  oldest_meta : 0 < length a.chunks → (o : Text) × (oldest (λ m. m.ts) a.meta ≡ some o)
  oldest_meta h =
      let (k, first) = oldest-some (λ (p : Dict ℕ Text). 0) a.chunks h in
      let there : has k a.meta ≡ true =
        b.same_keys k ∙ has-oldest (λ (p : Dict ℕ Text). 0) a.chunks k first in
      oldest-some (λ (m : Meta). m.ts) a.meta (omega (arith, length-pop-lt k a.meta there))

  make_room-some :
      (a' : Assembler) × (make_room a ≡ some a')
      × IsBounded a'
      × (length a'.chunks < max_incomplete)
  unfolding make_room
  make_room-some = elim (Bool-cases (leb max_incomplete (length a.chunks))) [
    | inl full ↦
        let (o, found) = oldest_meta (ground arith) in
        let there : has o a.chunks ≡ true =
          sym (b.same_keys o) ∙ has-oldest (λ (m : Meta). m.ts) a.meta o found in
        (
          forget o a,
          ground (arith, found),
          IsBounded-forget o,
          omega (arith, length-pop-lt o a.chunks there, b.few),
        )
    | inr room ↦ (a, ground arith, b, ground arith)
  ]

  IsBounded-open :
      (mid : Text) (m : Meta) → length a.chunks < max_incomplete → IsBounded (open_assembly mid m a)
  unfolding open_assembly get
  IsBounded-open mid m room = record {
    same_keys =
        λ k. ground (arith, get-put mid k m a.meta, get-put mid k [] a.chunks, b.same_keys k);
    few = omega (arith, length-put-le mid [] a.chunks);
    boxes = b.boxes;
    parts = λ k m' p h h'. ground (
      arith,
      get-put mid k m a.meta,
      get-put mid k [] a.chunks,
      b.parts k m' p,
      IsParts-nil m.total,
    );
  }

  IsBounded-chunk :
      (mid : Text) (m : Meta) (p : Dict ℕ Text) (seq : ℕ) (content : Text)
      → get mid a.meta ≡ some m
      → get mid a.chunks ≡ some p
      → seq < m.total
      → IsBounded (record a { chunks = put mid (put seq content p) a.chunks })
  IsBounded-chunk mid m p seq content known stored lt = record {
    same_keys = λ k.
        ground
          (arith, get-put mid k (put seq content p) a.chunks, b.same_keys k, list_eq_iff mid k);
    few = ground (arith, length-put mid (put seq content p) a.chunks, b.few);
    boxes = b.boxes;
    parts = λ k m' p' h h'. ground (
      arith,
      get-put mid k (put seq content p) a.chunks,
      b.parts k m' p',
      b.parts mid m p known stored,
      IsParts-put seq content p m.total lt,
      list_eq_iff mid k,
    );
  }

  IsBounded-post : (dest : Text) (m : Message) → IsBounded (post dest m a)
  IsBounded-post dest m = record {
    same_keys = b.same_keys;
    few = b.few;
    boxes = λ u box h. ground (
      arith,
      get-put dest u (push_mail m (box_of dest a.mail)) a.mail,
      b.boxes u box,
      length-push_mail m (box_of dest a.mail),
    );
    parts = b.parts;
  }

-- No dictionary of the assembly misses a key, and `min` is never asked of nothing.
abbrev pub IsSound : Outcome → Type 0
IsSound (reply, a, d) = IsBounded a × (reply ≢ raised key_error) × (reply ≢ raised value_error)

module _ (now : ℕ) (mid dkey : Text) (m : Meta) {a : Assembler} (b : IsBounded a)
    (d : Delivered) where
  complete_message-IsSound :
      (p : Dict ℕ Text)
      → IsParts m.total p
      → length p ≡ m.total
      → IsSound (complete_message now mid dkey m p a d)
  unfolding complete_message
  complete_message-IsSound p is full =
      let (joined, gathered) = gather-some p m.total is full in
      elim (Option-cases (b32decode joined)) [
        | inl bad ↦
            let e : complete_message now mid dkey m p a d ≡ (raised binascii_error, a, d) =
              ground (arith, gathered, bad) in
            subst IsSound (sym e) (b, (λ x. cc), (λ x. cc))
        | inr (bytes, good) ↦
            let a' = forget mid (post m.dest (message_of now mid m bytes) a) in
            let e : complete_message now mid dkey m p a d
                ≡ (Reply.delivered, a', remember_delivered now dkey d) =
              ground (arith, gathered, good) in
            subst IsSound (sym e) (
              IsBounded-forget (IsBounded-post b m.dest (message_of now mid m bytes)) mid,
              (λ x. cc),
              (λ x. cc),
            )
      ]

module _ (now : ℕ) (mid dkey : Text) (m : Meta) {a : Assembler} (b : IsBounded a)
    (d : Delivered) where
  add_chunk-IsSound :
      (seq : ℕ) (content : Text)
      → get mid a.meta ≡ some m
      → seq < m.total
      → IsSound (add_chunk now mid dkey m seq content a d)
  unfolding add_chunk
  add_chunk-IsSound seq content known lt = elim (Option-cases (get mid a.chunks)) [
    | inl absent ↦ absurd (ground (arith, b.same_keys mid))
    | inr (p, stored) ↦
        let p' = put seq content p in
        let a' : Assembler = record a { chunks = put mid p' a.chunks } in
        let b' : IsBounded a' = IsBounded-chunk b mid m p seq content known stored lt in
        elim (Bool-cases (length p' == m.total)) [
          | inl full ↦
              let e : add_chunk now mid dkey m seq content a d
                  ≡ complete_message now mid dkey m p' a' d =
                ground (arith, stored, full) in
              subst IsSound (sym e) (
                complete_message-IsSound now mid dkey m b' d p'
                  (IsParts-put seq content p m.total lt (b.parts mid m p known stored))
                  ((==_iff _ _).0 full))
          | inr more ↦
              let e : add_chunk now mid dkey m seq content a d ≡ (Reply.chunk seq m.total, a', d) =
                ground (arith, stored, more) in
              subst IsSound (sym e) (b', (λ x. cc), (λ x. cc))
        ]
  ]

module _ (now : ℕ) (mid content sender dest : Text) {a : Assembler} (b : IsBounded a)
    (d : Delivered) where
  store_chunk-IsSound :
      (seq total : ℕ)
      → seq < total
      → IsSound (store_chunk now mid seq total content sender dest a d)
  unfolding store_chunk
  store_chunk-IsSound seq total lt =
      let dkey = delivery_key sender mid in
      elim (Bool-cases (has dkey d)) [
        | inl done ↦
            let e : store_chunk now mid seq total content sender dest a d
                ≡ (Reply.delivered, a, d) =
              ground (arith, done) in
            subst IsSound (sym e) (b, (λ x. cc), (λ x. cc))
        | inr open_still ↦ elim (Option-cases (get mid a.meta)) [
          | inl new ↦
              let (a', roomy, b', few) = make_room-some b in
              let m : Meta = record { dest = dest; total = total; sender = sender; ts = now } in
              let e : store_chunk now mid seq total content sender dest a d
                  ≡ add_chunk now mid dkey m seq content (open_assembly mid m a') d =
                ground (arith, open_still, new, roomy) in
              subst IsSound (sym e) (
                add_chunk-IsSound now mid dkey m (IsBounded-open b' mid m few) d seq content
                  (get-open mid m a') lt)
          | inr (m, known) ↦ elim (Bool-cases (same_source m dest total sender)) [
            | inl same ↦
                let e : store_chunk now mid seq total content sender dest a d
                    ≡ add_chunk now mid dkey m seq content a d =
                  ground (arith, open_still, known, same) in
                subst IsSound (sym e) (
                  add_chunk-IsSound now mid dkey m b d seq content known
                    (ground (arith, same, ==_iff m.total total)))
            | inr other ↦
                let e : store_chunk now mid seq total content sender dest a d
                    ≡ (err Reply.mid_conflict, a, d) =
                  ground (arith, open_still, known, other) in
                subst IsSound (sym e) (b, (λ x. cc), (λ x. cc))
          ]
        ]
      ]

  -- Whatever a chunk says, the assembler stays within its bounds, and the relay finds all that it
  -- looks for.
  pub assemble-IsSound :
      (seq total : ℤ) → IsSound (assemble now mid seq total content sender dest a d)
  unfolding assemble
  assemble-IsSound (pos seq) (pos total) =
      elim (Bool-cases (ltb total 1 || ltb 1000 total || leb total seq)) [
        | inl bad ↦ rw bad (b, (λ x. cc), (λ x. cc))
        | inr good ↦ rw good (store_chunk-IsSound seq total (ground arith))
      ]
  assemble-IsSound (pos seq) (negsuc total) = (b, (λ x. cc), (λ x. cc))
  assemble-IsSound (negsuc seq) (pos total) = (b, (λ x. cc), (λ x. cc))
  assemble-IsSound (negsuc seq) (negsuc total) = (b, (λ x. cc), (λ x. cc))

-- Reading keeps the bounds too.
pub take_message-IsBounded :
    (user : Text) {a : Assembler} → IsBounded a → IsBounded (take_message user a).1
unfolding take_message
take_message-IsBounded user {a} b = elim (Option-cases (get user a.mail)) [
  | inl none_yet ↦ rw (none_yet, take_message) b
  | inr ([], found) ↦ rw (found, take_message) b
  | inr (m ∷ rest, found) ↦
      rw (found, take_message)
        (record {
          same_keys = b.same_keys;
          few = b.few;
          boxes = λ u box h.
              ground
                (arith, get-put user u rest a.mail, b.boxes u box, b.boxes user (m ∷ rest) found);
          parts = b.parts;
        })
]

pub IsBounded-no_mail : IsBounded no_mail
unfolding get
IsBounded-no_mail = record {
  same_keys = λ k. refl;
  few = omega arith;
  boxes = λ u box h. absurd (ground arith);
  parts = λ k m p h h'. absurd (ground arith);
}
