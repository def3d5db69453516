-- ===== src/Relay/Assembly/Assembling.antt =====
-- One more chunk of a message that is not complete (server.py, _assemble).
use dns_messenger.Prelude.{
  ℕ, ◌/◌, ◌≤◌, ◌<◌, ◌≡◌, ap, ◌∙◌, true, false, some, List, [], ◌∷◌, arith, ◌==◌, ==_iff,
  list_eq_iff, list_nat_eq, nat_eq, length,
}
use dns_messenger.Prelude.Int.{pos}
use dns_messenger.Prelude.Text.{Text, Bytes}
use dns_messenger.Dict.{Dict, get, has, put}
use dns_messenger.Dict.Laws.{get-put, length-put-le}
use dns_messenger.Protocol.{b32encode, b32decode}
use dns_messenger.Relay.State.{Assembler, Meta, Message, second}
use dns_messenger.Relay.Assembly.{
  Delivered, delivered_limit, trim_delivered, remember_delivered, gather, box_of, push_mail,
  same_source, delivery_key, complete_message, add_chunk, store_chunk, assemble,
}
use dns_messenger.Relay.Assembly.Parts.{IsParts, IsParts-put, concat_from, gather-concat}

-- A message of `total` chunks from one sender, and the bytes that it encodes.
pub record Parcel : Type 0 where
  pub sender : Text
  pub dest : Text
  pub mid : Text
  pub total : ℕ
  pub piece : ℕ → Text

module _ (p : Parcel) where
  open p use {sender, dest, mid, total, piece}

  -- What the relay keeps of a chunk's arrival.
  abbrev pub send_one : ℕ → ℕ → Assembler → Delivered → Assembler × Delivered
  send_one now seq a d =
      let (_, a', d') = assemble now mid (pos seq) (pos total) (piece seq) sender dest a d in
      (a', d')

  -- Chunks arrive, each at its time.
  unfoldable pub send_chunks : List (ℕ × ℕ) → Assembler → Delivered → Assembler × Delivered
  send_chunks [] a d = (a, d)
  send_chunks ((now, seq) ∷ calls) a d =
      let (a', d') = send_one now seq a d in send_chunks calls a' d'

  pub in_range :
      (now seq : ℕ) (a : Assembler) (d : Delivered)
      → total ≤ 1000
      → seq < total
      → assemble now mid (pos seq) (pos total) (piece seq) sender dest a d
        ≡ store_chunk now mid seq total (piece seq) sender dest a d
  unfolding assemble
  in_range now seq a d small lt = ground arith

  abbrev pub dkey : Text
  dkey = delivery_key sender mid

  -- The chunks so far, where the message is not complete.
  pub record Assembling (parts : Dict ℕ Text) (a : Assembler) (d : Delivered) : Type 0 where
    pub small : total ≤ 1000
    pub meta : Meta
    pub known : get mid a.meta ≡ some meta
    pub same : same_source meta dest total sender ≡ true
    pub stored : get mid a.chunks ≡ some parts
    pub not_delivered : has dkey d ≡ false
    pub is_parts : IsParts total parts
    pub missing : length parts < total
    pub agree : (k : ℕ) (t : Text) → get k parts ≡ some t → t ≡ piece k

  abbrev pub message : Bytes → ℕ → Message
  message bytes now = record {
    sender = sender;
    payload = b32encode bytes;
    ts = now / second;
    id = mid;
    readers = [];
  }

  -- The mail after the delivery at a time.
  abbrev pub mail_with : Bytes → ℕ → Dict Text (List Message) → Dict Text (List Message)
  mail_with bytes now mail = put dest (push_mail (message bytes now) (box_of dest mail)) mail

  module _ {parts : Dict ℕ Text} {a : Assembler} {d : Delivered} (s : Assembling parts a d) where
    store_chunk_add :
        (now seq : ℕ)
        → seq < total
        → assemble now mid (pos seq) (pos total) (piece seq) sender dest a d
          ≡ add_chunk now mid dkey s.meta seq (piece seq) a d
    unfolding store_chunk
    store_chunk_add now seq lt =
        ground (arith, in_range now seq a d s.small lt, s.not_delivered, s.known, s.same)

    agree-put : (seq k : ℕ) (t : Text) → get k (put seq (piece seq) parts) ≡ some t → t ≡ piece k
    agree-put seq k t found =
        ground (arith, get-put seq k (piece seq) parts, s.agree k t, ==_iff seq k)

    meta_fields : (s.meta.dest ≡ dest) × (s.meta.total ≡ total) × (s.meta.sender ≡ sender)
    meta_fields = ground (
      arith,
      s.same,
      list_eq_iff s.meta.dest dest,
      list_eq_iff s.meta.sender sender,
      ==_iff s.meta.total total,
    )

    -- One more chunk, with others missing.
    pub step_more :
        (now seq : ℕ)
        → seq < total
        → length (put seq (piece seq) parts) < total
        → (send_one now seq a d
            ≡ (record a { chunks = put mid (put seq (piece seq) parts) a.chunks }, d))
          × Assembling
              (put seq (piece seq) parts)
              (record a { chunks = put mid (put seq (piece seq) parts) a.chunks })
              d
    unfolding add_chunk
    step_more now seq lt few = (
      ground (arith, store_chunk_add now seq lt, s.stored, meta_fields),
      record {
        small = s.small;
        meta = s.meta;
        known = s.known;
        same = s.same;
        stored =
            ground
              (arith, get-put mid mid (put seq (piece seq) parts) a.chunks, list_eq_iff mid mid);
        not_delivered = s.not_delivered;
        is_parts = IsParts-put seq (piece seq) parts total lt s.is_parts;
        missing = few;
        agree = λ k t found. agree-put seq k t found;
      },
    )

    has-remember_delivered :
        (now : ℕ) → length d < delivered_limit → has dkey (remember_delivered now dkey d) ≡ true
    unfolding remember_delivered trim_delivered
    has-remember_delivered now room =
        ground (arith, get-put dkey dkey now d, list_eq_iff dkey dkey, length-put-le dkey now d)

    -- The last chunk delivers the message.
    pub step_done :
        (now seq : ℕ) (bytes : Bytes)
        → b32decode (concat_from piece 0 total) ≡ some bytes
        → length d < delivered_limit
        → seq < total
        → length (put seq (piece seq) parts) ≡ total
        → ((send_one now seq a d).0.mail ≡ mail_with bytes now a.mail)
          × (has dkey (send_one now seq a d).1 ≡ true)
    unfolding add_chunk complete_message
    step_done now seq bytes good room lt full =
        let parts' = put seq (piece seq) parts in
        let gathered : gather total parts' ≡ some (concat_from piece 0 total) =
          gather-concat piece parts' total (IsParts-put seq (piece seq) parts total lt s.is_parts)
            full (agree-put seq) in
        let gathered' : gather s.meta.total parts' ≡ some (concat_from piece 0 total) =
          ap (λ (n : ℕ). gather n parts') (meta_fields.1) ∙ gathered in
        let test : (length parts' == s.meta.total) ≡ true = ground (arith, meta_fields, full) in
        (
          ground (arith, store_chunk_add now seq lt, s.stored, test, gathered', good, meta_fields),
          ground (
            arith,
            store_chunk_add now seq lt,
            s.stored,
            test,
            gathered',
            good,
            has-remember_delivered now room,
          ),
        )
