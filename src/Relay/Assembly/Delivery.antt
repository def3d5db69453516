-- ===== src/Relay/Assembly/Delivery.antt =====
-- Chunks in any order, with repeats, deliver their message once (server.py, _assemble).
use dns_messenger.Prelude.{
  ℕ, ◌≤◌, ◌<◌, ◌≡◌, refl, ap, ◌∙◌, true, false, ◌||◌, none, some, List, [], ◌∷◌, map, arith, ◌==◌,
  ==_iff, list_eq_iff, list_nat_eq, nat_eq, length, contains, All, Bool-cases, inl, inr,
}
use dns_messenger.Prelude.Text.{Text, Bytes}
use dns_messenger.Dict.{Dict, get, has, put}
use dns_messenger.Dict.Laws.{get-put_self, has-put, length-put-le}
use dns_messenger.Protocol.{b32decode}
use dns_messenger.Relay.State.{Assembler, Meta, max_incomplete}
use dns_messenger.Relay.Assembly.{
  Delivered, delivered_limit, same_source, make_room, open_assembly, store_chunk,
}
use dns_messenger.Relay.Assembly.Parts.{IsParts-nil, concat_from, count_present_full}
use dns_messenger.Relay.Assembly.Assembling.{
  Parcel, send_one, send_chunks, in_range, dkey, Assembling, mail_with, step_more, step_done,
}

module _ (p : Parcel) where
  open p use {sender, dest, mid, total, piece}

  -- A message that is delivered stays so: more chunks change nothing.
  send_chunks_delivered :
      (calls : List (ℕ × ℕ)) (a : Assembler) (d : Delivered)
      → total ≤ 1000
      → All (λ c. c.1 < total) calls
      → has (dkey p) d ≡ true
      → send_chunks p calls a d ≡ (a, d)
  unfolding send_chunks store_chunk
  send_chunks_delivered [] a d small ok h = refl
  send_chunks_delivered ((now, seq) ∷ calls) a d small ok h =
      ground
        (arith, in_range p now seq a d small ok.0, send_chunks_delivered calls a d small ok.1 h)

  module _ (bytes : Bytes) (good : b32decode (concat_from piece 0 total) ≡ some bytes) where
    -- From an assembly on, calls that bring all that is missing deliver the message once.
    send_chunks_rest :
        (calls : List (ℕ × ℕ)) (parts : Dict ℕ Text) (a : Assembler) (d : Delivered)
        → Assembling p parts a d
        → length d < delivered_limit
        → All (λ c. c.1 < total) calls
        → ((k : ℕ) → k < total → (has k parts || contains k (map (λ c. c.1) calls)) ≡ true)
        → (now : ℕ) × ((send_chunks p calls a d).0.mail ≡ mail_with p bytes now a.mail)
    unfolding send_chunks contains
    send_chunks_rest [] parts a d s room ok cover = absurd (
        omega (
          arith,
          s.is_parts,
          s.missing,
          count_present_full total parts (λ k lt. ground (arith, cover k lt)),
        ))
    send_chunks_rest ((now, seq) ∷ calls) parts a d s room ok cover =
        elim (Bool-cases (length (put seq (piece seq) parts) == total)) [
          | inl full ↦
              let done = step_done p s now seq bytes good room ok.0 ((==_iff _ _).0 full) in
              (
                now,
                ap (λ (r : Assembler × Delivered). r.0.mail)
                      (send_chunks_delivered calls (send_one p now seq a d).0
                        (send_one p now seq a d).1 s.small ok.1 done.1)
                    ∙ done.0,
              )
          | inr more ↦
              let few : length (put seq (piece seq) parts) < total = ground (
                arith,
                more,
                ==_iff (length (put seq (piece seq) parts)) total,
                length-put-le seq (piece seq) parts,
                s.missing,
              ) in
              let (stepped, s') = step_more p s now seq ok.0 few in
              let (t, sent) =
                send_chunks_rest calls (put seq (piece seq) parts) _ d s' room ok.1
                  (λ k lt. ground (arith, cover k lt, has-put seq k (piece seq) parts)) in
              (
                t,
                ap (λ (r : Assembler × Delivered). (send_chunks p calls r.0 r.1).0.mail) stepped
                    ∙ sent,
              )
        ]

    -- A first chunk opens an assembly, and goes on as if it had been there.
    module _ (a : Assembler) (d : Delivered) (now : ℕ) where
      first_meta : Meta
      first_meta = record { dest = dest; total = total; sender = sender; ts = now }

      opened : Assembler
      opened = open_assembly mid first_meta a

      same_source-first_meta : same_source first_meta dest total sender ≡ true
      unfolding first_meta
      same_source-first_meta =
          ground (arith, list_eq_iff dest dest, list_eq_iff sender sender, ==_iff total total)

      Assembling-opened :
          total ≤ 1000 → 0 < total → has (dkey p) d ≡ false → Assembling p [] opened d
      unfolding opened open_assembly get
      Assembling-opened small positive new = record {
        small = small;
        meta = first_meta;
        known = get-put_self mid first_meta a.meta;
        same = same_source-first_meta;
        stored = get-put_self mid [] a.chunks;
        not_delivered = new;
        is_parts = IsParts-nil total;
        missing = positive;
        agree = λ k t found. absurd (ground arith);
      }

      send_one-opened :
          (seq : ℕ)
          → total ≤ 1000
          → seq < total
          → has (dkey p) d ≡ false
          → get mid a.meta ≡ none
          → length a.chunks < max_incomplete
          → send_one p now seq a d ≡ send_one p now seq opened d
      unfolding store_chunk make_room opened open_assembly first_meta
      send_one-opened seq small lt new fresh room = ground (
        arith,
        in_range p now seq a d small lt,
        in_range p now seq opened d small lt,
        get-put_self mid first_meta a.meta,
        same_source-first_meta,
      )

    -- From a state where the message is new, with room for it: chunks in any order and with any
    -- repeats, at any times, that bring every number below the total, put the message into the
    -- receiver's box exactly once, with the text that the pieces make in order.
    pub send_chunks_deliver :
        (calls : List (ℕ × ℕ)) (a : Assembler) (d : Delivered)
        → 0 < total
        → total ≤ 1000
        → has (dkey p) d ≡ false
        → get mid a.meta ≡ none
        → length a.chunks < max_incomplete
        → length d < delivered_limit
        → All (λ c. c.1 < total) calls
        → ((k : ℕ) → k < total → contains k (map (λ c. c.1) calls) ≡ true)
        → (now : ℕ) × ((send_chunks p calls a d).0.mail ≡ mail_with p bytes now a.mail)
    unfolding send_chunks contains opened open_assembly
    send_chunks_deliver [] a d positive small new fresh room space ok cover =
        absurd (ground (arith, cover 0 positive))
    send_chunks_deliver ((now, seq) ∷ calls) a d positive small new fresh room space ok cover =
        let (t, sent) =
          send_chunks_rest ((now, seq) ∷ calls) [] (opened a d now) d
            (Assembling-opened a d now small positive new) space ok
            (λ k lt. ground (arith, cover k lt)) in
        (
          t,
          ap (λ (r : Assembler × Delivered). (send_chunks p calls r.0 r.1).0.mail)
                (send_one-opened a d now seq small ok.0 new fresh room)
              ∙ sent,
        )
