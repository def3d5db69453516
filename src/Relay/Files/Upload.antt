-- ===== src/Relay/Files/Upload.antt =====
-- The chunks of a file in any order, with repeats, complete it once (server.py, _h_fchunk).
use dns_messenger.Prelude.{
  ℕ, ◌<◌, ◌≡◌, ap, ◌∙◌, true, false, ◌||◌, some, List, [], ◌∷◌, ◌++◌, arith, ◌==◌, ==_iff,
  list_nat_eq, nat_eq, length, contains, All, Bool-cases, inl, inr,
}
use dns_messenger.Prelude.Int.{pos}
use dns_messenger.Prelude.Text.{Text}
use dns_messenger.Dict.{Dict, get, has, put}
use dns_messenger.Dict.Laws.{get-put, get-put_self, has-put, length-put-le}
use dns_messenger.Relay.State.{Relay, FileInfo}
use dns_messenger.Relay.Assembly.{gather}
use dns_messenger.Relay.Assembly.Parts.{
  IsParts, IsParts-nil, IsParts-put, concat_from, gather-concat, count_present_full,
}
use dns_messenger.Relay.Files.{inbox_of, completed, add_file_chunk, store_file_chunk}

module _ (fid : Text) (piece : ℕ → Text) where
  -- Chunks arrive in the order of the list.
  unfoldable pub upload : List ℕ → Relay → Relay
  upload [] s = s
  upload (seq ∷ seqs) s = upload seqs (store_file_chunk fid (pos seq) (piece seq) s).1

  -- The header is known, with these chunks so far.
  record Uploading (f : FileInfo) (parts : Dict ℕ Text) (s : Relay) : Type 0 where
    known : get fid s.files ≡ some (record f { chunks = parts })
    open_still : f.complete ≡ false
    is_parts : IsParts f.total parts
    missing : length parts < f.total
    agree : (k : ℕ) (t : Text) → get k parts ≡ some t → t ≡ piece k

  -- The state once the file is complete, from the state before its first chunk.
  abbrev pub whole : FileInfo → Text
  whole f = concat_from piece 0 f.total

  abbrev pub with_file : FileInfo → Relay → Dict Text (List Text)
  with_file f s = put f.dest (inbox_of f.dest s.file_inbox ++ fid ∷ []) s.file_inbox

  record Uploaded (f : FileInfo) (inbox : Dict Text (List Text)) (s : Relay) : Type 0 where
    stored : get fid s.files ≡ some (completed (whole f) f)
    announced : s.file_inbox ≡ inbox

  module _ (f : FileInfo) where
    -- A file that is complete stays so.
    upload-Uploaded :
        (seqs : List ℕ) (inbox : Dict Text (List Text)) (s : Relay)
        → Uploaded f inbox s
        → Uploaded f inbox (upload seqs s)
    unfolding upload store_file_chunk
    upload-Uploaded [] inbox s u = u
    upload-Uploaded (seq ∷ seqs) inbox s u =
        let e : (store_file_chunk fid (pos seq) (piece seq) s).1 ≡ s = ground (arith, u.stored) in
        upload-Uploaded seqs inbox _ (record {
          stored = ap (λ (r : Relay). get fid r.files) e ∙ u.stored;
          announced = ap (λ (r : Relay). r.file_inbox) e ∙ u.announced;
        })

    module _ {parts : Dict ℕ Text} {s : Relay} (u : Uploading f parts s) (seq : ℕ)
        (lt : seq < f.total) where
      now_parts : Dict ℕ Text
      now_parts = put seq (piece seq) parts

      agree-put : (k : ℕ) (t : Text) → get k now_parts ≡ some t → t ≡ piece k
      unfolding now_parts
      agree-put k t found =
          ground (arith, get-put seq k (piece seq) parts, u.agree k t, ==_iff seq k)

      store-add :
          store_file_chunk fid (pos seq) (piece seq) s
          ≡ add_file_chunk fid (record f { chunks = parts }) seq (piece seq) s
      unfolding store_file_chunk
      store-add = ground (arith, u.known, u.open_still)

      step_more :
          length now_parts < f.total
          → Uploading f now_parts (store_file_chunk fid (pos seq) (piece seq) s).1
            × ((store_file_chunk fid (pos seq) (piece seq) s).1.file_inbox ≡ s.file_inbox)
      unfolding add_file_chunk now_parts
      step_more few = (
        record {
          known =
              ground (arith, store-add, get-put_self fid (record f { chunks = now_parts }) s.files);
          open_still = u.open_still;
          is_parts = IsParts-put seq (piece seq) parts f.total lt u.is_parts;
          missing = few;
          agree = agree-put;
        },
        ground (arith, store-add),
      )

      step_done :
          length now_parts ≡ f.total
          → Uploaded f (with_file f s) (store_file_chunk fid (pos seq) (piece seq) s).1
      unfolding add_file_chunk now_parts
      step_done full =
          let gathered : gather f.total now_parts ≡ some (whole f) =
            gather-concat piece now_parts f.total
              (IsParts-put seq (piece seq) parts f.total lt u.is_parts) full agree-put in
          record {
            stored =
                ground
                  (arith, store-add, gathered, get-put_self fid (completed (whole f) f) s.files);
            announced = ground (arith, store-add, gathered);
          }

    upload-rest :
        (seqs : List ℕ) (parts : Dict ℕ Text) (s : Relay)
        → Uploading f parts s
        → All (λ k. k < f.total) seqs
        → ((k : ℕ) → k < f.total → (has k parts || contains k seqs) ≡ true)
        → Uploaded f (with_file f s) (upload seqs s)
    unfolding upload contains now_parts
    upload-rest [] parts s u ok cover = absurd (
        omega (
          arith,
          u.is_parts,
          u.missing,
          count_present_full f.total parts (λ k lt. ground (arith, cover k lt)),
        ))
    upload-rest (seq ∷ seqs) parts s u ok cover =
        elim (Bool-cases (length (put seq (piece seq) parts) == f.total)) [
          | inl full ↦
              upload-Uploaded seqs (with_file f s) _ (step_done u seq ok.0 ((==_iff _ _).0 full))
          | inr more ↦
              let few : length (put seq (piece seq) parts) < f.total = ground (
                arith,
                more,
                ==_iff (length (put seq (piece seq) parts)) f.total,
                length-put-le seq (piece seq) parts,
                u.missing,
              ) in
              let (u', same) = step_more u seq ok.0 few in
              let done =
                upload-rest seqs (put seq (piece seq) parts) _ u' ok.1
                  (λ k lt. ground (arith, cover k lt, has-put seq k (piece seq) parts)) in
              record {
                stored = done.stored;
                announced =
                    done.announced
                    ∙ ap
                        (λ (i : Dict Text (List Text)).
                          put f.dest (inbox_of f.dest i ++ fid ∷ []) i)
                        same;
              }
        ]

    -- After a header, chunks in any order and with any repeats that bring every number below the
    -- total complete the file: its text is that of the pieces in order, and the receiver's inbox
    -- names it exactly once more.
    pub upload-complete :
        (seqs : List ℕ) (s : Relay)
        → get fid s.files ≡ some f
        → f.chunks ≡ []
        → f.complete ≡ false
        → 0 < f.total
        → All (λ k. k < f.total) seqs
        → ((k : ℕ) → k < f.total → contains k seqs ≡ true)
        → (get fid (upload seqs s).files ≡ some (completed (whole f) f))
          × ((upload seqs s).file_inbox ≡ with_file f s)
    unfolding contains get
    upload-complete seqs s known fresh open_still positive ok cover =
        let u : Uploading f [] s = record {
          known = known ∙ ap (λ (c : Dict ℕ Text). some (record f { chunks = c })) fresh;
          open_still = open_still;
          is_parts = IsParts-nil f.total;
          missing = positive;
          agree = λ k t found. absurd (ground arith);
        } in
        let done = upload-rest seqs [] s u ok (λ k lt. ground (arith, cover k lt)) in
        (done.stored, done.announced)
