-- ===== src/Relay/Assembly/Parts.antt =====
-- The chunks of one message: as many entries as the total are all of them (server.py, _assemble).
use dns_messenger.Prelude.{
  ℕ, zero, suc, ◌+◌, ◌≤◌, ◌<◌, ◌≡◌, refl, true, none, some, [], ◌++◌, arith, if◌then◌else◌, ==_iff,
  nat_eq, length, Option-cases, inl, inr,
}
use dns_messenger.Prelude.Text.{Text}
use dns_messenger.Dict.{Dict, get, has, put}
use dns_messenger.Dict.Laws.{get-put, length-put}
use dns_messenger.Relay.Assembly.{gather_from, gather}

-- How many of the numbers below `n` have a chunk.
pub count_present : ℕ → Dict ℕ Text → ℕ
count_present zero parts = 0
count_present (suc n) parts = (if has n parts then 1 else 0) + count_present n parts

-- Every entry is below the total, and no number has two.
abbrev pub IsParts : ℕ → Dict ℕ Text → Type 0
IsParts n parts = length parts ≡ count_present n parts

count_present-nil : (n : ℕ) → count_present n [] ≡ 0
unfolding count_present get
count_present-nil zero = refl
count_present-nil (suc n) = omega (arith, count_present-nil n)

pub IsParts-nil : (n : ℕ) → IsParts n []
IsParts-nil n = omega (arith, count_present-nil n)

module _ (k : ℕ) (t : Text) (parts : Dict ℕ Text) where
  count_present-put_above :
      (n : ℕ) → n ≤ k → count_present n (put k t parts) ≡ count_present n parts
  unfolding count_present
  count_present-put_above zero h = refl
  count_present-put_above (suc n) h =
      ground (arith, count_present-put_above n, get-put k n t parts, ==_iff k n)

  count_present-put :
      (n : ℕ)
      → k < n
      → count_present n (put k t parts)
        ≡ (if has k parts then count_present n parts else suc (count_present n parts))
  unfolding count_present
  count_present-put zero h = absurd (omega arith)
  count_present-put (suc n) h =
      ground
        (arith, count_present-put n, count_present-put_above n, get-put k n t parts, ==_iff k n)

  pub IsParts-put : (n : ℕ) → k < n → IsParts n parts → IsParts n (put k t parts)
  IsParts-put n h p = ground (arith, count_present-put n h, length-put k t parts)

count_present-le : (n : ℕ) (parts : Dict ℕ Text) → count_present n parts ≤ n
unfolding count_present
count_present-le zero parts = omega arith
count_present-le (suc n) parts = ground (arith, count_present-le n parts)

-- With as many entries as numbers, every number has one.
pub has_of_full :
    (n i : ℕ) (parts : Dict ℕ Text) → count_present n parts ≡ n → i < n → has i parts ≡ true
unfolding count_present
has_of_full zero i parts e h = absurd (omega arith)
has_of_full (suc n) i parts e h =
    ground (arith, has_of_full n i parts, count_present-le n parts, ==_iff i n)

-- The text that the pieces from `i` on make.
unfoldable pub concat_from : (ℕ → Text) → ℕ → ℕ → Text
concat_from piece i zero = []
concat_from piece i (suc n) = piece i ++ concat_from piece (i + 1) n

gather_from-concat :
    (piece : ℕ → Text) (parts : Dict ℕ Text) (n i : ℕ)
    → ((k : ℕ) → k < i + n → get k parts ≡ some (piece k))
    → gather_from i n parts ≡ some (concat_from piece i n)
unfolding gather_from concat_from
gather_from-concat piece parts zero i h = refl
gather_from-concat piece parts (suc n) i h =
    ground (
      arith,
      gather_from-concat piece parts n (i + 1) (λ k lt. h k (omega arith)),
      h i (omega arith),
    )

-- Chunks that all come from `piece`, as many as the total, are joined in the order of their numbers.
pub gather-concat :
    (piece : ℕ → Text) (parts : Dict ℕ Text) (n : ℕ)
    → IsParts n parts
    → length parts ≡ n
    → ((k : ℕ) (t : Text) → get k parts ≡ some t → t ≡ piece k)
    → gather n parts ≡ some (concat_from piece 0 n)
unfolding gather
gather-concat piece parts n p full agree = gather_from-concat piece parts n 0 λ k lt.
    elim (Option-cases (get k parts)) [
      | inl missing ↦ absurd (ground (arith, has_of_full n k parts))
      | inr (t, found) ↦ ground (arith, agree k t found)
    ]

-- A complete set of chunks joins to some text.
pub gather-some :
    (parts : Dict ℕ Text) (n : ℕ)
    → IsParts n parts
    → length parts ≡ n
    → (t : Text) × (gather n parts ≡ some t)
gather-some parts n p full =
    let piece : ℕ → Text = λ k. elim (get k parts) [ none ↦ [] | some t ↦ t ] in
    (concat_from piece 0 n, gather-concat piece parts n p full (λ k t found. ground arith))

pub count_present_full :
    (n : ℕ) (parts : Dict ℕ Text)
    → ((k : ℕ) → k < n → has k parts ≡ true)
    → count_present n parts ≡ n
unfolding count_present
count_present_full zero parts h = refl
count_present_full (suc n) parts h =
    ground (arith, h n (omega arith), count_present_full n parts (λ k lt. h k (omega arith)))
