-- ===== src/Protocol/Chunks.antt =====
-- Cutting a text into labels and joining them (protocol.py, chunk_string).
use dns_messenger.Prelude.{
  ℕ, zero, suc, ◌≤◌, ◌<◌, ◌≡◌, refl, ap, ◌∙◌, [], ◌∷◌, ◌++◌, length, take, drop, arith, All,
  take-append-drop, length-take, length-drop,
}
use dns_messenger.Prelude.Text.{Text, join}
use dns_messenger.Protocol.{chunks_of, chunk_string}

join-chunks_of :
    (fuel size : ℕ) (s : Text) → length s ≤ fuel → join (chunks_of fuel (suc size) s) ≡ s
unfolding join chunks_of
join-chunks_of zero size [] h = refl
join-chunks_of zero size (c ∷ s) h = absurd (omega arith)
join-chunks_of (suc fuel) size [] h = refl
join-chunks_of (suc fuel) size (c ∷ s) h =
    ap (λ (t : Text). c ∷ (take size s ++ t))
      (join-chunks_of fuel size (drop size s) (omega (arith, length-drop size s)))
    ∙ ap (◌∷◌ c) (take-append-drop size s)

chunks_of-le :
    (fuel size : ℕ) (s : Text) → All (λ p. length p ≤ suc size) (chunks_of fuel (suc size) s)
unfolding chunks_of
chunks_of-le zero size s = tt
chunks_of-le (suc fuel) size [] = tt
chunks_of-le (suc fuel) size (c ∷ s) =
    (omega (arith, length-take size s), chunks_of-le fuel size (drop size s))

-- The pieces join to the whole text, in order, and none is longer than the size.
pub join-chunk_string :
    (s : Text) (size : ℕ)
    → 0 < size
    → (join (chunk_string s size) ≡ s) × All (λ p. length p ≤ size) (chunk_string s size)
unfolding chunk_string
join-chunk_string s zero h = absurd (omega arith)
join-chunk_string s (suc size) h =
    (join-chunks_of (length s) size s (omega arith), chunks_of-le (length s) size s)
