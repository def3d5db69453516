-- ===== src/Relay/Files/Download.antt =====
-- Fetching a file piece by piece (server.py, _h_fdownload).
use dns_messenger.Prelude.{
  ℕ, zero, suc, ◌+◌, ◌*◌, ◌≤◌, ◌<◌, ◌≡◌, refl, sym, ap, ◌∙◌, true, Option, none, some, List, [],
  ◌∷◌, ◌++◌, arith, leb, list_nat_eq, length, take, drop, take-append-drop, if◌then◌else◌,
  Bool-cases, inl, inr,
}
use dns_messenger.Prelude.Int.{pos}
use dns_messenger.Prelude.Text.{Text}
use dns_messenger.Dict.{get}
use dns_messenger.Relay.State.{Relay, FileInfo, download_piece}
use dns_messenger.Relay.Reply.{Reply}
use dns_messenger.Relay.Files.{piece_of, download}

-- The text in a reply, and none in one that is no piece.
unfoldable pub part_of : Reply → Option Text
part_of (Reply.piece seq total part) = some part
part_of _ = none

-- A receiver asks for the pieces from `n` on until there is none, at most `fuel` times.
unfoldable pub fetch : ℕ → ℕ → Text → Relay → List Text
fetch zero n fid s = []
fetch (suc fuel) n fid s =
    let rest = fetch fuel (n + 1) fid s in
    elim (part_of (download fid (pos n) s)) [ none ↦ [] | some part ↦ part ∷ rest ]

unfoldable pub pieces : List Text → Text
pieces [] = []
pieces (p ∷ ps) = p ++ pieces ps

drop-nil : (n : ℕ) → drop {A = ℕ} n [] ≡ []
drop-nil zero = refl
drop-nil (suc n) = refl

drop-drop : (n m k : ℕ) (s : Text) → m + n ≡ k → drop n (drop m s) ≡ drop k s
drop-drop n zero k s e = ap (λ (i : ℕ). drop i s) (omega arith)
drop-drop n (suc m) k [] e = drop-nil n ∙ sym (drop-nil k)
drop-drop n (suc m) zero (x ∷ s) e = absurd (omega arith)
drop-drop n (suc m) (suc k) (x ∷ s) e = drop-drop n m k s (omega arith)

drop-all : (n : ℕ) (s : Text) → length s ≤ n → drop n s ≡ []
drop-all zero [] h = refl
drop-all zero (x ∷ s) h = absurd (omega arith)
drop-all (suc n) [] h = refl
drop-all (suc n) (x ∷ s) h = drop-all n s (omega arith)

module _ (fid : Text) (f : FileInfo) (s : Relay) (found : get fid s.files ≡ some f)
    (done : f.complete ≡ true) where
  part_of-download :
      (n : ℕ)
      → part_of (download fid (pos n) s) ≡ (
          if leb (length f.data_b32) (n * 1400)
          then none
          else some (take 1400 (drop (n * 1400) f.data_b32)))
  unfolding part_of download piece_of
  part_of-download n = ground (arith, found, done)

  pieces-fetch_from :
      (fuel n : ℕ)
      → length f.data_b32 < (n + fuel) * 1400
      → pieces (fetch fuel n fid s) ≡ drop (n * 1400) f.data_b32
  unfolding fetch pieces
  pieces-fetch_from zero n h = sym (drop-all (n * 1400) f.data_b32 (omega arith))
  pieces-fetch_from (suc fuel) n h = elim (Bool-cases (leb (length f.data_b32) (n * 1400))) [
    | inl over ↦ ground (arith, part_of-download n, over, drop-all (n * 1400) f.data_b32)
    | inr more ↦ ground (
      arith,
      part_of-download n,
      more,
      pieces-fetch_from fuel (n + 1) (omega arith),
      take-append-drop 1400 (drop (n * 1400) f.data_b32),
      drop-drop 1400 (n * 1400) ((n + 1) * 1400) f.data_b32 (omega arith),
    )
  ]

  -- A receiver that asks for the pieces of a complete file in turn, with enough requests for its
  -- length, gets the whole of its text.
  pub pieces-fetch :
      (fuel : ℕ)
      → length f.data_b32 < fuel * download_piece
      → pieces (fetch fuel 0 fid s) ≡ f.data_b32
  pieces-fetch fuel h = pieces-fetch_from fuel 0 (omega arith)
