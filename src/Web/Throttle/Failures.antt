-- ===== src/Web/Throttle/Failures.antt =====
-- The limit on failed logins of an account counts every failure of the window (web_client.py,
-- account_throttled and note_login_failure).
use mathlib.Core.List.{append-nil, append_assoc}
use dns_messenger.Prelude.{
  ℕ, ◌≤◌, ◌≡◌, refl, sym, ap, ◌∙◌, Bool, true, ◌&&◌, List, [], ◌∷◌, ◌++◌, arith, if◌then◌else◌, leb,
  length, list_nat_eq, list_eq, list_eq_iff, keep, Bool-cases, inl, inr,
}
use dns_messenger.Prelude.Text.{Text}
use dns_messenger.Dict.{Dict, get, put}
use dns_messenger.Dict.Laws.{get-put}
use dns_messenger.Web.Throttle.{
  account_fail_max, account_fail_window, is_fresh, times_of, account_throttled, note_login_failure,
}

pub data Event : Type 0 where
  fails checks : ℕ → Text → Event

abbrev pub time_of : Event → ℕ
time_of (Event.fails t u) = t
time_of (Event.checks t u) = t

unfoldable pub run : List Event → Dict Text (List ℕ) → Dict Text (List ℕ)
unfolding account_throttled note_login_failure
run [] d = d
run (Event.fails t u ∷ es) d = run es (note_login_failure t u d)
run (Event.checks t u ∷ es) d = run es ((account_throttled t u d).1)

-- The times at which a user's logins failed.
unfoldable pub failures_of : Text → List Event → List ℕ
failures_of u [] = []
failures_of u (Event.fails t v ∷ es) =
    let rest = failures_of u es in if list_eq v u then t ∷ rest else rest
failures_of u (Event.checks t v ∷ es) = failures_of u es

-- The clock does not go back, from `start` to `now`.
unfoldable pub ordered : ℕ → List Event → ℕ → Bool
ordered start [] now = leb start now
ordered start (e ∷ es) now = leb start (time_of e) && ordered (time_of e) es now

abbrev recent : ℕ → List ℕ → List ℕ
recent now = keep (is_fresh 900000 now)

recent-recent : (t now : ℕ) (xs : List ℕ) → t ≤ now → recent now (recent t xs) ≡ recent now xs
unfolding keep
recent-recent t now [] h = refl
recent-recent t now (x ∷ xs) h = ground (arith, recent-recent t now xs h)

keep-append : (p : ℕ → Bool) (xs ys : List ℕ) → keep p (xs ++ ys) ≡ keep p xs ++ keep p ys
unfolding keep
keep-append p [] ys = refl
keep-append p (x ∷ xs) ys = ground (arith, keep-append p xs ys)

ordered-le : (start now : ℕ) (es : List Event) → ordered start es now ≡ true → start ≤ now
unfolding ordered
ordered-le start now [] h = ground arith
ordered-le start now (e ∷ es) h = ground (arith, ordered-le (time_of e) now es)

keep_nil : (now : ℕ) → recent now [] ≡ []
unfolding keep
keep_nil now = refl

times_of-put :
    (u v : Text) (xs : List ℕ) (d : Dict Text (List ℕ))
    → times_of u (put v xs d) ≡ (if list_eq v u then xs else times_of u d)
times_of-put u v xs d = ground (arith, get-put v u xs d)

times_of-note :
    (u v : Text) (t : ℕ) (d : Dict Text (List ℕ))
    → times_of u (note_login_failure t v d)
      ≡ (if list_eq v u then recent t (times_of u d) ++ t ∷ [] else times_of u d)
unfolding note_login_failure
times_of-note u v t d =
    ground (arith, times_of-put u v (recent t (times_of v d) ++ t ∷ []) d, list_eq_iff v u)

times_of-check :
    (u v : Text) (t : ℕ) (d : Dict Text (List ℕ))
    → times_of u ((account_throttled t v d).1)
      ≡ (if list_eq v u then recent t (times_of u d) else times_of u d)
unfolding account_throttled
times_of-check u v t d =
    ground (arith, times_of-put u v (recent t (times_of v d)) d, list_eq_iff v u)

-- A failure among those of a run, as `recent` sees it.
recent-snoc :
    (t now : ℕ) (xs rest : List ℕ)
    → t ≤ now
    → recent now (recent t xs ++ t ∷ []) ++ recent now rest ≡ recent now xs ++ recent now (t ∷ rest)
recent-snoc t now xs rest h =
    ap (λ (ys : List ℕ). ys ++ recent now rest)
      (keep-append (is_fresh 900000 now) (recent t xs) (t ∷ []))
    ∙ append_assoc (recent now (recent t xs)) (recent now (t ∷ [])) (recent now rest)
    ∙ ap (λ (ys : List ℕ). ys ++ (recent now (t ∷ []) ++ recent now rest))
        (recent-recent t now xs h)
    ∙ ap (λ (ys : List ℕ). recent now xs ++ ys)
        (sym (keep-append (is_fresh 900000 now) (t ∷ []) rest))

-- What is recent of the times kept for a user, after a run: of those kept before, and of the failures.
recent-run :
    (es : List Event) (u : Text) (start now : ℕ) (d : Dict Text (List ℕ))
    → ordered start es now ≡ true
    → recent now (times_of u (run es d))
      ≡ recent now (times_of u d) ++ recent now (failures_of u es)
unfolding run failures_of ordered
recent-run [] u start now d h = ground (arith, append-nil (recent now (times_of u d)), keep_nil now)
recent-run (Event.fails t v ∷ es) u start now d h =
    let later : t ≤ now = ground (arith, ordered-le t now es, h) in
    let rest = recent-run es u t now (note_login_failure t v d) (ground (arith, h)) in
    elim (Bool-cases (list_eq v u)) [
      | inl own ↦ ground (
        arith,
        rest,
        times_of-note u v t d,
        recent-snoc t now (times_of u d) (failures_of u es) later,
      )
      | inr other ↦ ground (arith, rest, times_of-note u v t d)
    ]
recent-run (Event.checks t v ∷ es) u start now d h =
    let later : t ≤ now = ground (arith, ordered-le t now es, h) in
    let rest = recent-run es u t now ((account_throttled t v d).1) (ground (arith, h)) in
    elim (Bool-cases (list_eq v u)) [
      | inl own ↦
          ground (arith, rest, times_of-check u v t d, recent-recent t now (times_of u d) later)
      | inr other ↦ ground (arith, rest, times_of-check u v t d)
    ]

-- An account is refused further logins exactly if at least twenty of its logins failed in the last
-- fifteen minutes, counted over the whole run of failures and checks of all accounts since the start,
-- while the clock does not go back: the times that are thrown away on the way never count.
pub account_throttled-run :
    (es : List Event) (u : Text) (start now : ℕ)
    → ordered start es now ≡ true
    → (account_throttled now u (run es [])).0
      ≡ leb account_fail_max (length (keep (is_fresh account_fail_window now) (failures_of u es)))
unfolding account_throttled keep failures_of get
account_throttled-run es u start now h =
    ap (λ (xs : List ℕ). leb 20 (length xs)) (recent-run es u start now [] h ∙ refl)
