-- ===== src/Web/Sessions/Revoked.antt =====
-- Which cookies a logout revokes (web_client.py, bump_user_sv and get_messenger).
use dns_messenger.Prelude.{
  ℕ, ◌+◌, ◌≤◌, ◌<◌, ◌≡◌, refl, true, false, not, some, List, [], ◌∷◌, arith, if◌then◌else◌,
  list_nat_eq, list_eq, list_eq_iff, option_beq, nat_eq, contains, Bool-cases, inl, inr,
}
use dns_messenger.Prelude.Text.{Text}
use dns_messenger.Dict.{Dict}
use dns_messenger.Dict.Laws.{get-put}
use dns_messenger.Web.Sessions.{current_user_sv, bump_user_sv, is_current}

-- The versions after logouts of the users in the list.
unfoldable pub bump_all : List Text → Dict Text ℕ → Dict Text ℕ
unfolding bump_user_sv
bump_all [] versions = versions
bump_all (u ∷ us) versions = bump_all us ((bump_user_sv u versions).1)

current-bump_user_sv :
    (u v : Text) (versions : Dict Text ℕ)
    → current_user_sv u ((bump_user_sv v versions).1)
      ≡ (if list_eq v u then current_user_sv u versions + 1 else current_user_sv u versions)
unfolding current_user_sv bump_user_sv
current-bump_user_sv u v versions =
    ground (arith, list_eq_iff v u, get-put v u (current_user_sv v versions + 1) versions)

current-bump_all-le :
    (us : List Text) (u : Text) (versions : Dict Text ℕ)
    → current_user_sv u versions ≤ current_user_sv u (bump_all us versions)
unfolding bump_all
current-bump_all-le [] u versions = omega arith
current-bump_all-le (v ∷ us) u versions = ground (
  arith,
  current-bump_user_sv u v versions,
  current-bump_all-le us u ((bump_user_sv v versions).1),
)

current-bump_all_out :
    (us : List Text) (u : Text) (versions : Dict Text ℕ)
    → contains u us ≡ false
    → current_user_sv u (bump_all us versions) ≡ current_user_sv u versions
unfolding bump_all contains
current-bump_all_out [] u versions out = refl
current-bump_all_out (v ∷ us) u versions out = ground (
  arith,
  current-bump_user_sv u v versions,
  current-bump_all_out us u ((bump_user_sv v versions).1),
)

current-bump_all_in :
    (us : List Text) (u : Text) (versions : Dict Text ℕ)
    → contains u us ≡ true
    → current_user_sv u versions < current_user_sv u (bump_all us versions)
unfolding bump_all contains
current-bump_all_in [] u versions there = absurd (ground arith)
current-bump_all_in (v ∷ us) u versions there = ground (
  arith,
  current-bump_user_sv u v versions,
  current-bump_all-le us u ((bump_user_sv v versions).1),
  current-bump_all_in us u ((bump_user_sv v versions).1),
)

-- A cookie with a user's present version is accepted after any run of logouts exactly if the user is
-- not among those who logged out; once revoked it stays so, whoever logs out later.
pub is_current-bump_all :
    (us : List Text) (u : Text) (versions : Dict Text ℕ)
    → is_current (some (current_user_sv u versions)) u (bump_all us versions) ≡ not (contains u us)
unfolding is_current option_beq
is_current-bump_all us u versions = elim (Bool-cases (contains u us)) [
  | inl there ↦ ground (arith, current-bump_all_in us u versions there)
  | inr out ↦ ground (arith, current-bump_all_out us u versions out)
]
