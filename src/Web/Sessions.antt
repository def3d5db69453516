-- ===== src/Web/Sessions.antt =====
-- Versions that revoke sessions, and the ticket between password and passkey (web_client.py,
-- pending_2fa_user, current_user_sv, bump_user_sv, is_admin_session, get_messenger).
pub mod Revoked
use dns_messenger.Prelude.{
  ℕ, ◌+◌, ◌≤◌, ◌<◌, ◌≡◌, ◌≢◌, Bool, true, false, ◌&&◌, Option, none, some, List, [], ◌∷◌, arith,
  if◌then◌else◌, ltb, ◌==◌, list_nat_eq, list_eq_iff, option_beq, nat_eq, Option-cases, inl, inr,
}
use dns_messenger.Prelude.Text.{Text}
use dns_messenger.Dict.{Dict, get, put}
use dns_messenger.Dict.Laws.{get-put, get-put_self}

-- The fields of the signed cookie that these functions read.
pub record Cookie : Type 0 where
  pub pending_user : Option Text
  pub pending_exp : ℕ
  pub is_admin : Bool
  pub sv : Option ℕ

abbrev pub drop_ticket : Cookie → Cookie
drop_ticket c = record c { pending_user = none; pending_exp = 0 }

unfoldable pub pending_2fa_user : ℕ → Cookie → Option Text × Cookie
pending_2fa_user now c = elim c.pending_user [
  | none ↦ (none, drop_ticket c)
  | some user ↦ elim user [
    | [] ↦ (none, drop_ticket c)
    | u ∷ ser ↦ if ltb c.pending_exp now then (none, drop_ticket c) else (some (u ∷ ser), c)
  ]
]

unfoldable pub current_user_sv : Text → Dict Text ℕ → ℕ
current_user_sv username versions = elim (get username versions) [ none ↦ 0 | some v ↦ v ]

unfoldable pub bump_user_sv : Text → Dict Text ℕ → ℕ × Dict Text ℕ
unfolding current_user_sv
bump_user_sv username versions =
    let v = current_user_sv username versions + 1 in (v, put username v versions)

-- `admin_sv` is the version in the admin's file, 0 where there is none.
unfoldable pub is_admin_session : ℕ → Cookie → Bool
is_admin_session admin_sv c = c.is_admin && option_beq c.sv (some admin_sv)

-- session.get('usv') against the present version, in get_messenger
unfoldable pub is_current : Option ℕ → Text → Dict Text ℕ → Bool
unfolding current_user_sv
is_current usv username versions = option_beq usv (some (current_user_sv username versions))
