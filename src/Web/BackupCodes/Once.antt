-- ===== src/Web/BackupCodes/Once.antt =====
-- A backup code works once (web_client.py, consume_backup_code).
use dns_messenger.Prelude.{
  ℕ, suc, ◌+◌, ◌≡◌, some, List, [], ◌∷◌, arith, if◌then◌else◌, list_nat_eq, Option-cases, inl, inr,
}
use dns_messenger.Prelude.Text.{Text}
use dns_messenger.Dict.Laws.{get-put_self}
use dns_messenger.Web.Accounts.{Pbkdf2}
use dns_messenger.Web.BackupCodes.{
  Code, Codes, normalize_backup_code, codes_of, unused, consume_entries, consume_normal,
  consume_backup_code,
}

module _ (h : Pbkdf2) (fresh : Text) where
  unused-consume_entries :
      (code : Text) (es es' : List Code)
      → consume_entries h fresh code es ≡ some es'
      → unused es ≡ suc (unused es')
  unfolding consume_entries unused
  unused-consume_entries code [] es' e = absurd (ground arith)
  unused-consume_entries code (c ∷ es) es' e =
      elim (Option-cases (consume_entries h fresh code es)) [
        | inl refused ↦ ground arith
        | inr (rest, found) ↦ ground (arith, unused-consume_entries code es rest found)
      ]

  consume_normalized :
      (username : Text) (code : Text) (store : Codes)
      → unused (codes_of username store)
        ≡ (if (consume_normal h fresh username code store).0 then 1 else 0)
          + unused (codes_of username ((consume_normal h fresh username code store).1))
  unfolding consume_normal codes_of
  consume_normalized username [] store = omega arith
  consume_normalized username (c ∷ s) store =
      elim (Option-cases (consume_entries h fresh (c ∷ s) (codes_of username store))) [
        | inl refused ↦ ground arith
        | inr (es, found) ↦ ground (
          arith,
          get-put_self username es store,
          unused-consume_entries (c ∷ s) (codes_of username store) es found,
        )
      ]

-- How many of a run of attempts succeed, and the store after it. An attempt has its random salt.
unfoldable pub attempts : Pbkdf2 → Text → List (Text × Text) → Codes → ℕ × Codes
unfolding consume_backup_code
attempts h username [] store = (0, store)
attempts h username ((fresh, code) ∷ codes) store =
    let (ok, store') = consume_backup_code h fresh username code store in
    let (n, last) = attempts h username codes store' in ((if ok then 1 else 0) + n, last)

-- In any run of attempts, whatever codes are tried, each success uses up one code: the successes and
-- the codes that are left unused make up the codes that were unused before.
pub attempts-unused :
    (h : Pbkdf2) (username : Text) (codes : List (Text × Text)) (store : Codes)
    → (attempts h username codes store).0
        + unused (codes_of username ((attempts h username codes store).1))
      ≡ unused (codes_of username store)
unfolding attempts consume_backup_code
attempts-unused h username [] store = omega arith
attempts-unused h username ((fresh, code) ∷ codes) store = ground (
  arith,
  consume_normalized h fresh username (normalize_backup_code code) store,
  attempts-unused h username codes ((consume_backup_code h fresh username code store).1),
)
