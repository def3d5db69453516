-- ===== src/Web/BackupCodes.antt =====
-- The one-time codes of the second factor (web_client.py, _normalize_backup_code to
-- consume_backup_code), and the form in which codes are shown.
pub mod Once
pub mod Shown
use dns_messenger.Prelude.{
  ℕ, ◌+◌, ◌==◌, Bool, true, false, ◌&&◌, ◌||◌, not, Option, none, some, List, [], ◌∷◌, ◌++◌, map,
  if◌then◌else◌, leb, length, take, drop, list_nat_eq, keep,
}
use dns_messenger.Prelude.Text.{Text, text, join_with}
use dns_messenger.Dict.{Dict, get, put}
use dns_messenger.Protocol.{upper, chunk_string}
use dns_messenger.Web.Accounts.{Pbkdf2, hash_password, verify_password}

pub record Code : Type 0 where
  pub hash : Text
  pub salt : Text
  pub used : Bool

abbrev pub Codes : Type 0
Codes = Dict Text (List Code)

abbrev pub backup_code_count : ℕ
backup_code_count = 10

abbrev pub recovery_code_len : ℕ
recovery_code_len = 24

-- [\s-] on ASCII
unfoldable pub is_separator : ℕ → Bool
is_separator c = leb 9 c && leb c 13 || leb 28 c && leb c 32 || c == b'-'

-- re.sub(r'[\s-]', '', code.strip().upper()) on ASCII text; the strip removes nothing more.
unfoldable pub normalize_backup_code : Text → Text
unfolding is_separator
normalize_backup_code code = keep (λ c. not (is_separator c)) (map upper code)

-- The salt of each code, and the code.
unfoldable pub hash_codes : Pbkdf2 → List (Text × Text) → List Code
unfolding hash_password
hash_codes h [] = []
hash_codes h ((salt, code) ∷ codes) =
    let (hash, s) = hash_password h salt code [] in
    record { hash = hash; salt = s; used = false } ∷ hash_codes h codes

-- f'{c[:5]}-{c[5:]}'
unfoldable pub show_code : Text → Text
show_code c = take 5 c ++ (text "-" ++ drop 5 c)

-- The random salts and codes are an argument. What is shown, and the new store.
unfoldable pub generate_backup_codes :
    Pbkdf2 → List (Text × Text) → Text → Codes → List Text × Codes
unfolding hash_codes show_code
generate_backup_codes h codes username store =
    (map (λ p. show_code p.1) codes, put username (hash_codes h codes) store)

unfoldable pub codes_of : Text → Codes → List Code
codes_of username store = elim (get username store) [ none ↦ [] | some codes ↦ codes ]

-- sum(1 for e in entries if not e['used'])
unfoldable pub unused : List Code → ℕ
unused [] = 0
unused (e ∷ es) = (if e.used then 0 else 1) + unused es

unfoldable pub backup_codes_status : Text → Codes → ℕ × ℕ
unfolding codes_of
backup_codes_status username store =
    (unused (codes_of username store), length (codes_of username store))

-- The entries after the loop, `none` where no unused entry fits.
unfoldable pub consume_entries : Pbkdf2 → Text → Text → List Code → Option (List Code)
unfolding verify_password
consume_entries h fresh code [] = none
consume_entries h fresh code (e ∷ es) =
    let rest : Option (List Code) = elim (consume_entries h fresh code es) [
      | none ↦ none
      | some es' ↦ some (e ∷ es')
    ] in
    if e.used
    then rest
    else if verify_password h fresh code e.hash e.salt
    then some (record e { used = true } ∷ es)
    else rest

-- consume_backup_code after the code is normalized
unfoldable pub consume_normal : Pbkdf2 → Text → Text → Text → Codes → Bool × Codes
unfolding consume_entries codes_of
consume_normal h fresh username [] store = (false, store)
consume_normal h fresh username (c ∷ s) store =
    elim (consume_entries h fresh (c ∷ s) (codes_of username store)) [
      | none ↦ (false, store)
      | some entries ↦ (true, put username entries store)
    ]

unfoldable pub consume_backup_code : Pbkdf2 → Text → Text → Text → Codes → Bool × Codes
unfolding consume_normal normalize_backup_code
consume_backup_code h fresh username code store =
    consume_normal h fresh username (normalize_backup_code code) store

-- _format_recovery_code
unfoldable pub format_recovery_code : Text → Text
format_recovery_code code = join_with (text "-") (chunk_string code 4)
