-- ===== src/Web/BackupCodes/Shown.antt =====
-- A code that is shown works (web_client.py, generate_backup_codes and consume_backup_code).
use dns_messenger.Prelude.{
  ℕ, ◌≡◌, ◌≢◌, refl, Bool, true, ◌&&◌, ◌||◌, none, List, [], ◌∷◌, ◌++◌, arith, list_nat_eq,
  list_eq_iff, sym, ap, ◌∙◌, map, keep, leb, take, drop, take-append-drop, contains, All,
}
use dns_messenger.Prelude.Text.{Text, text}
use dns_messenger.Dict.{put}
use dns_messenger.Dict.Laws.{get-put_self}
use dns_messenger.Protocol.{upper}
use dns_messenger.Web.Accounts.{Pbkdf2, hash_password, verify_password}
use dns_messenger.Web.BackupCodes.{
  Codes, normalize_backup_code, hash_codes, show_code, generate_backup_codes, codes_of,
  consume_entries, consume_normal, consume_backup_code,
}

-- A character of the codes: an upper-case letter or a digit.
abbrev pub is_code_char : ℕ → Bool
is_code_char c = leb b'A' c && leb c b'Z' || leb b'0' c && leb c b'9'

abbrev pub IsCode : Text → Type 0
IsCode = All (λ c. is_code_char c ≡ true)

normalize-append :
    (x y : Text)
    → normalize_backup_code (x ++ y) ≡ normalize_backup_code x ++ normalize_backup_code y
unfolding normalize_backup_code keep
normalize-append [] y = refl
normalize-append (c ∷ x) y = ground (arith, normalize-append x y)

normalize-id : (x : Text) → IsCode x → normalize_backup_code x ≡ x
unfolding normalize_backup_code keep upper
normalize-id [] h = refl
normalize-id (c ∷ x) h = ground (arith, normalize-id x h.1)

normalize-dash : (x : Text) → normalize_backup_code (text "-" ++ x) ≡ normalize_backup_code x
unfolding normalize_backup_code keep upper
normalize-dash x = refl

-- The dash in the middle changes nothing.
normalize-show_code : (code : Text) → IsCode code → normalize_backup_code (show_code code) ≡ code
unfolding show_code
normalize-show_code code h =
    normalize-append (take 5 code) (text "-" ++ drop 5 code)
    ∙ ap (λ (t : Text). normalize_backup_code (take 5 code) ++ t) (normalize-dash (drop 5 code))
    ∙ sym (normalize-append (take 5 code) (drop 5 code))
    ∙ ap normalize_backup_code (take-append-drop 5 code)
    ∙ normalize-id code h

-- An entry of the code itself, with a salt, fits.
verify_password-hash_password :
    (h : Pbkdf2) (fresh salt code : Text)
    → salt ≢ []
    → verify_password h fresh code
        ((hash_password h salt code []).0)
        ((hash_password h salt code []).1)
      ≡ true
unfolding verify_password hash_password
verify_password-hash_password h fresh [] code full = absurd (full refl)
verify_password-hash_password h fresh (c ∷ salt) code full =
    (list_eq_iff (h code (c ∷ salt)) (h code (c ∷ salt))).1 refl

-- One of the codes is the given one; each has a salt.
abbrev pub Salted : List (Text × Text) → Type 0
Salted = All (λ (p : Text × Text). p.0 ≢ [])

consume_entries-hash_codes :
    (h : Pbkdf2) (fresh code : Text) (codes : List (Text × Text))
    → Salted codes
    → contains code (map (λ (p : Text × Text). p.1) codes) ≡ true
    → consume_entries h fresh code (hash_codes h codes) ≢ none
unfolding consume_entries hash_codes contains
consume_entries-hash_codes h fresh code [] salted there = absurd (ground arith)
consume_entries-hash_codes h fresh code ((salt, c) ∷ codes) salted there = ground (
  arith,
  verify_password-hash_password h fresh salt code salted.0,
  list_eq_iff c code,
  consume_entries-hash_codes h fresh code codes salted.1,
)

consume_normal-hash_codes :
    (h : Pbkdf2) (fresh username code : Text) (codes : List (Text × Text)) (store : Codes)
    → Salted codes
    → code ≢ []
    → contains code (map (λ (p : Text × Text). p.1) codes) ≡ true
    → (consume_normal h fresh username code (put username (hash_codes h codes) store)).0 ≡ true
unfolding consume_normal codes_of
consume_normal-hash_codes h fresh username [] codes store salted full there = absurd (full refl)
consume_normal-hash_codes h fresh username (c ∷ s) codes store salted full there = ground (
  arith,
  get-put_self username (hash_codes h codes) store,
  consume_entries-hash_codes h fresh (c ∷ s) codes salted there,
)

-- A code of a new set is accepted in the form in which it was shown, whatever the hash is: the codes
-- are of letters and digits, and each has a salt.
pub consume_backup_code-generate :
    (h : Pbkdf2) (fresh username code : Text) (codes : List (Text × Text)) (store : Codes)
    → Salted codes
    → IsCode code
    → code ≢ []
    → contains code (map (λ (p : Text × Text). p.1) codes) ≡ true
    → (consume_backup_code h fresh username
        (show_code code)
        ((generate_backup_codes h codes username store).1)).0
      ≡ true
unfolding consume_backup_code generate_backup_codes
consume_backup_code-generate h fresh username code codes store salted proper full there =
    ap
      (λ (t : Text).
        (consume_normal h fresh username t (put username (hash_codes h codes) store)).0)
      (normalize-show_code code proper)
    ∙ consume_normal-hash_codes h fresh username code codes store salted full there
