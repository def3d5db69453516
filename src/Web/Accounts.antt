-- ===== src/Web/Accounts.antt =====
-- Passwords and passkeys (web_client.py, _hash_password to remove_webauthn_cred).
use dns_messenger.Prelude.{
  ℕ, ◌==◌, Bool, true, false, not, none, some, List, [], ◌∷◌, ◌++◌, if◌then◌else◌, length, take,
  list_eq, list_nat_eq, keep,
}
use dns_messenger.Prelude.Text.{Text}
use dns_messenger.Dict.{Dict, get, put}

-- pbkdf2_hmac('sha256', password, salt, 100_000).hex()
abbrev pub Pbkdf2 : Type 0
Pbkdf2 = Text → Text → Text

-- (hash, salt); `fresh` is the salt that secrets.token_hex gives.
unfoldable pub hash_password : Pbkdf2 → Text → Text → Text → Text × Text
hash_password h fresh password [] = (h password fresh, fresh)
hash_password h fresh password (c ∷ salt) = (h password (c ∷ salt), c ∷ salt)

unfoldable pub verify_password : Pbkdf2 → Text → Text → Text → Text → Bool
unfolding hash_password
verify_password h fresh password stored_hash salt =
    list_eq ((hash_password h fresh password salt).0) stored_hash

pub record Login : Type 0 where
  pub hash : Text
  pub salt : Text

unfoldable pub save_account : Text → Text → Text → Dict Text Login → Dict Text Login
save_account username hash salt accounts =
    put username (record { hash = hash; salt = salt }) accounts

pub record Passkey : Type 0 where
  pub id : Text
  pub public_key : Text
  pub sign_count : ℕ
  pub label : Text
  pub added_ts : ℕ

-- data.get(username, [])
unfoldable pub user_webauthn_creds : Text → Dict Text (List Passkey) → List Passkey
user_webauthn_creds username store = elim (get username store) [ none ↦ [] | some creds ↦ creds ]

unfoldable pub save_webauthn_cred :
    ℕ → Text → Text → Text → ℕ → Text → Dict Text (List Passkey) → Dict Text (List Passkey)
unfolding user_webauthn_creds
save_webauthn_cred now username id public_key sign_count label store =
    put username
      (user_webauthn_creds username store
        ++ record {
          id = id;
          public_key = public_key;
          sign_count = sign_count;
          label = take 60 label;
          added_ts = now;
        }
          ∷ [])
      store

-- The loop stops at the first passkey with the id.
unfoldable pub set_count : Text → ℕ → List Passkey → List Passkey
set_count id count [] = []
set_count id count (c ∷ creds) =
    let rest = set_count id count creds in
    if list_eq c.id id then record c { sign_count = count } ∷ creds else c ∷ rest

unfoldable pub update_webauthn_sign_count :
    Text → Text → ℕ → Dict Text (List Passkey) → Dict Text (List Passkey)
unfolding set_count
update_webauthn_sign_count username id count store = elim (get username store) [
  | none ↦ store
  | some creds ↦ put username (set_count id count creds) store
]

unfoldable pub remove_webauthn_cred :
    Text → Text → Dict Text (List Passkey) → Bool × Dict Text (List Passkey)
unfolding user_webauthn_creds
remove_webauthn_cred username id store =
    let creds = user_webauthn_creds username store in
    let remaining = keep (λ c. not (list_eq c.id id)) creds in
    if length remaining == length creds
    then (false, store)
    else (true, put username remaining store)
