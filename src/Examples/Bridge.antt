-- ===== src/Examples/Bridge.antt =====
-- The registry with one folder, as the bridge reads it.
use dns_messenger.Prelude.{◌≡◌, refl, some, [], ◌∷◌, arith, contains, list_eq, All}
use dns_messenger.Prelude.Text.{text}
use dns_messenger.Dict.{put}
use dns_messenger.Relay.State.{Relay, init}
use dns_messenger.Relay.Reply.{render}
use dns_messenger.Relay.Disk.{h_disklist}
use dns_messenger.Bridge.{fetch_registry}
use dns_messenger.Bridge.Registry.{IsListable, folder_keys, fetch_registry-h_disklist}
use dns_messenger.Examples.{alice, bob, carol, alice_account}

abbrev with_folders : Relay
with_folders = record (init 1000) {
  users =
      (alice, record alice_account { disk_pubkey = some (text "Ab+/") })
      ∷ (bob, alice_account)
      ∷ (carol, record alice_account { disk_pubkey = some (text "x") })
      ∷ [];
}

listable : All (IsListable (λ x. some x)) with_folders.users
unfolding contains init
listable = (
  (refl, refl, (ground arith, refl)),
  ((refl, refl, tt), ((refl, refl, (ground arith, refl)), tt)),
)

fetch_registry-h_disklist_example :
    fetch_registry (λ x. some x) (some (render (λ _. text "") (h_disklist [] with_folders).0))
    ≡ folder_keys with_folders.users []
fetch_registry-h_disklist_example =
    fetch_registry-h_disklist (λ x. some x) (λ _. text "") [] with_folders listable

-- What the registry holds here.
two_folders : folder_keys with_folders.users [] ≡ (alice, text "Ab+/") ∷ (carol, text "x") ∷ []
unfolding folder_keys put init list_eq
two_folders = refl
