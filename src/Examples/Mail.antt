-- ===== src/Examples/Mail.antt =====
-- Runs of the reading of a group's mail.
use dns_messenger.Prelude.{suc, ◌≡◌, refl, List, [], ◌∷◌, ◌++◌, map, length, list_eq, contains}
use dns_messenger.Prelude.Text.{text}
use dns_messenger.Relay.State.{Message}
use dns_messenger.Relay.Reply
use dns_messenger.Relay.GroupMail.Reading.{unread, reads, reads_all}
use dns_messenger.Examples.{alice, bob}

abbrev mail : List Message
mail =
    record { sender = alice; payload = text "aaaa"; ts = 1; id = text "m1"; readers = bob ∷ [] }
    ∷ record { sender = bob; payload = text "bbbb"; ts = 2; id = text "m2"; readers = [] }
    ∷ []

reads_all_example :
    reads bob (alice ∷ bob ∷ []) (suc (length (unread bob mail))) mail
    ≡ map (λ x. Reply.gmsg (x.0) (x.1)) (unread bob mail) ++ Reply.empty ∷ []
unfolding contains list_eq
reads_all_example = reads_all bob (alice ∷ bob ∷ []) refl mail
