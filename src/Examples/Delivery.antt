-- ===== src/Examples/Delivery.antt =====
-- Runs of the delivery of a message in two chunks.
use dns_messenger.Prelude.{
  ℕ, zero, ◌≡◌, ◌<◌, refl, true, List, [], ◌∷◌, map, arith, contains, nat_eq, list_eq,
}
use dns_messenger.Prelude.Int.{pos}
use dns_messenger.Prelude.Text.{Text, text}
use dns_messenger.Dict.{get}
use dns_messenger.Protocol.{codec}
use dns_messenger.Relay.State.{no_mail}
use dns_messenger.Relay.Assembly.{assemble}
use dns_messenger.Relay.Assembly.Parts.{concat_from}
use dns_messenger.Relay.Assembly.Assembling.{Parcel, send_chunks, mail_with}
use dns_messenger.Relay.Assembly.Delivery.{send_chunks_deliver}
use dns_messenger.Relay.Assembly.Bounds.{IsSound, IsBounded-no_mail, assemble-IsSound}
use dns_messenger.Examples.{alice, bob}

piece_of_hi : ℕ → Text
piece_of_hi zero = text "nb"
piece_of_hi _ = text "uq"

hi : Parcel
unfolding piece_of_hi
hi = record { sender = alice; dest = bob; mid = text "m1"; total = 2; piece = piece_of_hi }

-- The second chunk first, then again, then the first one.
abbrev arrivals : List (ℕ × ℕ)
arrivals = (1000, 1) ∷ (1500, 1) ∷ (2000, 0) ∷ (2500, 1) ∷ []

all_arrive : (k : ℕ) → k < 2 → contains k (map (λ c. c.1) arrivals) ≡ true
unfolding contains
all_arrive k lt = ground arith

send_chunks_deliver_example :
    (now : ℕ) × ((send_chunks hi arrivals no_mail []).0.mail ≡ mail_with hi (104 ∷ 105 ∷ []) now [])
unfolding hi piece_of_hi codec concat_from get list_eq
send_chunks_deliver_example =
    send_chunks_deliver hi (104 ∷ 105 ∷ []) refl arrivals no_mail [] (omega arith) (omega arith)
      refl refl (omega arith) (omega arith) (omega arith) all_arrive

assemble-IsSound_example :
    IsSound (assemble 1000 (text "m1") (pos 0) (pos 1) (text "nbuq") alice bob no_mail [])
assemble-IsSound_example =
    assemble-IsSound 1000 (text "m1") (text "nbuq") alice bob IsBounded-no_mail [] (pos 0) (pos 1)
