-- ===== src/Relay/GroupMail/Reading.antt =====
-- What a member reads of a group's mail (server.py, _h_gpoll).
use dns_messenger.Prelude.{
  ℕ, zero, suc, ◌≡◌, refl, ap, ◌∙◌, true, false, ◌||◌, none, some, List, [], ◌∷◌, ◌++◌, arith,
  if◌then◌else◌, list_eq, list_eq_iff, list_nat_eq, length, map, contains, Option-cases, Bool-cases,
  inl, inr,
}
use dns_messenger.Prelude.Text.{Text}
use dns_messenger.Prelude.Sets.{add, contains-add, contains-superset}
use dns_messenger.Relay.State.{Message}
use dns_messenger.Relay.Reply.{Reply}
use dns_messenger.Relay.GroupMail.{read_next, read_first, read_box}

abbrev pub Shown : Type 0
Shown = Text × Text

-- The messages that a user has not read, in order: the sender and the text of each.
unfoldable pub unread : Text → List Message → List Shown
unread user [] = []
unread user (m ∷ box) =
    let rest = unread user box in
    if contains user m.readers then rest else (m.sender, m.payload) ∷ rest

abbrev pub reply_of : List Shown → Reply
reply_of [] = Reply.empty
reply_of ((from, payload) ∷ rest) = Reply.gmsg from payload

abbrev pub rest_of : List Shown → List Shown
rest_of [] = []
rest_of (x ∷ rest) = rest

read_next-none :
    (user : Text) (box : List Message) → read_next user box ≡ none → unread user box ≡ []
unfolding read_next unread
read_next-none user [] h = refl
read_next-none user (m ∷ box) h = elim (Option-cases (read_next user box)) [
  | inl nothing ↦ ground (arith, read_next-none user box nothing)
  | inr ((found, box'), more) ↦ ground arith
]

-- The search marks the first unread message of the user, and leaves what others have read.
read_next-some :
    (user : Text) (box : List Message) (m : Message) (box' : List Message)
    → read_next user box ≡ some (m, box')
    → (unread user box ≡ (m.sender, m.payload) ∷ unread user box')
      × ((v : Text) → list_eq user v ≡ false → unread v box' ≡ unread v box)
unfolding read_next unread
read_next-some user [] m box' h = absurd (ground arith)
read_next-some user (x ∷ box) m box' h = elim (Bool-cases (contains user x.readers)) [
  | inr new ↦ (
    ground (arith, contains-add user user x.readers, list_eq_iff user user),
    λ v other. ground (arith, contains-add v user x.readers),
  )
  | inl old ↦ elim (Option-cases (read_next user box)) [
    | inl nothing ↦ absurd (ground arith)
    | inr ((found, rest), more) ↦
        let (same, others) = read_next-some user box found rest more in
        (ground (arith, same), λ v other. ground (arith, others v other))
  ]
]

unread-read_first :
    (user v : Text) (members : List Text) (m : Message) (box : List Message)
    → contains v members ≡ true
    → unread v (read_first user members m box) ≡ (
        if contains v m.readers || list_eq user v
        then unread v box
        else (m.sender, m.payload) ∷ unread v box)
unfolding read_first unread
unread-read_first user v members m box there =
    ground (arith, contains-superset v (add user m.readers) members, contains-add v user m.readers)

-- n requests of a user, one after another: the replies
unfoldable pub reads : Text → List Text → ℕ → List Message → List Reply
reads user members zero box = []
reads user members (suc n) box =
    let (reply, box') = read_box user members box in
    let rest = reads user members n box' in reply ∷ rest

module _ (user : Text) (members : List Text) (member : contains user members ≡ true) where
  -- One request of a member returns the first message that it has not read, and the others remain
  -- unread for it, in their order; without an unread message it returns EMPTY.
  pub unread-read_box :
      (box : List Message)
      → ((read_box user members box).0 ≡ reply_of (unread user box))
        × (unread user (read_box user members box).1 ≡ rest_of (unread user box))
  unfolding read_box unread
  unread-read_box [] = (refl, refl)
  unread-read_box (m ∷ box) = elim (Bool-cases (contains user m.readers)) [
    | inr new ↦ (
      ground arith,
      ground (arith, unread-read_first user user members m box member, list_eq_iff user user),
    )
    | inl old ↦ elim (Option-cases (read_next user (m ∷ box))) [
      | inl nothing ↦
          let e = read_next-none user (m ∷ box) nothing in (ground (arith, e), ground (arith, e))
      | inr ((found, rest), more) ↦
          let e = (read_next-some user (m ∷ box) found rest more).0 in
          (ground (arith, e), ground (arith, e))
    ]
  ]

  -- The reading of one member leaves the unread messages of every other member.
  pub unread-read_box_other :
      (v : Text) (box : List Message)
      → list_eq user v ≡ false
      → contains v members ≡ true
      → unread v (read_box user members box).1 ≡ unread v box
  unfolding read_box unread
  unread-read_box_other v [] other there = refl
  unread-read_box_other v (m ∷ box) other there = elim (Bool-cases (contains user m.readers)) [
    | inr new ↦ ground (arith, unread-read_first user v members m box there)
    | inl old ↦ elim (Option-cases (read_next user (m ∷ box))) [
      | inl nothing ↦ ground arith
      | inr ((found, rest), more) ↦
          let e = (read_next-some user (m ∷ box) found rest more).1 v other in ground (arith, e)
    ]
  ]

  reads-unread :
      (shown : List Shown) (box : List Message)
      → unread user box ≡ shown
      → reads user members (suc (length shown)) box
        ≡ map (λ x. Reply.gmsg (x.0) (x.1)) shown ++ Reply.empty ∷ []
  unfolding reads
  reads-unread [] box h = let (reply, left) = unread-read_box box in ground (arith, reply, h)
  reads-unread (x ∷ shown) box h =
      let (reply, left) = unread-read_box box in
      let next = reads-unread shown ((read_box user members box).1) (left ∙ ap rest_of h) in
      ground (arith, reply, h, next)

  -- A member that asks once more than it has unread messages gets all of them, each once and in the
  -- order of the box, and then EMPTY.
  pub reads_all :
      (box : List Message)
      → reads user members (suc (length (unread user box))) box
        ≡ map (λ x. Reply.gmsg (x.0) (x.1)) (unread user box) ++ Reply.empty ∷ []
  reads_all box = reads-unread (unread user box) box refl
