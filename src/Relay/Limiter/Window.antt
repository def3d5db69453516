-- ===== src/Relay/Limiter/Window.antt =====
-- The number of replies to one address (server.py, _rrl_allow), over a run of queries.
use dns_messenger.Prelude.{
  ℕ, ap, ◌+◌, ◌≤◌, ◌<◌, ◌≡◌, refl, Bool, true, false, ◌&&◌, List, [], ◌∷◌, ◌++◌, arith,
  if◌then◌else◌, ltb, leb, list_eq, list_eq_iff, list_nat_eq, length, keep, Option-cases,
  Bool-cases, inl, inr,
}
use dns_messenger.Prelude.Text.{Text}
use dns_messenger.Dict.{get, map_values}
use dns_messenger.Dict.Laws.{get-put, get-restrict, get-map_values}
use dns_messenger.Relay.State.{Limiter, udp_rrl_max, udp_rrl_window}
use dns_messenger.Relay.Limiter.{is_recent, is_nonempty, sweep, drop_old, hits_of, rrl_allow}

-- How many times lie in the window that begins at `a`.
abbrev pub in_window : ℕ → ℕ → Bool
in_window a t = leb a t && ltb t (a + udp_rrl_window)

abbrev pub window : ℕ → List ℕ → ℕ
window a ts = length (keep (in_window a) ts)

abbrev pub Ask : Type 0
Ask = ℕ × Text

-- The times at which an address gets a reply, in a run of queries.
unfoldable pub replies : Text → List Ask → Limiter → List ℕ
replies ip [] l = []
replies ip ((now, who) ∷ asks) l =
    let (allowed, l') = rrl_allow now who l in
    let rest = replies ip asks l' in if allowed && list_eq who ip then now ∷ rest else rest

-- The clock does not go back.
unfoldable pub rising : ℕ → List Ask → Bool
rising start [] = true
rising start ((now, who) ∷ asks) = leb start now && rising now asks

recents : ℕ → List ℕ → ℕ
unfolding keep
recents t ts = length (keep (is_recent t) ts)

recents-keep :
    (now t : ℕ) (ts : List ℕ) → now ≤ t → recents t (keep (is_recent now) ts) ≡ recents t ts
unfolding recents keep
recents-keep now t [] h = refl
recents-keep now t (x ∷ ts) h = ground (arith, recents-keep now t ts h)

recents-drop_old : (now t : ℕ) (ts : List ℕ) → now ≤ t → recents t (drop_old now ts) ≡ recents t ts
unfolding recents keep drop_old
recents-drop_old now t [] h = refl
recents-drop_old now t (x ∷ ts) h = ground (arith, recents-drop_old now t ts h)

recents-snoc : (t x : ℕ) (ts : List ℕ) → recents t (ts ++ x ∷ []) ≡ recents t (x ∷ ts)
unfolding recents keep
recents-snoc t x [] = refl
recents-snoc t x (y ∷ ts) = ground (arith, recents-snoc t x ts)

recents-le : (t : ℕ) (ts : List ℕ) → recents t ts ≤ length ts
unfolding recents keep
recents-le t [] = omega arith
recents-le t (x ∷ ts) = ground (arith, recents-le t ts)

-- The part of a window that a reply at the time `now` still falls into is recent.
window-recents : (a now : ℕ) (ts : List ℕ) → now < a + 5000 → window a ts ≤ recents now ts
unfolding recents keep
window-recents a now [] h = omega arith
window-recents a now (x ∷ ts) h = ground (arith, window-recents a now ts h)

recents-sweep :
    (now t : ℕ) (ip : Text) (l : Limiter)
    → now ≤ t
    → recents t (hits_of ip (sweep now l).hits) ≡ recents t (hits_of ip l.hits)
unfolding sweep recents keep
recents-sweep now t ip l h = elim (Option-cases (get ip l.hits)) [
  | inl new ↦ ground (
    arith,
    get-restrict is_nonempty ip (map_values (keep (is_recent now)) l.hits),
    get-map_values (keep (is_recent now)) ip l.hits,
  )
  | inr (ts, found) ↦ ground (
    arith,
    get-restrict is_nonempty ip (map_values (keep (is_recent now)) l.hits),
    get-map_values (keep (is_recent now)) ip l.hits,
    recents-keep now t ts h,
  )
]

-- The hits kept for an address count every recent reply to it.
IsCounted : Text → List ℕ → Limiter → ℕ → Type 0
IsCounted ip log l now = (t : ℕ) → now ≤ t → recents t log ≤ recents t (hits_of ip l.hits)

module _ (ip : Text) (log : List ℕ) (l : Limiter) (start now : ℕ) (who : Text)
    (h : start ≤ now) where
  IsCounted-refused :
      IsCounted ip log l start
      → (rrl_allow now who l).0 ≡ false
      → IsCounted ip log ((rrl_allow now who l).1) now
  unfolding IsCounted rrl_allow recents keep
  IsCounted-refused counted refused t later =
      let swept = (sweep now l).hits in
      let hs = drop_old now (hits_of who swept) in
      ground (
        arith,
        counted t (omega arith),
        recents-sweep now t ip l later,
        recents-drop_old now t (hits_of who swept) later,
        get-put who ip hs swept,
        list_eq_iff who ip,
      )

  IsCounted-other :
      IsCounted ip log l start
      → (rrl_allow now who l).0 ≡ true
      → list_eq who ip ≡ false
      → IsCounted ip log ((rrl_allow now who l).1) now
  unfolding IsCounted rrl_allow recents keep
  IsCounted-other counted allowed other t later =
      let swept = (sweep now l).hits in
      let hs = drop_old now (hits_of who swept) in
      ground (
        arith,
        counted t (omega arith),
        recents-sweep now t ip l later,
        get-put who ip (hs ++ now ∷ []) swept,
      )

  IsCounted-allowed :
      IsCounted ip log l start
      → (rrl_allow now who l).0 ≡ true
      → who ≡ ip
      → IsCounted ip (now ∷ log) ((rrl_allow now who l).1) now
  unfolding IsCounted rrl_allow recents keep
  IsCounted-allowed counted allowed same t later =
      let swept = (sweep now l).hits in
      let hs = drop_old now (hits_of who swept) in
      ground (
        arith,
        counted t (omega arith),
        recents-sweep now t ip l later,
        recents-drop_old now t (hits_of who swept) later,
        recents-snoc t now hs,
        get-put who ip (hs ++ now ∷ []) swept,
        list_eq_iff who ip,
      )

  -- There is room for a reply that is allowed.
  recents-allowed :
      IsCounted ip log l start
      → (rrl_allow now who l).0 ≡ true
      → who ≡ ip
      → recents now log < udp_rrl_max
  unfolding IsCounted rrl_allow
  recents-allowed counted allowed same =
      let swept = (sweep now l).hits in
      ground (
        arith,
        counted now h,
        recents-sweep now now ip l (omega arith),
        recents-drop_old now now (hits_of who swept) (omega arith),
        recents-le now (drop_old now (hits_of who swept)),
        ap (λ x. hits_of x swept) same,
      )

replies-window_from :
    (ip : Text) (asks : List Ask) (l : Limiter) (start : ℕ) (log : List ℕ)
    → IsCounted ip log l start
    → ((a : ℕ) → window a log ≤ udp_rrl_max)
    → rising start asks ≡ true
    → (a : ℕ) → window a (replies ip asks l) + window a log ≤ udp_rrl_max
unfolding replies rising keep
replies-window_from ip [] l start log counted few up a = ground (arith, few a)
replies-window_from ip ((now, who) ∷ asks) l start log counted few up a =
    let l' = (rrl_allow now who l).1 in
    let later : start ≤ now = ground arith in
    let up' : rising now asks ≡ true = ground arith in
    elim (Bool-cases ((rrl_allow now who l).0)) [
      | inr refused ↦ ground (
        arith,
        replies-window_from ip asks l' now log
            (IsCounted-refused ip log l start now who later counted refused) few up' a,
      )
      | inl allowed ↦ elim (Bool-cases (list_eq who ip)) [
        | inr other ↦ ground (
          arith,
          replies-window_from ip asks l' now log
              (IsCounted-other ip log l start now who later counted allowed other) few up' a,
        )
        | inl same ↦
            let e : who ≡ ip = (list_eq_iff who ip).0 same in
            let room = recents-allowed ip log l start now who later counted allowed e in
            let few' : (b : ℕ) → window b (now ∷ log) ≤ 20 =
              λ b. ground (arith, few b, window-recents b now log, room) in
            ground (
              arith,
              replies-window_from ip asks l' now (now ∷ log)
                  (IsCounted-allowed ip log l start now who later counted allowed e) few' up' a,
            )
      ]
    ]

-- However queries come in, from whatever addresses, with a clock that does not go back: in no window
-- of 5 seconds does one address get more than 20 replies.
pub replies-window :
    (ip : Text) (asks : List Ask) (l : Limiter) (start a : ℕ)
    → rising start asks ≡ true
    → window a (replies ip asks l) ≤ udp_rrl_max
unfolding IsCounted recents keep
replies-window ip asks l start a up =
    omega
      (arith, replies-window_from ip asks l start [] (λ t h. omega arith) (λ b. omega arith) up a)
