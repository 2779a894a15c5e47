-- ===== src/Trade/Accepting.antt =====
-- Accepting a trade keeps the world of source/src/game.cpp consistent; what a transfer does.
use otg_premium_version.Common.{
  ℕ, ◌&&◌, ◌||◌, not, Option, none, some, ◌==◌, if◌then◌else◌, ◌≡◌, refl, arith, List, [], ◌∷◌,
  Bool-cases, Option-cases, inl, inr, ap,
}
use otg_premium_version.Trade.{
  trade_accept, trade_transfer, is_acknowledge, is_accept, is_initiated, Trader, World, points_to,
  find, free, release,
}
use otg_premium_version.Trade.Accept.{
  Answers, Outcome, done, null_item, exchange, is_missing, set_trade_state, transfer, accept_with,
  player_accept_trade,
}
use otg_premium_version.Trade.Consistency.{IsConsistent, count}
use otg_premium_version.Trade.Closing.{
  trader-release, find-release, due, due-release, references-release, ended-IsConsistent,
  close-IsConsistent,
}

accepted-IsConsistent :
    (player partner : ℕ) (w : World)
    → IsConsistent w
    → (w.trader player).trade_partner ≡ some partner
    → IsConsistent (set_trade_state player trade_accept w)
unfolding set_trade_state
accepted-IsConsistent player partner w c p = record {
  idle = λ a. ground (arith, c.idle a);
  bare = λ a. ground (arith, c.bare a);
  busy = λ a. ground (arith, c.busy a);
  paired = λ a b. ground (arith, c.paired a b);
  apart = λ a. ground (arith, c.apart a);
  asked = λ a. ground (arith, c.asked a);
  settled = λ a. ground (arith, c.settled a);
  held = λ a i. ground (arith, c.held a i);
  owned = λ a i. ground (arith, c.owned a i);
  counted = c.counted;
}

-- A transfer that moves items changes no more than where they are.
kept-exchange :
    (a : Answers) (player partner : ℕ) (o1 o2 : Option ℕ) (w : World)
    → ((exchange a player partner o1 o2 w).trader ≡ w.trader)
      × ((exchange a player partner o1 o2 w).trade_items ≡ w.trade_items)
      × ((exchange a player partner o1 o2 w).references ≡ w.references)
      × ((exchange a player partner o1 o2 w).to_release ≡ w.to_release)
unfolding exchange
kept-exchange a player partner none o2 w = (refl, refl, refl, refl)
kept-exchange a player partner (some i) none w = (refl, refl, refl, refl)
kept-exchange a player partner (some i) (some j) w =
    (ground arith, ground arith, ground arith, ground arith)

abbrev marked : ℕ → ℕ → World → World
marked player partner w =
    set_trade_state partner trade_transfer (set_trade_state player trade_transfer w)

module _ (a : Answers) (player partner : ℕ) (w : World) (c : IsConsistent w)
    (p : (w.trader player).trade_partner ≡ some partner) where
  abbrev item1 : Option ℕ
  item1 = (w.trader player).trade_item

  abbrev item2 : Option ℕ
  item2 = (w.trader partner).trade_item

  abbrev freed : World
  freed = release item2 (release item1 (marked player partner w))

  abbrev moved : World
  moved = exchange a player partner item1 item2 freed

  transfer-traders :
      (b : ℕ)
      → (transfer a player partner w).trader b
        ≡ (if player == b then free else if partner == b then free else w.trader b)
  unfolding transfer set_trade_state
  transfer-traders b = ground (
    arith,
    ap (λ (t : ℕ → Trader). t b) (kept-exchange a player partner item1 item2 freed).0,
    trader-release item2 (release item1 (marked player partner w)) b,
    trader-release item1 (marked player partner w) b,
  )

  transfer-items :
      (i : ℕ)
      → find i (transfer a player partner w).trade_items
        ≡ (if points_to i item1 || points_to i item2 then none else find i w.trade_items)
  unfolding transfer set_trade_state
  transfer-items i = ground (
    arith,
    ap (find i) (kept-exchange a player partner item1 item2 freed).1,
    find-release item2 (release item1 (marked player partner w)) i,
    find-release item1 (marked player partner w) i,
  )

  transfer-counts :
      (i : ℕ) → (transfer a player partner w).references i ≡ due (transfer a player partner w) i
  unfolding transfer set_trade_state
  transfer-counts i = ground (
    arith,
    ap (find i) (kept-exchange a player partner item1 item2 freed).1,
    ap (λ (r : ℕ → ℕ). r i) (kept-exchange a player partner item1 item2 freed).2,
    ap (count i) (kept-exchange a player partner item1 item2 freed).3,
    due-release item2 (release item1 (marked player partner w)) i,
    due-release item1 (marked player partner w) i,
    references-release item2 (release item1 (marked player partner w)) i,
    references-release item1 (marked player partner w) i,
    c.counted i,
  )

  transfer-IsConsistent : IsConsistent (transfer a player partner w)
  transfer-IsConsistent =
      ended-IsConsistent player partner w (transfer a player partner w) c (λ b. ground arith)
        (λ b. ground (arith, c.paired player partner)) transfer-traders transfer-items
        transfer-counts

-- What holds of the world that an outcome leaves, if it leaves one.
abbrev pub Ends : (World → Type 0) → Outcome → Type 0
Ends P (done w) = P w
Ends P null_item = Unit {0}

accept_with-IsConsistent :
    (a : Answers) (player partner : ℕ) (w : World)
    → IsConsistent w
    → (w.trader player).trade_partner ≡ some partner
    → Ends IsConsistent (accept_with a player partner w)
unfolding accept_with
accept_with-IsConsistent a player partner w c p =
    elim (Bool-cases (is_accept (w.trader partner).trade_state)) [
      | inr e ↦ rw (e, accept_with) c
      | inl e ↦
          let missing =
            is_missing (w.trader player).trade_item || is_missing (w.trader partner).trade_item in
          elim (Bool-cases (a.event_registered && missing)) [
            | inl m ↦ rw (e, accept_with, m) tt
            | inr m ↦ elim (Bool-cases (a.event_registered && not a.event_agrees)) [
              | inl r ↦ rw (e, accept_with, m, r) (close-IsConsistent player w c)
              | inr r ↦ rw (e, accept_with, m, r) (transfer-IsConsistent a player partner w c p)
            ]
          ]
    ]

pub accept_trade-IsConsistent :
    (a : Answers) (player : ℕ) (w : World)
    → IsConsistent w
    → Ends IsConsistent (player_accept_trade a player w)
unfolding player_accept_trade set_trade_state
accept_trade-IsConsistent a player w c =
    elim (Bool-cases (
      is_acknowledge (w.trader player).trade_state || is_initiated (w.trader player).trade_state)) [
        | inr e ↦ rw (e, player_accept_trade) c
        | inl e ↦ elim (Option-cases (w.trader player).trade_partner) [
          | inl n ↦ rw (e, player_accept_trade, n) c
          | inr (partner, n) ↦ elim (Bool-cases a.reachable) [
            | inr r ↦ rw (e, player_accept_trade, n, r) c
            | inl r ↦
                rw (e, player_accept_trade, n, r)
                  (accept_with-IsConsistent a player partner (set_trade_state player trade_accept w)
                    (accepted-IsConsistent player partner w c n) (ground arith))
          ]
        ]
      ]

-- The calls that a trade makes of two items, if all tests before them pass.
abbrev pub moves_of : Answers → ℕ → ℕ → ℕ → ℕ → List (ℕ × ℕ)
moves_of a player partner i j =
    if a.add1 && a.add2 && a.remove1 && a.remove2
    then if a.move1 then (j, player) ∷ (i, partner) ∷ [] else (i, partner) ∷ []
    else []
