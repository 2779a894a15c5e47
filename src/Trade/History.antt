-- ===== src/Trade/History.antt =====
-- Histories of the trade functions of source/src/game.cpp and player.cpp.
use otg_premium_version.Common.{
  ℕ, ◌+◌, ◌-◌, Bool, true, false, ◌&&◌, ◌||◌, not, none, some, List, [], ◌∷◌, ◌==◌, ◌≡◌, refl,
  arith, Option-cases, inl, inr, if_keeps, ltb,
}
use otg_premium_version.Trade.{
  trade_accept, is_initiated, is_accept, is_none, is_acknowledge, is_transfer, World, find, free,
  update, internal_start_trade, internal_close_trade, cleared, cleared_partner,
}
use otg_premium_version.Trade.Requests.{Request, is_traded, offer, player_request_trade}
use otg_premium_version.Trade.Accept.{
  Answers, Outcome, done, null_item, player_accept_trade, check_trade_state, leave, cleanup,
  drop_references, set_trade_state, accept_with, is_missing,
}
use otg_premium_version.Trade.Entries.{find-is_traded}
use otg_premium_version.Trade.Consistency.{IsConsistent, count}
use otg_premium_version.Trade.Starting.{start-IsConsistent, start_idle}
use otg_premium_version.Trade.Closing.{
  close-IsConsistent, internal_close_trade_lem, trader-cleared, find-cleared,
}
use otg_premium_version.Trade.Accepting.{Ends, accept_trade-IsConsistent}

-- The requests of clients and the events of the game that reach the trade.
pub data Action : Type 0 where
  requests : Request → Action
  accepts : Answers → (player : ℕ) → Action
  closes : (player : ℕ) → Action
  removes : (encloses : ℕ → Bool) → (player item : ℕ) → Action
  leaves : (player : ℕ) → Action
  recovers : (player : ℕ) → Action
  cleans : Action

unfoldable pub step : Action → World → Outcome
step (requests r) w = done (player_request_trade r w)
step (accepts a player) w = player_accept_trade a player w
step (closes player) w = done (internal_close_trade player w)
step (removes encloses player item) w = done (check_trade_state encloses player item w)
step (leaves player) w = done (leave player w)
step (recovers player) w = done (record w { exhausted = update w.exhausted player false })
step cleans w = done (cleanup w)

-- Nothing follows a null item.
abbrev pub and_then : Outcome → (World → Outcome) → Outcome
and_then (done w) k = k w
and_then null_item k = null_item

unfoldable pub run : List Action → World → Outcome
unfolding step
run [] w = done w
run (e ∷ es) w = and_then (step e w) (run es)

abbrev pub start : World
start = record {
  trader = λ a. free;
  trade_items = [];
  references = λ i. 0;
  to_release = [];
  exhausted = λ a. false;
  moves = [];
}

pub start-world_IsConsistent : IsConsistent start
unfolding find count
start-world_IsConsistent = record {
  idle = λ a h. refl;
  bare = λ a h. refl;
  busy = λ a h. refl;
  paired = λ a b h. ground arith;
  apart = λ a. refl;
  asked = λ a h. refl;
  settled = λ a. refl;
  held = λ a i h. ground arith;
  owned = λ a i h. ground arith;
  counted = λ i. refl;
}

exhausted-IsConsistent :
    (f : ℕ → Bool) (w : World) → IsConsistent w → IsConsistent (record w { exhausted = f })
exhausted-IsConsistent f w c = record {
  idle = c.idle;
  bare = c.bare;
  busy = c.busy;
  paired = c.paired;
  apart = c.apart;
  asked = c.asked;
  settled = c.settled;
  held = c.held;
  owned = c.owned;
  counted = c.counted;
}

offer-IsConsistent :
    (r : Request) (item : ℕ) (w : World)
    → IsConsistent w
    → (r.partner == r.player) ≡ false
    → IsConsistent (offer r item w)
unfolding offer
offer-IsConsistent r item w c two = if_keeps IsConsistent (not r.tradable) c λ _.
    if_keeps IsConsistent (not r.same_floor) c λ _. if_keeps IsConsistent (not r.beside) c λ _.
      if_keeps IsConsistent (is_traded r item w.trade_items) c λ e.
        if_keeps IsConsistent (r.is_container item && ltb 100 (r.holding_count + 1)) c λ _.
          if_keeps IsConsistent (not r.event_agrees) c λ _.
            start-IsConsistent r.player r.partner item w c two
              (find-is_traded r item w.trade_items e)

request-IsConsistent :
    (r : Request) (w : World) → IsConsistent w → IsConsistent (player_request_trade r w)
unfolding player_request_trade
request-IsConsistent r w c = if_keeps IsConsistent (not r.player_found) c λ _.
    if_keeps IsConsistent (not r.partner_found || r.partner == r.player) c λ two.
      if_keeps IsConsistent (w.exhausted r.player) c λ _.
        let c1 = exhausted-IsConsistent (update w.exhausted r.player true) w c in
        if_keeps IsConsistent (not r.near) c1 λ _. if_keeps IsConsistent (not r.reachable) c1 λ _.
          elim (Option-cases r.thing) [
            | inl n ↦ rw n c1
            | inr (item, n) ↦ rw n (
                offer-IsConsistent r item
                  (record w { exhausted = update w.exhausted r.player true }) c1 (ground arith))
          ]

check-IsConsistent :
    (encloses : ℕ → Bool) (player item : ℕ) (w : World)
    → IsConsistent w
    → IsConsistent (check_trade_state encloses player item w)
unfolding check_trade_state
check-IsConsistent encloses player item w c = elim (Option-cases (w.trader player).trade_item) [
  | inl n ↦ rw (n, check_trade_state) c
  | inr (i, n) ↦
      rw (n, check_trade_state)
        (if_keeps IsConsistent (is_transfer (w.trader player).trade_state) c λ _.
          if_keeps IsConsistent (i == item || encloses i) (close-IsConsistent player w c) λ _. c)
]

leave-IsConsistent : (player : ℕ) (w : World) → IsConsistent w → IsConsistent (leave player w)
unfolding leave
leave-IsConsistent player w c = elim (Option-cases (w.trader player).trade_partner) [
  | inl n ↦ rw (n, leave) c
  | inr (p, n) ↦ rw (n, leave) (close-IsConsistent player w c)
]

count_references :
    (is : List ℕ) (refs : ℕ → ℕ) (i : ℕ) → drop_references is refs i ≡ refs i - count i is
unfolding drop_references count
count_references [] refs i = omega arith
count_references (j ∷ js) refs i =
    ground (arith, count_references js (update refs j (refs j - 1)) i)

cleanup-IsConsistent : (w : World) → IsConsistent w → IsConsistent (cleanup w)
unfolding cleanup count
cleanup-IsConsistent w c = record {
  idle = c.idle;
  bare = c.bare;
  busy = c.busy;
  paired = c.paired;
  apart = c.apart;
  asked = c.asked;
  settled = c.settled;
  held = c.held;
  owned = c.owned;
  counted = λ i. omega (arith, count_references w.to_release w.references i, c.counted i);
}

step-IsConsistent : (e : Action) (w : World) → IsConsistent w → Ends IsConsistent (step e w)
unfolding step
step-IsConsistent (requests r) w c = request-IsConsistent r w c
step-IsConsistent (accepts a player) w c = accept_trade-IsConsistent a player w c
step-IsConsistent (closes player) w c = close-IsConsistent player w c
step-IsConsistent (removes encloses player item) w c = check-IsConsistent encloses player item w c
step-IsConsistent (leaves player) w c = leave-IsConsistent player w c
step-IsConsistent (recovers player) w c =
    exhausted-IsConsistent (update w.exhausted player false) w c
step-IsConsistent cleans w c = cleanup-IsConsistent w c

Ends-and_then :
    (P : World → Type 0) (o : Outcome) (k : World → Outcome)
    → Ends P o
    → ((w : World) → P w → Ends P (k w))
    → Ends P (and_then o k)
Ends-and_then P (done w) k h keep = keep w h
Ends-and_then P null_item k h keep = tt

run-IsConsistent : (es : List Action) (w : World) → IsConsistent w → Ends IsConsistent (run es w)
unfolding run
run-IsConsistent [] w c = c
run-IsConsistent (e ∷ es) w c =
    Ends-and_then IsConsistent (step e w) (run es) (step-IsConsistent e w c) (run-IsConsistent es)

-- After any history that does not end in a null item, partners name each other, who does not trade
-- has no partner and no item, the map holds exactly the items on offer with who offers them, and
-- each item has one reference for its entry in the map and one for each time it waits for release.
pub run-start-trades : (es : List Action) → Ends IsConsistent (run es start)
run-start-trades es = run-IsConsistent es start start-world_IsConsistent

accept_asked :
    (a : Answers) (player partner : ℕ) (w : World)
    → is_acknowledge (w.trader partner).trade_state ≡ true
    → (w.trader partner).trade_partner ≡ some player
    → is_initiated (w.trader player).trade_state ≡ true
    → (partner == player) ≡ false
    → a.reachable ≡ true
    → player_accept_trade a partner w ≡ done (set_trade_state partner trade_accept w)
unfolding player_accept_trade accept_with set_trade_state
accept_asked a player partner w h p i two r = ground arith

accept_missing :
    (a : Answers) (player partner : ℕ) (w : World)
    → is_initiated (w.trader player).trade_state ≡ true
    → (w.trader player).trade_partner ≡ some partner
    → (partner == player) ≡ false
    → is_accept (w.trader partner).trade_state ≡ true
    → (w.trader partner).trade_item ≡ none
    → a.reachable ≡ true
    → a.event_registered ≡ true
    → player_accept_trade a player w ≡ null_item
unfolding player_accept_trade accept_with set_trade_state is_missing
accept_missing a player partner w h p two t n r e = ground arith

-- Whoever is asked for a trade may accept without offering an item; where the script is registered
-- and the two reach each other, the script is then called with a null item when the asker accepts.
pub accept_trade-null_item :
    (a : Answers) (player partner item : ℕ) (w : World)
    → IsConsistent w
    → is_none (w.trader player).trade_state ≡ true
    → is_none (w.trader partner).trade_state ≡ true
    → (partner == player) ≡ false
    → a.reachable ≡ true
    → a.event_registered ≡ true
    → and_then
        (player_accept_trade a partner (internal_start_trade player partner item w).0)
        (player_accept_trade a player)
      ≡ null_item
unfolding set_trade_state
accept_trade-null_item a player partner item w c h k two r e =
    let asked = start_idle player partner item w c h k two in
    let w1 = (internal_start_trade player partner item w).0 in
    rw (accept_asked a player partner w1 (ground arith) (ground arith) (ground arith) two r) (
      accept_missing a player partner (set_trade_state partner trade_accept w1) (ground arith)
        (ground arith) two (ground arith) (ground arith) r e)

-- Closing a trade in a consistent world frees the player and the partner, and the item of each is
-- no longer in the map.
pub close-frees :
    (player partner : ℕ) (w : World)
    → IsConsistent w
    → (w.trader player).trade_partner ≡ some partner
    → ((internal_close_trade player w).trader player ≡ free)
      × ((internal_close_trade player w).trader partner ≡ free)
      × ((i : ℕ)
          → (w.trader player).trade_item ≡ some i
          → find i (internal_close_trade player w).trade_items ≡ none)
      × ((i : ℕ)
          → (w.trader partner).trade_item ≡ some i
          → find i (internal_close_trade player w).trade_items ≡ none)
unfolding cleared_partner
close-frees player partner w c p =
    rw (internal_close_trade_lem player w c, p)
      (
        ground (
          arith,
          trader-cleared player w player,
          trader-cleared partner (cleared player w) player,
        ),
        ground (arith, trader-cleared partner (cleared player w) partner),
        λ i h. ground (arith, find-cleared player w i, find-cleared partner (cleared player w) i),
        λ i h. ground (
          arith,
          find-cleared player w i,
          find-cleared partner (cleared player w) i,
          trader-cleared player w partner,
          c.apart player,
        ),
      )
