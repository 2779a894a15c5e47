-- ===== src/Trade/Requests.antt =====
-- Asking for a trade: playerRequestTrade of source/src/game.cpp.
use otg_premium_version.Common.{
  ℕ, ◌+◌, Bool, true, false, ◌&&◌, ◌||◌, not, Option, none, some, List, [], ◌∷◌, ◌==◌,
  if◌then◌else◌, ltb,
}
use otg_premium_version.Trade.{World, update, internal_start_trade}

-- What playerRequestTrade asks of the game before it starts a trade. `holds` is isHoldingItem, with
-- `is_container` for getContainer.
pub record Request : Type 0 where
  pub player : ℕ
  pub partner : ℕ
  pub player_found : Bool
  pub partner_found : Bool
  pub near : Bool
  pub reachable : Bool
  pub thing : Option ℕ
  pub tradable : Bool
  pub same_floor : Bool
  pub beside : Bool
  pub is_container : ℕ → Bool
  pub holds : ℕ → ℕ → Bool
  pub holding_count : ℕ
  pub event_agrees : Bool

-- Whether the item, what it holds or what holds it is being traded already: the loops over
-- `tradeItems`.
unfoldable pub is_traded : Request → ℕ → List (ℕ × ℕ) → Bool
is_traded r item [] = false
is_traded r item ((k, p) ∷ m) =
    item == k
    || (r.is_container item && r.holds item k)
    || (r.is_container k && r.holds k item)
    || is_traded r item m

-- From the thing that was found on.
unfoldable pub offer : Request → ℕ → World → World
unfolding is_traded internal_start_trade
offer r item w =
    if not r.tradable
    then w
    else if not r.same_floor
    then w
    else if not r.beside
    then w
    else if is_traded r item w.trade_items
    then w
    else if r.is_container item && ltb 100 (r.holding_count + 1)
    then w
    else if not r.event_agrees
    then w
    else (internal_start_trade r.player r.partner item w).0

-- Where the item is out of reach the player walks and asks again, which is another request.
unfoldable pub player_request_trade : Request → World → World
unfolding offer
player_request_trade r w =
    if not r.player_found
    then w
    else if not r.partner_found || r.partner == r.player
    then w
    else if w.exhausted r.player
    then w
    else let w1 = record w { exhausted = update w.exhausted r.player true } in
      if not r.near
      then w1
      else if not r.reachable
      then w1
      else elim (r.thing) [ none ↦ w1 | some item ↦ offer r item w1 ]
