-- ===== src/Trade.antt =====
-- The trade of items between two players: playerRequestTrade, internalStartTrade,
-- playerAcceptTrade, internalCloseTrade and their callers in source/src/game.cpp and player.cpp.
-- Players and items are told apart by numbers in place of pointers. The world holds what these
-- functions write; what they ask the map, the cylinders and the event scripts is an argument.
-- `tradeItems`, a std::map, is a list with one entry for each item.
pub mod Requests
pub mod Accept
pub mod Entries
pub mod Consistency
pub mod Closing
pub mod Starting
pub mod Accepting
pub mod History
mod Tests
use otg_premium_version.Common.{
  ℕ, zero, suc, ◌+◌, ◌-◌, Bool, true, false, ◌&&◌, ◌||◌, not, Option, none, some, List, [], ◌∷◌,
  ◌++◌, ◌==◌, if◌then◌else◌, ltb,
}

pub data TradeState : Type 0 where
  trade_none : TradeState
  trade_initiated : TradeState
  trade_accept : TradeState
  trade_acknowledge : TradeState
  trade_transfer : TradeState

-- `state == TRADE_…`, for each state.
abbrev pub is_none : TradeState → Bool
is_none trade_none = true
is_none _ = false

abbrev pub is_initiated : TradeState → Bool
is_initiated trade_initiated = true
is_initiated _ = false

abbrev pub is_accept : TradeState → Bool
is_accept trade_accept = true
is_accept _ = false

abbrev pub is_acknowledge : TradeState → Bool
is_acknowledge trade_acknowledge = true
is_acknowledge _ = false

abbrev pub is_transfer : TradeState → Bool
is_transfer trade_transfer = true
is_transfer _ = false

-- The fields of Player that belong to the trade.
pub record Trader : Type 0 where
  pub trade_state : TradeState
  pub trade_partner : Option ℕ
  pub trade_item : Option ℕ

-- `references` counts what the trade adds to and takes from an item's reference counter, and
-- `moves` is the calls of internalMoveItem, the last first: the item and to which player.
pub record World : Type 0 where
  pub trader : ℕ → Trader
  pub trade_items : List (ℕ × ℕ)
  pub references : ℕ → ℕ
  pub to_release : List ℕ
  pub exhausted : ℕ → Bool
  pub moves : List (ℕ × ℕ)

abbrev pub update {ℓ} : {A : Type ℓ} → (ℕ → A) → ℕ → A → ℕ → A
update f k v i = if k == i then v else f i

-- `pointer == player`
abbrev pub points_to : ℕ → Option ℕ → Bool
points_to p none = false
points_to p (some q) = q == p

-- `tradeItems.find(item)`
pub find : ℕ → List (ℕ × ℕ) → Option ℕ
find i [] = none
find i ((k, p) ∷ m) = if k == i then some p else find i m

-- `tradeItems[item] = player`
pub set : ℕ → ℕ → List (ℕ × ℕ) → List (ℕ × ℕ)
set i p [] = (i, p) ∷ []
set i p ((k, q) ∷ m) = if k == i then (k, p) ∷ m else (k, q) ∷ set i p m

-- `tradeItems.erase(it)`
pub erase : ℕ → List (ℕ × ℕ) → List (ℕ × ℕ)
erase i [] = []
erase i ((k, p) ∷ m) = if k == i then erase i m else (k, p) ∷ erase i m

pub internal_start_trade : ℕ → ℕ → ℕ → World → World × Bool
unfolding set
internal_start_trade player partner item w =
    let mine = w.trader player in
    let theirs = w.trader partner in
    if not (is_none mine.trade_state)
      && not (is_acknowledge mine.trade_state && points_to partner mine.trade_partner)
    then (w, false)
    else if not (is_none theirs.trade_state) && not (points_to player theirs.trade_partner)
    then (w, false)
    else let started = update w.trader player (record {
      trade_state = trade_initiated;
      trade_partner = some partner;
      trade_item = some item;
    }) in
      (
        record w {
          trader =
              if is_none (started partner).trade_state
              then update started partner (record (started partner) {
                trade_state = trade_acknowledge;
                trade_partner = some player;
              })
              else started;
          trade_items = set item player w.trade_items;
          references = update w.references item (w.references item + 1);
        },
        true,
      )

-- `ReleaseItem(it->first); tradeItems.erase(it)`, where the item is found.
pub release : Option ℕ → World → World
unfolding find erase
release none w = w
release (some i) w = elim (find i w.trade_items) [
  | none ↦ w
  | some p ↦ record w { trade_items = erase i w.trade_items; to_release = w.to_release ++ i ∷ [] }
]

abbrev pub free : Trader
free = record { trade_state = trade_none; trade_partner = none; trade_item = none }

-- What internalCloseTrade does to each of the two.
pub cleared : ℕ → World → World
unfolding release
cleared player w =
    let w1 = release (w.trader player).trade_item w in
    record w1 { trader = update w1.trader player free }

pub is_transferring : Option ℕ → World → Bool
is_transferring none w = false
is_transferring (some p) w = is_transfer (w.trader p).trade_state

pub cleared_partner : Option ℕ → World → World
unfolding cleared
cleared_partner none w = w
cleared_partner (some p) w = cleared p w

pub internal_close_trade : ℕ → World → World
unfolding is_transferring cleared cleared_partner
internal_close_trade player w =
    let partner = (w.trader player).trade_partner in
    if is_transferring partner w || is_transfer (w.trader player).trade_state
    then w
    else cleared_partner partner (cleared player w)
