-- ===== src/Trade/Accept.antt =====
-- Accepting a trade: playerAcceptTrade of source/src/game.cpp; and the callers of
-- internalCloseTrade in source/src/player.cpp.
use otg_premium_version.Common.{
  ℕ, ◌-◌, Bool, true, false, ◌&&◌, ◌||◌, not, Option, none, some, List, [], ◌∷◌, ◌==◌,
  if◌then◌else◌,
}
use otg_premium_version.Trade.{
  TradeState, trade_accept, trade_transfer, is_initiated, is_accept, is_acknowledge, is_transfer,
  World, update, free, release, internal_close_trade,
}

-- What playerAcceptTrade asks: the event script, which takes the items only where it is registered,
-- the tests of internalAddItem and internalRemoveItem, and whether the first call of internalMoveItem
-- answers RETURNVALUE_NOERROR.
pub record Answers : Type 0 where
  pub reachable : Bool
  pub event_registered : Bool
  pub event_agrees : Bool
  pub add1 : Bool
  pub add2 : Bool
  pub remove1 : Bool
  pub remove2 : Bool
  pub move1 : Bool

-- `null_item` is the script's call with a null pointer for an item, which it reads.
pub data Outcome : Type 0 where
  done : World → Outcome
  null_item : Outcome

-- internalAddItem refuses a null item, so nothing moves without both. The answer of the second move
-- is not looked at. What internalMoveItem does with an item, of which it may move a part or a copy even
-- where it answers with an error, is left out: the calls are noted.
unfoldable pub exchange : Answers → ℕ → ℕ → Option ℕ → Option ℕ → World → World
exchange a player partner (some item1) (some item2) w =
    if a.add1 && a.add2 && a.remove1 && a.remove2
    then (let w1 = record w { moves = (item1, partner) ∷ w.moves } in
        if a.move1 then record w1 { moves = (item2, player) ∷ w1.moves } else w1)
    else w
exchange a player partner _ _ w = w

unfoldable pub is_missing : Option ℕ → Bool
is_missing none = true
is_missing (some i) = false

unfoldable pub set_trade_state : ℕ → TradeState → World → World
set_trade_state player s w = record w {
  trader = update w.trader player (record (w.trader player) { trade_state = s });
}

-- Both have accepted.
unfoldable pub transfer : Answers → ℕ → ℕ → World → World
unfolding exchange release set_trade_state
transfer a player partner w =
    let item1 = (w.trader player).trade_item in
    let item2 = (w.trader partner).trade_item in
    let w1 = set_trade_state partner trade_transfer (set_trade_state player trade_transfer w) in
    let w2 = release item2 (release item1 w1) in
    let w3 = exchange a player partner item1 item2 w2 in
    record w3 { trader = update (update w3.trader player free) partner free }

-- From the answer of the partner on.
unfoldable pub accept_with : Answers → ℕ → ℕ → World → Outcome
unfolding transfer is_missing internal_close_trade
accept_with a player partner w =
    if not (is_accept (w.trader partner).trade_state)
    then done w
    else if a.event_registered
        && (is_missing (w.trader player).trade_item || is_missing (w.trader partner).trade_item)
    then null_item
    else if a.event_registered && not a.event_agrees
    then done (internal_close_trade player w)
    else done (transfer a player partner w)

unfoldable pub player_accept_trade : Answers → ℕ → World → Outcome
unfolding accept_with set_trade_state
player_accept_trade a player w =
    let mine = w.trader player in
    if not (is_acknowledge mine.trade_state || is_initiated mine.trade_state)
    then done w
    else elim (mine.trade_partner) [
      | none ↦ done w
      | some partner ↦
          if not a.reachable
          then done w
          else accept_with a player partner (set_trade_state player trade_accept w)
    ]

-- Player::checkTradeState of an item; `encloses` tells whether the item lies in the traded one.
unfoldable pub check_trade_state : (ℕ → Bool) → ℕ → ℕ → World → World
unfolding internal_close_trade
check_trade_state encloses player item w = elim ((w.trader player).trade_item) [
  | none ↦ w
  | some i ↦
      if is_transfer (w.trader player).trade_state
      then w
      else if i == item || encloses i
      then internal_close_trade player w
      else w
]

-- Player::onCreatureDisappear closes the trade of a player who goes.
unfoldable pub leave : ℕ → World → World
unfolding internal_close_trade
leave player w = elim ((w.trader player).trade_partner) [
  | none ↦ w
  | some p ↦ internal_close_trade player w
]

-- The part of Game::cleanup for items.
unfoldable pub drop_references : List ℕ → (ℕ → ℕ) → ℕ → ℕ
drop_references [] refs = refs
drop_references (i ∷ is) refs = drop_references is (update refs i (refs i - 1))

unfoldable pub cleanup : World → World
unfolding drop_references
cleanup w = record w { references = drop_references w.to_release w.references; to_release = [] }
