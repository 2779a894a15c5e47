-- ===== src/Trade/Starting.antt =====
-- Starting a trade keeps the world of source/src/game.cpp consistent.
use otg_premium_version.Common.{ℕ, ◌+◌, true, false, none, some, ◌==◌, ◌≡◌, arith}
use otg_premium_version.Trade.{
  trade_initiated, trade_acknowledge, is_none, World, find, internal_start_trade,
}
use otg_premium_version.Trade.Entries.{find-set}
use otg_premium_version.Trade.Consistency.{IsConsistent, count, entry}

module _ (player partner item : ℕ) (w : World) (c : IsConsistent w)
    (two : (partner == player) ≡ false) (new : find item w.trade_items ≡ none) where
  start-idle :
      (a : ℕ)
      → is_none ((internal_start_trade player partner item w).0.trader a).trade_state ≡ true
      → ((internal_start_trade player partner item w).0.trader a).trade_partner ≡ none
  unfolding internal_start_trade
  start-idle a = ground (arith, c.idle a, c.idle partner)

  start-paired :
      (a b : ℕ)
      → ((internal_start_trade player partner item w).0.trader a).trade_partner ≡ some b
      → ((internal_start_trade player partner item w).0.trader b).trade_partner ≡ some a
  unfolding internal_start_trade
  start-paired a b = ground (arith, c.paired a b, c.idle player, c.idle partner)

  start-held :
      (a i : ℕ)
      → ((internal_start_trade player partner item w).0.trader a).trade_item ≡ some i
      → find i (internal_start_trade player partner item w).0.trade_items ≡ some a
  unfolding internal_start_trade
  start-held a i = ground (
    arith,
    c.held a i,
    find-set item i player w.trade_items,
    c.bare player,
    c.bare partner,
    c.asked player,
  )

  start-owned :
      (a i : ℕ)
      → find i (internal_start_trade player partner item w).0.trade_items ≡ some a
      → ((internal_start_trade player partner item w).0.trader a).trade_item ≡ some i
  unfolding internal_start_trade
  start-owned a i =
      ground
        (arith, c.owned a i, find-set item i player w.trade_items, c.bare player, c.asked player)

  start-counted :
      (i : ℕ)
      → (internal_start_trade player partner item w).0.references i
        ≡ count i (internal_start_trade player partner item w).0.to_release
          + entry (find i (internal_start_trade player partner item w).0.trade_items)
  unfolding internal_start_trade
  start-counted i = ground (arith, c.counted i, find-set item i player w.trade_items)

  pub start-IsConsistent : IsConsistent (internal_start_trade player partner item w).0
  unfolding internal_start_trade
  start-IsConsistent = record {
    idle = start-idle;
    bare = λ a. ground (arith, c.bare a, c.bare partner);
    busy = λ a. ground (arith, c.busy a, c.busy partner);
    paired = start-paired;
    apart = λ a. ground (arith, c.apart a);
    asked = λ a. ground (arith, c.asked a, c.bare partner);
    settled = λ a. ground (arith, c.settled a);
    held = start-held;
    owned = start-owned;
    counted = start-counted;
  }

-- Both are idle: one then offers the item, and the other was asked.
pub start_idle :
    (player partner item : ℕ) (w : World)
    → IsConsistent w
    → is_none (w.trader player).trade_state ≡ true
    → is_none (w.trader partner).trade_state ≡ true
    → (partner == player) ≡ false
    → ((internal_start_trade player partner item w).0.trader player ≡ record {
      trade_state = trade_initiated;
      trade_partner = some partner;
      trade_item = some item;
    })
      × ((internal_start_trade player partner item w).0.trader partner ≡ record {
        trade_state = trade_acknowledge;
        trade_partner = some player;
        trade_item = none;
      })
unfolding internal_start_trade
start_idle player partner item w c h k two = (ground arith, ground (arith, c.bare partner))
