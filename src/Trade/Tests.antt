-- ===== src/Trade/Tests.antt =====
-- Runs of the trade of source/src/game.cpp.
use otg_premium_version.Common.{ℕ, true, false, none, some, List, [], ◌∷◌, ◌≡◌, refl}
use mathlib.Core.Path.{subst}
use otg_premium_version.Trade.{
  trade_initiated, trade_acknowledge, trade_accept, World, find, free, set, update,
  internal_start_trade, internal_close_trade,
}
use otg_premium_version.Trade.Requests.{Request, player_request_trade, offer, is_traded}
use otg_premium_version.Trade.Accept.{
  Answers, done, null_item, player_accept_trade, accept_with, set_trade_state,
}
use otg_premium_version.Trade.Consistency.{IsConsistent}
use otg_premium_version.Trade.Accepting.{Ends}
use otg_premium_version.Trade.History.{
  Action, requests, accepts, run, step, start, run-start-trades, and_then, accept_trade-null_item,
  close-frees, start-world_IsConsistent,
}

-- A request that meets all conditions.
abbrev asks : ℕ → ℕ → ℕ → Request
asks player partner item = record {
  player = player;
  partner = partner;
  player_found = true;
  partner_found = true;
  near = true;
  reachable = true;
  thing = some item;
  tradable = true;
  same_floor = true;
  beside = true;
  is_container = λ i. false;
  holds = λ i j. false;
  holding_count = 0;
  event_agrees = true;
}

abbrev all_agree : Answers
all_agree = record {
  reachable = true;
  event_registered = true;
  event_agrees = true;
  add1 = true;
  add2 = true;
  remove1 = true;
  remove2 = true;
  move1 = true;
}

abbrev begin : World
begin = start

-- Players 1 and 2 have offered the items 10 and 20, and player 2 has accepted.
abbrev offered : World
offered = record begin {
  trader =
      update
        (update
          (update
            (update begin.trader 1 (record {
              trade_state = trade_initiated;
              trade_partner = some 2;
              trade_item = some 10;
            }))
            2
            (record { trade_state = trade_acknowledge; trade_partner = some 1; trade_item = none }))
          2
          (record { trade_state = trade_initiated; trade_partner = some 1; trade_item = some 20 }))
        2 (record { trade_state = trade_accept; trade_partner = some 1; trade_item = some 20 });
  trade_items = (10, 1) ∷ (20, 2) ∷ [];
  references = update (update begin.references 10 1) 20 1;
  exhausted = update (update begin.exhausted 1 true) 2 true;
}

abbrev bargain : List Action
bargain = requests (asks 1 2 10) ∷ requests (asks 2 1 20) ∷ accepts all_agree 2 ∷ []

bargain_offers : run bargain begin ≡ done offered
unfolding run step player_request_trade offer is_traded internal_start_trade set player_accept_trade
    accept_with set_trade_state
bargain_offers = refl

run-start-trades_example : Ends IsConsistent (run bargain begin)
run-start-trades_example = run-start-trades bargain

offered-IsConsistent : IsConsistent offered
offered-IsConsistent = subst (Ends IsConsistent) bargain_offers run-start-trades_example

accept_trade-null_item_example :
    and_then
      (player_accept_trade all_agree 2 (internal_start_trade 1 2 10 begin).0)
      (player_accept_trade all_agree 1)
    ≡ null_item
accept_trade-null_item_example =
    accept_trade-null_item all_agree 1 2 10 begin start-world_IsConsistent refl refl refl refl refl

close-frees_example :
    ((internal_close_trade 1 offered).trader 1 ≡ free)
    × ((internal_close_trade 1 offered).trader 2 ≡ free)
    × ((i : ℕ)
        → (offered.trader 1).trade_item ≡ some i
        → find i (internal_close_trade 1 offered).trade_items ≡ none)
    × ((i : ℕ)
        → (offered.trader 2).trade_item ≡ some i
        → find i (internal_close_trade 1 offered).trade_items ≡ none)
close-frees_example = close-frees 1 2 offered offered-IsConsistent refl
