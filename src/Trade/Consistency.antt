-- ===== src/Trade/Consistency.antt =====
-- When the fields of the traders of source/src/game.cpp fit together and fit the traded items.
use otg_premium_version.Common.{
  ℕ, ◌+◌, true, false, Option, none, some, List, [], ◌∷◌, ◌==◌, if◌then◌else◌, ◌≡◌,
}
use otg_premium_version.Trade.{is_none, is_acknowledge, is_transfer, World, points_to, find}

unfoldable pub count : ℕ → List ℕ → ℕ
count i [] = 0
count i (j ∷ js) = (if j == i then 1 else 0) + count i js

abbrev pub entry : Option ℕ → ℕ
entry none = 0
entry (some p) = 1

pub record IsConsistent (w : World) : Type 0 where
  -- A player who does not trade has no partner and no item.
  pub idle : (a : ℕ) → is_none (w.trader a).trade_state ≡ true → (w.trader a).trade_partner ≡ none
  pub bare : (a : ℕ) → is_none (w.trader a).trade_state ≡ true → (w.trader a).trade_item ≡ none
  pub busy : (a : ℕ) → (w.trader a).trade_partner ≡ none → is_none (w.trader a).trade_state ≡ true
  -- Partners name each other.
  pub paired : (a b : ℕ) → (w.trader a).trade_partner ≡ some b → (w.trader b).trade_partner ≡ some a
  pub apart : (a : ℕ) → points_to a (w.trader a).trade_partner ≡ false
  -- Who was only asked offers nothing, and no transfer is under way between requests.
  pub asked :
      (a : ℕ) → is_acknowledge (w.trader a).trade_state ≡ true → (w.trader a).trade_item ≡ none
  pub settled : (a : ℕ) → is_transfer (w.trader a).trade_state ≡ false
  -- The map has exactly the items on offer, each with who offers it.
  pub held : (a i : ℕ) → (w.trader a).trade_item ≡ some i → find i w.trade_items ≡ some a
  pub owned : (a i : ℕ) → find i w.trade_items ≡ some a → (w.trader a).trade_item ≡ some i
  -- Each item in the map has one reference, and so has each item for each time it is to be released.
  pub counted : (i : ℕ) → w.references i ≡ count i w.to_release + entry (find i w.trade_items)
