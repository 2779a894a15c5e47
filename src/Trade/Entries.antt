-- ===== src/Trade/Entries.antt =====
-- The map of traded items, `tradeItems` of source/src/game.h.
use otg_premium_version.Common.{
  ℕ, false, none, some, List, [], ◌∷◌, ◌==◌, if◌then◌else◌, ◌≡◌, refl, arith,
}
use otg_premium_version.Trade.{find, set, erase}
use otg_premium_version.Trade.Requests.{Request, is_traded}

pub find-set :
    (i j p : ℕ) (m : List (ℕ × ℕ)) → find j (set i p m) ≡ (if i == j then some p else find j m)
unfolding find set
find-set i j p [] = refl
find-set i j p ((k, q) ∷ m) = ground (arith, find-set i j p m)

pub find-erase :
    (i j : ℕ) (m : List (ℕ × ℕ)) → find j (erase i m) ≡ (if i == j then none else find j m)
unfolding find erase
find-erase i j [] = ground arith
find-erase i j ((k, q) ∷ m) = ground (arith, find-erase i j m)

-- An item that passes the loops of playerRequestTrade is not in the map.
pub find-is_traded :
    (r : Request) (i : ℕ) (m : List (ℕ × ℕ)) → is_traded r i m ≡ false → find i m ≡ none
unfolding find is_traded
find-is_traded r i [] h = refl
find-is_traded r i ((k, q) ∷ m) h = ground (arith, find-is_traded r i m)
