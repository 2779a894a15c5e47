-- ===== src/Trade/Closing.antt =====
-- Ending a trade keeps the world of source/src/game.cpp consistent.
use otg_premium_version.Common.{
  ℕ, ◌+◌, ◌||◌, Option, none, some, List, [], ◌∷◌, ◌++◌, ◌==◌, if◌then◌else◌, ◌≡◌, refl, arith,
  Option-cases, inl, inr,
}
use otg_premium_version.Trade.{
  World, points_to, find, free, release, cleared, cleared_partner, is_transferring,
  internal_close_trade,
}
use otg_premium_version.Trade.Entries.{find-erase}
use otg_premium_version.Trade.Consistency.{IsConsistent, count, entry}

count-append : (i : ℕ) (xs ys : List ℕ) → count i (xs ++ ys) ≡ count i xs + count i ys
unfolding count
count-append i [] ys = omega arith
count-append i (x ∷ xs) ys = omega (arith, count-append i xs ys)

pub trader-release : (o : Option ℕ) (w : World) (a : ℕ) → (release o w).trader a ≡ w.trader a
unfolding release
trader-release none w a = refl
trader-release (some i) w a = ground arith

pub find-release :
    (o : Option ℕ) (w : World) (i : ℕ)
    → find i (release o w).trade_items ≡ (if points_to i o then none else find i w.trade_items)
unfolding release
find-release none w i = refl
find-release (some j) w i = ground (arith, find-erase j i w.trade_items)

-- The references that the trade accounts for.
abbrev pub due : World → ℕ → ℕ
due w i = count i w.to_release + entry (find i w.trade_items)

pub due-release : (o : Option ℕ) (w : World) (i : ℕ) → due (release o w) i ≡ due w i
unfolding release count
due-release none w i = refl
due-release (some j) w i =
    ground (arith, count-append i w.to_release (j ∷ []), find-erase j i w.trade_items)

pub references-release :
    (o : Option ℕ) (w : World) (i : ℕ) → (release o w).references i ≡ w.references i
unfolding release
references-release none w i = refl
references-release (some j) w i = ground arith

pub moves-release : (o : Option ℕ) (w : World) → (release o w).moves ≡ w.moves
unfolding release
moves-release none w = refl
moves-release (some i) w = ground arith

-- Two partners, or one player who has none, are set free and their items leave the map.
module _ (player partner : ℕ) (w w' : World) (c : IsConsistent w)
    (mine : (b : ℕ) → (w.trader player).trade_partner ≡ some b → partner ≡ b)
    (theirs : (b : ℕ) → (w.trader partner).trade_partner ≡ some b → player ≡ b)
    (traders : (a : ℕ)
      → w'.trader a ≡ (if player == a then free else if partner == a then free else w.trader a))
    (items : (i : ℕ)
      → find i w'.trade_items ≡ (
          if points_to i (w.trader player).trade_item || points_to i (w.trader partner).trade_item
          then none
          else find i w.trade_items))
    (counts : (i : ℕ) → w'.references i ≡ due w' i) where
  ended-paired :
      (a b : ℕ) → (w'.trader a).trade_partner ≡ some b → (w'.trader b).trade_partner ≡ some a
  ended-paired a b = ground (arith, traders a, traders b, c.paired a b, mine a, theirs a)

  ended-held : (a i : ℕ) → (w'.trader a).trade_item ≡ some i → find i w'.trade_items ≡ some a
  ended-held a i = ground (arith, traders a, items i, c.held a i, c.held player i, c.held partner i)

  ended-owned : (a i : ℕ) → find i w'.trade_items ≡ some a → (w'.trader a).trade_item ≡ some i
  ended-owned a i = ground (arith, traders a, items i, c.owned a i)

  pub ended-IsConsistent : IsConsistent w'
  ended-IsConsistent = record {
    idle = λ a. ground (arith, traders a, c.idle a);
    bare = λ a. ground (arith, traders a, c.bare a);
    busy = λ a. ground (arith, traders a, c.busy a);
    paired = ended-paired;
    apart = λ a. ground (arith, traders a, c.apart a);
    asked = λ a. ground (arith, traders a, c.asked a);
    settled = λ a. ground (arith, traders a, c.settled a);
    held = ended-held;
    owned = ended-owned;
    counted = counts;
  }

pub trader-cleared :
    (p : ℕ) (w : World) (a : ℕ) → (cleared p w).trader a ≡ (if p == a then free else w.trader a)
unfolding cleared
trader-cleared p w a = ground (arith, trader-release (w.trader p).trade_item w a)

pub find-cleared :
    (p : ℕ) (w : World) (i : ℕ)
    → find i (cleared p w).trade_items
      ≡ (if points_to i (w.trader p).trade_item then none else find i w.trade_items)
unfolding cleared
find-cleared p w i = find-release (w.trader p).trade_item w i

due-cleared : (p : ℕ) (w : World) (i : ℕ) → due (cleared p w) i ≡ due w i
unfolding cleared
due-cleared p w i = due-release (w.trader p).trade_item w i

references-cleared : (p : ℕ) (w : World) (i : ℕ) → (cleared p w).references i ≡ w.references i
unfolding cleared
references-cleared p w i = references-release (w.trader p).trade_item w i

-- In a consistent world a trade that is closed is really closed.
pub internal_close_trade_lem :
    (player : ℕ) (w : World)
    → IsConsistent w
    → internal_close_trade player w
      ≡ cleared_partner (w.trader player).trade_partner (cleared player w)
unfolding internal_close_trade is_transferring
internal_close_trade_lem player w c = elim (Option-cases (w.trader player).trade_partner) [
  | inl e ↦ rw (e, internal_close_trade, c.settled player) refl
  | inr (p, e) ↦ rw (e, internal_close_trade, c.settled player, c.settled p) refl
]

-- Closing a trade keeps the world consistent.
pub close-IsConsistent :
    (player : ℕ) (w : World) → IsConsistent w → IsConsistent (internal_close_trade player w)
unfolding cleared_partner
close-IsConsistent player w c =
    rw (internal_close_trade_lem player w c) (elim (Option-cases (w.trader player).trade_partner) [
      | inl e ↦ rw e (
          ended-IsConsistent player player w (cleared player w) c (λ b. ground arith)
            (λ b. ground arith) (λ a. ground (arith, trader-cleared player w a))
            (λ i. ground (arith, find-cleared player w i))
            (λ i.
              omega (arith, references-cleared player w i, due-cleared player w i, c.counted i)))
      | inr (p, e) ↦ rw e (
          ended-IsConsistent player p w (cleared p (cleared player w)) c (λ b. ground arith)
            (λ b. ground (arith, c.paired player p))
            (λ a. ground (arith, trader-cleared player w a, trader-cleared p (cleared player w) a))
            (λ i. ground (
              arith,
              find-cleared player w i,
              find-cleared p (cleared player w) i,
              trader-cleared player w p,
              c.apart player,
            ))
            (λ i. ground (
              arith,
              references-cleared player w i,
              references-cleared p (cleared player w) i,
              due-cleared player w i,
              due-cleared p (cleared player w) i,
              c.counted i,
            )))
    ])
