-- ===== src/Position/Laws.antt =====
-- Laws of the operators of source/src/position.h.
use otg_premium_version.Common.{ℕ, ◌^◌, ◌<◌, ◌≡◌, true, false, ◌⊎◌, ◌↔◌, arith, not}
use otg_premium_version.Position.{Position, lt, gt, eq, ne, add, sub, are_in_range}

pub record IsPosition (p : Position) : Type 0 where
  pub x_fits : p.x < 2 ^ 16
  pub y_fits : p.y < 2 ^ 16
  pub z_fits : p.z < 2 ^ 8

-- The floor decides first, then the row, then the column.
abbrev pub Before : Position → Position → Type 0
Before p q = (p.z < q.z) ⊎ ((p.z ≡ q.z) × (p.y < q.y)) ⊎ ((p.z ≡ q.z) × (p.y ≡ q.y) × (p.x < q.x))

pub lt_iff : (p q : Position) → (lt p q ≡ true) ↔ Before p q
unfolding lt
lt_iff p q = ground arith

-- `operator<` is transitive.
pub lt_trans : (p q r : Position) → lt p q ≡ true → lt q r ≡ true → lt p r ≡ true
lt_trans p q r h k = (lt_iff p r).1 (omega (arith, (lt_iff p q).0 h, (lt_iff q r).0 k))

-- Of two places exactly one of these holds: the first is before, they are equal, or the second is
-- before.
pub lt_trichotomy :
    (p q : Position)
    → ((lt p q ≡ true) × (eq p q ≡ false) × (lt q p ≡ false))
      ⊎ ((lt p q ≡ false) × (eq p q ≡ true) × (lt q p ≡ false))
      ⊎ ((lt p q ≡ false) × (eq p q ≡ false) × (lt q p ≡ true))
unfolding lt eq
lt_trichotomy p q = ground arith

-- `operator==` is equality, and `operator!=` its negation.
pub eq_iff : (p q : Position) → ((eq p q ≡ true) ↔ (p ≡ q)) × (ne p q ≡ not (eq p q))
unfolding eq ne
eq_iff p q = ground arith

-- `operator>` is not the converse of `operator<`: it holds of equal places too.
pub gt_iff : (p q : Position) → (gt p q ≡ true) ↔ ((lt q p ≡ true) ⊎ (eq p q ≡ true))
unfolding gt lt eq
gt_iff p q = ground arith

-- Subtracting undoes adding, although both wrap around at the coordinates' widths.
pub sub-add : (p q : Position) → IsPosition p → IsPosition q → sub (add p q) q ≡ p
unfolding sub add
sub-add p q hp hq = ground arith

pub are_in_range_comm :
    (dx dy dz : ℕ) (p q : Position) → are_in_range dx dy dz p q ≡ are_in_range dx dy dz q p
unfolding are_in_range
are_in_range_comm dx dy dz p q = ground arith
