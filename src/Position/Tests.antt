-- ===== src/Position/Tests.antt =====
-- The laws of places at concrete inputs.
use otg_premium_version.Common.{◌≡◌, refl, true, false, arith, ◌⊎◌, ◌↔◌}
use otg_premium_version.Position.{Position, lt, eq, gt, add, sub}
use otg_premium_version.Position.Laws.{lt_trans, lt_trichotomy, sub-add, gt_iff}

abbrev temple : Position
temple = record { x = 32369; y = 32241; z = 7 }

abbrev depot : Position
depot = record { x = 32350; y = 32230; z = 6 }

abbrev step_east : Position
step_east = record { x = 1; y = 0; z = 0 }

lt_trans_example : lt depot (record temple { x = 32370 }) ≡ true
unfolding lt
lt_trans_example = lt_trans depot temple (record temple { x = 32370 }) refl refl

lt_trichotomy_example :
    ((lt depot temple ≡ true) × (eq depot temple ≡ false) × (lt temple depot ≡ false))
    ⊎ ((lt depot temple ≡ false) × (eq depot temple ≡ true) × (lt temple depot ≡ false))
    ⊎ ((lt depot temple ≡ false) × (eq depot temple ≡ false) × (lt temple depot ≡ true))
lt_trichotomy_example = lt_trichotomy depot temple

sub-add_example : sub (add temple step_east) step_east ≡ temple
sub-add_example = sub-add temple step_east (omega arith) (omega arith)

gt_iff_example : (gt temple temple ≡ true) ↔ ((lt temple temple ≡ true) ⊎ (eq temple temple ≡ true))
gt_iff_example = gt_iff temple temple
