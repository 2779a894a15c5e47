-- ===== src/Experience/Tests.antt =====
-- Levels and experience of source/src/player.cpp at a few values.
use otg_premium_version.Common.{ℕ, false, some, ◌≡◌, refl, arith, inl}
use otg_premium_version.Experience.{
  exp_for_level, Vocation, Player, add_experience, remove_experience, level_up, level_down,
  lose_level, gain_level, refreshed, set_percent, get_percent_level, lowered, reduced,
  update_base_speed, death_level_loss,
}
use otg_premium_version.Experience.Gain.{IsAtLevel, Gains, add_experience-IsAtLevel}
use otg_premium_version.Experience.Loss.{Falls, remove_experience-Falls, death_level_loss-Falls}

abbrev knight : Vocation
knight = record { hp_gain = 15; mana_gain = 5; cap_gain = 25; base_speed = 220 }

abbrev newcomer : Player
newcomer = record {
  experience = 0;
  level = 1;
  level_percent = 0;
  health = 150;
  health_max = 150;
  mana = 55;
  mana_max = 55;
  capacity = 400;
  base_speed = 220;
  has_max_speed = false;
}

-- The published table of levels: 100 for level 2, 4200 for level 8, 15694800 for level 100.
level_2 : exp_for_level 2 ≡ 100
unfolding exp_for_level
level_2 = refl

level_8 : exp_for_level 8 ≡ 4200
unfolding exp_for_level
level_8 = refl

level_100 : exp_for_level 100 ≡ 15694800
unfolding exp_for_level
level_100 = refl

abbrev veteran : Player
veteran = record newcomer {
  experience = 4250;
  level = 8;
  level_percent = 2;
  health = 255;
  health_max = 255;
  mana = 90;
  mana_max = 90;
  capacity = 575;
  base_speed = 234;
}

gains_seven : add_experience knight 4251 (λ e. e) 4250 newcomer ≡ some veteran
unfolding add_experience level_up gain_level refreshed set_percent get_percent_level
    update_base_speed exp_for_level
gains_seven = refl

loses_one : (remove_experience knight (λ e. e) 100 veteran).level ≡ 7
unfolding remove_experience level_down lose_level refreshed set_percent update_base_speed
    exp_for_level reduced lowered
loses_one = refl

newcomer-IsAtLevel : IsAtLevel newcomer
unfolding exp_for_level
newcomer-IsAtLevel = record { above = omega arith; over = inl (omega arith) }

add_experience-IsAtLevel_example :
    (levels : ℕ) × (p' : Player) × (add_experience knight 4251 (λ e. e) 4250 newcomer ≡ some p')
    × IsAtLevel p'
    × Gains knight newcomer p' levels
add_experience-IsAtLevel_example =
    add_experience-IsAtLevel knight (λ e. e) 4250 newcomer (omega arith) newcomer-IsAtLevel
      (omega arith)

remove_experience-Falls_example :
    Falls (record veteran { experience = 4150 }) (remove_experience knight (λ e. e) 100 veteran)
remove_experience-Falls_example =
    remove_experience-Falls knight (λ e. e) 100 veteran refl (omega arith) (omega arith)

death_level_loss-Falls_example :
    Falls (record veteran { experience = 3825 }) (death_level_loss knight false 425 veteran)
death_level_loss-Falls_example =
    death_level_loss-Falls knight false 425 veteran refl (omega arith) (omega arith)
