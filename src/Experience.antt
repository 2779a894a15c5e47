-- ===== src/Experience.antt =====
-- Experience and levels: getExpForLevel, addExperience, removeExperience, getPercentLevel and the
-- loss of levels in death, of source/src/player.cpp and player.h.
-- Numbers of 32 and 64 bits are their bit patterns, also health, which is signed. Messages and the
-- notification of other parts (the party, the scripts, the client) are left out; what the event
-- scripts make of the experience is an argument.
pub mod Loops
pub mod Gain
pub mod Loss
mod Tests
use otg_premium_version.Common.{
  ℕ, zero, suc, ◌+◌, ◌-◌, ◌*◌, ◌/◌, ◌%◌, ◌^◌, Bool, true, false, ◌&&◌, ◌||◌, not, Option, none,
  some, ◌==◌, if◌then◌else◌, ltb, leb,
}

-- `lv` is an int32_t of at least 1.
unfoldable pub exp_for_level : ℕ → ℕ
exp_for_level lv =
    let n = lv - 1 in
    ((50 * n * n * n % 2 ^ 64 + (2 ^ 64 - 150 * n * n % 2 ^ 64) + 400 * n) % 2 ^ 64) / 3

pub record Vocation : Type 0 where
  pub hp_gain : ℕ
  pub mana_gain : ℕ
  pub cap_gain : ℕ
  pub base_speed : ℕ

pub record Player : Type 0 where
  pub experience : ℕ
  pub level : ℕ
  pub level_percent : ℕ
  pub health : ℕ
  pub health_max : ℕ
  pub mana : ℕ
  pub mana_max : ℕ
  pub capacity : ℕ
  pub base_speed : ℕ
  pub has_max_speed : Bool

-- PLAYER_MAX_SPEED
abbrev pub player_max_speed : ℕ
player_max_speed = 4500

-- `std::max<int32_t>(0, …)` of the difference of two numbers of 32 bits.
pub lowered : ℕ → ℕ → ℕ
lowered a b = let d = (a + 2 ^ 32 - b) % 2 ^ 32 in if leb (2 ^ 31) d then 0 else d

-- `std::max<int64_t>(0, experience - exp)`
pub reduced : ℕ → ℕ → ℕ
reduced experience exp =
    let d = (experience + 2 ^ 64 - exp) % 2 ^ 64 in if leb (2 ^ 63) d then 0 else d

-- The result is a uint8_t.
pub get_percent_level : ℕ → ℕ → ℕ
get_percent_level count next_level_count =
    if next_level_count == 0
    then 0
    else let result = (count * 100 % 2 ^ 64) / next_level_count % 2 ^ 8 in
      if ltb 100 result then 0 else result

-- `if (nextLevelExp > currLevelExp) …`, at the end of each function.
pub set_percent : ℕ → ℕ → Player → Player
unfolding get_percent_level
set_percent curr next p = record p {
  level_percent =
      if ltb curr next
      then get_percent_level ((p.experience + 2 ^ 64 - curr) % 2 ^ 64)
          ((next + 2 ^ 64 - curr) % 2 ^ 64)
      else 0;
}

-- What a level step of the loops leaves: the player, and the two bounds of experience.
pub record Reached : Type 0 where
  pub player : Player
  pub curr_level_exp : ℕ
  pub next_level_exp : ℕ

module _ (v : Vocation) where
  pub update_base_speed : Player → Player
  update_base_speed p = record p {
    base_speed =
        if not p.has_max_speed
        then (v.base_speed + 2 * (p.level - 1)) % 2 ^ 32
        else player_max_speed;
  }

  pub gain_level : Player → Player
  gain_level p = record p {
    level = (p.level + 1) % 2 ^ 32;
    health_max = (p.health_max + v.hp_gain) % 2 ^ 32;
    health = (p.health + v.hp_gain) % 2 ^ 32;
    mana_max = (p.mana_max + v.mana_gain) % 2 ^ 32;
    mana = (p.mana + v.mana_gain) % 2 ^ 32;
    capacity = (p.capacity + v.cap_gain) % 2 ^ 32;
  }

  -- The loop of addExperience; `none` where the fuel runs out.
  pub level_up : ℕ → Reached → Option Reached
  unfolding gain_level
  level_up zero r = none
  level_up (suc fuel) r =
      let p = gain_level r.player in
      let next = exp_for_level ((p.level + 1) % 2 ^ 32) in
      let r' : Reached = record {
        player = p;
        curr_level_exp = r.next_level_exp;
        next_level_exp = next;
      } in
      let rest = level_up fuel r' in
      if ltb r.player.experience r.next_level_exp
      then some r
      else if leb next r.next_level_exp
      then some r'
      else rest

  -- `if (prevLevel != level)`
  pub refreshed : ℕ → Player → Player
  unfolding update_base_speed
  refreshed prev_level p =
      if prev_level == p.level
      then p
      else update_base_speed (record p { health = p.health_max; mana = p.mana_max })

  -- `event` is what eventPlayerOnGainExperience makes of the experience.
  pub add_experience : ℕ → (ℕ → ℕ) → ℕ → Player → Option Player
  unfolding level_up refreshed set_percent
  add_experience fuel event exp p =
      let curr = exp_for_level p.level in
      let next = exp_for_level ((p.level + 1) % 2 ^ 32) in
      let p1 = record p { experience = (p.experience + event exp) % 2 ^ 64 } in
      if leb next curr
      then some (record p { level_percent = 0 })
      else if event exp == 0
      then some p
      else elim (level_up fuel
          (record { player = p1; curr_level_exp = curr; next_level_exp = next })) [
            | none ↦ none
            | some r ↦
                some (set_percent r.curr_level_exp r.next_level_exp (refreshed p.level r.player))
          ]

  pub lose_level : Player → Player
  unfolding lowered
  lose_level p = record p {
    level = p.level - 1;
    health_max = lowered p.health_max v.hp_gain;
    mana_max = lowered p.mana_max v.mana_gain;
    capacity = lowered p.capacity v.cap_gain;
  }

  -- The loops of removeExperience and of death, by the level.
  pub level_down : ℕ → Player → Player
  unfolding lose_level
  level_down zero p = p
  level_down (suc n) p =
      let rest = level_down n (lose_level p) in
      if ltb 1 p.level && ltb p.experience (exp_for_level p.level) then rest else p

  pub remove_experience : (ℕ → ℕ) → ℕ → Player → Player
  unfolding level_down refreshed set_percent reduced
  remove_experience event exp p =
      if p.experience == 0 || exp == 0
      then p
      else if event exp == 0
      then p
      else let p1 = record p { experience = reduced p.experience (event exp) } in
        let p2 = level_down p.level p1 in
        set_percent (exp_for_level p2.level) (exp_for_level ((p2.level + 1) % 2 ^ 32))
          (refreshed p.level p2)

  -- The level loss of Player::death; `exp_loss` is what the event script makes of the part lost.
  pub death_level_loss : Bool → ℕ → Player → Player
  unfolding level_down set_percent
  death_level_loss no_vocation exp_loss p =
      if exp_loss == 0
      then p
      else let p1 =
          if no_vocation || ltb 7 p.level
          then record p { experience = (p.experience + 2 ^ 64 - exp_loss) % 2 ^ 64 }
          else p in
        let p2 = level_down p1.level p1 in
        set_percent (exp_for_level p2.level) (exp_for_level ((p2.level + 1) % 2 ^ 32)) p2
