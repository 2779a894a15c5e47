-- ===== src/Party/Sharing.antt =====
-- The sharing of experience in a party (source/src/party.cpp): who may share, and the two flags.
use otg_premium_version.Common.{
  ℕ, ◌+◌, ◌-◌, ◌*◌, ◌/◌, ◌%◌, ◌^◌, Bool, true, false, ◌&&◌, ◌||◌, not, Option, none, some, List, [],
  ◌∷◌, ltb, leb, ◌==◌, if◌then◌else◌,
}
use otg_premium_version.Position.{Position, are_in_range}

pub record Party : Type 0 where
  pub ticks_map : List (ℕ × ℕ)
  pub members : List ℕ
  pub invites : List ℕ
  pub leader : ℕ
  pub shared_exp_active : Bool
  pub shared_exp_enabled : Bool

-- What the party code reads of the players and the server, and what the event scripts answer.
pub record Env : Type 0 where
  pub level : ℕ → ℕ
  pub position : ℕ → Position
  pub not_gain_in_fight : ℕ → Bool
  pub in_fight : ℕ → Bool
  pub in_protection_zone : ℕ → Bool
  pub online : ℕ → Bool
  pub time : ℕ
  pub pz_locked : ℕ
  pub on_join : Bool
  pub on_leave : Bool
  pub on_disband : Bool

unfoldable pub contains : ℕ → List ℕ → Bool
contains x [] = false
contains x (y ∷ ys) = y == x || contains x ys

unfoldable pub is_empty : List ℕ → Bool
is_empty [] = true
is_empty (x ∷ xs) = false

unfoldable pub empty : Party → Bool
unfolding is_empty
empty p = is_empty p.members && is_empty p.invites

unfoldable pub find_ticks : ℕ → List (ℕ × ℕ) → Option ℕ
find_ticks player [] = none
find_ticks player ((k, t) ∷ ts) = if k == player then some t else find_ticks player ts

unfoldable pub erase_ticks : ℕ → List (ℕ × ℕ) → List (ℕ × ℕ)
erase_ticks player [] = []
erase_ticks player ((k, t) ∷ ts) = if k == player then ts else (k, t) ∷ erase_ticks player ts

unfoldable pub set_ticks : ℕ → ℕ → List (ℕ × ℕ) → List (ℕ × ℕ)
set_ticks player time [] = (player, time) ∷ []
set_ticks player time ((k, t) ∷ ts) =
    if k == player then (k, time) ∷ ts else (k, t) ∷ set_ticks player time ts

abbrev same_flag : Bool → Bool → Bool
same_flag true b = b
same_flag false b = not b

module _ (env : Env) where
  unfoldable pub highest_level : ℕ → List ℕ → ℕ
  highest_level highest [] = highest
  highest_level highest (m ∷ ms) =
      highest_level (if ltb highest (env.level m) then env.level m else highest) ms

  -- `ceil(highest * 2 / 3)`: in `float`, which is exact for the levels below 2 ^ 20.
  unfoldable pub min_level : ℕ → ℕ
  min_level highest = (highest * 2 + 2) / 3

  -- Whether the player healed or attacked within the time of a fight.
  unfoldable pub is_active : Party → ℕ → Bool
  unfolding find_ticks
  is_active p player = elim (find_ticks player p.ticks_map) [
    | none ↦ false
    | some t ↦ leb ((env.time + 2 ^ 64 - t) % 2 ^ 64) env.pz_locked
  ]

  unfoldable pub can_use_shared_experience : Party → ℕ → Bool
  unfolding is_empty highest_level min_level is_active
  can_use_shared_experience p player =
      if is_empty p.members
      then false
      else if ltb (env.level player) (min_level (highest_level (env.level p.leader) p.members))
      then false
      else if not (are_in_range 30 30 1 (env.position p.leader) (env.position player))
      then false
      else if not (env.not_gain_in_fight player)
      then is_active p player
      else true

  unfoldable pub all_can_use : Party → List ℕ → Bool
  all_can_use p [] = true
  all_can_use p (m ∷ ms) = can_use_shared_experience p m && all_can_use p ms

  unfoldable pub can_enable_shared_experience : Party → Bool
  unfolding all_can_use
  can_enable_shared_experience p = can_use_shared_experience p p.leader && all_can_use p p.members

  unfoldable pub update_shared_experience : Party → Party
  update_shared_experience p = record p {
    shared_exp_enabled =
        if p.shared_exp_active then can_enable_shared_experience p else p.shared_exp_enabled;
  }

  unfoldable pub set_shared_experience : Party → ℕ → Bool → Party × Bool
  set_shared_experience p player new_active =
      if not (p.leader == player)
      then (p, false)
      else if same_flag p.shared_exp_active new_active
      then (p, true)
      else let p1 = record p { shared_exp_active = new_active } in
        (
          record p1 {
            shared_exp_enabled =
                if new_active then can_enable_shared_experience p1 else p1.shared_exp_enabled;
          },
          true,
        )

  unfoldable pub update_player_ticks : Party → ℕ → ℕ → Party
  unfolding set_ticks
  update_player_ticks p player points =
      if not (points == 0) && not (env.not_gain_in_fight player)
      then update_shared_experience (record p { ticks_map = set_ticks player env.time p.ticks_map })
      else p

  -- Without an entry nothing changes.
  unfoldable pub clear_player_points : ℕ → Party → Party
  unfolding update_shared_experience
  clear_player_points player p =
      let cleared = record p { ticks_map = erase_ticks player p.ticks_map } in
      record cleared {
        shared_exp_enabled = elim (find_ticks player p.ticks_map) [
          | none ↦ p.shared_exp_enabled
          | some t ↦ (update_shared_experience cleared).shared_exp_enabled
        ];
      }
