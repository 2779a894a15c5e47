-- ===== src/Experience/Loops.antt =====
-- The two loops of source/src/player.cpp that move a player to the level of their experience.
use otg_premium_version.Common.{
  ℕ, zero, suc, ◌+◌, ◌*◌, ◌%◌, ◌^◌, ◌≤◌, ◌<◌, true, false, some, ltb, leb, ◌≡◌, refl, arith,
  Bool-cases, inl, inr, ◌⊎◌, ◌∙◌,
}
use otg_premium_version.Experience.{exp_for_level, Vocation, Player, Reached, gain_level, level_up}

abbrev pub next_level : Player → ℕ
next_level p = (p.level + 1) % 2 ^ 32

-- The bounds of experience are those of the player's level.
pub record IsReached (r : Reached) : Type 0 where
  pub curr : r.curr_level_exp ≡ exp_for_level r.player.level
  pub next : r.next_level_exp ≡ exp_for_level (next_level r.player)
  pub above : r.curr_level_exp ≤ r.player.experience

-- What the loop of addExperience makes of the player before it, in a number of rounds.
pub record Rises (v : Vocation) (p : Player) (rounds : ℕ) (r : Reached) : Type 0 where
  pub reached : IsReached r
  pub over : (r.player.experience < r.next_level_exp) ⊎ (r.next_level_exp ≤ r.curr_level_exp)
  pub experience : r.player.experience ≡ p.experience
  pub level : r.player.level ≡ (p.level + rounds) % 2 ^ 32
  pub health_max : r.player.health_max ≡ (p.health_max + rounds * v.hp_gain) % 2 ^ 32
  pub mana_max : r.player.mana_max ≡ (p.mana_max + rounds * v.mana_gain) % 2 ^ 32
  pub capacity : r.player.capacity ≡ (p.capacity + rounds * v.cap_gain) % 2 ^ 32

pub record IsWord (p : Player) : Type 0 where
  pub level : p.level < 2 ^ 32
  pub health_max : p.health_max < 2 ^ 32
  pub mana_max : p.mana_max < 2 ^ 32
  pub capacity : p.capacity < 2 ^ 32

gain_level-IsWord : (v : Vocation) (p : Player) → IsWord (gain_level v p)
unfolding gain_level
gain_level-IsWord v p = record {
  level = omega arith;
  health_max = omega arith;
  mana_max = omega arith;
  capacity = omega arith;
}

-- One more round before the others.
Rises-gain_level :
    (v : Vocation) (p : Player) (rounds : ℕ) {r : Reached}
    → Rises v (gain_level v p) rounds r
    → Rises v p (suc rounds) r
unfolding gain_level
Rises-gain_level v p rounds s = record {
  reached = s.reached;
  over = s.over;
  experience = s.experience;
  level = omega (arith, s.level);
  health_max = grind (arith, s.health_max);
  mana_max = grind (arith, s.mana_max);
  capacity = grind (arith, s.capacity);
}

zero_rounds-Rises :
    (v : Vocation) (r : Reached)
    → IsWord r.player
    → IsReached r
    → (r.player.experience < r.next_level_exp) ⊎ (r.next_level_exp ≤ r.curr_level_exp)
    → Rises v r.player 0 r
zero_rounds-Rises v r w reached over = record {
  reached = reached;
  over = over;
  experience = refl;
  level = omega (arith, w.level);
  health_max = omega (arith, w.health_max);
  mana_max = omega (arith, w.mana_max);
  capacity = omega (arith, w.capacity);
}

-- The round of the loop.
abbrev round : Vocation → Reached → Reached
round v r = record {
  player = gain_level v r.player;
  curr_level_exp = r.next_level_exp;
  next_level_exp = exp_for_level (next_level (gain_level v r.player));
}

level_up_stays :
    (v : Vocation) (fuel : ℕ) (r : Reached)
    → ltb r.player.experience r.next_level_exp ≡ true
    → level_up v (suc fuel) r ≡ some r
unfolding level_up
level_up_stays v fuel r e = ground arith

level_up_ends :
    (v : Vocation) (fuel : ℕ) (r : Reached)
    → ltb r.player.experience r.next_level_exp ≡ false
    → leb (round v r).next_level_exp r.next_level_exp ≡ true
    → level_up v (suc fuel) r ≡ some (round v r)
unfolding level_up
level_up_ends v fuel r e l = rw (e, level_up, l) refl

level_up_goes :
    (v : Vocation) (fuel : ℕ) (r : Reached)
    → ltb r.player.experience r.next_level_exp ≡ false
    → leb (round v r).next_level_exp r.next_level_exp ≡ false
    → level_up v (suc fuel) r ≡ level_up v fuel (round v r)
unfolding level_up
level_up_goes v fuel r e l = rw (e, level_up, l) refl

round-IsReached :
    (v : Vocation) (r : Reached)
    → IsReached r
    → ltb r.player.experience r.next_level_exp ≡ false
    → IsReached (round v r)
unfolding gain_level
round-IsReached v r c e = record { curr = c.next; next = refl; above = ground arith }

experience-round :
    (v : Vocation) (r : Reached) → (round v r).player.experience ≡ r.player.experience
unfolding gain_level
experience-round v r = refl

-- With fuel above what the experience exceeds the next bound by, the loop ends, at a level whose
-- bounds hold the experience or whose next bound is no higher.
pub level_up_lem :
    (v : Vocation) (fuel : ℕ) (r : Reached)
    → IsWord r.player
    → IsReached r
    → r.player.experience < r.next_level_exp + fuel
    → (rounds : ℕ) × (r' : Reached) × (level_up v (suc fuel) r ≡ some r')
      × Rises v r.player rounds r'
level_up_lem v zero r w c h =
    (0, r, level_up_stays v zero r (ground arith), zero_rounds-Rises v r w c (inl (omega arith)))
level_up_lem v (suc fuel) r w c h = elim (Bool-cases (ltb r.player.experience r.next_level_exp)) [
  | inl e ↦ (0, r, level_up_stays v (suc fuel) r e, zero_rounds-Rises v r w c (inl (ground arith)))
  | inr e ↦
      let w1 = gain_level-IsWord v r.player in
      let c1 = round-IsReached v r c e in
      elim (Bool-cases (leb (round v r).next_level_exp r.next_level_exp)) [
        | inl l ↦ (
          1,
          round v r,
          level_up_ends v (suc fuel) r e l,
          Rises-gain_level v r.player 0
              (zero_rounds-Rises v (round v r) w1 c1 (inr (ground arith))),
        )
        | inr l ↦
            let (rounds, r', returns, rises) =
              level_up_lem v fuel (round v r) w1 c1 (ground (arith, experience-round v r)) in
            (
              suc rounds,
              r',
              level_up_goes v (suc fuel) r e l ∙ returns,
              Rises-gain_level v r.player rounds rises,
            )
      ]
]
