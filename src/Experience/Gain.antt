-- ===== src/Experience/Gain.antt =====
-- What addExperience of source/src/player.cpp leaves.
use otg_premium_version.Common.{
  ℕ, suc, ◌+◌, ◌*◌, ◌%◌, ◌^◌, ◌≤◌, ◌<◌, some, ◌==◌, leb, ◌≡◌, refl, arith, Bool-cases, inl, inr,
  ◌⊎◌, ◌∙◌, ap,
}
use otg_premium_version.Experience.{
  exp_for_level, Vocation, Player, Reached, refreshed, set_percent, add_experience,
  update_base_speed,
}
use otg_premium_version.Experience.Loops.{next_level, IsReached, Rises, IsWord, level_up_lem}

-- The experience lies within the bounds of the level, or no level is above it.
pub record IsAtLevel (p : Player) : Type 0 where
  pub above : exp_for_level p.level ≤ p.experience
  pub over :
      (p.experience < exp_for_level (next_level p))
      ⊎ (exp_for_level (next_level p) ≤ exp_for_level p.level)

-- A number of levels gained, each with what the vocation gives.
pub record Gains (v : Vocation) (p p' : Player) (levels : ℕ) : Type 0 where
  pub level : p'.level ≡ (p.level + levels) % 2 ^ 32
  pub health_max : p'.health_max ≡ (p.health_max + levels * v.hp_gain) % 2 ^ 32
  pub mana_max : p'.mana_max ≡ (p.mana_max + levels * v.mana_gain) % 2 ^ 32
  pub capacity : p'.capacity ≡ (p.capacity + levels * v.cap_gain) % 2 ^ 32

-- The end of the functions writes health, mana, speed and the percentage.
pub record KeepsLevel (p p' : Player) : Type 0 where
  pub experience : p'.experience ≡ p.experience
  pub level : p'.level ≡ p.level
  pub health_max : p'.health_max ≡ p.health_max
  pub mana_max : p'.mana_max ≡ p.mana_max
  pub capacity : p'.capacity ≡ p.capacity

pub finish-KeepsLevel :
    (v : Vocation) (prev curr next : ℕ) (p : Player)
    → KeepsLevel p (set_percent curr next (refreshed v prev p))
unfolding set_percent refreshed update_base_speed
finish-KeepsLevel v prev curr next p = ground arith

pub KeepsLevel-IsAtLevel : (p p' : Player) → KeepsLevel p p' → IsAtLevel p → IsAtLevel p'
KeepsLevel-IsAtLevel p p' k a =
    let curr = ap exp_for_level k.level in
    let next = ap (λ (l : ℕ). exp_for_level ((l + 1) % 2 ^ 32)) k.level in
    record {
      above = omega (arith, curr, k.experience, a.above);
      over = elim (a.over) [
        | inl below ↦ inl (omega (arith, next, k.experience, below))
        | inr last ↦ inr (omega (arith, curr, next, last))
      ];
    }

KeepsLevel-Gains :
    (v : Vocation) (p q q' : Player) (levels : ℕ)
    → KeepsLevel q q'
    → Gains v p q levels
    → Gains v p q' levels
KeepsLevel-Gains v p q q' levels k g = record {
  level = k.level ∙ g.level;
  health_max = k.health_max ∙ g.health_max;
  mana_max = k.mana_max ∙ g.mana_max;
  capacity = k.capacity ∙ g.capacity;
}

KeepsLevel-percent :
    (p : Player) (percent : ℕ) → KeepsLevel p (record p { level_percent = percent })
KeepsLevel-percent p percent = ground arith

zero_levels-Gains : (v : Vocation) (p : Player) → IsWord p → Gains v p p 0
zero_levels-Gains v p w = record {
  level = omega (arith, w.level);
  health_max = omega (arith, w.health_max);
  mana_max = omega (arith, w.mana_max);
  capacity = omega (arith, w.capacity);
}

-- Before the loop of addExperience.
abbrev before : (ℕ → ℕ) → ℕ → Player → Reached
before event exp p = record {
  player = record p { experience = (p.experience + event exp) % 2 ^ 64 };
  curr_level_exp = exp_for_level p.level;
  next_level_exp = exp_for_level (next_level p);
}

before-IsWord :
    (event : ℕ → ℕ) (exp : ℕ) (p : Player) → IsWord p → IsWord (before event exp p).player
before-IsWord event exp p w = ground arith

before-IsReached :
    (event : ℕ → ℕ) (exp : ℕ) (p : Player)
    → IsAtLevel p
    → p.experience + event exp < 2 ^ 64
    → IsReached (before event exp p)
before-IsReached event exp p a s = record {
  curr = refl;
  next = refl;
  above = omega (arith, a.above);
}

Rises-IsAtLevel :
    (v : Vocation) (p : Player) (levels : ℕ) (r : Reached) → Rises v p levels r → IsAtLevel r.player
Rises-IsAtLevel v p levels r s = record {
  above = omega (arith, s.reached.curr, s.reached.above);
  over = elim (s.over) [
    | inl below ↦ inl (omega (arith, s.reached.next, below))
    | inr last ↦ inr (omega (arith, s.reached.next, s.reached.curr, last))
  ];
}

Rises-Gains :
    (v : Vocation) (event : ℕ → ℕ) (exp : ℕ) (p : Player) (levels : ℕ) (r : Reached)
    → Rises v (before event exp p).player levels r
    → Gains v p r.player levels
Rises-Gains v event exp p levels r s = record {
  level = s.level;
  health_max = s.health_max;
  mana_max = s.mana_max;
  capacity = s.capacity;
}

-- A player at their level who gains experience, without an overflow, is at their level afterwards:
-- the loop ends, and each level gained raises the maxima and the capacity by what the vocation gives.
pub add_experience-IsAtLevel :
    (v : Vocation) (event : ℕ → ℕ) (exp : ℕ) (p : Player)
    → IsWord p
    → IsAtLevel p
    → p.experience + event exp < 2 ^ 64
    → (levels : ℕ) × (p' : Player) × (add_experience v (suc (p.experience + event exp)) event exp p
        ≡ some p')
      × IsAtLevel p'
      × Gains v p p' levels
unfolding add_experience
add_experience-IsAtLevel v event exp p w a s =
    elim (Bool-cases (leb (exp_for_level (next_level p)) (exp_for_level p.level))) [
      | inl e ↦ (
        0,
        record p { level_percent = 0 },
        rw (e, add_experience) refl,
        KeepsLevel-IsAtLevel p (record p { level_percent = 0 }) (KeepsLevel-percent p 0) a,
        KeepsLevel-Gains v p p (record p { level_percent = 0 }) 0 (KeepsLevel-percent p 0)
            (zero_levels-Gains v p w),
      )
      | inr e ↦ elim (Bool-cases (event exp == 0)) [
        | inl z ↦ (0, p, rw (e, add_experience, z) refl, a, zero_levels-Gains v p w)
        | inr z ↦
            let first = before event exp p in
            let (levels, r, returns, rises) =
              level_up_lem v (p.experience + event exp) first (before-IsWord event exp p w)
                (before-IsReached event exp p a s) (ground arith) in
            let q = refreshed v p.level r.player in
            let p' = set_percent r.curr_level_exp r.next_level_exp q in
            let kept = finish-KeepsLevel v p.level r.curr_level_exp r.next_level_exp r.player in
            (
              levels,
              p',
              rw (e, add_experience, z, returns) refl,
              KeepsLevel-IsAtLevel r.player p' kept (Rises-IsAtLevel v first.player levels r rises),
              KeepsLevel-Gains v p r.player p' levels kept
                  (Rises-Gains v event exp p levels r rises),
            )
      ]
    ]
