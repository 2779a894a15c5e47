-- ===== src/Experience/Loss.antt =====
-- What removeExperience and the level loss of death of source/src/player.cpp leave.
use otg_premium_version.Common.{
  ℕ, zero, suc, ◌+◌, ◌-◌, ◌%◌, ◌^◌, ◌≤◌, ◌<◌, Bool, true, false, ◌&&◌, ◌||◌, ◌==◌, if◌then◌else◌,
  ltb, ◌≡◌, refl, arith, Bool-cases, inl, inr, ◌⊎◌, ◌∙◌, ap,
}
use otg_premium_version.Experience.{
  exp_for_level, Vocation, Player, refreshed, set_percent, remove_experience, lose_level,
  level_down, reduced, death_level_loss,
}
use otg_premium_version.Experience.Gain.{KeepsLevel, finish-KeepsLevel}

-- The level falls as far as the experience wants it, and no further.
pub record Falls (p q : Player) : Type 0 where
  pub experience : q.experience ≡ p.experience
  pub low : q.level ≤ p.level
  pub first : 1 ≤ p.level → 1 ≤ q.level
  pub above : (q.level ≤ 1) ⊎ (exp_for_level q.level ≤ q.experience)
  pub least : (q.level ≡ p.level) ⊎ (q.experience < exp_for_level (q.level + 1))

level_down_stays :
    (v : Vocation) (n : ℕ) (p : Player)
    → (ltb 1 p.level && ltb p.experience (exp_for_level p.level)) ≡ false
    → level_down v n p ≡ p
unfolding level_down
level_down_stays v zero p h = refl
level_down_stays v (suc n) p h = rw (h, level_down) refl

level_down_falls :
    (v : Vocation) (n : ℕ) (p : Player)
    → (ltb 1 p.level && ltb p.experience (exp_for_level p.level)) ≡ true
    → level_down v (suc n) p ≡ level_down v n (lose_level v p)
unfolding level_down
level_down_falls v n p h = rw (h, level_down) refl

level_kept-Falls :
    (p : Player) → (ltb 1 p.level && ltb p.experience (exp_for_level p.level)) ≡ false → Falls p p
level_kept-Falls p h = record {
  experience = refl;
  low = omega arith;
  first = λ k. k;
  above = elim (Bool-cases (ltb 1 p.level)) [
    | inl e ↦ inr (ground arith)
    | inr e ↦ inl (ground arith)
  ];
  least = inl refl;
}

Falls-lose_level :
    (v : Vocation) (p q : Player)
    → (ltb 1 p.level && ltb p.experience (exp_for_level p.level)) ≡ true
    → Falls (lose_level v p) q
    → Falls p q
unfolding lose_level
Falls-lose_level v p q h f =
    let high : 1 < p.level = ground arith in
    let short : p.experience < exp_for_level p.level = ground arith in
    record {
      experience = f.experience;
      low = omega (arith, f.low);
      first = λ k. f.first (omega arith);
      above = f.above;
      least = elim (f.least) [
        | inl e ↦
            let again : exp_for_level (q.level + 1) ≡ exp_for_level p.level =
              ap exp_for_level (omega (arith, e)) in
            inr (omega (arith, f.experience))
        | inr below ↦ inr below
      ];
    }

lose_level-level :
    (v : Vocation) (p : Player) (n : ℕ) → p.level ≤ suc n → (lose_level v p).level ≤ n
unfolding lose_level
lose_level-level v p n h = omega arith

level_down_lem : (v : Vocation) (n : ℕ) (p : Player) → p.level ≤ n → Falls p (level_down v n p)
level_down_lem v zero p h =
    rw (level_down_stays v zero p (ground arith)) (level_kept-Falls p (ground arith))
level_down_lem v (suc n) p h =
    elim (Bool-cases (ltb 1 p.level && ltb p.experience (exp_for_level p.level))) [
      | inr e ↦ rw (level_down_stays v (suc n) p e) (level_kept-Falls p e)
      | inl e ↦ rw (level_down_falls v n p e) (
          Falls-lose_level v p (level_down v n (lose_level v p)) e
            (level_down_lem v n (lose_level v p) (lose_level-level v p n h)))
    ]

KeepsLevel-Falls : (p q q' : Player) → KeepsLevel q q' → Falls p q → Falls p q'
KeepsLevel-Falls p q q' k f =
    let curr = ap exp_for_level k.level in
    let next = ap (λ (l : ℕ). exp_for_level (l + 1)) k.level in
    record {
      experience = k.experience ∙ f.experience;
      low = omega (arith, k.level, f.low);
      first = λ h. omega (arith, k.level, f.first h);
      above = elim (f.above) [
        | inl low ↦ inl (omega (arith, k.level))
        | inr enough ↦ inr (omega (arith, curr, k.experience))
      ];
      least = elim (f.least) [
        | inl e ↦ inl (k.level ∙ e)
        | inr below ↦ inr (omega (arith, next, k.experience))
      ];
    }

reduced-sub :
    (experience exp : ℕ)
    → experience < 2 ^ 63
    → exp < 2 ^ 63
    → reduced experience exp ≡ experience - exp
unfolding reduced
reduced-sub experience exp h k = ground arith

remove_experience_lem :
    (v : Vocation) (event : ℕ → ℕ) (exp : ℕ) (p q : Player)
    → (p.experience == 0 || exp == 0) ≡ false
    → (event exp == 0) ≡ false
    → level_down v p.level (record p { experience = reduced p.experience (event exp) }) ≡ q
    → remove_experience v event exp p
      ≡ set_percent
          (exp_for_level q.level)
          (exp_for_level ((q.level + 1) % 2 ^ 32))
          (refreshed v p.level q)
unfolding remove_experience
remove_experience_lem v event exp p q h k e = rw (h, remove_experience, k, e) refl

-- Where experience is lost, what is left is the difference, or 0 if the loss is greater; the level
-- falls as far as that wants it and no further, and not below 1.
pub remove_experience-Falls :
    (v : Vocation) (event : ℕ → ℕ) (exp : ℕ) (p : Player)
    → (p.experience == 0 || exp == 0 || event exp == 0) ≡ false
    → p.experience < 2 ^ 63
    → event exp < 2 ^ 63
    → Falls (record p { experience = p.experience - event exp }) (remove_experience v event exp p)
remove_experience-Falls v event exp p h a b =
    let p1 = record p { experience = reduced p.experience (event exp) } in
    let q = level_down v p.level p1 in
    let curr = exp_for_level q.level in
    let next = exp_for_level ((q.level + 1) % 2 ^ 32) in
    rw
      (
        remove_experience_lem v event exp p q (ground arith) (ground arith) refl,
        ← reduced-sub p.experience (event exp) a b,
      )
      (KeepsLevel-Falls p1 q (set_percent curr next (refreshed v p.level q))
        (finish-KeepsLevel v p.level curr next q) (level_down_lem v p.level p1 (omega arith)))

set_percent-KeepsLevel : (curr next : ℕ) (p : Player) → KeepsLevel p (set_percent curr next p)
unfolding set_percent
set_percent-KeepsLevel curr next p = ground arith

death_level_loss_lem :
    (v : Vocation) (no_vocation : Bool) (exp_loss : ℕ) (p p1 q : Player)
    → (exp_loss == 0) ≡ false
    → (if no_vocation || ltb 7 p.level
        then record p { experience = (p.experience + 2 ^ 64 - exp_loss) % 2 ^ 64 }
        else p)
      ≡ p1
    → level_down v p1.level p1 ≡ q
    → death_level_loss v no_vocation exp_loss p
      ≡ set_percent (exp_for_level q.level) (exp_for_level ((q.level + 1) % 2 ^ 32)) q
unfolding death_level_loss
death_level_loss_lem v no_vocation exp_loss p p1 q h e f = rw (h, death_level_loss, e, f) refl

-- In death a player of a vocation loses no experience up to level 7; else the part that is lost,
-- which is at most all of it, is taken off and the level falls as in removeExperience.
pub death_level_loss-Falls :
    (v : Vocation) (no_vocation : Bool) (exp_loss : ℕ) (p : Player)
    → (exp_loss == 0) ≡ false
    → exp_loss ≤ p.experience
    → p.experience < 2 ^ 64
    → Falls
        (record p {
          experience =
              if no_vocation || ltb 7 p.level then p.experience - exp_loss else p.experience;
        })
        (death_level_loss v no_vocation exp_loss p)
death_level_loss-Falls v no_vocation exp_loss p h k w =
    let p1 : Player = record p {
      experience = if no_vocation || ltb 7 p.level then p.experience - exp_loss else p.experience;
    } in
    let q = level_down v p1.level p1 in
    rw (death_level_loss_lem v no_vocation exp_loss p p1 q h (ground arith) refl) (
      KeepsLevel-Falls p1 q
        (set_percent (exp_for_level q.level) (exp_for_level ((q.level + 1) % 2 ^ 32)) q)
        (set_percent-KeepsLevel (exp_for_level q.level) (exp_for_level ((q.level + 1) % 2 ^ 32)) q)
        (level_down_lem v p1.level p1 (omega arith)))
