-- ===== src/Party/Levels.antt =====
-- Whose levels allow a party to share experience (source/src/party.cpp).
use otg_premium_version.Common.{
  ℕ, ◌*◌, ◌≤◌, ◌<◌, ◌≡◌, true, some, List, [], ◌∷◌, ◌==◌, if◌then◌else◌, arith, Bool-cases, inl,
  inr, ltb, ap, ==_iff,
}
use mathlib.Core.Path.{subst}
use otg_premium_version.Party.Sharing.{
  Party, Env, highest_level, min_level, can_use_shared_experience, can_enable_shared_experience,
  all_can_use,
}
use otg_premium_version.Party.Counting.{count, inside}

module _ (env : Env) where
  highest_level-ge : (h : ℕ) (ms : List ℕ) → h ≤ highest_level env h ms
  unfolding highest_level
  highest_level-ge h [] = omega arith
  highest_level-ge h (m ∷ ms) =
      ground (arith, highest_level-ge (if ltb h (env.level m) then env.level m else h) ms)

  le-highest_level : (h i : ℕ) (ms : List ℕ) → 0 < count i ms → env.level i ≤ highest_level env h ms
  unfolding highest_level
  le-highest_level h i [] c = absurd (omega arith)
  le-highest_level h i (m ∷ ms) c =
      let h' : ℕ = if ltb h (env.level m) then env.level m else h in
      elim (Bool-cases (m == i)) [
        | inl same ↦ ground (arith, ap env.level ((==_iff m i).0 same), highest_level-ge h' ms)
        | inr other ↦ le-highest_level h' i ms (ground arith)
      ]

  can_use-level :
      (p : Party) (i : ℕ)
      → can_use_shared_experience env p i ≡ true
      → highest_level env (env.level p.leader) p.members * 2 ≤ env.level i * 3
  unfolding can_use_shared_experience min_level
  can_use-level p i h = ground arith

  all_can_use-member :
      (p : Party) (i : ℕ) (ms : List ℕ)
      → all_can_use env p ms ≡ true
      → 0 < count i ms
      → can_use_shared_experience env p i ≡ true
  unfolding all_can_use
  all_can_use-member p i [] h c = absurd (omega arith)
  all_can_use-member p i (m ∷ ms) h c = elim (Bool-cases (m == i)) [
    | inl same ↦
        subst (λ k. can_use_shared_experience env p k ≡ true) ((==_iff m i).0 same) (ground arith)
    | inr other ↦ all_can_use-member p i ms (ground arith) (ground arith)
  ]

  everyone :
      (p : Party) (i : ℕ)
      → can_enable_shared_experience env p ≡ true
      → 0 < inside i (some p)
      → can_use_shared_experience env p i ≡ true
  unfolding can_enable_shared_experience
  everyone p i h c = elim (Bool-cases (p.leader == i)) [
    | inl same ↦
        subst (λ k. can_use_shared_experience env p k ≡ true) ((==_iff p.leader i).0 same)
          (ground arith)
    | inr other ↦ all_can_use-member p i p.members (ground arith) (ground arith)
  ]

  below_highest :
      (p : Party) (j : ℕ)
      → 0 < inside j (some p)
      → env.level j ≤ highest_level env (env.level p.leader) p.members
  below_highest p j c = elim (Bool-cases (p.leader == j)) [
    | inl same ↦ ground (
      arith,
      ap env.level ((==_iff p.leader j).0 same),
      highest_level-ge (env.level p.leader) p.members,
    )
    | inr other ↦ le-highest_level (env.level p.leader) j p.members (ground arith)
  ]

  -- Where a party may share experience, no one in it has less than two thirds of the level of
  -- another.
  pub can_enable-levels :
      (p : Party) (i j : ℕ)
      → can_enable_shared_experience env p ≡ true
      → 0 < inside i (some p)
      → 0 < inside j (some p)
      → env.level j * 2 ≤ env.level i * 3
  can_enable-levels p i j h ci cj =
      omega (arith, can_use-level p i (everyone p i h ci), below_highest p j cj)
