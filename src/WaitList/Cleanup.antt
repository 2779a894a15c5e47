-- ===== src/WaitList/Cleanup.antt =====
-- What `cleanupList` of source/src/waitlist.cpp removes.
use otg_premium_version.Common.{
  ℕ, ◌+◌, ◌^◌, ◌≤◌, ◌<◌, ◌≡◌, refl, List, [], ◌∷◌, arith, All, ◌==◌, if◌then◌else◌, leb,
}
use otg_premium_version.WaitList.{Wait, remaining, cleanup_list}

-- How many entries a player has.
abbrev pub count : ℕ → List Wait → ℕ
count g [] = 0
count g (w ∷ ws) = (if w.player_guid == g then 1 else 0) + count g ws

pub remaining_zero :
    (time : ℕ) (w : Wait)
    → time < 2 ^ 64
    → w.timeout < 2 ^ 64
    → leb (remaining time w) 0 ≡ (w.timeout == time)
unfolding remaining
remaining_zero time w ht hw = ground arith

-- The entries whose time-out is not the clock reading, in their order.
abbrev pub others : ℕ → List Wait → List Wait
others time [] = []
others time (w ∷ ws) = if w.timeout == time then others time ws else w ∷ others time ws

-- Of each list of 64-bit time-outs, at a clock reading of 64 bits, those entries are removed whose
-- time-out is the very reading, and all others stay in their order, however long ago they ran out:
-- the difference is unsigned, and `<= 0` holds of 0 alone.
pub cleanup_list-keeps :
    (time : ℕ) (ws : List Wait)
    → time < 2 ^ 64
    → All (λ w. w.timeout < 2 ^ 64) ws
    → cleanup_list time ws ≡ others time ws
unfolding cleanup_list
cleanup_list-keeps time [] ht h = refl
cleanup_list-keeps time (w ∷ ws) ht h =
    let rest = cleanup_list-keeps time ws ht h.1 in rw (remaining_zero time w ht h.0, rest) refl

pub count-cleanup_list-le :
    (time g : ℕ) (ws : List Wait) → count g (cleanup_list time ws) ≤ count g ws
unfolding cleanup_list
count-cleanup_list-le time g [] = omega arith
count-cleanup_list-le time g (w ∷ ws) = ground (arith, count-cleanup_list-le time g ws)
