-- ===== src/Party/Withdrawal.antt =====
-- Taking an invitation back (source/src/party.cpp).
use otg_premium_version.Common.{
  ℕ, ◌<◌, ◌≡◌, true, Option, none, some, arith, ◌⊎◌, Bool-cases, inl, inr,
}
use otg_premium_version.Party.Sharing.{Party, Env, contains, empty}
use otg_premium_version.Party.State.{World, update, set_party, remove_first, remove_all}
use otg_premium_version.Party.{disband, remove_invite}
use otg_premium_version.Party.Counting.{
  count, points, contains-count, count-remove_first, count-remove_all,
}
use otg_premium_version.Party.Consistency.{
  IsConsistent, here-member, here-invitation, here-once, points-le,
}
use otg_premium_version.Party.Ending.{IsEnding, disband-IsConsistent}

points_one : (q r : ℕ) (o : Option ℕ) → (q ≡ r) ⊎ (points q o ≡ 0) ⊎ (points r o ≡ 0)
points_one q r none = omega arith
points_one q r (some s) = ground arith

module _ (env : Env) (q : ℕ) (p : Party) (player : ℕ) (w : World) (here : w.parties q ≡ some p)
    (c : IsConsistent w) where
  -- `removeInvite` that also tells the player.
  uninvited : Party
  uninvited = record p { invites = remove_first player p.invites }

  told : World
  told = record w {
    invitations = update w.invitations player (remove_all q (w.invitations player));
  }

  remove_invite_cases :
      ((remove_invite env q p player true w).0 ≡ w)
      ⊎ ((0 < count player p.invites)
          × ((remove_invite env q p player true w).0 ≡ disband env q uninvited told))
      ⊎ ((0 < count player p.invites)
          × ((remove_invite env q p player true w).0 ≡ set_party q uninvited told))
  unfolding remove_invite uninvited told
  remove_invite_cases = elim (Bool-cases (contains player p.invites)) [
    | inl listed ↦ elim (Bool-cases (empty uninvited)) [
      | inl ends ↦ inr (inl (ground (arith, contains-count player p.invites), rw (listed, ends)))
      | inr stays ↦ inr (inr (ground (arith, contains-count player p.invites), rw (listed, stays)))
    ]
    | inr unlisted ↦ inl (rw unlisted)
  ]

  told-IsEnding : 0 < count player p.invites → IsEnding q uninvited told
  unfolding uninvited told update
  told-IsEnding listed = record {
    others = λ i r. inr (c.member i r);
    own = λ i. ground (arith, here-member env q p player w here c i);
    nowhere_else = λ i r. ground (
      arith,
      c.member i r,
      here-member env q p player w here c i,
      points-le q (w.party_of i),
      points_one q r (w.party_of i),
    );
    other_invitations =
        λ i r. ground (arith, c.invitation i r, count-remove_all r q (w.invitations player));
    own_invitations = λ i h. ground (
      arith,
      here-invitation env q p player w here c i,
      count-remove_all q q (w.invitations player),
      count-remove_first i player p.invites,
    );
    once = λ i r. inr (c.once i r);
    fresh = λ r h. inr (c.fresh r h);
  }

  told-IsConsistent : 0 < count player p.invites → IsConsistent (set_party q uninvited told)
  unfolding uninvited told update set_party
  told-IsConsistent listed = record {
    member = λ i r. ground (arith, c.member i r, here-member env q p player w here c i);
    invitation = λ i r. ground (
      arith,
      c.invitation i r,
      here-invitation env q p player w here c i,
      here-once env q p player w here c i,
      count-remove_all r q (w.invitations player),
      count-remove_first i player p.invites,
    );
    once = λ i r. ground (
      arith,
      c.once i r,
      here-once env q p player w here c i,
      count-remove_first i player p.invites,
    );
    fresh = λ r h. ground (arith, here, c.fresh r h);
  }

  -- Where the disband event agrees, taking an invitation back keeps the world consistent.
  pub remove_invite-IsConsistent :
      env.on_disband ≡ true → IsConsistent (remove_invite env q p player true w).0
  remove_invite-IsConsistent agreed = elim remove_invite_cases [
    | inl same ↦ rw same c
    | inr (inl (listed, ends)) ↦
        rw ends (disband-IsConsistent env q uninvited told agreed (told-IsEnding listed))
    | inr (inr (listed, stays)) ↦ rw stays (told-IsConsistent listed)
  ]
