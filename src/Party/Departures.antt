-- ===== src/Party/Departures.antt =====
-- Leaving a party (source/src/party.cpp).
use otg_premium_version.Common.{
  ℕ, ◌<◌, ◌≡◌, refl, true, false, not, ◌&&◌, ◌||◌, none, some, List, [], ◌∷◌, ◌==◌, if◌then◌else◌,
  arith, ◌⊎◌, ap, Bool-cases, inl, inr,
}
use otg_premium_version.Party.Sharing.{
  Party, Env, is_empty, empty, update_shared_experience, clear_player_points,
}
use otg_premium_version.Party.State.{World, update, set_party, is_party}
use otg_premium_version.Party.{disband, leave_party, pass_to_first, missing_leader, departed}
use otg_premium_version.Party.Counting.{count, inside, is_party-points, count-remove_first}
use otg_premium_version.Party.Consistency.{
  IsConsistent, here-member, here-invitation, here-once, pass-inside, pass-invites, pass-leader,
}
use otg_premium_version.Party.Ending.{IsEnding, disband-IsConsistent}

module _ (env : Env) (q : ℕ) (p : Party) (player : ℕ) (w : World) (here : w.parties q ≡ some p)
    (c : IsConsistent w) where
  -- The leadership goes to the first member.
  first :
      (ms : List ℕ)
      → p.members ≡ ms
      → ((i : ℕ) → inside i (some (pass_to_first env q ms p w)) ≡ inside i (some p))
        × ((pass_to_first env q ms p w).invites ≡ p.invites)
        × ((is_empty ms ≡ true) ⊎ (0 < count (pass_to_first env q ms p w).leader p.members))
  unfolding pass_to_first is_empty
  first [] e = ((λ i. refl), refl, inl refl)
  first (m ∷ rest) e =
      let at_front : 0 < count m p.members = rw e (ground arith) in
      (
        (λ i. pass-inside env q p m w here c i),
        pass-invites env q p m w here c,
        inr (rw (pass-leader env q p m w here c at_front) at_front),
      )

  departed-inside :
      (i : ℕ) → (i ≡ player) ⊎ (inside i (some (departed env q p player w)) ≡ inside i (some p))
  unfolding departed
  departed-inside i = ground (
    arith,
    (first p.members refl).0 i,
    count-remove_first i player (pass_to_first env q p.members p w).members,
    count-remove_first i player p.members,
  )

  departed-invites : (departed env q p player w).invites ≡ p.invites
  unfolding departed
  departed-invites = ground (arith, (first p.members refl).1)

  departed-player :
      missing_leader env q p player ≡ false → inside player (some (departed env q p player w)) ≡ 0
  unfolding departed missing_leader
  departed-player h = ground (
    arith,
    (first p.members refl).0 player,
    (first p.members refl).2,
    here-member env q p player w here c player,
    count-remove_first player player (pass_to_first env q p.members p w).members,
    count-remove_first player player p.members,
  )

  -- The party and the world as they are when the player has gone.
  abbrev left_party : Party
  left_party =
      clear_player_points env player (update_shared_experience env (departed env q p player w))

  abbrev left_world : World
  left_world = record w { party_of = update w.party_of player none }

  module _ (belongs : 0 < inside player (some p)) where
    left-inside : (i : ℕ) → (i ≡ player) ⊎ (inside i (some left_party) ≡ inside i (some p))
    unfolding clear_player_points
    left-inside i = departed-inside i

    left-invites : left_party.invites ≡ p.invites
    unfolding clear_player_points
    left-invites = departed-invites

    left-IsEnding : IsEnding q left_party left_world
    unfolding update
    left-IsEnding = record {
      others = λ i r. ground (arith, c.member i r, here-member env q p player w here c i);
      own = λ i. ground (arith, here-member env q p player w here c i, left-inside i);
      nowhere_else =
          λ i r. ground (arith, c.member i r, here-member env q p player w here c i, left-inside i);
      other_invitations = λ i r. inr (c.invitation i r);
      own_invitations = λ i h. ground (
        arith,
        left-invites,
        ap (count i) left-invites,
        here-invitation env q p player w here c i,
      );
      once = λ i r. inr (c.once i r);
      fresh = λ r h. inr (c.fresh r h);
    }

    left-IsConsistent :
        missing_leader env q p player ≡ false → IsConsistent (set_party q left_party left_world)
    unfolding set_party
    left-IsConsistent stays = record {
      member = λ i r.
          ground (arith, c.member i r, here-member env q p player w here c i, left-inside i, gone);
      invitation = λ i r. ground (
        arith,
        ap (count i) left-invites,
        c.invitation i r,
        here-invitation env q p player w here c i,
      );
      once = λ i r.
          ground
            (arith, ap (count i) left-invites, c.once i r, here-once env q p player w here c i);
      fresh = λ r h. ground (arith, here, c.fresh r h);
    }
      where
        gone : inside player (some left_party) ≡ 0
        gone = unfold clear_player_points in departed-player stays

  belongs-guard :
      (not (is_party q (w.party_of player)) && not (p.leader == player)) ≡ false
      → 0 < inside player (some p)
  belongs-guard h =
      ground
        (arith, here-member env q p player w here c player, is_party-points q (w.party_of player))

  -- The last step of leaving: the party ends, or stays without the player.
  after_leaving : World
  after_leaving =
      if missing_leader env q p player || empty left_party
      then disband env q left_party left_world
      else set_party q left_party left_world

  after_leaving-IsConsistent :
      env.on_disband ≡ true → 0 < inside player (some p) → IsConsistent after_leaving
  unfolding after_leaving
  after_leaving-IsConsistent agreed belongs =
      elim (Bool-cases (missing_leader env q p player || empty left_party)) [
        | inl ends ↦
            rw (ends, after_leaving)
              (disband-IsConsistent env q left_party left_world agreed (left-IsEnding belongs))
        | inr stays ↦ rw (stays, after_leaving) (left-IsConsistent belongs (ground arith))
      ]

  leave_party_cases :
      ((leave_party env q p player w).0 ≡ w)
      ⊎ ((0 < inside player (some p)) × ((leave_party env q p player w).0 ≡ after_leaving))
  unfolding leave_party after_leaving
  leave_party_cases =
      elim (Bool-cases (not (is_party q (w.party_of player)) && not (p.leader == player))) [
        | inl stranger ↦ inl (rw stranger)
        | inr friend ↦ elim (Bool-cases (not env.on_leave)) [
          | inl refused ↦ inl (rw (friend, refused))
          | inr allowed ↦ inr (belongs-guard friend, rw (friend, allowed))
        ]
      ]

  -- Where the disband event agrees, leaving keeps the world consistent, whether the player is a
  -- stranger, a member or the leader, and whether or not the party ends.
  pub leave_party-IsConsistent :
      env.on_disband ≡ true → IsConsistent (leave_party env q p player w).0
  leave_party-IsConsistent agreed = elim leave_party_cases [
    | inl same ↦ rw same c
    | inr (belongs, ends) ↦ rw ends (after_leaving-IsConsistent agreed belongs)
  ]
