-- ===== src/Party/Consistency.antt =====
-- The pointers between players and parties (source/src/party.cpp) agree: what holds between calls,
-- and the operations that add to a party.
use otg_premium_version.Common.{ℕ, ◌≤◌, ◌<◌, ◌≡◌, Option, none, some, [], ◌∷◌, arith}
use otg_premium_version.Party.Sharing.{Party, Env}
use otg_premium_version.Party.State.{World}
use otg_premium_version.Party.{join_party, invite_player, pass_party_leadership}
use otg_premium_version.Party.Counting.{
  count, inside, invited, points, contains-count, is_party-points, count-append, count-remove_first,
  count-remove_all,
}

-- A player is in a party, once, exactly when the player's own pointer says so; the invitations on
-- both sides agree, and none is doubled; no party is at an address that was not given out.
pub record IsConsistent (w : World) : Type 0 where
  pub member : (player q : ℕ) → inside player (w.parties q) ≡ points q (w.party_of player)
  pub invitation : (player q : ℕ) → invited player (w.parties q) ≡ count q (w.invitations player)
  pub once : (player q : ℕ) → invited player (w.parties q) ≤ 1
  pub fresh : (q : ℕ) → w.next_party ≤ q → w.parties q ≡ none

pub points-le : (q : ℕ) (o : Option ℕ) → points q o ≤ 1
points-le q none = omega arith
points-le q (some r) = ground arith

module _ (env : Env) (q : ℕ) (p : Party) (player : ℕ) (w : World) (here : w.parties q ≡ some p)
    (c : IsConsistent w) where
  pub here-member : (i : ℕ) → inside i (some p) ≡ points q (w.party_of i)
  here-member i = rw here at (c.member i q)

  pub here-invitation : (i : ℕ) → count i p.invites ≡ count q (w.invitations i)
  here-invitation i = rw here at (c.invitation i q)

  pub here-once : (i : ℕ) → count i p.invites ≤ 1
  here-once i = rw here at (c.once i q)

  invite_player-member :
      (i r : ℕ)
      → inside i ((invite_player env q p player w).0.parties r)
        ≡ points r ((invite_player env q p player w).0.party_of i)
  unfolding invite_player
  invite_player-member i r = ground (arith, here-member i, c.member i r)

  invite_player-invitation :
      (i r : ℕ)
      → invited i ((invite_player env q p player w).0.parties r)
        ≡ count r ((invite_player env q p player w).0.invitations i)
  unfolding invite_player
  invite_player-invitation i r = ground (
    arith,
    here-invitation i,
    here-invitation player,
    here-once i,
    c.invitation i r,
    contains-count player p.invites,
    contains-count q (w.invitations player),
    count-append i p.invites (player ∷ []),
  )

  invite_player-once : (i r : ℕ) → invited i ((invite_player env q p player w).0.parties r) ≤ 1
  unfolding invite_player
  invite_player-once i r = ground (
    arith,
    here-once i,
    c.once i r,
    contains-count player p.invites,
    count-append i p.invites (player ∷ []),
  )

  invite_player-fresh :
      (r : ℕ) → w.next_party ≤ r → (invite_player env q p player w).0.parties r ≡ none
  unfolding invite_player
  invite_player-fresh r h = ground (arith, here, c.fresh r h)

  invite_player-next_party : (invite_player env q p player w).0.next_party ≡ w.next_party
  unfolding invite_player
  invite_player-next_party = ground arith

  -- Inviting a player keeps the world consistent.
  pub invite_player-IsConsistent : IsConsistent (invite_player env q p player w).0
  invite_player-IsConsistent = record {
    member = invite_player-member;
    invitation = invite_player-invitation;
    once = invite_player-once;
    fresh = λ r h. invite_player-fresh r (rw invite_player-next_party at h);
  }

  module _ (free : w.party_of player ≡ none) where
    join_party-member :
        (i r : ℕ)
        → inside i ((join_party env q p player w).0.parties r)
          ≡ points r ((join_party env q p player w).0.party_of i)
    unfolding join_party
    join_party-member i r = ground (
      arith,
      free,
      here-member i,
      here-member player,
      c.member i r,
      c.member player r,
      count-append i p.members (player ∷ []),
    )

    join_party-invitation :
        (i r : ℕ)
        → invited i ((join_party env q p player w).0.parties r)
          ≡ count r ((join_party env q p player w).0.invitations i)
    unfolding join_party
    join_party-invitation i r = ground (
      arith,
      here-invitation i,
      here-once i,
      c.invitation i r,
      contains-count player p.invites,
      count-remove_first i player p.invites,
      count-remove_all r q (w.invitations player),
    )

    join_party-once : (i r : ℕ) → invited i ((join_party env q p player w).0.parties r) ≤ 1
    unfolding join_party
    join_party-once i r =
        ground (arith, here-once i, c.once i r, count-remove_first i player p.invites)

    join_party-fresh : (r : ℕ) → w.next_party ≤ r → (join_party env q p player w).0.parties r ≡ none
    unfolding join_party
    join_party-fresh r h = ground (arith, here, c.fresh r h)

    join_party-next_party : (join_party env q p player w).0.next_party ≡ w.next_party
    unfolding join_party
    join_party-next_party = ground arith

    -- A player without a party who joins leaves the world consistent.
    pub join_party-IsConsistent : IsConsistent (join_party env q p player w).0
    join_party-IsConsistent = record {
      member = join_party-member;
      invitation = join_party-invitation;
      once = join_party-once;
      fresh = λ r h. join_party-fresh r (rw join_party-next_party at h);
    }

  pub pass-inside :
      (i : ℕ) → inside i (some (pass_party_leadership env q p player w).0) ≡ inside i (some p)
  unfolding pass_party_leadership
  pass-inside i = ground (
    arith,
    here-member player,
    here-member i,
    is_party-points q (w.party_of player),
    count-remove_first i player p.members,
  )

  pub pass-invites : (pass_party_leadership env q p player w).0.invites ≡ p.invites
  unfolding pass_party_leadership
  pass-invites = ground arith

  pub pass-leader :
      0 < count player p.members → (pass_party_leadership env q p player w).0.leader ≡ player
  unfolding pass_party_leadership
  pass-leader h = ground (
    arith,
    here-member player,
    points-le q (w.party_of player),
    is_party-points q (w.party_of player),
  )
