-- ===== src/Party.antt =====
-- source/src/party.cpp and party.h with the calls of source/src/game.cpp and player.cpp: groups of
-- players, their invitations, and the sharing of experience.
-- Players and parties are told apart by numbers in place of pointers. The world holds what the
-- party code writes: the parties, each player's `party`, and each player's `invitePartyList`.
-- What is only sent to clients is left out.
pub mod Sharing
pub mod State
pub mod Counting
pub mod Consistency
pub mod Ending
pub mod Departures
pub mod Withdrawal
pub mod Requests
pub mod Actions
pub mod History
pub mod Levels
mod Tests
use otg_premium_version.Common.{
  ℕ, zero, suc, ◌+◌, Bool, true, false, ◌&&◌, ◌||◌, not, Option, none, some, List, [], ◌∷◌, ◌++◌,
  ltb, leb, ◌==◌, if◌then◌else◌, length,
}
use Sharing.{Party, Env, contains, is_empty, empty, update_shared_experience, clear_player_points}
use State.{
  World, update, set_party, remove_first, remove_all, is_party, clear_parties, drop_invitations,
}

-- A new party has its leader alone; `new` gives an address at which no party is.
pub new_party : ℕ → World → World
unfolding update
new_party leader w =
    let q = w.next_party in
    record w {
      parties = update w.parties q (
          some (record {
            ticks_map = [];
            members = [];
            invites = [];
            leader = leader;
            shared_exp_active = false;
            shared_exp_enabled = false;
          }));
      party_of = update w.party_of leader (some q);
      next_party = suc q;
    }

module _ (env : Env) (q : ℕ) where
  -- `disband` deletes the party, unless the event refuses.
  pub disband : Party → World → World
  unfolding update set_party
  disband p w =
      if env.on_disband
      then record w {
        parties = update w.parties q none;
        party_of = clear_parties p.members (update w.party_of p.leader none);
        invitations = drop_invitations q p.invites w.invitations;
      }
      else set_party q p w

  -- `passPartyLeadership` returns the party that it leaves behind and its result.
  pub pass_party_leadership : Party → ℕ → World → Party × Bool
  unfolding update_shared_experience
  pass_party_leadership p player w =
      if p.leader == player || not (is_party q (w.party_of player)) then (p, false) else (
        update_shared_experience env
            (record p { members = p.leader ∷ remove_first player p.members; leader = player }),
        true,
      )

  -- The first member becomes the leader; without one nothing happens.
  pub pass_to_first : List ℕ → Party → World → Party
  pass_to_first [] p w = p
  pass_to_first (member ∷ rest) p w = (pass_party_leadership p member w).0

  -- `missingLeader`
  pub missing_leader : Party → ℕ → Bool
  missing_leader p player =
      p.leader == player && (is_empty p.members || (length p.members == 1 && is_empty p.invites))

  -- The party without the player, the leadership passed on if it was the player's.
  pub departed : Party → ℕ → World → Party
  departed p player w =
      let p1 =
        if p.leader == player && not (missing_leader p player)
        then pass_to_first p.members p w
        else p in
      record p1 { members = remove_first player p1.members }

  pub leave_party : Party → ℕ → World → World × Bool
  unfolding clear_player_points update set_party update_shared_experience
  leave_party p player w =
      if not (is_party q (w.party_of player)) && not (p.leader == player)
      then (w, false)
      else if not env.on_leave
      then (w, false)
      else let w1 = record w { party_of = update w.party_of player none } in
        let p1 =
          clear_player_points env player (update_shared_experience env (departed p player w)) in
        ((if missing_leader p player || empty p1 then disband p1 w1 else set_party q p1 w1), true)

  pub join_party : Party → ℕ → World → World × Bool
  unfolding set_party update update_shared_experience
  join_party p player w =
      if not env.on_join
      then (w, false)
      else if not (contains player p.invites)
      then (w, false)
      else (
        set_party q
            (update_shared_experience env (record p {
              invites = remove_first player p.invites;
              members = p.members ++ player ∷ [];
            }))
            (record w {
              party_of = update w.party_of player (some q);
              invitations = update w.invitations player (remove_all q (w.invitations player));
            }),
        true,
      )

  pub remove_invite : Party → ℕ → Bool → World → World × Bool
  unfolding set_party update
  remove_invite p player remove_from_player w =
      if not (contains player p.invites)
      then (w, false)
      else let p1 = record p { invites = remove_first player p.invites } in
        let w1 =
          if remove_from_player
          then record w {
            invitations = update w.invitations player (remove_all q (w.invitations player));
          }
          else w in
        ((if empty p1 then disband p1 w1 else set_party q p1 w1), true)

  -- `revokeInvitation`
  pub revoke_invitation : Party → ℕ → World → World
  revoke_invitation p player w = (remove_invite p player true w).0

  pub invite_player : Party → ℕ → World → World × Bool
  unfolding set_party update
  invite_player p player w = if contains player p.invites then (w, false) else (
    set_party q (record p { invites = p.invites ++ player ∷ [] })
        (record w {
          invitations = update w.invitations player (
              if contains q (w.invitations player)
              then w.invitations player
              else q ∷ w.invitations player);
        }),
    true,
  )
