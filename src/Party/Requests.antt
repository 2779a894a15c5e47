-- ===== src/Party/Requests.antt =====
-- The requests about parties that source/src/game.cpp takes from players.
use otg_premium_version.Common.{
  ℕ, Bool, true, false, ◌&&◌, ◌||◌, not, Option, none, some, ◌==◌, if◌then◌else◌,
}
use otg_premium_version.Party.{
  new_party, invite_player, join_party, revoke_invitation, pass_party_leadership, leave_party,
}
use otg_premium_version.Party.Sharing.{Party, Env, contains, set_shared_experience}
use otg_premium_version.Party.State.{World, set_party}

-- `player->getParty()` with what it points to.
unfoldable pub get_party : World → ℕ → Option (ℕ × Party)
get_party w player = elim (w.party_of player) [
  | none ↦ none
  | some q ↦ elim (w.parties q) [ none ↦ none | some p ↦ some (q, p) ]
]

-- `Player::isInviting`
unfoldable pub is_inviting : World → ℕ → ℕ → Bool
is_inviting w player guest = elim (get_party w player) [
  | none ↦ false
  | some (q, p) ↦ p.leader == player && contains guest p.invites
]

-- `Player::isPartner`
unfoldable pub is_partner : World → ℕ → ℕ → Bool
is_partner w player other = not (other == player) && elim (w.party_of player) [
  | none ↦ false
  | some q ↦ elim (w.party_of other) [ none ↦ false | some r ↦ q == r ]
]

pub data Request : Type 0 where
  invite : ℕ → ℕ → Request
  join : ℕ → ℕ → Request
  revoke : ℕ → ℕ → Request
  pass : ℕ → ℕ → Request
  leave : ℕ → Request
  share : ℕ → Bool → Request

unfoldable pub has_party : World → ℕ → Bool
has_party w player = elim (w.party_of player) [ none ↦ false | some q ↦ true ]

-- The invitation itself, by a party's leader.
unfoldable pub invite_by : Env → World → ℕ → ℕ → World
invite_by env w player guest = elim (get_party w player) [
  | none ↦ w
  | some (q, p) ↦ if not (p.leader == player) then w else (invite_player env q p guest w).0
]

module _ (env : Env) (w : World) where
  unfoldable pub player_invite_to_party : ℕ → ℕ → World
  unfolding has_party invite_by
  player_invite_to_party player guest =
      if player == guest
      then w
      else if not (env.online player)
      then w
      else if not (env.online guest) || is_inviting w guest player
      then w
      else if has_party w guest
      then w
      else if has_party w player
      then invite_by env w player guest
      else invite_by env (new_party player w) player guest

  unfoldable pub player_join_party : ℕ → ℕ → World
  unfolding has_party
  player_join_party player leader =
      if not (env.online player)
      then w
      else if not (env.online leader) || not (is_inviting w leader player)
      then w
      else elim (get_party w leader) [
        | none ↦ w
        | some (q, p) ↦
            if not (p.leader == leader)
            then w
            else if has_party w player
            then w
            else (join_party env q p player w).0
      ]

  unfoldable pub player_revoke_party_invitation : ℕ → ℕ → World
  player_revoke_party_invitation player guest =
      if not (env.online player) then w else elim (get_party w player) [
        | none ↦ w
        | some (q, p) ↦
            if not (p.leader == player)
            then w
            else if not (env.online guest) || not (is_inviting w player guest)
            then w
            else revoke_invitation env q p guest w
      ]

  unfoldable pub player_pass_party_leadership : ℕ → ℕ → World
  unfolding set_party
  player_pass_party_leadership player new_leader =
      if not (env.online player) then w else elim (get_party w player) [
        | none ↦ w
        | some (q, p) ↦
            if not (p.leader == player)
            then w
            else if not (env.online new_leader) || not (is_partner w player new_leader)
            then w
            else set_party q (pass_party_leadership env q p new_leader w).0 w
      ]

  unfoldable pub player_leave_party : ℕ → World
  player_leave_party player = if not (env.online player) then w else elim (get_party w player) [
    | none ↦ w
    | some (q, p) ↦ if env.in_fight player then w else (leave_party env q p player w).0
  ]

  unfoldable pub player_enable_shared_party_experience : ℕ → Bool → World
  unfolding set_party
  player_enable_shared_party_experience player active =
      if not (env.online player) then w else elim (get_party w player) [
        | none ↦ w
        | some (q, p) ↦
            if env.in_fight player && not (env.in_protection_zone player)
            then w
            else set_party q (set_shared_experience env p player active).0 w
      ]

  unfoldable pub request : Request → World
  unfolding player_invite_to_party player_join_party player_revoke_party_invitation
      player_pass_party_leadership player_leave_party player_enable_shared_party_experience
  request (invite player guest) = player_invite_to_party player guest
  request (join player leader) = player_join_party player leader
  request (revoke player guest) = player_revoke_party_invitation player guest
  request (pass player new_leader) = player_pass_party_leadership player new_leader
  request (leave player) = player_leave_party player
  request (share player active) = player_enable_shared_party_experience player active
