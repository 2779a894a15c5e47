-- ===== src/Party/Actions.antt =====
-- Every request about parties (source/src/game.cpp) keeps players and parties consistent.
use otg_premium_version.Common.{
  ℕ, ◌≡◌, refl, Bool, true, false, not, ◌&&◌, ◌||◌, none, some, ◌==◌, if◌then◌else◌, arith, ◌⊎◌, ap,
  inl, inr, Option-cases,
}
use otg_premium_version.Party.{new_party, revoke_invitation, pass_party_leadership}
use otg_premium_version.Party.Sharing.{Party, Env, set_shared_experience}
use otg_premium_version.Party.State.{World, set_party, update}
use otg_premium_version.Party.Requests.{
  Request, invite, join, revoke, pass, leave, share, request, get_party, is_inviting, is_partner,
  has_party, invite_by, player_invite_to_party, player_join_party, player_revoke_party_invitation,
  player_pass_party_leadership, player_leave_party, player_enable_shared_party_experience,
}
use otg_premium_version.Party.Counting.{count, inside, invited}
use otg_premium_version.Party.Consistency.{
  IsConsistent, pass-inside, pass-invites, invite_player-IsConsistent, join_party-IsConsistent,
}
use otg_premium_version.Party.Departures.{leave_party-IsConsistent}
use otg_premium_version.Party.Withdrawal.{remove_invite-IsConsistent}

-- Writing back a party with the same players and invitations.
set_party-IsConsistent :
    (q : ℕ) (p p' : Party) (w : World)
    → w.parties q ≡ some p
    → IsConsistent w
    → ((i : ℕ) → inside i (some p') ≡ inside i (some p))
    → p'.invites ≡ p.invites
    → IsConsistent (set_party q p' w)
unfolding set_party update
set_party-IsConsistent q p p' w here c same invites = record {
  member = λ i r. ground (arith, same i, c.member i r, ap (inside i) here);
  invitation = λ i r. ground (arith, ap (count i) invites, c.invitation i r, ap (invited i) here);
  once = λ i r. ground (arith, ap (count i) invites, c.once i r, ap (invited i) here);
  fresh = λ r h. ground (arith, here, c.fresh r h);
}

new_party-IsConsistent :
    (leader : ℕ) (w : World)
    → w.party_of leader ≡ none
    → IsConsistent w
    → IsConsistent (new_party leader w)
unfolding new_party
new_party-IsConsistent leader w free c = record {
  member = λ i r. ground (arith, free, c.member i r, c.member i w.next_party, c.fresh w.next_party);
  invitation =
      λ i r. ground (arith, c.invitation i r, c.invitation i w.next_party, c.fresh w.next_party);
  once = λ i r. ground (arith, c.once i r);
  fresh = λ r h. ground (arith, c.fresh r);
}

-- The party that a player's pointer leads to is there.
get_party_lem :
    (w : World) (player q : ℕ) (p : Party)
    → get_party w player ≡ some (q, p)
    → (w.party_of player ≡ some q) × (w.parties q ≡ some p)
unfolding get_party
get_party_lem w player q p h = ground arith

get_party_cases :
    (w : World) (player : ℕ)
    → (get_party w player ≡ none)
      ⊎ ((q : ℕ) × (p : Party) × (get_party w player ≡ some (q, p)) × (w.parties q ≡ some p))
get_party_cases w player = elim (Option-cases (get_party w player)) [
  | inl e ↦ inl e
  | inr ((q, p), e) ↦ inr (q, p, e, (get_party_lem w player q p e).1)
]

IsConsistent-if :
    (b : Bool) {x y : World}
    → IsConsistent x
    → (b ≡ false → IsConsistent y)
    → IsConsistent (if b then x else y)
IsConsistent-if true hx hy = hx
IsConsistent-if false hx hy = hy refl

pass-IsConsistent :
    (env : Env) (q : ℕ) (p : Party) (player : ℕ) (w : World)
    → w.parties q ≡ some p
    → IsConsistent w
    → IsConsistent (set_party q (pass_party_leadership env q p player w).0 w)
pass-IsConsistent env q p player w here c =
    set_party-IsConsistent q p (pass_party_leadership env q p player w).0 w here c
      (pass-inside env q p player w here c) (pass-invites env q p player w here c)

share-same :
    (env : Env) (p : Party) (player : ℕ) (active : Bool)
    → ((i : ℕ) → inside i (some (set_shared_experience env p player active).0) ≡ inside i (some p))
      × ((set_shared_experience env p player active).0.invites ≡ p.invites)
unfolding set_shared_experience
share-same env p player active = ((λ i. ground arith), ground arith)

has_party-none : (w : World) (player : ℕ) → has_party w player ≡ false → w.party_of player ≡ none
unfolding has_party
has_party-none w player h = ground arith

module _ (env : Env) where
  invite_by-IsConsistent :
      (w : World) (player guest : ℕ) → IsConsistent w → IsConsistent (invite_by env w player guest)
  unfolding invite_by
  invite_by-IsConsistent w player guest c = elim (get_party_cases w player) [
    | inl e ↦ rw (e, invite_by) c
    | inr (q, p, e, here) ↦
        rw (e, invite_by)
          (IsConsistent-if (not (p.leader == player)) c
            λ h. invite_player-IsConsistent env q p guest w here c)
  ]

  invite-IsConsistent :
      (w : World) (player guest : ℕ)
      → IsConsistent w
      → IsConsistent (player_invite_to_party env w player guest)
  unfolding player_invite_to_party
  invite-IsConsistent w player guest c = IsConsistent-if (player == guest) c λ h1.
      IsConsistent-if (not (env.online player)) c λ h2.
        IsConsistent-if (not (env.online guest) || is_inviting w guest player) c λ h3.
          IsConsistent-if (has_party w guest) c λ h4.
            IsConsistent-if (has_party w player) (invite_by-IsConsistent w player guest c) λ h5.
              invite_by-IsConsistent (new_party player w) player guest
                (new_party-IsConsistent player w (has_party-none w player h5) c)

  join-IsConsistent :
      (w : World) (player leader : ℕ)
      → IsConsistent w
      → IsConsistent (player_join_party env w player leader)
  unfolding player_join_party
  join-IsConsistent w player leader c = IsConsistent-if (not (env.online player)) c λ h1.
      IsConsistent-if (not (env.online leader) || not (is_inviting w leader player)) c λ h2.
        elim (get_party_cases w leader) [
          | inl e ↦ rw e c
          | inr (q, p, e, here) ↦ rw e (
              IsConsistent-if (not (p.leader == leader)) c λ h3.
                IsConsistent-if (has_party w player) c λ h4.
                  join_party-IsConsistent env q p player w here c (has_party-none w player h4))
        ]

  pass_request-IsConsistent :
      (w : World) (player new_leader : ℕ)
      → IsConsistent w
      → IsConsistent (player_pass_party_leadership env w player new_leader)
  unfolding player_pass_party_leadership
  pass_request-IsConsistent w player new_leader c =
      IsConsistent-if (not (env.online player)) c λ h1. elim (get_party_cases w player) [
        | inl e ↦ rw e c
        | inr (q, p, e, here) ↦ rw e (
            IsConsistent-if (not (p.leader == player)) c λ h3.
              IsConsistent-if (not (env.online new_leader) || not (is_partner w player new_leader))
                c λ h4. pass-IsConsistent env q p new_leader w here c)
      ]

  share-IsConsistent :
      (w : World) (player : ℕ) (active : Bool)
      → IsConsistent w
      → IsConsistent (player_enable_shared_party_experience env w player active)
  unfolding player_enable_shared_party_experience
  share-IsConsistent w player active c = IsConsistent-if (not (env.online player)) c λ h1.
      elim (get_party_cases w player) [
        | inl e ↦ rw e c
        | inr (q, p, e, here) ↦ rw e (
            IsConsistent-if (env.in_fight player && not (env.in_protection_zone player)) c λ h3.
              set_party-IsConsistent q p (set_shared_experience env p player active).0 w here c
                (share-same env p player active).0 (share-same env p player active).1)
      ]

  module _ (agreed : env.on_disband ≡ true) where
    revoke-IsConsistent :
        (w : World) (player guest : ℕ)
        → IsConsistent w
        → IsConsistent (player_revoke_party_invitation env w player guest)
    unfolding player_revoke_party_invitation revoke_invitation
    revoke-IsConsistent w player guest c = IsConsistent-if (not (env.online player)) c λ h1.
        elim (get_party_cases w player) [
          | inl e ↦ rw e c
          | inr (q, p, e, here) ↦ rw e (
              IsConsistent-if (not (p.leader == player)) c λ h3.
                IsConsistent-if (not (env.online guest) || not (is_inviting w player guest)) c
                  λ h4. remove_invite-IsConsistent env q p guest w here c agreed)
        ]

    leave-IsConsistent :
        (w : World) (player : ℕ) → IsConsistent w → IsConsistent (player_leave_party env w player)
    unfolding player_leave_party
    leave-IsConsistent w player c = IsConsistent-if (not (env.online player)) c λ h1.
        elim (get_party_cases w player) [
          | inl e ↦ rw e c
          | inr (q, p, e, here) ↦ rw e (
              IsConsistent-if (env.in_fight player) c
                λ h3. leave_party-IsConsistent env q p player w here c agreed)
        ]

    -- Where the disband event agrees, every request keeps the world consistent: each player is in
    -- at most one party, and exactly in the one that the player's own pointer names; the
    -- invitations that parties and players hold agree, with none doubled.
    pub request-IsConsistent :
        (w : World) (r : Request) → IsConsistent w → IsConsistent (request env w r)
    unfolding request
    request-IsConsistent w (invite player guest) c = invite-IsConsistent w player guest c
    request-IsConsistent w (join player leader) c = join-IsConsistent w player leader c
    request-IsConsistent w (revoke player guest) c = revoke-IsConsistent w player guest c
    request-IsConsistent w (pass player new_leader) c =
        pass_request-IsConsistent w player new_leader c
    request-IsConsistent w (leave player) c = leave-IsConsistent w player c
    request-IsConsistent w (share player active) c = share-IsConsistent w player active c
