-- ===== src/Party/Ending.antt =====
-- A party that is disbanded (source/src/party.cpp).
use otg_premium_version.Common.{ℕ, ◌≤◌, ◌≡◌, true, none, some, arith, ◌⊎◌}
use otg_premium_version.Party.Sharing.{Party, Env}
use otg_premium_version.Party.State.{World, update}
use otg_premium_version.Party.{disband}
use otg_premium_version.Party.Counting.{
  count, inside, invited, points, clear_parties_lem, count-drop_invitations,
}
use otg_premium_version.Party.Consistency.{IsConsistent}

-- What holds of a party that is about to be disbanded: its players' pointers lead to it or
-- nowhere, and nobody else's do; all other parties are consistent.
pub record IsEnding (q : ℕ) (p : Party) (w : World) : Type 0 where
  pub others : (i r : ℕ) → (q ≡ r) ⊎ (inside i (w.parties r) ≡ points r (w.party_of i))
  pub own : (i : ℕ) → points q (w.party_of i) ≤ inside i (some p)
  pub nowhere_else : (i r : ℕ) → (q ≡ r) ⊎ (inside i (some p) ≡ 0) ⊎ (points r (w.party_of i) ≡ 0)
  pub other_invitations :
      (i r : ℕ) → (q ≡ r) ⊎ (invited i (w.parties r) ≡ count r (w.invitations i))
  pub own_invitations : (i : ℕ) → (count i p.invites ≡ 0) → count q (w.invitations i) ≡ 0
  pub once : (i r : ℕ) → (q ≡ r) ⊎ (invited i (w.parties r) ≤ 1)
  pub fresh : (r : ℕ) → w.next_party ≤ r → (q ≡ r) ⊎ (w.parties r ≡ none)

module _ (env : Env) (q : ℕ) (p : Party) (w : World) (agreed : env.on_disband ≡ true)
    (e : IsEnding q p w) where
  disband-member :
      (i r : ℕ)
      → inside i ((disband env q p w).parties r) ≡ points r ((disband env q p w).party_of i)
  unfolding disband
  disband-member i r = ground (
    arith,
    agreed,
    e.others i r,
    e.own i,
    e.nowhere_else i r,
    clear_parties_lem p.members (update w.party_of p.leader none) i,
  )

  disband-invitation :
      (i r : ℕ)
      → invited i ((disband env q p w).parties r) ≡ count r ((disband env q p w).invitations i)
  unfolding disband
  disband-invitation i r = ground (
    arith,
    agreed,
    e.other_invitations i r,
    e.own_invitations i,
    count-drop_invitations q r p.invites w.invitations i,
  )

  disband-once : (i r : ℕ) → invited i ((disband env q p w).parties r) ≤ 1
  unfolding disband
  disband-once i r = ground (arith, agreed, e.once i r)

  disband-fresh : (r : ℕ) → w.next_party ≤ r → (disband env q p w).parties r ≡ none
  unfolding disband
  disband-fresh r h = ground (arith, agreed, e.fresh r h)

  disband-next_party : (disband env q p w).next_party ≡ w.next_party
  unfolding disband
  disband-next_party = ground (arith, agreed)

  pub disband-IsConsistent : IsConsistent (disband env q p w)
  disband-IsConsistent = record {
    member = disband-member;
    invitation = disband-invitation;
    once = disband-once;
    fresh = λ r h. disband-fresh r (rw disband-next_party at h);
  }
