-- ===== src/Party/History.antt =====
-- Parties over a whole history of requests (source/src/game.cpp, source/src/party.cpp).
use otg_premium_version.Common.{
  ℕ, ◌<◌, ◌≡◌, refl, true, false, Option, none, some, List, [], ◌∷◌, arith, ==_refl,
}
use otg_premium_version.Party.{leave_party, missing_leader, departed, disband}
use otg_premium_version.Party.Sharing.{Party, Env, clear_player_points}
use otg_premium_version.Party.State.{World, set_party, update}
use otg_premium_version.Party.Requests.{Request, request}
use otg_premium_version.Party.Counting.{count, inside, invited}
use otg_premium_version.Party.Consistency.{IsConsistent}
use otg_premium_version.Party.Actions.{request-IsConsistent}

-- The start of the server: no party yet.
abbrev pub start : World
start = record {
  parties = λ q. none;
  party_of = λ player. none;
  invitations = λ player. [];
  next_party = 0;
}

-- Requests one after another, each with what the code reads at its time.
unfoldable pub run : World → List (Env × Request) → World
run w [] = w
run w ((env, r) ∷ rs) = run (request env w r) rs

abbrev pub AllAgree : List (Env × Request) → Type 0
AllAgree [] = Unit {0}
AllAgree ((env, r) ∷ rs) = (env.on_disband ≡ true) × AllAgree rs

run-keeps :
    (w : World) (rs : List (Env × Request)) → AllAgree rs → IsConsistent w → IsConsistent (run w rs)
unfolding run
run-keeps w [] h c = c
run-keeps w ((env, r) ∷ rs) h c =
    run-keeps (request env w r) rs h.1 (request-IsConsistent env h.0 w r c)

start-IsConsistent : IsConsistent start
start-IsConsistent = record {
  member = λ i r. refl;
  invitation = λ i r. refl;
  once = λ i r. omega arith;
  fresh = λ r h. refl;
}

-- After any history in which the disband events agreed, players and parties are consistent.
pub run-start-IsConsistent : (rs : List (Env × Request)) → AllAgree rs → IsConsistent (run start rs)
run-start-IsConsistent rs h = run-keeps start rs h start-IsConsistent

live-party : (o : Option Party) (n : ℕ) → 0 < inside n o → (p : Party) × (o ≡ some p)
live-party none n h = absurd (omega arith)
live-party (some p) n h = (p, refl)

live-invites : (o : Option Party) (n : ℕ) → 0 < invited n o → (p : Party) × (o ≡ some p)
live-invites none n h = absurd (omega arith)
live-invites (some p) n h = (p, refl)

-- In a consistent world no player's pointer dangles: it leads to a party that is there and has
-- the player as its leader or as a member.
pub party_of-live :
    (w : World) (player q : ℕ)
    → IsConsistent w
    → w.party_of player ≡ some q
    → (p : Party) × (w.parties q ≡ some p) × (inside player (some p) ≡ 1)
party_of-live w player q c h =
    let one : inside player (w.parties q) ≡ 1 = ground (arith, c.member player q) in
    let (p, e) = live-party (w.parties q) player (omega arith) in (p, e, rw e at one)

-- Nor does an invitation that a player holds: its party is there and lists the player.
pub invitations-live :
    (w : World) (player q : ℕ)
    → IsConsistent w
    → 0 < count q (w.invitations player)
    → (p : Party) × (w.parties q ≡ some p) × (count player p.invites ≡ 1)
invitations-live w player q c h =
    let some_one : 0 < invited player (w.parties q) = omega (arith, c.invitation player q) in
    let one : invited player (w.parties q) ≡ 1 = omega (arith, c.once player q) in
    let (p, e) = live-invites (w.parties q) player some_one in (p, e, rw e at one)

-- Where the leave event agrees and the disband event refuses, a leader who has nobody to hand
-- the party to still leaves, and stays the leader of a party that their own pointer does not
-- name: the world is not consistent any more.
pub leave_party-refused :
    (env : Env) (q : ℕ) (p : Party) (w : World)
    → env.on_leave ≡ true
    → env.on_disband ≡ false
    → missing_leader env q p p.leader ≡ true
    → ¬ IsConsistent (leave_party env q p p.leader w).0
unfolding leave_party disband departed clear_player_points update set_party
leave_party-refused env q p w leaves refuses missing c =
    ground (arith, c.member p.leader q, ==_refl p.leader)
