-- ===== src/Party/Tests.antt =====
-- Histories of parties, and the theorems at concrete inputs.
use otg_premium_version.Common.{◌+◌, ◌≡◌, refl, ◌≤◌, ◌*◌, true, false, some, List, [], ◌∷◌, arith}
use otg_premium_version.Position.{are_in_range}
use otg_premium_version.Party.{missing_leader, leave_party, new_party, invite_player, join_party}
use otg_premium_version.Party.Sharing.{
  Party, Env, can_enable_shared_experience, can_use_shared_experience, contains, is_empty,
}
use otg_premium_version.Party.State.{World, remove_first, remove_all}
use otg_premium_version.Party.Requests.{
  Request, invite, join, leave, request, get_party, is_inviting,
}
use otg_premium_version.Party.Counting.{inside, count}
use otg_premium_version.Party.Consistency.{IsConsistent}
use otg_premium_version.Party.Actions.{request-IsConsistent}
use otg_premium_version.Party.History.{
  start, run, run-start-IsConsistent, party_of-live, invitations-live, leave_party-refused,
}
use otg_premium_version.Party.Departures.{leave_party-IsConsistent}
use otg_premium_version.Party.Levels.{can_enable-levels}

abbrev calm : Env
calm = record {
  level = λ i. 100 + i;
  position = λ i. record { x = 100; y = 100; z = 7 };
  not_gain_in_fight = λ i. true;
  in_fight = λ i. false;
  in_protection_zone = λ i. false;
  online = λ i. true;
  time = 1000;
  pz_locked = 60000;
  on_join = true;
  on_leave = true;
  on_disband = true;
}

abbrev history : List (Env × Request)
history = (calm, invite 1 2) ∷ (calm, join 2 1) ∷ (calm, invite 1 3) ∷ []

-- Player 1 leads player 2 and has invited player 3.
abbrev pair : Party
pair = record {
  ticks_map = [];
  members = 2 ∷ [];
  invites = 3 ∷ [];
  leader = 1;
  shared_exp_active = false;
  shared_exp_enabled = false;
}

-- The world behind the history; its line names what a run computes with.
played : World
unfolding run request get_party is_inviting new_party invite_player join_party contains remove_first
    remove_all
played = run start history

history_runs : (run start history).parties 0 ≡ some pair
unfolding played
history_runs = refl

request-IsConsistent_example : IsConsistent (request calm (run start history) (leave 1))
request-IsConsistent_example =
    request-IsConsistent calm refl (run start history) (leave 1)
      (run-start-IsConsistent history (refl, (refl, (refl, tt))))

run-start-IsConsistent_example : IsConsistent (run start history)
run-start-IsConsistent_example = run-start-IsConsistent history (refl, (refl, (refl, tt)))

party_of-live_example :
    (p : Party) × ((run start history).parties 0 ≡ some p) × (inside 2 (some p) ≡ 1)
unfolding played
party_of-live_example =
    party_of-live (run start history) 2 0
      (run-start-IsConsistent history (refl, (refl, (refl, tt)))) refl

invitations-live_example :
    (p : Party) × ((run start history).parties 0 ≡ some p) × (count 3 p.invites ≡ 1)
unfolding played
invitations-live_example =
    invitations-live (run start history) 3 0
      (run-start-IsConsistent history (refl, (refl, (refl, tt)))) (omega arith)

abbrev stubborn : Env
stubborn = record calm { on_disband = false }

abbrev alone : Party
alone = record pair { members = [] }

leave_party-refused_example : ¬ IsConsistent (leave_party stubborn 0 alone 1 (run start history)).0
unfolding missing_leader is_empty
leave_party-refused_example =
    leave_party-refused stubborn 0 alone (run start history) refl refl refl

can_enable-levels_example : 102 * 2 ≤ 101 * 3
unfolding can_enable_shared_experience can_use_shared_experience are_in_range
can_enable-levels_example = can_enable-levels calm pair 1 2 refl (omega arith) (omega arith)

leave_party-IsConsistent_example : IsConsistent (leave_party calm 0 pair 1 played).0
unfolding played
leave_party-IsConsistent_example =
    leave_party-IsConsistent calm 0 pair 1 (run start history) refl
      (run-start-IsConsistent history (refl, (refl, (refl, tt)))) refl
