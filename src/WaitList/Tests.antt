-- ===== src/WaitList/Tests.antt =====
-- Runs of the waiting list, and the theorems at concrete inputs.
use otg_premium_version.Common.{ℕ, ◌+◌, ◌≡◌, refl, ◌<◌, ◌≤◌, [], ◌∷◌, false, arith, ◌⊎◌}
use otg_premium_version.WaitList.{
  Wait, WaitListInfo, Login, waits, undefined, client_login, cleaned, cleanup_list, find_client,
  get_client_slot, in_regular,
}
use otg_premium_version.WaitList.Cleanup.{cleanup_list-keeps}
use otg_premium_version.WaitList.Search.{place, find_client_lem, get_client_slot_lem}
use otg_premium_version.WaitList.Newcomers.{client_login-newcomer}
use otg_premium_version.WaitList.Admission.{
  IsPrivileged, IsOpen, slot_of, client_login-admitted, client_login-undefined_iff, IsDistinct,
  Leaves, client_login-IsDistinct, client_login-keeps_order, guids,
}

abbrev old : Wait
old = record { timeout = 5; player_guid = 7 }

abbrev recent : Wait
recent = record { timeout = 90000; player_guid = 8 }

-- A premium player waits, and so does a player without.
abbrev crowd : WaitListInfo
crowd = record { priority_wait_list = recent ∷ []; wait_list = old ∷ [] }

abbrev login_of : ℕ → ℕ → Login
login_of guid online = record {
  guid = guid;
  can_always_login = false;
  account_type = 1;
  is_premium = false;
  max_players = 10;
  players_online = online;
  time_priority = 60000;
  time_regular = 60000;
  time_store = 60000;
}

-- The entry that ran out a minute ago is still there.
expired_entry_stays : cleanup_list 60000 (old ∷ []) ≡ old ∷ []
unfolding cleanup_list
expired_entry_stays = refl

found : find_client crowd 7 ≡ (in_regular 0, 2)
unfolding find_client
found = refl

slot_shown : get_client_slot crowd 7 ≡ 2
unfolding get_client_slot
slot_shown = refl

cleanup_list-keeps_example : cleanup_list 90000 (old ∷ recent ∷ old ∷ []) ≡ old ∷ old ∷ []
cleanup_list-keeps_example =
    cleanup_list-keeps 90000 (old ∷ recent ∷ old ∷ []) (omega arith) (omega arith)

client_login-admitted_example :
    IsPrivileged (login_of 7 8)
    ⊎ IsOpen (login_of 7 8) crowd
    ⊎ ((1 < slot_of (login_of 7 8) crowd)
        × (slot_of (login_of 7 8) crowd ≤ 2)
        × (8 + slot_of (login_of 7 8) crowd ≤ 10))
unfolding client_login
client_login-admitted_example = client_login-admitted (login_of 7 8) crowd refl

-- The premium player's turn has come: three are online, the limit is ten.
client_login-undefined_iff_example : client_login (login_of 8 3) crowd ≡ undefined
unfolding cleaned
client_login-undefined_iff_example =
    (client_login-undefined_iff (login_of 8 3) crowd).1
      (ground arith, ground arith, omega arith, omega arith)

client_login-newcomer_example :
    (info : WaitListInfo) × (client_login (login_of 9 3) crowd ≡ waits info)
    × (guids info.priority_wait_list ≡ 8 ∷ [])
    × (guids info.wait_list ≡ 7 ∷ 9 ∷ [])
unfolding cleaned cleanup_list
client_login-newcomer_example =
    client_login-newcomer (login_of 9 3) crowd (ground arith) (ground arith) refl

crowd-IsDistinct : IsDistinct crowd
crowd-IsDistinct g = ground arith

client_login-IsDistinct_example : Leaves IsDistinct (client_login (login_of 9 3) crowd)
client_login-IsDistinct_example = client_login-IsDistinct (login_of 9 3) crowd crowd-IsDistinct

client_login-keeps_order_example :
    (guids (crowd.priority_wait_list) ≡ 8 ∷ [])
    × (7 ∷ [] ≡ guids (cleaned (login_of 7 9) crowd).wait_list)
unfolding client_login
client_login-keeps_order_example = client_login-keeps_order (login_of 7 9) crowd refl (omega arith)

find_client_lem_example : find_client crowd 7 ≡ (place crowd 1, 2)
find_client_lem_example = find_client_lem crowd 7

get_client_slot_lem_example : get_client_slot crowd 7 ≡ 2
get_client_slot_lem_example = get_client_slot_lem crowd 7
