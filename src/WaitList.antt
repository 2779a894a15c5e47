-- ===== src/WaitList.antt =====
-- source/src/waitlist.cpp: the queue of players who wait for a free place on a full server.
-- Times are milliseconds below 2 ^ 64; `timeout` is a `std::size_t` of 64 bits.
pub mod Cleanup
pub mod Search
pub mod Admission
pub mod Newcomers
mod Tests
use otg_premium_version.Common.{
  ℕ, zero, suc, ◌+◌, ◌-◌, ◌*◌, ◌%◌, ◌^◌, Bool, true, false, ◌&&◌, ◌||◌, List, [], ◌∷◌, ◌++◌, ltb,
  leb, ◌==◌, if◌then◌else◌, length,
}

pub record Wait : Type 0 where
  pub timeout : ℕ
  pub player_guid : ℕ

-- `it->timeout - time`, in which the signed clock is converted to `std::size_t`.
pub remaining : ℕ → Wait → ℕ
remaining time w = (w.timeout + 2 ^ 64 - time) % 2 ^ 64

pub cleanup_list : ℕ → List Wait → List Wait
unfolding remaining
cleanup_list time [] = []
cleanup_list time (w ∷ ws) =
    if leb (remaining time w) 0 then cleanup_list time ws else w ∷ cleanup_list time ws

-- Seconds until the client shall ask again.
pub get_time : ℕ → ℕ
get_time slot =
    if ltb slot 5
    then 5
    else if ltb slot 10
    then 10
    else if ltb slot 20
    then 20
    else if ltb slot 50
    then 60
    else 120

pub get_timeout : ℕ → ℕ
unfolding get_time
get_timeout slot = get_time slot + 15

pub record WaitListInfo : Type 0 where
  pub priority_wait_list : List Wait
  pub wait_list : List Wait

-- The iterator that a search returns: a place in one of the two lists, counted from 0, or the end.
pub data Iterator : Type 0 where
  in_priority : ℕ → Iterator
  in_regular : ℕ → Iterator
  at_end : Iterator

-- One of the two loops of `findClient`: `i` is the place of the head, `rest` what the code does
-- with the slot at which the list ends.
find_loop : (ℕ → Iterator) → ℕ → ℕ → ℕ → List Wait → (ℕ → Iterator × ℕ) → Iterator × ℕ
find_loop hit guid i slot [] rest = rest slot
find_loop hit guid i slot (w ∷ ws) rest =
    if w.player_guid == guid then (hit i, slot) else find_loop hit guid (suc i) (suc slot) ws rest

pub find_client : WaitListInfo → ℕ → Iterator × ℕ
unfolding find_loop
find_client info guid =
    find_loop in_priority guid 0 1 info.priority_wait_list
      λ slot. find_loop in_regular guid 0 slot info.wait_list λ slot'. (at_end, slot')

-- What the code reads of the player and of the game.
pub record Login : Type 0 where
  pub guid : ℕ
  pub can_always_login : Bool
  pub account_type : ℕ
  pub is_premium : Bool
  pub max_players : ℕ
  pub players_online : ℕ
  pub time_priority : ℕ
  pub time_regular : ℕ
  pub time_store : ℕ

-- ACCOUNT_TYPE_GAMEMASTER
abbrev pub gamemaster : ℕ
gamemaster = 4

-- `undefined` is the erasure of an iterator of `priorityWaitList` through `waitList`, which C++
-- leaves undefined.
pub data Outcome : Type 0 where
  admitted : WaitListInfo → Outcome
  waits : WaitListInfo → Outcome
  undefined : Outcome

pub erase_at : ℕ → List Wait → List Wait
erase_at i [] = []
erase_at zero (w ∷ ws) = ws
erase_at (suc i) (w ∷ ws) = w ∷ erase_at i ws

pub set_timeout : ℕ → ℕ → List Wait → List Wait
set_timeout i t [] = []
set_timeout zero t (w ∷ ws) = record w { timeout = t } ∷ ws
set_timeout (suc i) t (w ∷ ws) = w ∷ set_timeout i t ws

-- `OTSYS_TIME() + (getTimeout(slot) * 1000)`
pub deadline : ℕ → ℕ → ℕ
unfolding get_timeout
deadline time slot = (time + get_timeout slot * 1000) % 2 ^ 64

is_empty : List Wait → Bool
is_empty [] = true
is_empty (w ∷ ws) = false

-- A player who is not in a list yet goes to the end of one.
pub enqueue : Login → WaitListInfo → WaitListInfo
unfolding deadline
enqueue p info =
    let slot = length info.priority_wait_list in
    if p.is_premium
    then record info {
      priority_wait_list =
          info.priority_wait_list
          ++ record { timeout = deadline p.time_store (slot + 1); player_guid = p.guid } ∷ [];
    }
    else let slot' = slot + length info.wait_list in
      record info {
        wait_list =
            info.wait_list
            ++ record { timeout = deadline p.time_store (slot' + 1); player_guid = p.guid } ∷ [];
      }

-- The part of `clientLogin` after the search, by the iterator.
pub resume : Login → WaitListInfo → Iterator → ℕ → Outcome
unfolding deadline enqueue erase_at set_timeout
resume p info (in_priority i) slot =
    if leb (p.players_online + slot) p.max_players
    then undefined
    else waits (record info {
      priority_wait_list = set_timeout i (deadline p.time_store slot) info.priority_wait_list;
    })
resume p info (in_regular i) slot =
    if leb (p.players_online + slot) p.max_players
    then admitted (record info { wait_list = erase_at i info.wait_list })
    else waits
        (record info { wait_list = set_timeout i (deadline p.time_store slot) info.wait_list })
resume p info at_end slot = waits (enqueue p info)

pub cleaned : Login → WaitListInfo → WaitListInfo
unfolding cleanup_list
cleaned p info = record {
  priority_wait_list = cleanup_list p.time_priority info.priority_wait_list;
  wait_list = cleanup_list p.time_regular info.wait_list;
}

pub client_login : Login → WaitListInfo → Outcome
unfolding resume cleaned find_client is_empty
client_login p info =
    if p.can_always_login || leb gamemaster p.account_type
    then admitted info
    else if p.max_players == 0
        || (is_empty info.priority_wait_list
            && is_empty info.wait_list
            && ltb p.players_online p.max_players)
    then admitted info
    else let info' = cleaned p info in
      let (it, slot) = find_client info' p.guid in resume p info' it slot

pub get_client_slot : WaitListInfo → ℕ → ℕ
unfolding find_client
get_client_slot info guid =
    let (it, slot) = find_client info guid in elim it [ at_end ↦ 0 | _ ↦ slot ]
