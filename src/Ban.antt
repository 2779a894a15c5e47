-- ===== src/Ban.antt =====
-- source/src/ban.cpp and ban.h: the throttle of new connections of each address. The queries of
-- IOBan to the database are left out.
-- `ipConnectMap`, a std::map, is a list with one entry for each address; the clock is an argument.
pub mod Throttle
mod Tests
use otg_premium_version.Common.{
  ℕ, zero, suc, ◌+◌, ◌-◌, ◌%◌, ◌^◌, Bool, true, false, ◌||◌, Option, none, some, List, [], ◌∷◌,
  ◌==◌, if◌then◌else◌, ltb, leb,
}

pub record ConnectBlock : Type 0 where
  pub last_attempt : ℕ
  pub block_time : ℕ
  pub count : ℕ

abbrev pub IpConnectMap : Type 0
IpConnectMap = List (ℕ × ConnectBlock)

-- `ipConnectMap.find(clientIP)`
pub find : ℕ → IpConnectMap → Option ConnectBlock
find ip [] = none
find ip ((k, b) ∷ m) = if k == ip then some b else find ip m

-- What is written through the reference `it->second`.
pub set : ℕ → ConnectBlock → IpConnectMap → IpConnectMap
set ip b [] = []
set ip b ((k, c) ∷ m) = if k == ip then (k, b) ∷ m else (k, c) ∷ set ip b m

-- `ipConnectMap.emplace` of an address that is not in the map.
pub emplace : ℕ → ConnectBlock → IpConnectMap → IpConnectMap
emplace ip b [] = (ip, b) ∷ []
emplace ip b ((k, c) ∷ m) = if ltb ip k then (ip, b) ∷ (k, c) ∷ m else (k, c) ∷ emplace ip b m

-- `timeDiff`: the difference in 64 bits, which is compared as a signed number.
pub time_diff : ℕ → ℕ → ℕ
time_diff current_time last_attempt = (current_time + 2 ^ 64 - last_attempt) % 2 ^ 64

pub at_most : ℕ → ℕ → Bool
at_most bound diff = leb (2 ^ 63) diff || leb diff bound

-- An attempt of an address that is known: its entry, and whether it is accepted.
pub attempt : ℕ → ConnectBlock → ConnectBlock × Bool
unfolding time_diff at_most
attempt current_time connect_block =
    if ltb current_time connect_block.block_time
    then (record connect_block { block_time = (connect_block.block_time + 250) % 2 ^ 64 }, false)
    else let diff = time_diff current_time connect_block.last_attempt in
      let count = (connect_block.count + 1) % 2 ^ 32 in
      let seen = record connect_block { last_attempt = current_time } in
      if at_most 5000 diff
      then if ltb 5 count
        then if at_most 500 diff
          then (record seen { count = 0; block_time = (current_time + 3000) % 2 ^ 64 }, false)
          else (record seen { count = 0 }, true)
        else (record seen { count = count }, true)
      else (record seen { count = 1 }, true)

pub accept_connection : ℕ → ℕ → IpConnectMap → IpConnectMap × Bool
unfolding find set emplace attempt
accept_connection client_ip current_time m = elim (find client_ip m) [
  | none ↦ (
    emplace client_ip (record { last_attempt = current_time; block_time = 0; count = 1 }) m,
    true,
  )
  | some b ↦ (set client_ip (attempt current_time b).0 m, (attempt current_time b).1)
]
