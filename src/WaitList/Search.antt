-- ===== src/WaitList/Search.antt =====
-- `findClient` and `getClientSlot` of source/src/waitlist.cpp against the place of a player in
-- the two lists taken as one queue, the priority list first.
use otg_premium_version.Common.{
  ℕ, suc, ◌+◌, ◌-◌, ◌≤◌, ◌≡◌, refl, List, [], ◌∷◌, ◌++◌, arith, length, ◌==◌, ltb, if◌then◌else◌,
  length-append,
}
use otg_premium_version.WaitList.{
  Wait, WaitListInfo, Iterator, in_priority, in_regular, at_end, find_loop, find_client,
  get_client_slot,
}
use otg_premium_version.WaitList.Cleanup.{count}

-- The place of a player's first entry, or the length of the list.
abbrev pub index_of : ℕ → List Wait → ℕ
index_of g [] = 0
index_of g (w ∷ ws) = if w.player_guid == g then 0 else suc (index_of g ws)

abbrev pub queue : WaitListInfo → List Wait
queue info = info.priority_wait_list ++ info.wait_list

-- The iterator at a place of the queue.
unfoldable pub place : WaitListInfo → ℕ → Iterator
place info i =
    if ltb i (length info.priority_wait_list)
    then in_priority i
    else if ltb i (length (queue info))
    then in_regular (i - length info.priority_wait_list)
    else at_end

find_loop_lem :
    (hit : ℕ → Iterator) (g i slot : ℕ) (ws : List Wait) (rest : ℕ → Iterator × ℕ)
    → find_loop hit g i slot ws rest ≡ (
        if ltb (index_of g ws) (length ws)
        then (hit (i + index_of g ws), slot + index_of g ws)
        else rest (slot + length ws))
unfolding find_loop
find_loop_lem hit g i slot [] rest = ground arith
find_loop_lem hit g i slot (w ∷ ws) rest =
    ground (arith, find_loop_lem hit g (suc i) (suc slot) ws rest)

pub index_of-append :
    (g : ℕ) (xs ys : List Wait)
    → index_of g (xs ++ ys)
      ≡ (if ltb (index_of g xs) (length xs) then index_of g xs else length xs + index_of g ys)
index_of-append g [] ys = ground arith
index_of-append g (x ∷ xs) ys = ground (arith, index_of-append g xs ys)

pub index_of-le-length : (g : ℕ) (xs : List Wait) → index_of g xs ≤ length xs
index_of-le-length g [] = omega arith
index_of-le-length g (x ∷ xs) = ground (arith, index_of-le-length g xs)

-- A player has an entry exactly when the place is not the end.
pub count-index_of : (g : ℕ) (xs : List Wait) → index_of g xs ≡ length xs → count g xs ≡ 0
count-index_of g [] h = refl
count-index_of g (x ∷ xs) h = ground (arith, count-index_of g xs)

pub index_of-count : (g : ℕ) (xs : List Wait) → count g xs ≡ 0 → index_of g xs ≡ length xs
index_of-count g [] h = refl
index_of-count g (x ∷ xs) h = ground (arith, index_of-count g xs)

-- The search returns the first entry of the player in the joined queue, and as slot its place
-- counted from 1; a player with no entry gets the end and the slot behind the last one.
pub find_client_lem :
    (info : WaitListInfo) (g : ℕ)
    → find_client info g ≡ (place info (index_of g (queue info)), suc (index_of g (queue info)))
unfolding find_client place
find_client_lem info g = ground (
  arith,
  find_loop_lem in_priority g 0 1 info.priority_wait_list
      λ slot. find_loop in_regular g 0 slot info.wait_list λ slot'. (at_end, slot'),
  find_loop_lem in_regular g 0 (1 + length info.priority_wait_list) info.wait_list
      (λ slot'. (at_end, slot')),
  index_of-append g info.priority_wait_list info.wait_list,
  index_of-le-length g info.priority_wait_list,
  index_of-le-length g info.wait_list,
  length-append info.priority_wait_list info.wait_list,
)

-- The slot that a client is shown is the place in the joined queue counted from 1, and 0 for a
-- player who is not queued.
pub get_client_slot_lem :
    (info : WaitListInfo) (g : ℕ)
    → get_client_slot info g ≡ (
        if ltb (index_of g (queue info)) (length (queue info))
        then suc (index_of g (queue info))
        else 0)
unfolding get_client_slot place
get_client_slot_lem info g = ground (
  arith,
  find_client_lem info g,
  length-append info.priority_wait_list info.wait_list,
  index_of-le-length g (queue info),
)
