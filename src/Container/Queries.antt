-- ===== src/Container/Queries.antt =====
-- queryAdd of source/src/container.cpp, which is asked before a thing is put into a container.
-- The numbers of items and containers, which the limits of the configuration bound, and the answer of
-- the cylinder at the top are inputs, as is what the classes and types of the things say.
pub mod Ranks
pub mod Takings
use otg_premium_version.Common.{
  ℕ, zero, suc, Bool, true, false, ◌&&◌, ◌||◌, not, Option, none, some, ◌==◌, if◌then◌else◌, leb,
  ltb, length,
}
use otg_premium_version.Container.{
  Parent, World, inside, elsewhere, nowhere, Kind, ordinary, depot_chest, inbox, reward,
  get_parent_container, ItemType, index_of,
}

-- The values that queryAdd returns itself, and the others by their number.
pub data ReturnValue : Type 0 where
  no_error : ReturnValue
  not_possible : ReturnValue
  cannot_pickup : ReturnValue
  this_is_impossible : ReturnValue
  container_not_enough_room : ReturnValue
  not_moveable : ReturnValue
  other_value : ℕ → ReturnValue

pub record Query : Type 0 where
  pub child_is_owner : Bool
  pub no_limit : Bool
  pub unlocked : Bool
  pub has_pagination : Bool
  pub is_pickupable : Bool
  pub exceeds_limits : Bool
  pub top_parent : Option ReturnValue

unfoldable pub is_inbox : Kind → Bool
is_inbox inbox = true
is_inbox ordinary = false
is_inbox depot_chest = false
is_inbox reward = false

-- One of the cylinders of the loop is the thing.
pub meets : ℕ → ℕ → ℕ → World → Bool
unfolding get_parent_container
meets zero i c w = false
meets (suc fuel) i c w = elim (get_parent_container (suc fuel) w c) [
  | none ↦ false
  | some p ↦ p == i || meets fuel i p w
]

-- The loop that also looks for an inbox: `no_error` where it ends.
unfoldable pub climb : ℕ → ℕ → ℕ → World → ReturnValue
unfolding is_inbox get_parent_container
climb zero i c w = no_error
climb (suc fuel) i c w = elim (get_parent_container (suc fuel) w c) [
  | none ↦ no_error
  | some p ↦
      let rest = climb fuel i p w in
      if p == i
      then this_is_impossible
      else if is_inbox (w p).kind
      then container_not_enough_room
      else rest
]

-- The index `none` is INDEX_WHEREEVER.
unfoldable pub is_full : Query → Option ℕ → ℕ → World → Bool
is_full q none c w = leb (w c).max_size (length (w c).item_list) && not q.has_pagination
is_full q (some index) c w = false

-- What is answered where the loop does not return.
abbrev pub after : ReturnValue → ReturnValue → ReturnValue
after no_error rest = rest
after r rest = r

unfoldable pub limited : Query → ReturnValue
limited q =
    if q.exceeds_limits then not_possible else elim q.top_parent [ none ↦ no_error | some r ↦ r ]

unfoldable pub query_add : ℕ → Query → Option ℕ → Option ℕ → ℕ → World → ReturnValue
unfolding meets climb is_full limited
query_add fuel q index none c w = if q.child_is_owner then no_error else not_possible
query_add fuel q index (some i) c w =
    if q.child_is_owner
    then no_error
    else if not q.unlocked
    then not_possible
    else if not q.is_pickupable
    then cannot_pickup
    else if i == c
    then this_is_impossible
    else if q.no_limit
    then (if meets fuel i c w then this_is_impossible else limited q)
    else after (climb fuel i c w)
        (if is_full q index c w then container_not_enough_room else limited q)

-- What the type of a thing and the flags say of its moving are the last two arguments before the world.
unfoldable pub query_remove : (ℕ → ItemType) → Option ℕ → ℕ → ℕ → Bool → Bool → World → ReturnValue
unfolding index_of
query_remove items none amount c is_moveable ignore_not_moveable w = not_possible
query_remove items (some i) amount c is_moveable ignore_not_moveable w =
    elim (index_of i (w c).item_list) [
      | none ↦ not_possible
      | some index ↦
          if amount == 0 || (items (w i).id).stackable && ltb (w i).count amount
          then not_possible
          else if not is_moveable && not ignore_not_moveable
          then not_moveable
          else no_error
    ]
