-- ===== src/Container.antt =====
-- source/src/container.cpp and the weights of source/src/item.cpp: containers of items, their parents
-- and the weight that each container keeps of what it holds.
-- Items are numbers, and a world says what the object of each one holds. A pointer to a thing that is no
-- item is `none`. What the calls tell the clients and the scripts is left out.
pub mod Sums
pub mod Parents
pub mod Enough
pub mod Weights
pub mod Links
pub mod Adding
pub mod Queries
pub mod Removing
pub mod Changing
pub mod Swaps
pub mod Replacing
mod Tests
use Prim.Native.Nat.{max}
use otg_premium_version.Common.{
  ℕ, zero, suc, ◌+◌, ◌*◌, ◌%◌, ◌^◌, Bool, true, false, ◌&&◌, not, Option, none, some, List, [], ◌∷◌,
  ◌++◌, ◌==◌, if◌then◌else◌, ltb, leb, u32, add32, sub32,
}

-- What `Item::items`, which files fill, says of a type.
pub record ItemType : Type 0 where
  pub weight : ℕ
  pub stackable : Bool
  pub is_fluid : Bool
  pub charges : ℕ

-- `parent`: nothing, a container, or a cylinder that is none.
pub data Parent : Type 0 where
  nowhere : Parent
  inside : ℕ → Parent
  elsewhere : Parent

-- The classes that override `getParent`, and all others.
pub data Kind : Type 0 where
  ordinary : Kind
  depot_chest : Kind
  inbox : Kind
  reward : Kind

pub record Item : Type 0 where
  pub kind : Kind
  pub id : ℕ
  pub count : ℕ
  pub fluid_type : ℕ
  pub charges_left : ℕ
  pub weight_attribute : Option ℕ
  pub parent : Parent
  pub is_container : Bool
  pub item_list : List ℕ
  pub max_size : ℕ
  pub total_weight : ℕ

abbrev pub World : Type 0
World = ℕ → Item

abbrev pub set : World → ℕ → Item → World
set w i x = λ j. if i == j then x else w j

unfoldable pub index_of : ℕ → List ℕ → Option ℕ
index_of x [] = none
index_of x (y ∷ ys) =
    if y == x then some 0 else elim (index_of x ys) [ none ↦ none | some k ↦ some (suc k) ]

pub erase_index : ℕ → List ℕ → List ℕ
erase_index k [] = []
erase_index zero (x ∷ xs) = xs
erase_index (suc k) (x ∷ xs) = x ∷ erase_index k xs

-- `getItemByIndex` of a list.
abbrev pub item_at : ℕ → List ℕ → Option ℕ
item_at k [] = none
item_at zero (x ∷ xs) = some x
item_at (suc k) (x ∷ xs) = item_at k xs

abbrev pub put_at : ℕ → ℕ → List ℕ → List ℕ
put_at k i [] = []
put_at zero i (x ∷ xs) = i ∷ xs
put_at (suc k) i (x ∷ xs) = x ∷ put_at k i xs

-- `getParent` of a pointer to a cylinder: a cylinder that is no container is in none.
abbrev pub above : (ℕ → Parent) → Parent → Parent
above f nowhere = nowhere
above f elsewhere = elsewhere
above f (inside p) = f p

-- The virtual `getParent`: a depot chest, an inbox and a reward look past what encloses them. The
-- fuel bounds the calls.
pub get_parent : ℕ → World → ℕ → Parent
get_parent zero w i = elsewhere
get_parent (suc fuel) w i =
    let outer = above (get_parent fuel w) (w i).parent in
    elim (w i).kind [
      | ordinary ↦ (w i).parent
      | depot_chest ↦ above (get_parent fuel w) outer
      | inbox ↦ outer
      | reward ↦ outer
    ]

abbrev pub container_of : World → Parent → Option ℕ
container_of w (inside c) = if (w c).is_container then some c else none
container_of w nowhere = none
container_of w elsewhere = none

unfoldable pub get_parent_container : ℕ → World → ℕ → Option ℕ
unfolding get_parent
get_parent_container fuel w i = container_of w (get_parent fuel w i)

pub added : ℕ → ℕ → World → World
added diff c w = set w c (record (w c) { total_weight = add32 (w c).total_weight diff })

-- What is done after a loop that ends.
abbrev pub mapped : (World → World) → Option World → Option World
mapped f none = none
mapped f (some w) = some (f w)

-- `updateItemWeight` of the pattern of 32 bits of `diff`; `none` where the parents do not end in `fuel`
-- rounds.
pub update_item_weight : ℕ → ℕ → ℕ → World → Option World
unfolding added get_parent_container
update_item_weight zero diff c w = none
update_item_weight (suc fuel) diff c w = elim (get_parent_container (suc fuel) w c) [
  | none ↦ some (added diff c w)
  | some p ↦ update_item_weight fuel diff p (added diff c w)
]

abbrev pub set_parent : ℕ → Parent → World → World
set_parent i p w = set w i (record (w i) { parent = p })

abbrev pub set_list : ℕ → List ℕ → World → World
set_list c xs w = set w c (record (w c) { item_list = xs })

-- `item->getItemCount() - amount` is made without a sign, and then taken with one.
pub new_count : ℕ → ℕ → ℕ
new_count count amount =
    let left = sub32 count amount in if ltb left (2 ^ 31) then left % 2 ^ 8 else 0

module _ (items : ℕ → ItemType) where
  pub get_base_weight : Item → ℕ
  get_base_weight x = elim x.weight_attribute [ none ↦ u32 (items x.id).weight | some v ↦ u32 v ]

  pub item_weight : Item → ℕ
  unfolding get_base_weight
  item_weight x =
      if (items x.id).stackable then u32 (get_base_weight x * max 1 x.count) else get_base_weight x

  pub get_weight : Item → ℕ
  unfolding item_weight
  get_weight x = if x.is_container then add32 (item_weight x) x.total_weight else item_weight x

  pub internal_add_thing : ℕ → Option ℕ → ℕ → World → Option World
  unfolding get_weight update_item_weight
  internal_add_thing fuel none c w = some w
  internal_add_thing fuel (some i) c w =
      let w1 = set_parent i (inside c) w in
      let w2 = set_list c (i ∷ (w1 c).item_list) w1 in
      update_item_weight fuel (get_weight (w2 i)) c w2

  -- The index `none` is INDEX_WHEREEVER, which is -1.
  pub add_thing : ℕ → Option ℕ → Option ℕ → ℕ → World → Option World
  unfolding internal_add_thing
  add_thing fuel none thing c w = internal_add_thing fuel thing c w
  add_thing fuel (some index) thing c w =
      if leb (w c).max_size index then some w else internal_add_thing fuel thing c w

  pub add_item : ℕ → ℕ → World → World
  add_item i c w = let w1 = set_list c ((w c).item_list ++ i ∷ []) w in set_parent i (inside c) w1

  pub add_item_back : ℕ → ℕ → ℕ → World → Option World
  unfolding add_item get_weight update_item_weight
  add_item_back fuel i c w =
      let w1 = add_item i c w in update_item_weight fuel (get_weight (w1 i)) c w1

  pub set_sub_type : ℕ → Item → Item
  set_sub_type n x =
      let it = items x.id in
      if it.is_fluid
      then record x { fluid_type = n }
      else if it.stackable
      then record x { count = n % 2 ^ 8 }
      else if not (it.charges == 0)
      then record x { charges_left = n }
      else record x { count = n % 2 ^ 8 }

  pub update_thing : ℕ → Option ℕ → ℕ → ℕ → ℕ → World → Option World
  unfolding index_of set_sub_type get_weight update_item_weight
  update_thing fuel none item_id amount c w = some w
  update_thing fuel (some i) item_id amount c w = elim (index_of i (w c).item_list) [
    | none ↦ some w
    | some index ↦
        let w1 = set w i (set_sub_type (amount % 2 ^ 16) (record (w i) { id = item_id })) in
        update_item_weight fuel (sub32 (get_weight (w1 i)) (get_weight (w i))) c w1
  ]

  pub remove_thing : ℕ → Option ℕ → ℕ → ℕ → World → Option World
  unfolding index_of erase_index new_count get_weight update_item_weight
  remove_thing fuel none amount c w = some w
  remove_thing fuel (some i) amount c w = elim (index_of i (w c).item_list) [
    | none ↦ some w
    | some index ↦
        if (items (w i).id).stackable && not (amount == (w i).count)
        then (let w1 = set w i (record (w i) { count = new_count (w i).count amount }) in
            update_item_weight fuel (sub32 (get_weight (w1 i)) (get_weight (w i))) c w1)
        else elim (update_item_weight fuel (sub32 0 (get_weight (w i))) c w) [
          | none ↦ none
          | some w1 ↦
              let w2 = set_parent i nowhere w1 in
              some (set_list c (erase_index index (w2 c).item_list) w2)
        ]
  ]

  pub replace_thing : ℕ → ℕ → Option ℕ → ℕ → World → Option World
  unfolding get_weight update_item_weight
  replace_thing fuel index none c w = some w
  replace_thing fuel index (some i) c w = elim (item_at index (w c).item_list) [
    | none ↦ some w
    | some replaced ↦
        let w1 = set_list c (put_at index i (w c).item_list) w in
        let w2 = set_parent i (inside c) w1 in
        let diff = sub32 (get_weight (w2 i)) (get_weight (w2 replaced)) in
        mapped (set_parent replaced nowhere) (update_item_weight fuel diff c w2)
  ]
