-- ===== src/Container/Tests.antt =====
-- Runs of the containers, and the theorems at concrete inputs.
use otg_premium_version.Common.{
  ◌⊎◌, ◌-◌, ◌<◌, ℕ, true, ◌%◌, ◌^◌, ◌≡◌, refl, false, Option, none, some, List, [], ◌∷◌, ◌==◌,
  if◌then◌else◌, leb, ltb, arith,
}
use otg_premium_version.Container.{
  ItemType, nowhere, inside, ordinary, inbox, get_parent, get_parent_container, set, World,
  get_weight, item_weight, get_base_weight, add_thing, add_item_back, remove_thing, replace_thing,
  update_thing, set_sub_type, index_of, erase_index,
}
use otg_premium_version.Container.Weights.{Shape, IsLinked, Owes}
use otg_premium_version.Container.Adding.{IsSound, Ends, add_thing-Ends, add_item_back-Ends}
use otg_premium_version.Container.Queries.{
  Query, query_add, query_remove, climb, limited, is_full, is_inbox, this_is_impossible,
}
use otg_premium_version.Container.Queries.Takings.{query_remove-remove_thing}
use otg_premium_version.Container.Queries.Ranks.{query_add-add_thing}
use otg_premium_version.Container.Removing.{IsHeld, remove_thing-Ends}
use otg_premium_version.Container.Replacing.{replace_thing-Ends}
use otg_premium_version.Container.Changing.{Becomes, update_thing-Becomes, remove_thing-Becomes}

-- Bags have the type 1, gold the type 2.
abbrev types : ℕ → ItemType
types id = record {
  weight = if id == 1 then 80 else 10;
  stackable = id == 2;
  is_fluid = false;
  charges = 0;
}

-- The bag 0 holds the bag 1, which holds the gold 2; the gold 3 is in no bag.
abbrev world : World
world i = record {
  kind = ordinary;
  id = if ltb i 2 then 1 else 2;
  count = 5;
  fluid_type = 0;
  charges_left = 0;
  weight_attribute = none;
  parent = if i == 1 then inside 0 else if i == 2 then inside 1 else nowhere;
  is_container = ltb i 2;
  item_list = if i == 0 then 1 ∷ [] else if i == 1 then 2 ∷ [] else [];
  max_size = 20;
  total_weight = if i == 0 then 130 else if i == 1 then 50 else 0;
}

-- All containers are marked.
abbrev shape : Shape
shape = record { height = λ i. if leb 2 i then 2 else i; exact = λ i. true }

world-IsLinked : IsLinked shape world
world-IsLinked = record {
  plain = λ i c e marked. (refl, refl);
  held = λ i c. ground arith;
  holder = λ i c e. ground (arith, e);
  grounded = λ i c e. ground (arith, e);
}

world-Owes : Owes types shape (λ x. 0) world
unfolding get_weight item_weight get_base_weight
world-Owes c container marked = ground arith

world-IsSound : IsSound types shape world
world-IsSound = (world-IsLinked, world-Owes)

-- The weights of what the two bags hold.
abbrev bag_weights : Option World → Option (List ℕ)
bag_weights none = none
bag_weights (some w) = some ((w 1).total_weight ∷ (w 0).total_weight ∷ [])

gold_runs : bag_weights (add_thing types 2 (some 0) (some 3) 1 world) ≡ some (100 ∷ 180 ∷ [])
unfolding add_thing get_weight item_weight get_base_weight
gold_runs = refl

add_thing-Ends_example :
    Ends types shape 3 (inside 1) 1 (3 ∷ 2 ∷ []) (add_thing types 2 (some 0) (some 3) 1 world)
add_thing-Ends_example =
    add_thing-Ends types shape 2 (some 0) 3 1 world world-IsSound
      (refl, omega arith, omega arith, λ x. refl, refl, refl) refl

add_item_back-Ends_example :
    Ends types shape 3 (inside 1) 1 (2 ∷ 3 ∷ []) (add_item_back types 2 3 1 world)
add_item_back-Ends_example =
    add_item_back-Ends types shape 2 3 1 world world-IsSound
      (refl, omega arith, omega arith, λ x. refl, refl, refl)

gold-IsHeld : IsHeld types shape 2 0 2 1 world
unfolding index_of
gold-IsHeld = (refl, omega arith, refl)

remove_thing-Ends_example :
    Ends types shape 2 nowhere 1 (erase_index 0 (2 ∷ [])) (remove_thing types 2 (some 2) 5 1 world)
remove_thing-Ends_example =
    remove_thing-Ends types shape 2 0 2 5 1 world world-IsSound gold-IsHeld refl

remove_thing-Becomes_example :
    Becomes types shape 2
      (record (world 2) { count = 3 })
      1
      (2 ∷ [])
      (remove_thing types 2 (some 2) 2 1 world)
remove_thing-Becomes_example =
    remove_thing-Becomes types shape 2 0 2 2 1 world world-IsSound gold-IsHeld refl (omega arith)
      (omega arith)

update_thing-Becomes_example :
    Becomes types shape 2
      (set_sub_type types (7 % 2 ^ 16) (record (world 2) { id = 2 }))
      1
      (2 ∷ [])
      (update_thing types 2 (some 2) 2 7 1 world)
update_thing-Becomes_example =
    update_thing-Becomes types shape 2 0 2 2 7 1 world world-IsSound gold-IsHeld

abbrev plain : Query
plain = record {
  child_is_owner = false;
  no_limit = false;
  unlocked = true;
  has_pagination = false;
  is_pickupable = true;
  exceeds_limits = false;
  top_parent = none;
}

-- An inbox in the inner bag looks past it, at the outer bag.
abbrev with_inbox : World
with_inbox = set world 3 (record (world 0) { kind = inbox; parent = inside 1; item_list = [] })

inbox_looks_past : get_parent_container 3 with_inbox 3 ≡ some 0
unfolding get_parent_container get_parent
inbox_looks_past = refl

inner_bag_refused : query_add 2 plain none (some 0) 1 world ≡ this_is_impossible
unfolding query_add climb get_parent_container get_parent
inner_bag_refused = refl

query_add-add_thing_example :
    (height : ℕ → ℕ) × Ends types
      (record shape { height = height })
      3
      (inside 1)
      1
      (3 ∷ 2 ∷ [])
      (add_thing types 2 none (some 3) 1 world)
unfolding query_add climb limited is_full get_parent_container get_parent is_inbox
query_add-add_thing_example =
    query_add-add_thing types shape plain none 3 1 world world-IsSound refl (λ x. refl) refl refl
      refl refl refl

query_remove-remove_thing_example :
    (index : ℕ) × (index_of 2 (2 ∷ []) ≡ some index)
    × (Ends types shape 2 nowhere 1
          (erase_index index (2 ∷ []))
          (remove_thing types 2 (some 2) 2 1 world)
        ⊎ ((2 < 5)
            × Becomes types shape 2
                (record (world 2) { count = 5 - 2 })
                1
                (2 ∷ [])
                (remove_thing types 2 (some 2) 2 1 world)))
unfolding query_remove index_of
query_remove-remove_thing_example =
    query_remove-remove_thing types shape 2 2 2 1 true false world world-IsSound refl (omega arith)
      (omega arith) (omega arith) refl

replace_thing-Ends_example :
    (w : World) × (replace_thing types 2 0 (some 3) 1 world ≡ some w)
    × IsSound types shape w
    × ((w 1).item_list ≡ 3 ∷ [])
    × ((w 3).parent ≡ inside 1)
    × ((w 2).parent ≡ nowhere)
replace_thing-Ends_example =
    replace_thing-Ends types shape 2 0 3 2 1 world world-IsSound
      (refl, omega arith, omega arith, λ x. refl, refl, refl) refl
