-- ===== src/Container/Queries/Takings.antt =====
-- A thing that queryRemove of source/src/container.cpp lets go leaves the container, or a part of it does.
use otg_premium_version.Common.{
  ℕ, ◌-◌, ◌<◌, ◌^◌, ◌≡◌, Bool, true, false, ◌&&◌, not, some, ◌==◌, ltb, arith, Bool-cases,
  Option-cases, inl, inr, ◌⊎◌,
}
use otg_premium_version.Container.{ItemType, nowhere, World, index_of, erase_index, remove_thing}
use otg_premium_version.Container.Queries.{no_error, query_remove}
use otg_premium_version.Container.Weights.{Shape}
use otg_premium_version.Container.Adding.{IsSound, Ends}
use otg_premium_version.Container.Removing.{remove_thing-Ends}
use otg_premium_version.Container.Changing.{Becomes, remove_thing-Becomes}

module _ (items : ℕ → ItemType) where
  query_remove-index :
      (i amount c : ℕ) (is_moveable ignore : Bool) (w : World)
      → query_remove items (some i) amount c is_moveable ignore w ≡ no_error
      → (index : ℕ) × (index_of i (w c).item_list ≡ some index)
        × ((items (w i).id).stackable && ltb (w i).count amount ≡ false)
  unfolding query_remove
  query_remove-index i amount c is_moveable ignore w h =
      elim (Option-cases (index_of i (w c).item_list)) [
        | inl e ↦ absurd (ground (arith, h, e))
        | inr (index, e) ↦ (index, e, ground (arith, h, e))
      ]

  -- In a sound world, a thing that queryRemove lets go from a container whose height is below the fuel
  -- is in its list; removeThing ends in a sound world, in which the thing is out of the list and its
  -- parent nothing, or, where the amount is less than the count, the rest of it has stayed. The count is
  -- a byte and the amount less than `2 ^ 31`.
  pub query_remove-remove_thing :
      (shape : Shape) (fuel i amount c : ℕ) (is_moveable ignore : Bool) (w : World)
      → IsSound items shape w
      → (w c).is_container ≡ true
      → shape.height c < fuel
      → (w i).count < 2 ^ 8
      → amount < 2 ^ 31
      → query_remove items (some i) amount c is_moveable ignore w ≡ no_error
      → (index : ℕ) × (index_of i (w c).item_list ≡ some index)
        × (Ends items shape i nowhere c
              (erase_index index (w c).item_list)
              (remove_thing items fuel (some i) amount c w)
            ⊎ ((amount < (w i).count)
                × Becomes items shape i
                    (record (w i) { count = (w i).count - amount })
                    c
                    (w c).item_list
                    (remove_thing items fuel (some i) amount c w)))
  query_remove-remove_thing shape fuel i amount c is_moveable ignore w sound container enough small
        less asked =
      let (index, found, stacked) = query_remove-index i amount c is_moveable ignore w asked in
      (
        index,
        found,
        elim (Bool-cases ((items (w i).id).stackable && not (amount == (w i).count))) [
          | inl e ↦ inr (
            ground (arith, stacked, e),
            remove_thing-Becomes items shape fuel index i amount c w sound
                (container, enough, found) e small less,
          )
          | inr e ↦ inl (
              remove_thing-Ends items shape fuel index i amount c w sound (container, enough, found)
                e)
        ],
      )
