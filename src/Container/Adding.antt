-- ===== src/Container/Adding.antt =====
-- Things that are put into a container of source/src/container.cpp.
use otg_premium_version.Common.{
  ℕ, ◌+◌, ◌<◌, ◌≡◌, refl, ap, ◌∙◌, true, false, Option, none, some, List, [], ◌∷◌, ◌++◌, ◌==◌,
  if◌then◌else◌, leb, ltb, arith, ==_refl,
}
use otg_premium_version.Container.{
  ItemType, Parent, inside, ordinary, Item, World, set_parent, set_list, get_weight,
  update_item_weight, internal_add_thing, add_thing, add_item, add_item_back,
}
use otg_premium_version.Container.Sums.{count, sum, count-append, sum-append}
use otg_premium_version.Container.Weights.{
  points, IsLinked, Shape, content, Owes, Reweighs-IsLinked, update_item_weight-Owes,
}
use otg_premium_version.Container.Links.{
  Relinks, set_parent_lem, set_parent-first, set_list-first, Relinks-IsLinked, Relinks-Owes,
}

module _ (items : ℕ → ItemType) (shape : Shape) where
  -- Lists and parents agree, and the weight of each marked container is that of what it holds, modulo
  -- `2 ^ 32`.
  abbrev pub IsSound : World → Type 0
  IsSound w = IsLinked shape w × Owes items shape (λ x. 0) w

  -- The call ends in a sound world in which `c` holds `xs` and `i` has the parent `q`.
  abbrev pub Ends : ℕ → Parent → ℕ → List ℕ → Option World → Type 0
  Ends i q c xs o =
      (w : World) × (o ≡ some w) × IsSound w × ((w c).item_list ≡ xs) × ((w i).parent ≡ q)

  -- A container below the fuel into which a marked item without a `getParent` of its own is put that is in
  -- none and does not stand above it.
  abbrev pub CanHold : ℕ → ℕ → ℕ → World → Type 0
  CanHold fuel i c w =
      ((w c).is_container ≡ true)
      × (shape.height c < fuel)
      × (shape.height c < shape.height i)
      × ((x : ℕ) → points x (w i).parent ≡ 0)
      × ((w i).kind ≡ ordinary)
      × (shape.exact i ≡ true)

  placed :
      (fuel i c : ℕ) (xs : List ℕ) (w w2 : World)
      → IsSound w
      → CanHold fuel i c w
      → Relinks i (inside c) c xs w w2
      → ((y : ℕ) → count y xs ≡ (if i == y then 1 else 0) + count y (w c).item_list)
      → sum (λ x. get_weight items (w x)) xs ≡ content items w c + get_weight items (w i)
      → Ends i (inside c) c xs (update_item_weight fuel (get_weight items (w2 i)) c w2)
  unfolding get_weight
  placed fuel i c xs w w2 sound can r counts weighs =
      let weight : get_weight items (w2 i) ≡ get_weight items (w i) = ap (get_weight items) (r i) in
      let fresh : count i (w c).item_list ≡ 0 = sound.0.held i c ∙ can.3 c in
      let linked : IsLinked shape w2 =
        Relinks-IsLinked shape i (inside c) c xs w w2 r sound.0
          (λ y. ground (arith, counts y, fresh)) (λ x other. (can.3 x, rw other refl))
          (λ p e. let same : c ≡ p = ground (arith, e) in rw⁻¹ same (can.0, can.2, can.4, can.5)) in
      let owes =
        Relinks-Owes items shape i (inside c) c (get_weight items (w2 i)) xs (λ x. 0) w w2 r
          (omega (arith, weighs, weight)) sound.1 in
      let (w', run, kept, settled, others) =
        update_item_weight-Owes items shape fuel (get_weight items (w2 i)) c (λ x. 0) w2 linked
          (ap Item.is_container (r c) ∙ can.0) can.1 owes in
      (
        w',
        run,
        (Reweighs-IsLinked shape w2 w' kept linked, settled),
        ap Item.item_list (kept c) ∙ ap Item.item_list (r c) ∙ rw (==_refl c) refl,
        ap Item.parent (kept i) ∙ ap Item.parent (r i) ∙ rw (==_refl i) refl,
      )

  pub internal_add_thing-Ends :
      (fuel i c : ℕ) (w : World)
      → IsSound w
      → CanHold fuel i c w
      → Ends i (inside c) c (i ∷ (w c).item_list) (internal_add_thing items fuel (some i) c w)
  unfolding internal_add_thing
  internal_add_thing-Ends fuel i c w sound can =
      let list : (set_parent i (inside c) w c).item_list ≡ (w c).item_list =
        ap Item.item_list (set_parent_lem i (inside c) w c) in
      rw list (
        placed fuel i c (i ∷ (w c).item_list) w
          (set_list c (i ∷ (w c).item_list) (set_parent i (inside c) w)) sound can
          (set_parent-first i (inside c) c (i ∷ (w c).item_list) w) (λ y. refl) (omega arith))

  -- In a sound world a marked thing of no class that overrides `getParent`, which is in no container and
  -- stands higher than a container, whose height is below the fuel, is put in front of the list of the container where the index is INDEX_WHEREEVER
  -- or below the capacity: the loop ends, the container is the parent of the thing, and the world is
  -- sound again.
  pub add_thing-Ends :
      (fuel : ℕ) (index : Option ℕ) (i c : ℕ) (w : World)
      → IsSound w
      → CanHold fuel i c w
      → elim index [ none ↦ true | some k ↦ ltb k (w c).max_size ] ≡ true
      → Ends i (inside c) c (i ∷ (w c).item_list) (add_thing items fuel index (some i) c w)
  unfolding add_thing
  add_thing-Ends fuel none i c w sound can room = internal_add_thing-Ends fuel i c w sound can
  add_thing-Ends fuel (some k) i c w sound can room =
      let free : leb (w c).max_size k ≡ false = ground arith in
      rw free (internal_add_thing-Ends fuel i c w sound can)

  -- As with addThing, but the item comes last, and the number of items is not looked at.
  pub add_item_back-Ends :
      (fuel i c : ℕ) (w : World)
      → IsSound w
      → CanHold fuel i c w
      → Ends i (inside c) c ((w c).item_list ++ i ∷ []) (add_item_back items fuel i c w)
  unfolding add_item_back add_item
  add_item_back-Ends fuel i c w sound can =
      let xs = (w c).item_list ++ i ∷ [] in
      placed fuel i c xs w (set_parent i (inside c) (set_list c xs w)) sound can
        (set_list-first i (inside c) c xs w)
        (λ y. omega (arith, count-append y (w c).item_list (i ∷ [])))
        (omega (arith, sum-append (λ x. get_weight items (w x)) (w c).item_list (i ∷ [])))
