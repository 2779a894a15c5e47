-- ===== src/Container/Replacing.antt =====
-- A thing that takes the place of another in a container of source/src/container.cpp.
use mathlib.Core.Path.{subst}
use otg_premium_version.Common.{
  ℕ, ◌+◌, ◌≡◌, refl, sym, ap, ◌∙◌, false, some, ◌==◌, arith, ap₂, Bool-cases, inl, inr, ==_refl,
  sub32,
}
use otg_premium_version.Container.{
  ItemType, nowhere, inside, Item, World, set_parent, set_list, get_weight, update_item_weight,
  item_at, put_at, erase_index, replace_thing, mapped,
}
use otg_premium_version.Container.Weights.{
  IsLinked, Shape, points, content, Owes, owed, update_item_weight-Owes, Reweighs-IsLinked,
}
use otg_premium_version.Container.Adding.{IsSound, CanHold}
use otg_premium_version.Container.Removing.{unlinked, points-inside, get_weight-lt}
use otg_premium_version.Container.Sums.{
  count, sum, count-erase_index, sum-erase_index, count-put_at, sum-put_at,
}
use otg_premium_version.Container.Links.{
  Relinks-IsLinked, Relinks-Owes, Owes-mod, set_list-first, set_parent-first, set_parent_lem,
}
use otg_premium_version.Container.Swaps.{update_item_weight-set_parent, swapped-Relinks}

module _ (items : ℕ → ItemType) (shape : Shape) where
  replace_thing-mapped :
      (fuel index i r c : ℕ) (w : World)
      → item_at index (w c).item_list ≡ some r
      → replace_thing items fuel index (some i) c w
        ≡ mapped (set_parent r nowhere) (
            update_item_weight fuel
              (sub32
                (get_weight items
                  (set_parent i (inside c) (set_list c (put_at index i (w c).item_list) w) i))
                (get_weight items
                  (set_parent i (inside c) (set_list c (put_at index i (w c).item_list) w) r)))
              c
              (set_parent i (inside c) (set_list c (put_at index i (w c).item_list) w)))
  unfolding replace_thing
  replace_thing-mapped fuel index i r c w found = rw (replace_thing, found) refl

  held_at :
      (index r c : ℕ) (w : World)
      → IsSound items shape w
      → item_at index (w c).item_list ≡ some r
      → (w r).parent ≡ inside c
  held_at index r c w sound found =
      points-inside c (w r).parent
        (ground (arith, sound.0.held r c, count-erase_index r r index (w c).item_list found))

  differs :
      (i r c : ℕ) (w : World)
      → (w r).parent ≡ inside c
      → points c (w i).parent ≡ 0
      → (r == i) ≡ false
  differs i r c w above free = elim (Bool-cases (r == i)) [
    | inl e ↦
        let same : r ≡ i = ground arith in
        let one : points c (w r).parent ≡ 1 = ap (points c) above ∙ rw (==_refl c) refl in
        absurd (omega (arith, one, free, ap (λ j. points c (w j).parent) same))
    | inr e ↦ e
  ]

  swapped-IsLinked :
      (fuel index i r c : ℕ) (w : World)
      → IsSound items shape w
      → CanHold items shape fuel i c w
      → item_at index (w c).item_list ≡ some r
      → IsLinked shape (
          set_parent r nowhere
            (set_parent i (inside c) (set_list c (put_at index i (w c).item_list) w)))
  swapped-IsLinked fuel index i r c w sound can found =
      let list = (w c).item_list in
      let es = erase_index index list in
      let ys = put_at index i list in
      let above = held_at index r c w sound found in
      let other = differs i r c w above (can.3 c) in
      let wa = set_list c es (set_parent r nowhere w) in
      let ra = set_parent-first r nowhere c es w in
      let rest : (wa c).item_list ≡ es = ap Item.item_list (ra c) ∙ rw (==_refl c) refl in
      let fresh : count i list ≡ 0 = sound.0.held i c ∙ can.3 c in
      let parent : (wa i).parent ≡ (w i).parent = ap Item.parent (ra i) ∙ rw other refl in
      Relinks-IsLinked shape i (inside c) c ys wa
        (set_parent r nowhere (set_parent i (inside c) (set_list c ys w)))
        (swapped-Relinks i r c es ys w other)
        (unlinked items shape index r c w w sound.0 (λ x. refl) above found)
        (λ y. ground (
          arith,
          fresh,
          count-put_at i y index r list found,
          count-erase_index r i index list found,
          ap (count y) rest,
        ))
        (λ x elsewhere. (ap (points x) parent ∙ can.3 x, rw elsewhere refl))
        (λ p e.
          let same : c ≡ p = ground (arith, e) in
          (
            ap Item.is_container (ra p) ∙ ap (λ j. (w j).is_container) (sym same) ∙ can.0,
            omega (arith, ap shape.height same, can.2),
            ap Item.kind (ra i) ∙ can.4,
            can.5,
          ))

  -- The container owes the weight of the one less that of the other.
  swapped-Owes :
      (index i r c : ℕ) (w : World)
      → IsSound items shape w
      → (r == i) ≡ false
      → item_at index (w c).item_list ≡ some r
      → Owes items shape
          (λ x. 0 + owed (some c) (sub32 (get_weight items (w i)) (get_weight items (w r))) x)
          (set_parent r nowhere
            (set_parent i (inside c) (set_list c (put_at index i (w c).item_list) w)))
  unfolding get_weight
  swapped-Owes index i r c w sound other found =
      let list = (w c).item_list in
      let es = erase_index index list in
      let ys = put_at index i list in
      let gone = sub32 0 (get_weight items (w r)) in
      let weight = get_weight items (w i) in
      let wa = set_list c es (set_parent r nowhere w) in
      let ra = set_parent-first r nowhere c es w in
      let f : ℕ → ℕ = λ x. get_weight items (w x) in
      let g : ℕ → ℕ = λ x. get_weight items (wa x) in
      let bound = get_weight-lt items shape (w r) in
      let more = get_weight-lt items shape (w i) in
      let rest : content items wa c ≡ sum g es =
        ap (sum g) (ap Item.item_list (ra c) ∙ rw (==_refl c) refl) in
      let same : g i ≡ weight = ap (get_weight items) (ra i) in
      let v = set_parent r nowhere (set_parent i (inside c) (set_list c ys w)) in
      let without : Owes items shape (λ x. 0 + owed (some c) gone x) wa =
        Relinks-Owes items shape r nowhere c gone es (λ x. 0) w wa ra
          (omega (arith, bound, sum-erase_index f r index list found)) sound.1 in
      Owes-mod items shape (λ x. 0 + owed (some c) gone x + owed (some c) weight x)
        (λ x. 0 + owed (some c) (sub32 weight (get_weight items (w r))) x) v
        (λ x. ground (arith, bound, more))
        (Relinks-Owes items shape i (inside c) c weight ys (λ x. 0 + owed (some c) gone x) wa v
          (swapped-Relinks i r c es ys w other)
          (omega (arith, rest, same, sum-put_at g i index r list found)) without)

  -- In a sound world the item at an index of a container, whose height is below the fuel, is replaced by
  -- a marked thing of no class that overrides `getParent`, which is in no container and stands higher:
  -- the loop ends, the thing stands at the index, the parent of what was there is nothing, and the world
  -- is sound again.
  pub replace_thing-Ends :
      (fuel index i r c : ℕ) (w : World)
      → IsSound items shape w
      → CanHold items shape fuel i c w
      → item_at index (w c).item_list ≡ some r
      → (w' : World) × (replace_thing items fuel index (some i) c w ≡ some w')
        × IsSound items shape w'
        × ((w' c).item_list ≡ put_at index i (w c).item_list)
        × ((w' i).parent ≡ inside c)
        × ((w' r).parent ≡ nowhere)
  unfolding get_weight
  replace_thing-Ends fuel index i r c w sound can found =
      let es = erase_index index (w c).item_list in
      let ys = put_at index i (w c).item_list in
      let above : (w r).parent ≡ inside c = held_at index r c w sound found in
      let other : (r == i) ≡ false = differs i r c w above (can.3 c) in
      let wa = set_list c es (set_parent r nowhere w) in
      let w2 = set_parent i (inside c) (set_list c ys w) in
      let v = set_parent r nowhere w2 in
      let ra = set_parent-first r nowhere c es w in
      let rv = swapped-Relinks i r c es ys w other in
      let linked : IsLinked shape v = swapped-IsLinked fuel index i r c w sound can found in
      let d = sub32 (get_weight items (w2 i)) (get_weight items (w2 r)) in
      let same : d ≡ sub32 (get_weight items (w i)) (get_weight items (w r)) =
        ap₂ sub32 (ap (get_weight items) (set_list-first i (inside c) c ys w i))
          (ap (get_weight items) (set_list-first i (inside c) c ys w r)) in
      let owes : Owes items shape (λ x. 0 + owed (some c) d x) v =
        subst (λ n. Owes items shape (λ x. 0 + owed (some c) n x) v) (sym same)
          (swapped-Owes index i r c w sound other found) in
      let (w', run, kept, settled, others) =
        update_item_weight-Owes items shape fuel d c (λ x. 0) v linked
          (ap Item.is_container (rv c) ∙ ap Item.is_container (ra c) ∙ can.0) can.1 owes in
      (
        w',
        replace_thing-mapped fuel index i r c w found
            ∙ sym (
                update_item_weight-set_parent shape fuel d c r nowhere w2 linked
                  (sound.0.grounded r c above))
            ∙ run,
        (Reweighs-IsLinked shape v w' kept linked, settled),
        ap Item.item_list (kept c) ∙ ap Item.item_list (rv c) ∙ rw (==_refl c) refl,
        ap Item.parent (kept i) ∙ ap Item.parent (rv i) ∙ rw (==_refl i) refl,
        ap Item.parent (kept r)
            ∙ ap Item.parent (set_parent_lem r nowhere w2 r)
            ∙ rw (==_refl r) refl,
      )
