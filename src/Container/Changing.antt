-- ===== src/Container/Changing.antt =====
-- Things that change while they are in a container of source/src/container.cpp.
use mathlib.Core.Path.{subst}
use otg_premium_version.Common.{
  ℕ, ◌+◌, ◌-◌, ◌%◌, ◌^◌, ◌<◌, ◌≡◌, refl, sym, ap, ◌∙◌, Bool, true, false, ◌&&◌, not, Option, some,
  List, ◌==◌, if◌then◌else◌, arith, Bool-cases, inl, inr, ==_refl, sub32,
}
use otg_premium_version.Container.{
  ItemType, inside, Item, World, set, get_weight, update_item_weight, remove_thing, update_thing,
  set_sub_type, new_count,
}
use otg_premium_version.Container.Sums.{count, sum, sum-same, sum-one}
use otg_premium_version.Container.Weights.{
  points, IsLinked, Shape, owed, content, Owes, Reweighs-IsLinked, update_item_weight-Owes,
}
use otg_premium_version.Container.Adding.{IsSound}
use otg_premium_version.Container.Removing.{IsHeld, held_inside, get_weight-lt}

-- Two objects in the same place, with the same items in them.
abbrev pub IsInPlace : Item → Item → Type 0
IsInPlace x y =
    (y.parent ≡ x.parent)
    × (y.is_container ≡ x.is_container)
    × (y.item_list ≡ x.item_list)
    × (y.total_weight ≡ x.total_weight)
    × (y.kind ≡ x.kind)

-- A field that the two objects share is as it was in every object.
set_field {ℓ} :
    {A : Type ℓ} (f : Item → A) (w : World) (i : ℕ) (y : Item) (x : ℕ)
    → f y ≡ f (w i)
    → f (set w i y x) ≡ f (w x)
set_field f w i y x h = elim (Bool-cases (i == x)) [
  | inl e ↦ let here : i ≡ x = ground arith in rw e (h ∙ ap (λ j. f (w j)) here)
  | inr e ↦ rw e refl
]

set-IsLinked :
    (shape : Shape) (w : World) (i : ℕ) (y : Item)
    → IsInPlace (w i) y
    → IsLinked shape w
    → IsLinked shape (set w i y)
set-IsLinked shape w i y h l =
    let parent : (x : ℕ) → (set w i y x).parent ≡ (w x).parent =
      λ x. set_field Item.parent w i y x h.0 in
    record {
      held = λ j x.
          ap (count j) (set_field Item.item_list w i y x h.2)
          ∙ l.held j x
          ∙ ap (points x) (sym (parent j));
      holder = λ j x e. set_field Item.is_container w i y x h.1 ∙ l.holder j x (sym (parent j) ∙ e);
      grounded = λ j x e. l.grounded j x (sym (parent j) ∙ e);
      plain = λ j x e marked.
          let rest = l.plain j x (sym (parent j) ∙ e) marked in
          (set_field Item.kind w i y j h.4 ∙ rest.0, rest.1);
    }

module _ (items : ℕ → ItemType) (shape : Shape) where
  -- The container of the item that changes owes the difference.
  set-Owes :
      (i c d : ℕ) (w : World) (y : Item)
      → IsSound items shape w
      → IsInPlace (w i) y
      → (w i).parent ≡ inside c
      → get_weight items y % 2 ^ 32 ≡ (get_weight items (w i) + d) % 2 ^ 32
      → Owes items shape (λ x. 0 + owed (some c) d x) (set w i y)
  set-Owes i c d w y sound h above weight x container marked =
      let w1 = set w i y in
      let f : ℕ → ℕ = λ j. get_weight items (w j) in
      let g : ℕ → ℕ = λ j. get_weight items (w1 j) in
      let before = sound.1 x (sym (set_field Item.is_container w i y x h.1) ∙ container) marked in
      let total = set_field Item.total_weight w i y x h.3 in
      let list : content items w1 x ≡ sum g (w x).item_list =
        ap (sum g) (set_field Item.item_list w i y x h.2) in
      let held : count i (w x).item_list ≡ (if c == x then 1 else 0) =
        sound.0.held i x ∙ ap (points x) above in
      let others : (j : ℕ) → (j == i) ≡ false → g j ≡ f j =
        λ j e. let other : (i == j) ≡ false = ground arith in rw other refl in
      let changes : g i % 2 ^ 32 ≡ (f i + d) % 2 ^ 32 =
        ap (λ (b : Bool). get_weight items (if b then y else w i) % 2 ^ 32) (==_refl i) ∙ weight in
      elim (Bool-cases (c == x)) [
        | inl e ↦ omega (
          arith,
          before,
          total,
          list,
          ap (λ (b : Bool). if b then d else 0) e,
          sum-one f g i d (w x).item_list others (held ∙ rw e refl) changes,
        )
        | inr e ↦ omega (
          arith,
          before,
          total,
          list,
          ap (λ (b : Bool). if b then d else 0) e,
          sum-same f g i (w x).item_list others (held ∙ rw e refl),
        )
      ]

  -- The call ends in a sound world in which the item is `y` and nothing entered or left the container.
  abbrev pub Becomes : ℕ → Item → ℕ → List ℕ → Option World → Type 0
  Becomes i y c xs o =
      (w : World) × (o ≡ some w) × IsSound items shape w × ((w c).item_list ≡ xs) × (w i ≡ y)

  changed :
      (fuel index i c : ℕ) (w : World) (y : Item)
      → IsSound items shape w
      → IsHeld items shape fuel index i c w
      → IsInPlace (w i) y
      → Becomes i y c (w c).item_list (
          update_item_weight fuel
            (sub32 (get_weight items y) (get_weight items (w i)))
            c
            (set w i y))
  changed fuel index i c w y sound h same =
      let d = sub32 (get_weight items y) (get_weight items (w i)) in
      let w1 = set w i y in
      let above = held_inside items shape fuel index i c w sound h in
      let bound = get_weight-lt items shape (w i) in
      let linked = set-IsLinked shape w i y same sound.0 in
      let (w', run, kept, settled, others) =
        update_item_weight-Owes items shape fuel d c (λ x. 0) w1 linked
          (set_field Item.is_container w i y c same.1 ∙ h.0) h.1
          (set-Owes i c d w y sound same above (omega (arith, bound))) in
      (
        w',
        run,
        (Reweighs-IsLinked shape w1 w' kept linked, settled),
        ap Item.item_list (kept c) ∙ set_field Item.item_list w i y c same.2,
        others i (sound.0.grounded i c above) ∙ rw (==_refl i) refl,
      )

  set_sub_type-IsInPlace :
      (n id : ℕ) (x : Item) → IsInPlace x (set_sub_type items n (record x { id = id }))
  unfolding set_sub_type
  set_sub_type-IsInPlace n id x = elim (Bool-cases (items id).is_fluid) [
    | inl e ↦ rw e (refl, refl, refl, refl, refl)
    | inr e ↦ elim (Bool-cases (items id).stackable) [
      | inl g ↦ rw (e, g) (refl, refl, refl, refl, refl)
      | inr g ↦ elim (Bool-cases ((items id).charges == 0)) [
        | inl k ↦ rw (e, g, k) (refl, refl, refl, refl, refl)
        | inr k ↦ rw (e, g, k) (refl, refl, refl, refl, refl)
      ]
    ]
  ]

  -- In a sound world a thing in a container whose height is below the fuel, of which another type and
  -- count are asked, becomes that thing in its place: the loop ends and the world is sound again.
  pub update_thing-Becomes :
      (fuel index i item_id amount c : ℕ) (w : World)
      → IsSound items shape w
      → IsHeld items shape fuel index i c w
      → Becomes i
          (set_sub_type items (amount % 2 ^ 16) (record (w i) { id = item_id }))
          c
          (w c).item_list
          (update_thing items fuel (some i) item_id amount c w)
  unfolding update_thing
  update_thing-Becomes fuel index i item_id amount c w sound h =
      let y = set_sub_type items (amount % 2 ^ 16) (record (w i) { id = item_id }) in
      subst (Becomes i y c (w c).item_list) (sym (rw (update_thing, h.2, ==_refl i) refl)) (
        changed fuel index i c w y sound h (set_sub_type-IsInPlace (amount % 2 ^ 16) item_id (w i)))

  -- In a sound world of a stack in a container whose height is below the fuel, which is not taken
  -- whole, what the amount leaves stays in its place, no less than nothing: the loop ends and the
  -- world is sound again. The count is a byte and the amount less than `2 ^ 31`.
  pub remove_thing-Becomes :
      (fuel index i amount c : ℕ) (w : World)
      → IsSound items shape w
      → IsHeld items shape fuel index i c w
      → (items (w i).id).stackable && not (amount == (w i).count) ≡ true
      → (w i).count < 2 ^ 8
      → amount < 2 ^ 31
      → Becomes i
          (record (w i) { count = (w i).count - amount })
          c
          (w c).item_list
          (remove_thing items fuel (some i) amount c w)
  unfolding remove_thing new_count
  remove_thing-Becomes fuel index i amount c w sound h part small less =
      let y : Item = record (w i) { count = (w i).count - amount } in
      let left : new_count (w i).count amount ≡ (w i).count - amount = ground arith in
      subst (Becomes i y c (w c).item_list)
        (sym (rw (remove_thing, h.2, part, ==_refl i, left) refl))
        (changed fuel index i c w y sound h (refl, refl, refl, refl, refl))
