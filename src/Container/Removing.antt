-- ===== src/Container/Removing.antt =====
-- Things that leave a container of source/src/container.cpp or change in it.
use mathlib.Core.Path.{subst}
use otg_premium_version.Common.{
  ℕ, ◌+◌, ◌%◌, ◌^◌, ◌<◌, ◌≡◌, refl, sym, ap, ◌∙◌, true, false, ◌&&◌, not, some, List, ◌==◌, arith,
  Bool-cases, Option-cases, inl, inr, ==_refl, sub32,
}
use otg_premium_version.Container.{
  ItemType, Parent, nowhere, inside, elsewhere, Item, World, set_parent, set_list, get_weight,
  item_weight, get_base_weight, update_item_weight, index_of, item_at, erase_index, remove_thing,
}
use otg_premium_version.Container.Sums.{
  count, sum, item_at-index_of, count-erase_index, sum-erase_index,
}
use otg_premium_version.Container.Weights.{
  points, IsLinked, Shape, Reweighs, owed, content, Owes, Reweighs-IsLinked,
  update_item_weight-Owes,
}
use otg_premium_version.Container.Links.{
  set_parent_lem, set_parent-first, Relinks-IsLinked, Relinks-Owes, Owes-mod,
}
use otg_premium_version.Container.Adding.{IsSound, Ends}

pub points-inside : (c : ℕ) (p : Parent) → 0 < points c p → p ≡ inside c
points-inside c nowhere h = absurd (omega arith)
points-inside c elsewhere h = absurd (omega arith)
points-inside c (inside p) h = let same : p ≡ c = ground arith in ap inside same

module _ (items : ℕ → ItemType) (shape : Shape) where
  get_base_weight-lt : (x : Item) → get_base_weight items x < 2 ^ 32
  unfolding get_base_weight
  get_base_weight-lt x = elim (Option-cases x.weight_attribute) [
    | inl e ↦ rw e (omega arith)
    | inr (v, e) ↦ rw e (omega arith)
  ]

  item_weight-lt : (x : Item) → item_weight items x < 2 ^ 32
  unfolding item_weight
  item_weight-lt x = elim (Bool-cases (items x.id).stackable) [
    | inl e ↦ rw e (omega arith)
    | inr e ↦ rw e (get_base_weight-lt x)
  ]

  pub get_weight-lt : (x : Item) → get_weight items x < 2 ^ 32
  unfolding get_weight
  get_weight-lt x = elim (Bool-cases x.is_container) [
    | inl e ↦ rw e (omega arith)
    | inr e ↦ rw e (item_weight-lt x)
  ]

  -- The item stands in the list of a container below the fuel.
  abbrev pub IsHeld : ℕ → ℕ → ℕ → ℕ → World → Type 0
  IsHeld fuel index i c w =
      ((w c).is_container ≡ true)
      × (shape.height c < fuel)
      × (index_of i (w c).item_list ≡ some index)

  pub held_inside :
      (fuel index i c : ℕ) (w : World)
      → IsSound items shape w
      → IsHeld fuel index i c w
      → (w i).parent ≡ inside c
  held_inside fuel index i c w sound h =
      let place = item_at-index_of i index (w c).item_list h.2 in
      let once = count-erase_index i i index (w c).item_list place in
      points-inside c (w i).parent (ground (arith, once, sound.0.held i c))

  -- Without the item, its list and its parent agree again.
  pub unlinked :
      (index i c : ℕ) (w w1 : World)
      → IsLinked shape w
      → Reweighs w w1
      → (w i).parent ≡ inside c
      → item_at index (w c).item_list ≡ some i
      → IsLinked shape (set_list c (erase_index index (w c).item_list) (set_parent i nowhere w1))
  unlinked index i c w w1 l kept above place =
      let xs = erase_index index (w c).item_list in
      let once : count i (w c).item_list ≡ 1 =
        l.held i c ∙ ap (points c) above ∙ rw (==_refl c) refl in
      let parent : (w1 i).parent ≡ inside c = ap Item.parent (kept i) ∙ above in
      Relinks-IsLinked shape i nowhere c xs w1 (set_list c xs (set_parent i nowhere w1))
        (set_parent-first i nowhere c xs w1) (Reweighs-IsLinked shape w w1 kept l)
        (λ y. ground (
          arith,
          once,
          count-erase_index i y index (w c).item_list place,
          ap (λ (x : Item). count y x.item_list) (kept c),
        ))
        (λ x other. (ap (points x) parent ∙ rw other refl, refl))
        (λ p e. absurd (ground (arith, e)))

  -- What its weight took off and what its place in the list takes off are the same.
  cancels :
      (c : ℕ) (y : Item) (x : ℕ)
      → (owed (some c) (get_weight items y) x + owed (some c) (sub32 0 (get_weight items y)) x)
          % 2 ^ 32
        ≡ 0
  cancels c y x = let bound = get_weight-lt y in ground arith

  uncounted :
      (index i c : ℕ) (w w1 : World)
      → Reweighs w w1
      → w1 i ≡ w i
      → index_of i (w c).item_list ≡ some index
      → Owes items shape (owed (some c) (get_weight items (w i))) w1
      → Owes items shape
          (λ x. 0)
          (set_list c (erase_index index (w c).item_list) (set_parent i nowhere w1))
  uncounted index i c w w1 kept same found settled =
      let weight = get_weight items (w i) in
      let gone = sub32 0 weight in
      let xs = erase_index index (w c).item_list in
      let f : ℕ → ℕ = λ x. get_weight items (w1 x) in
      let content_kept : content items w1 c ≡ sum f (w c).item_list =
        ap (λ (x : Item). sum f x.item_list) (kept c) in
      let changed : sum f xs % 2 ^ 32 ≡ (content items w1 c + gone) % 2 ^ 32 = omega (
        arith,
        get_weight-lt (w i),
        content_kept,
        sum-erase_index f i index (w c).item_list (item_at-index_of i index (w c).item_list found),
        ap (get_weight items) same,
      ) in
      Owes-mod items shape (λ x. owed (some c) weight x + owed (some c) gone x) (λ x. 0)
        (set_list c xs (set_parent i nowhere w1)) (cancels c (w i))
        (Relinks-Owes items shape i nowhere c gone xs (owed (some c) weight) w1
          (set_list c xs (set_parent i nowhere w1)) (set_parent-first i nowhere c xs w1) changed
          settled)

  -- An item that leaves is in no container any more, and the weights no longer count it.
  taken :
      (fuel index i c : ℕ) (w : World)
      → IsSound items shape w
      → IsHeld fuel index i c w
      → (w1 : World) × (update_item_weight fuel (sub32 0 (get_weight items (w i))) c w ≡ some w1)
        × Ends items shape i nowhere c (erase_index index (w c).item_list) (
            some (
              set_list c
                (erase_index index (set_parent i nowhere w1 c).item_list)
                (set_parent i nowhere w1)))
  taken fuel index i c w sound h =
      let weight = get_weight items (w i) in
      let gone = sub32 0 weight in
      let above = held_inside fuel index i c w sound h in
      let (w1, run, kept, settled, others) =
        update_item_weight-Owes items shape fuel gone c (owed (some c) weight) w sound.0 h.0 h.1 (
          Owes-mod items shape (λ x. 0) (λ x. owed (some c) weight x + owed (some c) gone x) w
            (λ x. sym (cancels c (w i) x)) sound.1) in
      let list : (set_parent i nowhere w1 c).item_list ≡ (w c).item_list =
        ap Item.item_list (set_parent_lem i nowhere w1 c) ∙ ap Item.item_list (kept c) in
      let xs = erase_index index (w c).item_list in
      let r = set_parent-first i nowhere c xs w1 in
      (
        w1,
        run,
        (
          set_list c xs (set_parent i nowhere w1),
          ap (λ (ys : List ℕ). some (set_list c (erase_index index ys) (set_parent i nowhere w1)))
              list,
          (
            unlinked index i c w w1 sound.0 kept above
                (item_at-index_of i index (w c).item_list h.2),
            uncounted index i c w w1 kept (others i (sound.0.grounded i c above)) h.2 settled,
          ),
          ap Item.item_list (r c) ∙ rw (==_refl c) refl,
          ap Item.parent (r i) ∙ rw (==_refl i) refl,
        ),
      )

  remove_thing_whole :
      (fuel index i amount c : ℕ) (w w1 : World)
      → index_of i (w c).item_list ≡ some index
      → (items (w i).id).stackable && not (amount == (w i).count) ≡ false
      → update_item_weight fuel (sub32 0 (get_weight items (w i))) c w ≡ some w1
      → remove_thing items fuel (some i) amount c w
        ≡ some (
            set_list c
              (erase_index index (set_parent i nowhere w1 c).item_list)
              (set_parent i nowhere w1))
  unfolding remove_thing
  remove_thing_whole fuel index i amount c w w1 found all run =
      rw (remove_thing, found, all, run) refl

  -- In a sound world an item in a container whose height is below the fuel leaves it, where it is not
  -- part of a stack that leaves: the loop ends, the list of the container has lost the item, whose
  -- parent is nothing, and the world is sound again.
  pub remove_thing-Ends :
      (fuel index i amount c : ℕ) (w : World)
      → IsSound items shape w
      → IsHeld fuel index i c w
      → (items (w i).id).stackable && not (amount == (w i).count) ≡ false
      → Ends items shape i nowhere c
          (erase_index index (w c).item_list)
          (remove_thing items fuel (some i) amount c w)
  unfolding remove_thing
  remove_thing-Ends fuel index i amount c w sound h all =
      let (w1, run, rest) = taken fuel index i c w sound h in
      subst (Ends items shape i nowhere c (erase_index index (w c).item_list))
        (sym (remove_thing_whole fuel index i amount c w w1 h.2 all run)) rest
