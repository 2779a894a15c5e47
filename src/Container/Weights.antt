-- ===== src/Container/Weights.antt =====
-- How updateItemWeight of source/src/container.cpp carries a difference to the containers above.
use otg_premium_version.Common.{
  ℕ, zero, suc, ◌+◌, ◌%◌, ◌^◌, ◌<◌, ◌≡◌, refl, sym, ap, ◌∙◌, true, false, Option, none, some, ◌==◌,
  if◌then◌else◌, arith, Bool-cases, inl, inr, ◌⊎◌,
}
use otg_premium_version.Container.{
  ItemType, Item, World, get_parent_container, added, update_item_weight, get_weight,
}
pub use otg_premium_version.Container.Parents.{
  points, Shape, IsLinked, Parent-cases, Kind-cases, next-cases,
}
use otg_premium_version.Container.Sums.{count, sum, sum-same, sum-one}

-- What is missing at the container that the loop looks at next.
abbrev pub owed : Option ℕ → ℕ → ℕ → ℕ
owed none d c = 0
owed (some p) d c = if p == c then d else 0

-- Nothing but the weights of containers changed.
abbrev pub Reweighs : World → World → Type 0
Reweighs w w' = (j : ℕ) → w' j ≡ record (w j) { total_weight = (w' j).total_weight }

pub added-Reweighs : (d c : ℕ) (w : World) → Reweighs w (added d c w)
unfolding added
added-Reweighs d c w j = elim (Bool-cases (c == j)) [
  | inl e ↦ let same : c ≡ j = ground arith in rw (e, same) refl
  | inr e ↦ rw e refl
]

added-outside : (d c : ℕ) (w : World) (i : ℕ) → (c == i) ≡ false → added d c w i ≡ w i
unfolding added
added-outside d c w i other = rw other refl

added-total :
    (d c e : ℕ) (w : World) (x : ℕ)
    → ((added d c w x).total_weight + e) % 2 ^ 32
      ≡ ((w x).total_weight + (e + owed (some c) d x)) % 2 ^ 32
unfolding added
added-total d c e w x = elim (Bool-cases (c == x)) [
  | inl same ↦ let here : c ≡ x = ground arith in rw (same, here) (omega arith)
  | inr other ↦ rw other (omega arith)
]

pub Reweighs-trans : (u v w : World) → Reweighs u v → Reweighs v w → Reweighs u w
Reweighs-trans u v w f g j =
    g j ∙ ap (λ (x : Item). record x { total_weight = (w j).total_weight }) (f j)

pub Reweighs-IsLinked :
    (shape : Shape) (w w' : World) → Reweighs w w' → IsLinked shape w → IsLinked shape w'
Reweighs-IsLinked shape w w' f l = record {
  held = λ i c.
      ap (λ (x : Item). count i x.item_list) (f c)
      ∙ l.held i c
      ∙ ap (λ (x : Item). points c x.parent) (sym (f i));
  plain = λ i c e x.
      let rest = l.plain i c (ap Item.parent (sym (f i)) ∙ e) x in
      (ap Item.kind (f i) ∙ rest.0, rest.1);
  holder = λ i c e. ap Item.is_container (f c) ∙ l.holder i c (ap Item.parent (sym (f i)) ∙ e);
  grounded = λ i c e. l.grounded i c (ap Item.parent (sym (f i)) ∙ e);
}

-- Whether the list of a marked `x` holds `c` tells whether `x` is the container to look at next.
parent_owed :
    (shape : Shape) (fuel : ℕ) (w : World) (c d x : ℕ)
    → IsLinked shape w
    → shape.exact x ≡ true
    → ((count c (w x).item_list ≡ 0) × (owed (get_parent_container (suc fuel) w c) d x ≡ 0))
      ⊎ ((count c (w x).item_list ≡ 1) × (owed (get_parent_container (suc fuel) w c) d x ≡ d))
parent_owed shape fuel w c d x l marked = elim (next-cases shape fuel w c l) [
  | inl (e, absent) ↦ inl (absent x marked, rw e refl)
  | inr (p, e, lower, holder, once) ↦ elim (Bool-cases (p == x)) [
    | inl same ↦ inr (once x marked ∙ rw same refl, rw (e, same) refl)
    | inr other ↦ inl (once x marked ∙ rw other refl, rw (e, other) refl)
  ]
]

pub update_item_weight-last :
    (fuel d c : ℕ) (w : World)
    → get_parent_container (suc fuel) w c ≡ none
    → update_item_weight (suc fuel) d c w ≡ some (added d c w)
unfolding update_item_weight
update_item_weight-last fuel d c w next = rw (update_item_weight, next) refl

pub update_item_weight-next :
    (fuel d c p : ℕ) (w : World)
    → get_parent_container (suc fuel) w c ≡ some p
    → update_item_weight (suc fuel) d c w ≡ update_item_weight fuel d p (added d c w)
unfolding update_item_weight
update_item_weight-next fuel d c p w next = rw (update_item_weight, next) refl

module _ (items : ℕ → ItemType) where
  abbrev pub content : World → ℕ → ℕ
  content w c = sum (λ i. get_weight items (w i)) (w c).item_list

module _ (items : ℕ → ItemType) (shape : Shape) where
  -- Each marked container's weight is that of its items but for what it is owed.
  abbrev pub Owes : (ℕ → ℕ) → World → Type 0
  Owes e w =
      (c : ℕ)
      → (w c).is_container ≡ true
      → shape.exact c ≡ true
      → ((w c).total_weight + e c) % 2 ^ 32 ≡ content items w c % 2 ^ 32

  added-weight :
      (d c : ℕ) (w : World)
      → (w c).is_container ≡ true
      → get_weight items (added d c w c) % 2 ^ 32 ≡ (get_weight items (w c) + d) % 2 ^ 32
  unfolding added get_weight
  added-weight d c w h = let here : (c == c) ≡ true = ground arith in rw (here, h) (omega arith)

  added-other :
      (d c : ℕ) (w : World) (x : ℕ)
      → (x == c) ≡ false
      → get_weight items (added d c w x) ≡ get_weight items (w x)
  unfolding added
  added-other d c w x h = let other : (c == x) ≡ false = ground arith in rw other refl

  -- After a round the difference is owed to the next container.
  added-Owes :
      (fuel d c : ℕ) (e : ℕ → ℕ) (w : World)
      → IsLinked shape w
      → (w c).is_container ≡ true
      → Owes (λ x. e x + owed (some c) d x) w
      → Owes (λ x. e x + owed (get_parent_container (suc fuel) w c) d x) (added d c w)
  added-Owes fuel d c e w l h o x container marked =
      let kept = added-Reweighs d c w x in
      let before = o x (ap Item.is_container (sym kept) ∙ container) marked in
      let list : content items (added d c w) x
          ≡ sum (λ i. get_weight items (added d c w i)) (w x).item_list =
        ap (λ (y : Item). sum (λ i. get_weight items (added d c w i)) y.item_list) kept in
      let next = owed (get_parent_container (suc fuel) w c) d x in
      let total = added-total d c (e x + next) w x in
      elim (parent_owed shape fuel w c d x l marked) [
        | inl (absent, none_owed) ↦ omega (
          arith,
          before,
          list,
          total,
          none_owed,
          sum-same (λ i. get_weight items (w i)) (λ i. get_weight items (added d c w i)) c
              (w x).item_list (added-other d c w) absent,
        )
        | inr (once, all_owed) ↦ omega (
          arith,
          before,
          list,
          total,
          all_owed,
          sum-one (λ i. get_weight items (w i)) (λ i. get_weight items (added d c w i)) c d
              (w x).item_list (added-other d c w) once (added-weight d c w h),
        )
      ]

  -- The loop ends where there is fuel for the height, nothing is owed any more, and what stands
  -- higher than the container is as it was.
  pub update_item_weight-Owes :
      (fuel d c : ℕ) (e : ℕ → ℕ) (w : World)
      → IsLinked shape w
      → (w c).is_container ≡ true
      → shape.height c < fuel
      → Owes (λ x. e x + owed (some c) d x) w
      → (w' : World) × (update_item_weight fuel d c w ≡ some w')
        × Reweighs w w'
        × Owes e w'
        × ((i : ℕ) → shape.height c < shape.height i → w' i ≡ w i)
  unfolding update_item_weight
  update_item_weight-Owes zero d c e w l h enough o = absurd (omega arith)
  update_item_weight-Owes (suc fuel) d c e w l h enough o =
      let w1 = added d c w in
      let after = added-Owes fuel d c e w l h o in
      let kept = added-Reweighs d c w in
      elim (next-cases shape fuel w c l) [
        | inl (next, absent) ↦ (
          w1,
          update_item_weight-last fuel d c w next,
          kept,
          λ x k marked. omega (arith, after x k marked, ap (λ (q : Option ℕ). owed q d x) next),
          λ i above. added-outside d c w i (ground arith),
        )
        | inr (p, next, lower, holder, once) ↦
            let (w', run, reweighs, settled, others) =
              update_item_weight-Owes fuel d p e w1 (Reweighs-IsLinked shape w w1 kept l)
                (ap Item.is_container (kept p) ∙ holder) (omega arith)
                (λ x k marked.
                  omega (arith, after x k marked, ap (λ (q : Option ℕ). owed q d x) next)) in
            (
              w',
              update_item_weight-next fuel d c p w next ∙ run,
              Reweighs-trans w w1 w' kept reweighs,
              settled,
              λ i above. others i (omega arith) ∙ added-outside d c w i (ground arith),
            )
      ]
