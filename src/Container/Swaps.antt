-- ===== src/Container/Swaps.antt =====
-- Two things of which one takes the place of the other in source/src/container.cpp, and the loop of
-- updateItemWeight meanwhile.
use mathlib.Core.Path.{subst, fun_ext}
use otg_premium_version.Common.{
  ℕ, zero, suc, ◌<◌, ◌≡◌, refl, sym, ap, ◌∙◌, Bool, true, false, none, some, List, ◌==◌,
  if◌then◌else◌, arith, ◌&&◌, ap₂, Bool-cases, inl, inr, ==_refl, add32,
}
use otg_premium_version.Container.{
  Parent, nowhere, inside, elsewhere, Item, World, set_parent, set_list, get_parent_container,
  added, above, get_parent, container_of, update_item_weight, mapped,
}
use otg_premium_version.Container.Weights.{
  IsLinked, next-cases, Shape, Kind-cases, added-Reweighs, Reweighs-IsLinked,
  update_item_weight-next, update_item_weight-last,
}
use otg_premium_version.Container.Parents.{get_parent-Covers, above-inside}
use otg_premium_version.Container.Enough.{above-agrees, climbed, get_parent-climbed}
use otg_premium_version.Container.Links.{Relinks, set_list-first, set_parent-first, set_parent_lem}

added_lem :
    (d c : ℕ) (w : World) (x : ℕ)
    → added d c w x ≡ record (w x) {
      total_weight = if c == x then add32 (w x).total_weight d else (w x).total_weight;
    }
unfolding added
added_lem d c w x = elim (Bool-cases (c == x)) [
  | inl e ↦ let here : c ≡ x = ground arith in rw (here, ==_refl x) refl
  | inr e ↦ rw e refl
]

added-set_parent :
    (d c r : ℕ) (q : Parent) (w : World)
    → added d c (set_parent r q w) ≡ set_parent r q (added d c w)
added-set_parent d c r q w = fun_ext λ x.
    added_lem d c (set_parent r q w) x
    ∙ ap
        (λ (y : Item). record y {
          total_weight = if c == x then add32 y.total_weight d else y.total_weight;
        })
        (set_parent_lem r q w x)
    ∙ ap (λ (y : Item). record y { parent = if r == x then q else y.parent })
        (sym (added_lem d c w x))
    ∙ sym (set_parent_lem r q (added d c w) x)

container_of-set_parent :
    (r : ℕ) (q : Parent) (w : World) (p : Parent)
    → container_of (set_parent r q w) p ≡ container_of w p
container_of-set_parent r q w nowhere = refl
container_of-set_parent r q w elsewhere = refl
container_of-set_parent r q w (inside c) =
    let kind : (set_parent r q w c).is_container ≡ (w c).is_container =
      ap Item.is_container (set_parent_lem r q w c) in
    rw kind refl

-- What stands higher does not matter for the next container.
get_parent-set_parent :
    (shape : Shape) (fuel i r : ℕ) (q : Parent) (w : World)
    → IsLinked shape (set_parent r q w)
    → shape.height i < shape.height r
    → get_parent fuel (set_parent r q w) i ≡ get_parent fuel w i
unfolding get_parent
get_parent-set_parent shape zero i r q w l h = refl
get_parent-set_parent shape (suc fuel) i r q w l h =
    let v = set_parent r q w in
    let other : (r == i) ≡ false = ground arith in
    let here : v i ≡ w i = rw other refl in
    let outer : above (get_parent fuel v) (w i).parent ≡ above (get_parent fuel w) (w i).parent =
      above-agrees (get_parent fuel v) (get_parent fuel w) (w i).parent (λ p e.
        get_parent-set_parent shape fuel p r q w l
          (omega (arith, h, l.grounded i p (ap Item.parent here ∙ e)))) in
    let beyond : above (get_parent fuel v) (above (get_parent fuel w) (w i).parent)
        ≡ above (get_parent fuel w) (above (get_parent fuel w) (w i).parent) =
      above-agrees (get_parent fuel v) (get_parent fuel w) (above (get_parent fuel w) (w i).parent)
        (λ p e. get_parent-set_parent shape fuel p r q w l (
          let (p0, first, second) = above-inside (get_parent fuel v) (w i).parent p (outer ∙ e) in
          omega (
            arith,
            h,
            l.grounded i p0 (ap Item.parent here ∙ first),
            (get_parent-Covers shape fuel v p0 p l second).0,
          ))) in
    let same : climbed (get_parent fuel v) (w i).kind (w i).parent
        ≡ climbed (get_parent fuel w) (w i).kind (w i).parent =
      elim (Kind-cases (w i).kind) [
        | inl e ↦ rw e refl
        | inr (inl e) ↦ rw e (ap (above (get_parent fuel v)) outer ∙ beyond)
        | inr (inr (inl e)) ↦ rw e outer
        | inr (inr (inr e)) ↦ rw e outer
      ] in
    get_parent-climbed fuel v i
    ∙ ap (λ (x : Item). climbed (get_parent fuel v) x.kind x.parent) here
    ∙ same
    ∙ sym (get_parent-climbed fuel w i)

next-set_parent :
    (shape : Shape) (fuel c r : ℕ) (q : Parent) (w : World)
    → IsLinked shape (set_parent r q w)
    → shape.height c < shape.height r
    → get_parent_container fuel (set_parent r q w) c ≡ get_parent_container fuel w c
unfolding get_parent_container
next-set_parent shape fuel c r q w l h =
    ap (container_of (set_parent r q w)) (get_parent-set_parent shape fuel c r q w l h)
    ∙ container_of-set_parent r q w (get_parent fuel w c)

-- The loop does not look at the parent of a thing that stands higher than the container.
pub update_item_weight-set_parent :
    (shape : Shape) (fuel d c r : ℕ) (q : Parent) (w : World)
    → IsLinked shape (set_parent r q w)
    → shape.height c < shape.height r
    → update_item_weight fuel d c (set_parent r q w)
      ≡ mapped (set_parent r q) (update_item_weight fuel d c w)
unfolding update_item_weight
update_item_weight-set_parent shape zero d c r q w l h = refl
update_item_weight-set_parent shape (suc fuel) d c r q w l h =
    let v = set_parent r q w in
    let same = next-set_parent shape (suc fuel) c r q w l h in
    elim (next-cases shape fuel v c l) [
      | inl (next, absent) ↦
          let below : get_parent_container (suc fuel) w c ≡ none = sym same ∙ next in
          update_item_weight-last fuel d c v next
          ∙ ap some (added-set_parent d c r q w)
          ∙ ap (mapped (set_parent r q)) (sym (update_item_weight-last fuel d c w below))
      | inr (p, next, lower, holder, once) ↦
          let below : get_parent_container (suc fuel) w c ≡ some p = sym same ∙ next in
          let moved = added-set_parent d c r q w in
          let linked : IsLinked shape (set_parent r q (added d c w)) =
            subst (IsLinked shape) moved
              (Reweighs-IsLinked shape v (added d c v) (added-Reweighs d c v) l) in
          update_item_weight-next fuel d c p v next
          ∙ ap (update_item_weight fuel d p) moved
          ∙ update_item_weight-set_parent shape fuel d p r q (added d c w) linked
              (omega (arith, h, lower))
          ∙ ap (mapped (set_parent r q)) (sym (update_item_weight-next fuel d c p w below))
    ]

if_swap {ℓ} :
    {A : Type ℓ} (b g : Bool) (x y z : A)
    → b && g ≡ false
    → (if b then x else if g then y else z) ≡ (if g then y else if b then x else z)
if_swap true true x y z h = absurd (ground (arith, h))
if_swap true false x y z h = refl
if_swap false true x y z h = refl
if_swap false false x y z h = refl

if_twice {ℓ} :
    {A : Type ℓ} (b : Bool) (x y z : A)
    → (if b then x else z) ≡ (if b then x else if b then y else z)
if_twice true x y z = refl
if_twice false x y z = refl

-- The world without the replaced thing, and with the other in its place.
pub swapped-Relinks :
    (i r c : ℕ) (es ys : List ℕ) (w : World)
    → (r == i) ≡ false
    → Relinks i
        (inside c)
        c
        ys
        (set_list c es (set_parent r nowhere w))
        (set_parent r nowhere (set_parent i (inside c) (set_list c ys w)))
swapped-Relinks i r c es ys w other x =
    set_parent_lem r nowhere (set_parent i (inside c) (set_list c ys w)) x
    ∙ ap (λ (y : Item). record y { parent = if r == x then nowhere else y.parent })
        (set_list-first i (inside c) c ys w x)
    ∙ ap₂ (λ (p : Parent) (l : List ℕ). record (w x) { parent = p; item_list = l })
        (if_swap (r == x) (i == x) nowhere (inside c) (w x).parent (ground arith))
        (if_twice (c == x) ys es (w x).item_list)
    ∙ ap
        (λ (y : Item). record y {
          parent = if i == x then inside c else y.parent;
          item_list = if c == x then ys else y.item_list;
        })
        (sym (set_parent-first r nowhere c es w x))
