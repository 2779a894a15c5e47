-- ===== src/Container/Enough.antt =====
-- The fuel of getParent of source/src/depotchest.cpp, inbox.cpp and reward.cpp.
use otg_premium_version.Common.{ℕ, zero, suc, ◌<◌, ◌≡◌, refl, ap, ◌∙◌, arith, inl, inr}
use otg_premium_version.Container.{
  Parent, nowhere, inside, elsewhere, Kind, ordinary, depot_chest, inbox, reward, World, above,
  get_parent,
}
use otg_premium_version.Container.Parents.{
  Shape, IsLinked, Kind-cases, above-inside, get_parent-Covers,
}

pub above-agrees :
    (f g : ℕ → Parent) (p : Parent) → ((r : ℕ) → p ≡ inside r → f r ≡ g r) → above f p ≡ above g p
above-agrees f g nowhere h = refl
above-agrees f g elsewhere h = refl
above-agrees f g (inside r) h = h r refl

-- What `getParent` of an object of a class is by that of its parent.
abbrev pub climbed : (ℕ → Parent) → Kind → Parent → Parent
climbed f ordinary p = p
climbed f depot_chest p = above f (above f p)
climbed f inbox p = above f p
climbed f reward p = above f p

pub get_parent-climbed :
    (fuel : ℕ) (w : World) (i : ℕ)
    → get_parent (suc fuel) w i ≡ climbed (get_parent fuel w) (w i).kind (w i).parent
unfolding get_parent
get_parent-climbed fuel w i = elim (Kind-cases (w i).kind) [
  | inl e ↦ rw (get_parent, e) refl
  | inr (inl e) ↦ rw (get_parent, e) refl
  | inr (inr (inl e)) ↦ rw (get_parent, e) refl
  | inr (inr (inr e)) ↦ rw (get_parent, e) refl
]

-- Where the parents have heights, fuel above that of an item is enough for its `getParent`.
pub get_parent_enough :
    (shape : Shape) (m n i : ℕ) (w : World)
    → IsLinked shape w
    → shape.height i < m
    → shape.height i < n
    → get_parent m w i ≡ get_parent n w i
unfolding get_parent
get_parent_enough shape zero n i w l h g = absurd (omega (arith, h))
get_parent_enough shape (suc m) zero i w l h g = absurd (omega (arith, g))
get_parent_enough shape (suc m) (suc n) i w l h g =
    let outer : above (get_parent m w) (w i).parent ≡ above (get_parent n w) (w i).parent =
      above-agrees (get_parent m w) (get_parent n w) (w i).parent (λ p e.
        let lower = l.grounded i p e in
        get_parent_enough shape m n p w l (omega (arith, h, lower)) (omega (arith, g, lower))) in
    let beyond : above (get_parent m w) (above (get_parent n w) (w i).parent)
        ≡ above (get_parent n w) (above (get_parent n w) (w i).parent) =
      above-agrees (get_parent m w) (get_parent n w) (above (get_parent n w) (w i).parent) (λ p e.
        let (p0, first, second) = above-inside (get_parent n w) (w i).parent p e in
        let near = l.grounded i p0 first in
        let far = (get_parent-Covers shape n w p0 p l second).0 in
        get_parent_enough shape m n p w l (omega (arith, h, near, far))
          (omega (arith, g, near, far))) in
    elim (Kind-cases (w i).kind) [
      | inl e ↦ rw (get_parent, e) refl
      | inr (inl e) ↦ rw (get_parent, e) (ap (above (get_parent m w)) outer ∙ beyond)
      | inr (inr (inl e)) ↦ rw (get_parent, e) outer
      | inr (inr (inr e)) ↦ rw (get_parent, e) outer
    ]
