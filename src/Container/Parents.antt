-- ===== src/Container/Parents.antt =====
-- What `getParent` finds in the containers of source/src/container.cpp.
use otg_premium_version.Common.{
  ℕ, zero, suc, ◌<◌, ◌≡◌, ◌≢◌, refl, sym, ap, ◌∙◌, Bool, true, none, some, ◌==◌, if◌then◌else◌,
  arith, Bool-cases, inl, inr, ◌⊎◌,
}
use otg_premium_version.Container.{
  Parent, nowhere, inside, elsewhere, Kind, ordinary, depot_chest, inbox, reward, World, above,
  get_parent, get_parent_container,
}
use otg_premium_version.Container.Sums.{count}

-- How often the list of `c` should hold a thing with this parent.
abbrev pub points : ℕ → Parent → ℕ
points c (inside p) = if p == c then 1 else 0
points c _ = 0

-- `height` grows from a container to what it holds, and `exact` marks containers in which no class
-- that overrides `getParent` stands, however deep.
pub record Shape : Type 0 where
  pub height : ℕ → ℕ
  pub exact : ℕ → Bool

-- Each item stands once in the list of its parent and in no other list, what has items is a container, and
-- the heights and marks of a shape are as said.
pub record IsLinked (shape : Shape) (w : World) : Type 0 where
  pub plain :
      (i c : ℕ)
      → (w i).parent ≡ inside c
      → shape.exact c ≡ true
      → ((w i).kind ≡ ordinary) × (shape.exact i ≡ true)
  pub held : (i c : ℕ) → count i (w c).item_list ≡ points c (w i).parent
  pub holder : (i c : ℕ) → (w i).parent ≡ inside c → (w c).is_container ≡ true
  pub grounded : (i c : ℕ) → (w i).parent ≡ inside c → shape.height c < shape.height i

pub Parent-cases : (p : Parent) → (p ≡ nowhere) ⊎ (p ≡ elsewhere) ⊎ ((c : ℕ) × (p ≡ inside c))
Parent-cases nowhere = inl refl
Parent-cases elsewhere = inr (inl refl)
Parent-cases (inside c) = inr (inr (c, refl))

-- What `getParent` finds is a container that stands lower, and one that is marked only as the parent.
abbrev pub Covers : Shape → World → ℕ → ℕ → Type 0
Covers shape w q i =
    (shape.height q < shape.height i)
    × ((w q).is_container ≡ true)
    × (shape.exact q ≡ true
        → ((w i).kind ≡ ordinary) × (shape.exact i ≡ true) × ((w i).parent ≡ inside q))

pub above-inside :
    (f : ℕ → Parent) (p : Parent) (q : ℕ)
    → above f p ≡ inside q
    → (r : ℕ) × (p ≡ inside r) × (f r ≡ inside q)
above-inside f nowhere q h = absurd (ground (arith, h))
above-inside f elsewhere q h = absurd (ground (arith, h))
above-inside f (inside r) q h = (r, refl, h)

pub Kind-cases : (k : Kind) → (k ≡ ordinary) ⊎ (k ≡ depot_chest) ⊎ (k ≡ inbox) ⊎ (k ≡ reward)
Kind-cases ordinary = inl refl
Kind-cases depot_chest = inr (inl refl)
Kind-cases inbox = inr (inr (inl refl))
Kind-cases reward = inr (inr (inr refl))

-- Past the parent `p` of something that is not ordinary.
past :
    (shape : Shape) (w : World) (i p q : ℕ)
    → IsLinked shape w
    → (w i).kind ≢ ordinary
    → (w i).parent ≡ inside p
    → (shape.height q < shape.height p)
    → ((w q).is_container ≡ true)
    → (shape.exact q ≡ true → shape.exact p ≡ true)
    → Covers shape w q i
past shape w i p q l special e low container marks = (
  omega (arith, low, l.grounded i p e),
  container,
  λ x. absurd (special (l.plain i p e (marks x)).0),
)

pub get_parent-Covers :
    (shape : Shape) (fuel : ℕ) (w : World) (i q : ℕ)
    → IsLinked shape w
    → get_parent fuel w i ≡ inside q
    → Covers shape w q i
unfolding get_parent
get_parent-Covers shape zero w i q l h = absurd (ground (arith, h))
get_parent-Covers shape (suc fuel) w i q l h = elim (Kind-cases (w i).kind) [
  | inl e ↦
      let found : (w i).parent ≡ inside q = sym (rw (get_parent, e) refl) ∙ h in
      (l.grounded i q found, l.holder i q found, λ x. (e, (l.plain i q found x).1, found))
  | inr (inl e) ↦
      let found : above (get_parent fuel w) (above (get_parent fuel w) (w i).parent) ≡ inside q =
        sym (rw (get_parent, e) refl) ∙ h in
      let (r, outer, last) =
        above-inside (get_parent fuel w) (above (get_parent fuel w) (w i).parent) q found in
      let (p, first, next) = above-inside (get_parent fuel w) (w i).parent r outer in
      let near = get_parent-Covers shape fuel w p r l next in
      let far = get_parent-Covers shape fuel w r q l last in
      past shape w i p q l (λ o. ground (arith, e, o)) first (omega (arith, near.0, far.0)) far.1
        (λ x. (near.2 (far.2 x).1).1)
  | inr (inr (inl e)) ↦
      let found : above (get_parent fuel w) (w i).parent ≡ inside q =
        sym (rw (get_parent, e) refl) ∙ h in
      let (p, first, next) = above-inside (get_parent fuel w) (w i).parent q found in
      let near = get_parent-Covers shape fuel w p q l next in
      past shape w i p q l (λ o. ground (arith, e, o)) first near.0 near.1 (λ x. (near.2 x).1)
  | inr (inr (inr e)) ↦
      let found : above (get_parent fuel w) (w i).parent ≡ inside q =
        sym (rw (get_parent, e) refl) ∙ h in
      let (p, first, next) = above-inside (get_parent fuel w) (w i).parent q found in
      let near = get_parent-Covers shape fuel w p q l next in
      past shape w i p q l (λ o. ground (arith, e, o)) first near.0 near.1 (λ x. (near.2 x).1)
]

-- A marked container is the parent of what it holds for `getParent` too.
pub get_parent-marked :
    (shape : Shape) (fuel : ℕ) (w : World) (i c : ℕ)
    → IsLinked shape w
    → (w i).parent ≡ inside c
    → shape.exact c ≡ true
    → get_parent (suc fuel) w i ≡ inside c
unfolding get_parent
get_parent-marked shape fuel w i c l e x = rw (get_parent, (l.plain i c e x).0) e

-- A marked container that `getParent` does not find does not hold the item.
unheld :
    (shape : Shape) (fuel : ℕ) (w : World) (i x : ℕ)
    → IsLinked shape w
    → points x (get_parent (suc fuel) w i) ≡ 0
    → shape.exact x ≡ true
    → count i (w x).item_list ≡ 0
unheld shape fuel w i x l h marked = elim (Parent-cases (w i).parent) [
  | inl e ↦ l.held i x ∙ ap (points x) e
  | inr (inl e) ↦ l.held i x ∙ ap (points x) e
  | inr (inr (y, e)) ↦ elim (Bool-cases (y == x)) [
    | inr other ↦ l.held i x ∙ ap (points x) e ∙ rw other refl
    | inl same ↦
        let here : y ≡ x = ground arith in
        let found = get_parent-marked shape fuel w i x l (e ∙ ap inside here) marked in
        let one : points x (inside x) ≡ 1 = ground arith in
        absurd (omega (arith, h, ap (points x) found, one))
  ]
]

-- No marked list holds `c`, or at most that of the container to look at next.
pub next-cases :
    (shape : Shape) (fuel : ℕ) (w : World) (c : ℕ)
    → IsLinked shape w
    → ((get_parent_container (suc fuel) w c ≡ none)
        × ((x : ℕ) → shape.exact x ≡ true → count c (w x).item_list ≡ 0))
      ⊎ ((p : ℕ) × (get_parent_container (suc fuel) w c ≡ some p)
          × (shape.height p < shape.height c)
          × ((w p).is_container ≡ true)
          × ((x : ℕ) → shape.exact x ≡ true → count c (w x).item_list ≡ (if p == x then 1 else 0)))
unfolding get_parent_container
next-cases shape fuel w c l = elim (Parent-cases (get_parent (suc fuel) w c)) [
  | inl e ↦
      inl (rw (get_parent_container, e) refl, λ x. unheld shape fuel w c x l (ap (points x) e))
  | inr (inl e) ↦
      inl (rw (get_parent_container, e) refl, λ x. unheld shape fuel w c x l (ap (points x) e))
  | inr (inr (p, e)) ↦
      let found = get_parent-Covers shape (suc fuel) w c p l e in
      inr (
        p,
        rw (get_parent_container, e, found.1) refl,
        found.0,
        found.1,
        λ x marked. elim (Bool-cases (p == x)) [
          | inr other ↦
              unheld shape fuel w c x l (ap (points x) e ∙ rw other refl) marked ∙ rw other refl
          | inl same ↦
              let here : p ≡ x = ground arith in
              let parent = (found.2 (ap shape.exact here ∙ marked)).2 in
              l.held c x ∙ ap (points x) parent
        ],
      )
]
