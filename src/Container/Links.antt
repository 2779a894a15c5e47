-- ===== src/Container/Links.antt =====
-- A container's list and an item's parent are changed together in source/src/container.cpp.
use otg_premium_version.Common.{
  ℕ, ◌+◌, ◌%◌, ◌^◌, ◌<◌, ◌≡◌, refl, sym, ap, ◌∙◌, Bool, true, false, some, List, ◌==◌,
  if◌then◌else◌, arith, Bool-cases, ==_refl, inl, inr,
}
use otg_premium_version.Container.{
  ItemType, Parent, inside, ordinary, Item, World, set_parent, set_list, get_weight,
}
use otg_premium_version.Container.Sums.{count, sum, sum-ext}
use otg_premium_version.Container.Weights.{points, Shape, IsLinked, owed, content, Owes}

-- `i` has the parent `q`, and `c` the list `xs`.
abbrev pub Relinks : ℕ → Parent → ℕ → List ℕ → World → World → Type 0
Relinks i q c xs w w' =
    (x : ℕ)
    → w' x ≡ record (w x) {
      parent = if i == x then q else (w x).parent;
      item_list = if c == x then xs else (w x).item_list;
    }

pub set_parent_lem :
    (i : ℕ) (q : Parent) (w : World) (x : ℕ)
    → set_parent i q w x ≡ record (w x) { parent = if i == x then q else (w x).parent }
set_parent_lem i q w x = elim (Bool-cases (i == x)) [
  | inl e ↦ let here : i ≡ x = ground arith in rw (here, ==_refl x) refl
  | inr e ↦ rw e refl
]

pub set_list_lem :
    (c : ℕ) (xs : List ℕ) (w : World) (x : ℕ)
    → set_list c xs w x ≡ record (w x) { item_list = if c == x then xs else (w x).item_list }
set_list_lem c xs w x = elim (Bool-cases (c == x)) [
  | inl e ↦ let here : c ≡ x = ground arith in rw (here, ==_refl x) refl
  | inr e ↦ rw e refl
]

pub set_parent-first :
    (i : ℕ) (q : Parent) (c : ℕ) (xs : List ℕ) (w : World)
    → Relinks i q c xs w (set_list c xs (set_parent i q w))
set_parent-first i q c xs w x =
    set_list_lem c xs (set_parent i q w) x
    ∙ ap (λ (y : Item). record y { item_list = if c == x then xs else y.item_list })
        (set_parent_lem i q w x)

pub set_list-first :
    (i : ℕ) (q : Parent) (c : ℕ) (xs : List ℕ) (w : World)
    → Relinks i q c xs w (set_parent i q (set_list c xs w))
set_list-first i q c xs w x =
    set_parent_lem i q (set_list c xs w) x
    ∙ ap (λ (y : Item). record y { parent = if i == x then q else y.parent })
        (set_list_lem c xs w x)

relinked-count :
    {shape : Shape} (i : ℕ) (q : Parent) (c : ℕ) (xs : List ℕ) (w : World) (y x : ℕ)
    → IsLinked shape w
    → ((y : ℕ) → count y xs ≡ (if i == y then points c q else count y (w c).item_list))
    → ((x : ℕ) → (c == x) ≡ false → (points x (w i).parent ≡ 0) × (points x q ≡ 0))
    → count y (if c == x then xs else (w x).item_list)
      ≡ points x (if i == y then q else (w y).parent)
relinked-count i q c xs w y x l lists others = elim (Bool-cases (c == x)) [
  | inl e ↦
      let here : c ≡ x = ground arith in
      elim (Bool-cases (i == y)) [
        | inl g ↦ rw (e, g) (lists y ∙ rw (g, here) refl)
        | inr g ↦ rw (e, g) (lists y ∙ rw g (l.held y c ∙ rw here refl))
      ]
  | inr e ↦ elim (Bool-cases (i == y)) [
    | inl g ↦
        let item : i ≡ y = ground arith in
        let none = others x e in rw (e, g) (l.held y x ∙ rw⁻¹ item (none.0 ∙ sym none.1))
    | inr g ↦ rw (e, g) (l.held y x)
  ]
]

-- The list of `c` holds `i` as often as `q` says and the other items as before, and no other container held
-- `i` or should hold it.
pub Relinks-IsLinked :
    (shape : Shape) (i : ℕ) (q : Parent) (c : ℕ) (xs : List ℕ) (w w' : World)
    → Relinks i q c xs w w'
    → IsLinked shape w
    → ((y : ℕ) → count y xs ≡ (if i == y then points c q else count y (w c).item_list))
    → ((x : ℕ) → (c == x) ≡ false → (points x (w i).parent ≡ 0) × (points x q ≡ 0))
    → ((p : ℕ)
        → q ≡ inside p
        → ((w p).is_container ≡ true)
          × (shape.height p < shape.height i)
          × ((w i).kind ≡ ordinary)
          × (shape.exact i ≡ true))
    → IsLinked shape w'
Relinks-IsLinked shape i q c xs w w' r l lists others allowed =
    let parent : (y : ℕ) → (w' y).parent ≡ (if i == y then q else (w y).parent) =
      λ y. ap Item.parent (r y) in
    let list : (x : ℕ) → (w' x).item_list ≡ (if c == x then xs else (w x).item_list) =
      λ x. ap Item.item_list (r x) in
    record {
      held = λ y x.
          ap (count y) (list x)
          ∙ relinked-count i q c xs w y x l lists others
          ∙ ap (points x) (sym (parent y));
      holder = λ y x e. ap Item.is_container (r x) ∙ (relinked-parent y x (sym (parent y) ∙ e)).0;
      grounded = λ y x e. (relinked-parent y x (sym (parent y) ∙ e)).1;
      plain = λ y x e marked.
          let rest = (relinked-parent y x (sym (parent y) ∙ e)).2 marked in
          (ap Item.kind (r y) ∙ rest.0, rest.1);
    }
  where
    relinked-parent :
        (y x : ℕ)
        → (if i == y then q else (w y).parent) ≡ inside x
        → ((w x).is_container ≡ true)
          × (shape.height x < shape.height y)
          × (shape.exact x ≡ true → ((w y).kind ≡ ordinary) × (shape.exact y ≡ true))
    relinked-parent y x e = elim (Bool-cases (i == y)) [
      | inl g ↦
          let item : i ≡ y = ground arith in
          let found : q ≡ inside x = ap (λ (b : Bool). if b then q else (w y).parent) (sym g) ∙ e in
          let rest = allowed x found in
          (
            rest.0,
            omega (arith, rest.1, ap shape.height item),
            λ marked.
                (ap (λ j. (w j).kind) (sym item) ∙ rest.2, ap shape.exact (sym item) ∙ rest.3),
          )
      | inr g ↦
          let found : (w y).parent ≡ inside x =
            ap (λ (b : Bool). if b then q else (w y).parent) (sym g) ∙ e in
          (l.holder y x found, l.grounded y x found, l.plain y x found)
    ]

module _ (items : ℕ → ItemType) (shape : Shape) where
  -- A list whose weight changes by `d` makes its container owe `d`.
  pub Relinks-Owes :
      (i : ℕ) (q : Parent) (c d : ℕ) (xs : List ℕ) (e : ℕ → ℕ) (w w' : World)
      → Relinks i q c xs w w'
      → sum (λ x. get_weight items (w x)) xs % 2 ^ 32 ≡ (content items w c + d) % 2 ^ 32
      → Owes items shape e w
      → Owes items shape (λ x. e x + owed (some c) d x) w'
  unfolding get_weight
  Relinks-Owes i q c d xs e w w' r changed o x container marked =
      let before = o x (ap Item.is_container (sym (r x)) ∙ container) marked in
      let total : (w' x).total_weight ≡ (w x).total_weight = ap Item.total_weight (r x) in
      let now : content items w' x
          ≡ sum (λ j. get_weight items (w j)) (if c == x then xs else (w x).item_list) =
        ap (λ (y : Item). sum (λ j. get_weight items (w' j)) y.item_list) (r x)
        ∙ sum-ext (λ j. get_weight items (w' j)) (λ j. get_weight items (w j))
            (if c == x then xs else (w x).item_list) (λ j. ap (get_weight items) (r j)) in
      elim (Bool-cases (c == x)) [
        | inl g ↦
            let here : c ≡ x = ground arith in
            let list : sum (λ j. get_weight items (w j)) (if c == x then xs else (w x).item_list)
                ≡ sum (λ j. get_weight items (w j)) xs =
              ap
                (λ (b : Bool).
                  sum (λ j. get_weight items (w j)) (if b then xs else (w x).item_list))
                g in
            let due : owed (some c) d x ≡ d = rw g refl in
            omega (arith, before, total, now, list, due, changed, ap (content items w) here)
        | inr g ↦
            let list : sum (λ j. get_weight items (w j)) (if c == x then xs else (w x).item_list)
                ≡ content items w x =
              ap
                (λ (b : Bool).
                  sum (λ j. get_weight items (w j)) (if b then xs else (w x).item_list))
                g in
            let due : owed (some c) d x ≡ 0 = rw g refl in
            omega (arith, before, total, now, list, due)
      ]

  pub Owes-mod :
      (e e' : ℕ → ℕ) (w : World)
      → ((x : ℕ) → e x % 2 ^ 32 ≡ e' x % 2 ^ 32)
      → Owes items shape e w
      → Owes items shape e' w
  Owes-mod e e' w same o x container marked = omega (arith, o x container marked, same x)
