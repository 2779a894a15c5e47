-- ===== src/Container/Queries/Ranks.antt =====
-- A thing for which queryAdd of source/src/container.cpp has no objection can be put into the container.
use otg_premium_version.Common.{
  ℕ, zero, suc, ◌+◌, ◌<◌, ◌≡◌, ◌≢◌, refl, sym, ap, ◌∙◌, Bool, true, false, ◌||◌, ◌∷◌, ltb, Option,
  none, some, ◌==◌, if◌then◌else◌, arith, Option-cases, Bool-cases, inl, inr,
}
use otg_premium_version.Container.Adding.{IsSound, Ends, add_thing-Ends}
use otg_premium_version.Container.{
  ItemType, add_thing, Parent, inside, nowhere, elsewhere, ordinary, World, get_parent_container,
}
use otg_premium_version.Container.Queries.{
  no_error, this_is_impossible, container_not_enough_room, Query, meets, climb, query_add, is_inbox,
}
use otg_premium_version.Container.Weights.{IsLinked, Shape, Parent-cases, points}
use otg_premium_version.Container.Parents.{get_parent-marked}

-- The loop that looks for an inbox too meets the thing where the other does.
climb-meets : (fuel i c : ℕ) (w : World) → climb fuel i c w ≡ no_error → meets fuel i c w ≡ false
unfolding climb meets
climb-meets zero i c w h = refl
climb-meets (suc fuel) i c w h = elim (Option-cases (get_parent_container (suc fuel) w c)) [
  | inl e ↦ rw (meets, e) refl
  | inr (p, e) ↦
      let asked : (if p == i
            then this_is_impossible
            else if is_inbox (w p).kind
            then container_not_enough_room
            else climb fuel i p w)
          ≡ no_error =
        sym (rw (climb, e) refl) ∙ h in
      let other : (p == i) ≡ false = ground (arith, asked) in
      let rest : climb fuel i p w ≡ no_error = ground (arith, asked, other) in
      rw (meets, e, other) (climb-meets fuel i p w rest)
]

query_add-meets :
    (fuel : ℕ) (q : Query) (index : Option ℕ) (i c : ℕ) (w : World)
    → q.child_is_owner ≡ false
    → query_add fuel q index (some i) c w ≡ no_error
    → ((i == c) ≡ false) × (meets fuel i c w ≡ false)
unfolding query_add
query_add-meets fuel q index i c w own h = ground (arith, h, own, climb-meets fuel i c w)

-- The container of which a parent is.
pub holder_of : Parent → Option ℕ
holder_of nowhere = none
holder_of elsewhere = none
holder_of (inside p) = some p

-- The thing is one of the containers in which the object stands.
pub beneath : ℕ → ℕ → ℕ → World → Bool
unfolding holder_of
beneath zero i c w = false
beneath (suc fuel) i c w = elim (holder_of (w c).parent) [
  | none ↦ false
  | some p ↦ p == i || beneath fuel i p w
]

unheld_beneath :
    (fuel i c : ℕ) (w : World) → holder_of (w c).parent ≡ none → beneath (suc fuel) i c w ≢ true
unfolding beneath holder_of
unheld_beneath fuel i c w e h =
    let stops : beneath (suc fuel) i c w ≡ false = rw (beneath, e) refl in ground (arith, stops, h)

-- What stands in a marked thing is marked, and the loop of the query meets the thing.
beneath-meets :
    (shape : Shape) (fuel i c : ℕ) (w : World)
    → IsLinked shape w
    → shape.exact i ≡ true
    → beneath fuel i c w ≡ true
    → (shape.exact c ≡ true) × (meets fuel i c w ≡ true)
unfolding meets beneath holder_of get_parent_container
beneath-meets shape zero i c w l marked h = absurd (ground (arith, h))
beneath-meets shape (suc fuel) i c w l marked h = elim (Parent-cases (w c).parent) [
  | inl e ↦ absurd (unheld_beneath fuel i c w (rw e refl) h)
  | inr (inl e) ↦ absurd (unheld_beneath fuel i c w (rw e refl) h)
  | inr (inr (p, e)) ↦
      let further : p == i || beneath fuel i p w ≡ true = sym (rw (beneath, e) refl) ∙ h in
      let (exact, met) : (shape.exact p ≡ true) × (p == i || meets fuel i p w ≡ true) =
        elim (Bool-cases (p == i)) [
          | inl g ↦ let here : p ≡ i = ground arith in (ap shape.exact here ∙ marked, rw g refl)
          | inr g ↦
              let rest = beneath-meets shape fuel i p w l marked (ground (arith, further, g)) in
              (rest.0, rw g rest.1)
        ] in
      let found = get_parent-marked shape fuel w c p l e exact in
      ((l.plain c p e exact).1, rw (meets, get_parent_container, found, l.holder c p e) met)
]

-- Whether `j` is the thing or in it.
abbrev within : Shape → ℕ → World → ℕ → Bool
within shape i w j = j == i || beneath (suc (shape.height j)) i j w

-- More fuel than the height does not matter.
beneath_enough :
    (shape : Shape) (m n i c : ℕ) (w : World)
    → IsLinked shape w
    → shape.height c < m
    → shape.height c < n
    → beneath m i c w ≡ beneath n i c w
unfolding beneath holder_of
beneath_enough shape zero n i c w l h g = absurd (omega arith)
beneath_enough shape (suc m) zero i c w l h g = absurd (omega arith)
beneath_enough shape (suc m) (suc n) i c w l h g = elim (Parent-cases (w c).parent) [
  | inl e ↦ rw (beneath, e) refl
  | inr (inl e) ↦ rw (beneath, e) refl
  | inr (inr (p, e)) ↦
      let lower = l.grounded c p e in
      let same = beneath_enough shape m n i p w l (omega arith) (omega arith) in
      rw (beneath, e, same) refl
]

-- The thing and what is in it, lifted above the container.
abbrev lifted : Shape → ℕ → ℕ → World → ℕ → ℕ
lifted shape i c w j =
    if within shape i w j then shape.height j + suc (shape.height c) else shape.height j

within-inside :
    (shape : Shape) (i : ℕ) (w : World) (j p : ℕ)
    → IsLinked shape w
    → (w j).parent ≡ inside p
    → within shape i w p ≡ true
    → within shape i w j ≡ true
unfolding beneath holder_of
within-inside shape i w j p l e h =
    let same =
      beneath_enough shape (shape.height j) (suc (shape.height p)) i p w l (l.grounded j p e)
        (omega arith) in
    let found : beneath (suc (shape.height j)) i j w ≡ true = rw (beneath, e, same) h in
    ground (arith, found)

pub lifted-IsLinked :
    (shape : Shape) (i c : ℕ) (w : World)
    → IsLinked shape w
    → IsLinked (record shape { height = lifted shape i c w }) w
lifted-IsLinked shape i c w l = record {
  plain = l.plain;
  held = l.held;
  holder = l.holder;
  grounded = λ j p e. ground (arith, l.grounded j p e, within-inside shape i w j p l e);
}

-- The container is neither the thing nor in it.
outside :
    (shape : Shape) (i c : ℕ) (w : World)
    → IsLinked shape w
    → shape.exact i ≡ true
    → (c == i) ≡ false
    → meets (suc (shape.height c)) i c w ≡ false
    → within shape i w c ≡ false
outside shape i c w l marked other missed =
    elim (Bool-cases (beneath (suc (shape.height c)) i c w)) [
      | inl e ↦
          let met = (beneath-meets shape (suc (shape.height c)) i c w l marked e).1 in
          absurd (ground (arith, missed, met))
      | inr e ↦ rw (other, e) refl
    ]

module _ (items : ℕ → ItemType) where
  -- In a sound world, a marked thing of no class with a `getParent` of its own, which is in no container
  -- and for which queryAdd answers without an objection, not on behalf of a child, can be added at that
  -- index, INDEX_WHEREEVER or one below the capacity: the loops end with more fuel than the height of the
  -- container, the thing is in front of its list, and the world is sound again for some heights and the
  -- same marks.
  pub query_add-add_thing :
      (shape : Shape) (q : Query) (index : Option ℕ) (i c : ℕ) (w : World)
      → IsSound items shape w
      → (w c).is_container ≡ true
      → ((x : ℕ) → points x (w i).parent ≡ 0)
      → (w i).kind ≡ ordinary
      → shape.exact i ≡ true
      → elim index [ none ↦ true | some k ↦ ltb k (w c).max_size ] ≡ true
      → q.child_is_owner ≡ false
      → query_add (suc (shape.height c)) q index (some i) c w ≡ no_error
      → (height' : ℕ → ℕ) × Ends items
          (record shape { height = height' })
          i
          (inside c)
          c
          (i ∷ (w c).item_list)
          (add_thing items (suc (shape.height c)) index (some i) c w)
  query_add-add_thing shape q index i c w sound container free kind marked room own asked =
      let (other, below) = query_add-meets (suc (shape.height c)) q index i c w own asked in
      let same : (i == i) ≡ true = ground arith in
      let reversed : (c == i) ≡ false = ground arith in
      let out = outside shape i c w sound.0 marked reversed below in
      let low : lifted shape i c w c ≡ shape.height c = rw out refl in
      let high : lifted shape i c w i ≡ shape.height i + suc (shape.height c) = rw same refl in
      (
        lifted shape i c w,
        add_thing-Ends items (record shape { height = lifted shape i c w }) (suc (shape.height c))
            index i c w (lifted-IsLinked shape i c w sound.0, sound.1)
            (container, omega (arith, low), omega (arith, low, high), free, kind, marked) room,
      )
