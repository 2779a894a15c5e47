-- ===== src/WildcardTree/Names.antt =====
-- The set of names that a tree of source/src/wildcardtree.cpp stands for.
use otg_premium_version.Common.{
  ℕ, ◌≡◌, Bool, true, false, ◌&&◌, ◌||◌, Option, none, some, List, [], ◌∷◌, ◌==◌, arith,
  Option-cases, inl, inr, ◌↔◌,
}
use otg_premium_version.WildcardTree.{
  Node, breakpoint, children, find, add_child, insert, insert_from,
}
use otg_premium_version.WildcardTree.Keys.{find-set, find-add_child, breakpoint-add_child}

-- A name is in the tree if its path ends in a breakpoint.
abbrev pub contains : List ℕ → Node → Bool
contains [] n = breakpoint n
contains (c ∷ w) n = elim (find c (children n)) [ none ↦ false | some m ↦ contains w m ]

abbrev pub same : List ℕ → List ℕ → Bool
same [] [] = true
same [] (y ∷ ys) = false
same (x ∷ xs) [] = false
same (x ∷ xs) (y ∷ ys) = (x == y) && same xs ys

pub same_iff : (xs ys : List ℕ) → (same xs ys ≡ true) ↔ (xs ≡ ys)
same_iff [] [] = ground arith
same_iff [] (y ∷ ys) = ground arith
same_iff (x ∷ xs) [] = ground arith
same_iff (x ∷ xs) (y ∷ ys) = ground (arith, same_iff xs ys)

-- The names below a child that may be missing.
abbrev contains_in : List ℕ → Option Node → Bool
contains_in w none = false
contains_in w (some m) = contains w m

contains-child :
    (c : ℕ) (b : Bool) (cur : Node) (w : List ℕ)
    → contains w (add_child c b cur).1 ≡ (b && same w [] || contains (c ∷ w) cur)
unfolding add_child
contains-child c b cur [] = elim (Option-cases (find c (children cur))) [
  | inl e ↦ rw (e, add_child) (ground (arith, e))
  | inr (m, e) ↦ rw (e, add_child) (ground (arith, e))
]
contains-child c b cur (d ∷ w) = elim (Option-cases (find c (children cur))) [
  | inl e ↦ rw (e, add_child) (ground (arith, e))
  | inr (m, e) ↦ rw (e, add_child) (ground (arith, e))
]

pub contains-insert_from :
    (c : ℕ) (str : List ℕ) (cur : Node) (w : List ℕ)
    → contains w (insert_from c str cur) ≡ (same w (c ∷ str) || contains w cur)
unfolding insert_from
contains-insert_from c [] cur [] = ground (arith, breakpoint-add_child c true cur)
contains-insert_from c [] cur (d ∷ w) =
    ground (arith, find-add_child d c true cur, contains-child c true cur w)
contains-insert_from c (d ∷ str) cur [] = ground (arith, breakpoint-add_child c false cur)
contains-insert_from c (d ∷ str) cur (e ∷ w) = ground (
  arith,
  find-set e c (insert_from d str (add_child c false cur).1) (children (add_child c false cur).0),
  find-add_child e c false cur,
  find-add_child c c false cur,
  contains-child c false cur w,
  contains-insert_from d str (add_child c false cur).1 w,
)

-- Inserting a name that is not empty adds this name to the names of the tree and changes no other.
pub contains-insert :
    (str : List ℕ) (cur : Node) {out : Node} (w : List ℕ)
    → insert str cur ≡ some out
    → contains w out ≡ (same w str || contains w cur)
unfolding insert
contains-insert [] cur w h = cc
contains-insert (c ∷ str) cur w h = ground (arith, contains-insert_from c str cur w)
