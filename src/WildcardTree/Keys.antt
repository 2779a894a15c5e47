-- ===== src/WildcardTree/Keys.antt =====
-- The map of a node's children (source/src/wildcardtree.cpp) through `find`.
use otg_premium_version.Common.{
  ℕ, ◌≡◌, refl, Bool, true, ◌&&◌, not, Option, none, some, ◌==◌, if◌then◌else◌, arith, Option-cases,
  inl, inr,
}
use otg_premium_version.WildcardTree.{
  Node, node, Children, nil, cons, breakpoint, children, find, set, emplace, add_child,
}

-- A value only where there was one.
abbrev pub replaced : Option Node → Node → Option Node
replaced none m = none
replaced (some n) m = some m

abbrev pub or_new : Option Node → Option Node → Option Node
or_new none o = o
or_new (some n) o = some n

pub find-set :
    (d c : ℕ) (m : Node) (cs : Children)
    → find d (set c m cs) ≡ (if c == d then replaced (find c cs) m else find d cs)
unfolding find set
find-set d c m nil = ground arith
find-set d c m (cons k n cs) = ground (arith, find-set d c m cs)

pub find-emplace :
    (d c : ℕ) (m : Node) (cs : Children)
    → find d (emplace c m cs) ≡ or_new (find d cs) (if c == d then some m else none)
unfolding find emplace
find-emplace d c m nil = ground arith
find-emplace d c m (cons k n cs) = ground (arith, find-emplace d c m cs)

-- The child that `addChild` returns stands in the map, and the other keys are left alone.
pub find-add_child :
    (d c : ℕ) (b : Bool) (cur : Node)
    → find d (children (add_child c b cur).0)
      ≡ (if c == d then some (add_child c b cur).1 else find d (children cur))
unfolding add_child
find-add_child d c b cur = elim (Option-cases (find c (children cur))) [
  | inl e ↦ rw (e, add_child) (ground (arith, e, find-emplace d c (node b nil) (children cur)))
  | inr (m, e) ↦
      rw (e, add_child)
        (ground (
          arith,
          e,
          find-set d c (if b && not (breakpoint m) then node true (children m) else m)
              (children cur),
        ))
]

pub breakpoint-add_child :
    (c : ℕ) (b : Bool) (cur : Node) → breakpoint (add_child c b cur).0 ≡ breakpoint cur
unfolding add_child
breakpoint-add_child c b cur = ground arith

pub set-set : (c : ℕ) (m x : Node) (cs : Children) → set c m (set c x cs) ≡ set c m cs
unfolding set
set-set c m x nil = refl
set-set c m x (cons k n cs) = ground (arith, set-set c m x cs)

pub set-emplace :
    (c : ℕ) (m x : Node) (cs : Children)
    → find c cs ≡ none
    → set c m (emplace c x cs) ≡ emplace c m cs
unfolding find set emplace
set-emplace c m x nil h = ground arith
set-emplace c m x (cons k n cs) h = ground (arith, set-emplace c m x cs)

pub set-find : (c : ℕ) (m : Node) (cs : Children) → find c cs ≡ some m → set c m cs ≡ cs
unfolding set find
set-find c m nil h = refl
set-find c m (cons k n cs) h = ground (arith, set-find c m cs)
