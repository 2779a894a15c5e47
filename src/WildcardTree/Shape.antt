-- ===== src/WildcardTree/Shape.antt =====
-- The shape that `insert` and `remove` of source/src/wildcardtree.cpp keep: one entry for each key,
-- and below the root no node without a use.
use otg_premium_version.Common.{
  ℕ, ◌≡◌, refl, Bool, true, false, ◌&&◌, not, none, some, List, [], ◌∷◌, ◌==◌, if◌then◌else◌, arith,
  Option-cases, inl, inr, Bool-cases,
}
use mathlib.Core.Option.{some-injective}
use mathlib.Core.Path.{subst}
use otg_premium_version.WildcardTree.{
  Node, node, Children, nil, cons, breakpoint, children, find, set, emplace, erase, add_child,
  insert, insert_from, remove, remove_from, prune, is_dead,
}
use otg_premium_version.WildcardTree.Keys.{
  find-set, find-add_child, find-emplace, set-set, set-emplace, set-find,
}

-- Each key has one entry, and each node below is a breakpoint or has children, all the way down.
abbrev mutual
  pub IsTight : Node → Type 0
  IsTight (node b cs) = IsTightChildren cs

  pub IsTightChildren : Children → Type 0
  IsTightChildren nil = Unit
  IsTightChildren (cons k n cs) =
      (find k cs ≡ none) × (is_dead n ≡ false) × IsTight n × IsTightChildren cs

pub IsTight-children : (n : Node) → IsTight n → IsTightChildren (children n)
IsTight-children (node b cs) t = t

pub IsTight-find :
    (c : ℕ) (cs : Children) (m : Node)
    → IsTightChildren cs
    → find c cs ≡ some m
    → (is_dead m ≡ false) × IsTight m
unfolding find
IsTight-find c nil m t h = cc
IsTight-find c (cons k n cs) m t h = elim (Bool-cases (k == c)) [
  | inl e ↦
      subst (λ x. (is_dead x ≡ false) × IsTight x) (some-injective n m (ground arith)) (t.1, t.2)
  | inr e ↦ IsTight-find c cs m t.3 (ground arith)
]

pub set-IsTight :
    (c : ℕ) (m : Node) (cs : Children)
    → is_dead m ≡ false
    → IsTight m
    → IsTightChildren cs
    → IsTightChildren (set c m cs)
unfolding set
set-IsTight c m nil a tm t = tt
set-IsTight c m (cons k n cs) a tm t = elim (Bool-cases (k == c)) [
  | inl e ↦ rw e (t.0, a, tm, t.3)
  | inr e ↦ rw e (ground (arith, find-set k c m cs), t.1, t.2, set-IsTight c m cs a tm t.3)
]

pub emplace-IsTight :
    (c : ℕ) (m : Node) (cs : Children)
    → find c cs ≡ none
    → is_dead m ≡ false
    → IsTight m
    → IsTightChildren cs
    → IsTightChildren (emplace c m cs)
unfolding emplace find
emplace-IsTight c m nil h a tm t = (refl, a, tm, tt)
emplace-IsTight c m (cons k n cs) h a tm t = (
  ground (arith, find-emplace k c m cs),
  t.1,
  t.2,
  emplace-IsTight c m cs (ground arith) a tm t.3,
)

pub find-erase :
    (d c : ℕ) (cs : Children)
    → IsTightChildren cs
    → find d (erase c cs) ≡ (if c == d then none else find d cs)
unfolding find erase
find-erase d c nil t = ground arith
find-erase d c (cons k n cs) t = ground (arith, find-erase d c cs t.3)

pub erase-IsTight : (c : ℕ) (cs : Children) → IsTightChildren cs → IsTightChildren (erase c cs)
unfolding erase
erase-IsTight c nil t = tt
erase-IsTight c (cons k n cs) t = elim (Bool-cases (k == c)) [
  | inl e ↦ rw e t.3
  | inr e ↦ rw e (ground (arith, find-erase k c cs t.3), t.1, t.2, erase-IsTight c cs t.3)
]

is_dead-find : (c : ℕ) (n m : Node) → find c (children n) ≡ some m → is_dead n ≡ false
unfolding find is_dead
is_dead-find c (node b nil) m h = cc
is_dead-find c (node b (cons k x cs)) m h = refl

add_child-IsTight : (c : ℕ) (b : Bool) (cur : Node) → IsTight cur → IsTight (add_child c b cur).1
unfolding add_child
add_child-IsTight c b (node bp cs) t = elim (Option-cases (find c cs)) [
  | inl e ↦ rw (e, add_child) tt
  | inr (node mb ms, e) ↦
      rw (e, add_child) (child mb ms (b && not mb) (IsTight-find c cs (node mb ms) t e).1)
]
  where
    child :
        (mb : Bool) (ms : Children) (hit : Bool)
        → IsTightChildren ms
        → IsTight (if hit then node true ms else node mb ms)
    child mb ms true h = h
    child mb ms false h = h

-- What `insert` does to the children of a node: the child of the key is new, or is replaced.
set-add_child-IsTight :
    (c : ℕ) (b : Bool) (cur m : Node)
    → is_dead m ≡ false
    → IsTight m
    → IsTight cur
    → IsTightChildren (set c m (children (add_child c b cur).0))
unfolding add_child
set-add_child-IsTight c b (node bp cs) m a tm t = elim (Option-cases (find c cs)) [
  | inl e ↦ rw (e, add_child, set-emplace c m (node b nil) cs e) (emplace-IsTight c m cs e a tm t)
  | inr (x, e) ↦
      rw
        (
          e,
          add_child,
          set-set c m (if b && not (breakpoint x) then node true (children x) else x) cs,
        )
        (set-IsTight c m cs a tm t)
]

is_dead-add_child : (c : ℕ) (cur : Node) → is_dead (add_child c true cur).1 ≡ false
unfolding add_child is_dead
is_dead-add_child c (node b cs) = elim (Option-cases (find c cs)) [
  | inl e ↦ rw (e, add_child)
  | inr (node mb ms, e) ↦ rw (e, add_child) (marked mb ms)
]
  where
    marked :
        (mb : Bool) (ms : Children) → is_dead (if not mb then node true ms else node mb ms) ≡ false
    marked true nil = refl
    marked true (cons k n cs) = refl
    marked false nil = refl
    marked false (cons k n cs) = refl

add_child_found :
    (c : ℕ) (b : Bool) (cur : Node)
    → find c (children (add_child c b cur).0) ≡ some (add_child c b cur).1
add_child_found c b cur = ground (arith, find-add_child c c b cur)

IsTight-node : (n : Node) → IsTightChildren (children n) → IsTight n
IsTight-node (node b cs) t = t

pub insert_from-IsTight :
    (c : ℕ) (str : List ℕ) (cur : Node)
    → IsTight cur
    → (is_dead (insert_from c str cur) ≡ false) × IsTight (insert_from c str cur)
unfolding insert_from
insert_from-IsTight c [] cur t =
    let made = (add_child c true cur).1 in
    let found = add_child_found c true cur in
    (
      is_dead-find c (add_child c true cur).0 made found,
      IsTight-node (add_child c true cur).0 (
          rw (set-find c made (children (add_child c true cur).0) found) at (
            set-add_child-IsTight c true cur made (is_dead-add_child c cur)
              (add_child-IsTight c true cur t) t)),
    )
insert_from-IsTight c (d ∷ str) cur t =
    let ih =
      insert_from-IsTight d str (add_child c false cur).1 (add_child-IsTight c false cur t) in
    (
      is_dead-find c
          (node (breakpoint (add_child c false cur).0) (
            set c (insert_from d str (add_child c false cur).1)
              (children (add_child c false cur).0)))
          (insert_from d str (add_child c false cur).1)
          (ground (
            arith,
            find-set c c (insert_from d str (add_child c false cur).1)
                (children (add_child c false cur).0),
            find-add_child c c false cur,
          )),
      set-add_child-IsTight c false cur (insert_from d str (add_child c false cur).1) ih.0 ih.1 t,
    )

-- `insert` keeps the shape.
pub insert-IsTight :
    (str : List ℕ) (cur : Node) {out : Node} → insert str cur ≡ some out → IsTight cur → IsTight out
unfolding insert
insert-IsTight [] cur h t = cc
insert-IsTight (c ∷ str) cur h t =
    subst IsTight (some-injective _ _ h) (insert_from-IsTight c str cur t).1

prune-IsTight :
    (c : ℕ) (child cur : Node) → IsTight child → IsTight cur → IsTight (prune c child cur)
unfolding prune
prune-IsTight c child (node b cs) tc t = elim (Bool-cases (is_dead child)) [
  | inl e ↦ rw e (erase-IsTight c cs t)
  | inr e ↦ rw e (set-IsTight c child cs e tc t)
]

remove_from-IsTight :
    (str : List ℕ) (cur : Node) {out : Node}
    → remove_from str cur ≡ some out
    → IsTight cur
    → IsTight out
unfolding remove_from
remove_from-IsTight [] (node b cs) h t = subst IsTight (some-injective _ _ h) t
remove_from-IsTight (c ∷ str) (node b cs) h t = elim (Option-cases (find c cs)) [
  | inl e ↦ absurd (ground arith)
  | inr (m, e) ↦ elim (Option-cases (remove_from str m)) [
    | inl e' ↦ absurd (ground arith)
    | inr (m', e') ↦ subst IsTight (some-injective (prune c m' (node b cs)) _ (ground arith)) (
        prune-IsTight c m' (node b cs) (remove_from-IsTight str m e' (IsTight-find c cs m t e).1) t)
  ]
]

-- `remove` keeps the shape.
pub remove-IsTight : (str : List ℕ) (cur : Node) → IsTight cur → IsTight (remove str cur)
unfolding remove
remove-IsTight str cur t = elim (Option-cases (remove_from str cur)) [
  | inl e ↦ rw (e, remove) t
  | inr (out, e) ↦ rw (e, remove) (remove_from-IsTight str cur e t)
]
