-- ===== src/WildcardTree.antt =====
-- source/src/wildcardtree.cpp and wildcardtree.h: the tree of the names of the players online,
-- with which the start of a name followed by `~` is completed.
-- A name is the list of its characters' codes. `children`, a `std::map<char, WildcardTreeNode>`,
-- is a list with one entry for each key: no operation depends on the order of the keys, since
-- `findOne` reads `children.begin()` only where there is one entry.
pub mod Keys
pub mod Names
pub mod Shape
pub mod Removal
pub mod Completion
mod Tests
use otg_premium_version.Common.{
  ℕ, zero, suc, ◌+◌, Bool, true, false, ◌&&◌, ◌||◌, not, Option, none, some, List, [], ◌∷◌, ◌++◌,
  ◌==◌, if◌then◌else◌, length, ltb,
}

mutual
  pub data Node : Type 0 where
    node : Bool → Children → Node

  pub data Children : Type 0 where
    nil : Children
    cons : ℕ → Node → Children → Children

abbrev pub breakpoint : Node → Bool
breakpoint (node b cs) = b

abbrev pub children : Node → Children
children (node b cs) = cs

-- `children.find(ch)`
pub find : ℕ → Children → Option Node
find ch nil = none
find ch (cons k n cs) = if k == ch then some n else find ch cs

-- What a pointer to the child of a key writes.
pub set : ℕ → Node → Children → Children
set ch m nil = nil
set ch m (cons k n cs) = if k == ch then cons k m cs else cons k n (set ch m cs)

-- `children.emplace(ch, …)` of a new key.
pub emplace : ℕ → Node → Children → Children
emplace ch m nil = cons ch m nil
emplace ch m (cons k n cs) = cons k n (emplace ch m cs)

-- `children.erase(it)`
pub erase : ℕ → Children → Children
erase ch nil = nil
erase ch (cons k n cs) = if k == ch then cs else cons k n (erase ch cs)

pub size : Children → ℕ
size nil = 0
size (cons k n cs) = suc (size cs)

pub get_child : ℕ → Node → Option Node
unfolding find
get_child ch n = find ch (children n)

-- `addChild` returns the node it is called on and the child.
pub add_child : ℕ → Bool → Node → Node × Node
unfolding get_child set emplace
add_child ch breakp n = elim (get_child ch n) [
  | some child ↦
      let child' = if breakp && not (breakpoint child) then node true (children child) else child in
      (node (breakpoint n) (set ch child' (children n)), child')
  | none ↦
      let child' = node breakp nil in (node (breakpoint n) (emplace ch child' (children n)), child')
]

-- The loop of `insert` from the character `c` on, `str` being what follows it: all but the last
-- character make nodes that are no breakpoints.
pub insert_from : ℕ → List ℕ → Node → Node
unfolding add_child set
insert_from c [] cur = (add_child c true cur).0
insert_from c (d ∷ str) cur =
    let (cur', child) = add_child c false cur in
    node (breakpoint cur') (set c (insert_from d str child) (children cur'))

-- `none`: with an empty text, `str.length() - 1` wraps around and `str[pos]` is read out of range.
pub insert : List ℕ → Node → Option Node
unfolding insert_from
insert [] cur = none
insert (c ∷ str) cur = some (insert_from c str cur)

-- A node that the second loop of `remove` has its parent erase.
pub is_dead : Node → Bool
is_dead (node b nil) = not b
is_dead (node b (cons k n cs)) = false

-- Behind the removal below it, the parent drops or keeps the child of a key.
pub prune : ℕ → Node → Node → Node
unfolding is_dead set erase
prune c child cur =
    if is_dead child
    then node (breakpoint cur) (erase c (children cur))
    else node (breakpoint cur) (set c child (children cur))

-- `none`: the text leads out of the tree, and nothing is changed. The stack of nodes is the
-- recursion's. The loop up the stack stops at the first node that is not dead, where its
-- parents are not dead either, since they have a child.
pub remove_from : List ℕ → Node → Option Node
unfolding prune get_child
remove_from [] cur = some (node false (children cur))
remove_from (c ∷ str) cur = elim (get_child c cur) [
  | none ↦ none
  | some child ↦ elim (remove_from str child) [
    | none ↦ none
    | some child' ↦ some (prune c child' cur)
  ]
]

pub remove : List ℕ → Node → Node
unfolding remove_from
remove str cur = elim (remove_from str cur) [ none ↦ cur | some cur' ↦ cur' ]

pub data ReturnValue : Type 0 where
  no_error : ReturnValue
  player_with_this_name_is_not_online : ReturnValue
  name_is_too_ambiguous : ReturnValue

-- The first loop of `findOne`.
pub descend : List ℕ → Node → Option Node
unfolding get_child
descend [] cur = some cur
descend (c ∷ query) cur = elim (get_child c cur) [ none ↦ none | some child ↦ descend query child ]

-- The second loop of `findOne`, with what it appends to `result`.
mutual
  pub complete : Node → ReturnValue × List ℕ
  complete (node b cs) = complete_children b cs

  pub complete_children : Bool → Children → ReturnValue × List ℕ
  complete_children b nil = (no_error, [])
  complete_children b (cons k n cs) =
      let rest = complete n in
      if ltb 1 (suc (size cs)) || b then (name_is_too_ambiguous, []) else (rest.0, k ∷ rest.1)

-- `findOne` with the text that `result` held before.
pub find_one : List ℕ → List ℕ → Node → ReturnValue × List ℕ
unfolding descend complete size
find_one query result root = elim (descend query root) [
  | none ↦ (player_with_this_name_is_not_online, result)
  | some cur ↦ ((complete cur).0, query ++ (complete cur).1)
]
