-- ===== src/WildcardTree/Completion.antt =====
-- What `findOne` of source/src/wildcardtree.cpp answers, in terms of the names of the tree.
use otg_premium_version.Common.{
  ℕ, suc, ◌≡◌, refl, ◌≢◌, Bool, true, false, Option, none, some, List, [], ◌∷◌, ◌++◌, arith,
  Option-cases, inl, inr, Bool-cases, ◌∙◌, lt→ltb,
}
use mathlib.Core.Option.{some-injective}
use mathlib.Core.Path.{subst}
use otg_premium_version.WildcardTree.{
  size, Node, node, Children, nil, cons, children, find, is_dead, descend, ReturnValue, no_error,
  player_with_this_name_is_not_online, name_is_too_ambiguous, complete, complete_children, find_one,
}
use otg_premium_version.WildcardTree.Names.{contains, same, same_iff}
use otg_premium_version.WildcardTree.Shape.{IsTight, IsTightChildren, IsTight-find}

-- Some name below a node.
mutual
  first_name : Node → List ℕ
  first_name (node b cs) = first_in b cs

  first_in : Bool → Children → List ℕ
  first_in true cs = []
  first_in false nil = []
  first_in false (cons k n cs) = k ∷ first_name n

mutual
  unfolding first_name is_dead find

  contains-first_name :
      (n : Node) → IsTight n → is_dead n ≡ false → contains (first_name n) n ≡ true
  contains-first_name (node b cs) t a = contains-first_in b cs t a

  contains-first_in :
      (b : Bool) (cs : Children)
      → IsTightChildren cs
      → is_dead (node b cs) ≡ false
      → contains (first_in b cs) (node b cs) ≡ true
  contains-first_in true cs t a = refl
  contains-first_in false nil t a = cc
  contains-first_in false (cons k n cs) t a = ground (arith, contains-first_name n t.2 t.1)

-- What an answer says of the names below a node: `s` is what was appended.
abbrev Completes : Node → ReturnValue × List ℕ → Type 0
Completes n (no_error, s) = (contains s n ≡ true) × ((w : List ℕ) → contains w n ≡ true → w ≡ s)
Completes n (player_with_this_name_is_not_online, s) = ⊥
Completes n (name_is_too_ambiguous, s) =
    (u : List ℕ) × (v : List ℕ) × (u ≢ v) × (contains u n ≡ true) × (contains v n ≡ true)

Completes-up :
    (k : ℕ) (n : Node) (r : ReturnValue × List ℕ)
    → Completes n r
    → Completes (node false (cons k n nil)) (r.0, k ∷ r.1)
unfolding find
Completes-up k n (no_error, s) (h, only) = (ground arith, below)
  where
    below : (w : List ℕ) → contains w (node false (cons k n nil)) ≡ true → w ≡ k ∷ s
    below [] h = cc
    below (c ∷ w) h = ground (arith, only w)
Completes-up k n (player_with_this_name_is_not_online, s) h = h
Completes-up k n (name_is_too_ambiguous, s) (u, v, ne, hu, hv) =
    (k ∷ u, k ∷ v, (λ e. ne (ground arith)), ground arith, ground arith)

mutual
  unfolding complete is_dead find size

  complete-Completes : (n : Node) → IsTight n → is_dead n ≡ false → Completes n (complete n)
  complete-Completes (node b cs) t a = complete_children-Completes b cs t a

  complete_children-Completes :
      (b : Bool) (cs : Children)
      → IsTightChildren cs
      → is_dead (node b cs) ≡ false
      → Completes (node b cs) (complete_children b cs)
  complete_children-Completes b nil t a =
      (ground arith, elim [ [] ↦ λ h. refl | c ∷ w ↦ λ h. absurd (ground arith) ])
  complete_children-Completes true (cons k n nil) t a =
      ([], k ∷ first_name n, (λ e. cc), refl, ground (arith, contains-first_name n t.2 t.1))
  complete_children-Completes false (cons k n nil) t a =
      Completes-up k n (complete n) (complete-Completes n t.2 t.1)
  complete_children-Completes b (cons k n (cons j m cs)) t a =
      rw (lt→ltb 1 (suc (suc (size cs))) (omega arith)) (
        k ∷ first_name n,
        j ∷ first_name m,
        (λ e. ground (arith)),
        ground (arith, contains-first_name n t.2 t.1),
        ground (arith, contains-first_name m t.3.2 t.3.1),
      )

-- What the answer says of the names that begin with the query, `result` being what the caller's
-- text held.
abbrev pub Answers : List ℕ → List ℕ → Node → ReturnValue × List ℕ → Type 0
Answers query result root (no_error, r) =
    (s : List ℕ) × (r ≡ query ++ s) × ((w : List ℕ) → contains (query ++ w) root ≡ same w s)
Answers query result root (player_with_this_name_is_not_online, r) =
    (r ≡ result) × ((w : List ℕ) → contains (query ++ w) root ≡ false)
Answers query result root (name_is_too_ambiguous, r) =
    (u : List ℕ) × (v : List ℕ) × (u ≢ v)
    × (contains (query ++ u) root ≡ true)
    × (contains (query ++ v) root ≡ true)

abbrev contains_below : List ℕ → Option Node → Bool
contains_below w none = false
contains_below w (some n) = contains w n

contains-descend :
    (query : List ℕ) (root : Node) (w : List ℕ)
    → contains (query ++ w) root ≡ contains_below w (descend query root)
unfolding descend
contains-descend [] root w = refl
contains-descend (c ∷ query) root w = elim (Option-cases (find c (children root))) [
  | inl e ↦ rw (e, descend) (ground (arith, e))
  | inr (m, e) ↦ rw (e, descend) (ground (arith, e, contains-descend query m w))
]

descend-IsTight :
    (query : List ℕ) (root : Node) (cur : Node)
    → IsTight root
    → is_dead root ≡ false
    → descend query root ≡ some cur
    → IsTight cur × (is_dead cur ≡ false)
unfolding descend
descend-IsTight [] root cur t a h =
    subst (λ x. IsTight x × (is_dead x ≡ false)) (some-injective root cur h) (t, a)
descend-IsTight (c ∷ query) (node b cs) cur t a h = elim (Option-cases (find c cs)) [
  | inl e ↦ absurd (ground arith)
  | inr (m, e) ↦
      descend-IsTight query m cur (IsTight-find c cs m t e).1 (IsTight-find c cs m t e).0
        (ground arith)
]

only_name :
    (n : Node) (s : List ℕ)
    → contains s n ≡ true
    → ((w : List ℕ) → contains w n ≡ true → w ≡ s)
    → (w : List ℕ) → contains w n ≡ same w s
only_name n s is only w = elim (Bool-cases (same w s)) [
  | inl e ↦ rw (e, (same_iff w s).0 e) is
  | inr e ↦ ground (arith, only w, same_iff w s)
]

Completes-Answers :
    (query result : List ℕ) (root cur : Node) (r : ReturnValue × List ℕ)
    → descend query root ≡ some cur
    → Completes cur r
    → Answers query result root (r.0, query ++ r.1)
Completes-Answers query result root cur (no_error, s) h (is, only) =
    (s, refl, λ w. contains-descend query root w ∙ rw h (only_name cur s is only w))
Completes-Answers query result root cur (player_with_this_name_is_not_online, s) h c = absurd c
Completes-Answers query result root cur (name_is_too_ambiguous, s) h (u, v, ne, hu, hv) = (
  u,
  v,
  ne,
  ground (arith, contains-descend query root u),
  ground (arith, contains-descend query root v),
)

-- In a tree of that shape which holds a name, `findOne` is right in each of its answers: it
-- succeeds with the one name that begins with the query, it calls the query ambiguous where two
-- names begin with it, and says that the player is not online where none does, the text of the
-- caller being left as it was.
pub find_one-Answers :
    (query result : List ℕ) (root : Node)
    → IsTight root
    → is_dead root ≡ false
    → Answers query result root (find_one query result root)
unfolding find_one
find_one-Answers query result root t a = elim (Option-cases (descend query root)) [
  | inl e ↦ rw (e, find_one) (refl, λ w. ground (arith, contains-descend query root w))
  | inr (cur, e) ↦
      let d = descend-IsTight query root cur t a e in
      rw (e, find_one)
        (Completes-Answers query result root cur (complete cur) e (complete-Completes cur d.0 d.1))
]
