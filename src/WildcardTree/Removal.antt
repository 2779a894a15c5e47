-- ===== src/WildcardTree/Removal.antt =====
-- What `remove` of source/src/wildcardtree.cpp does to the names of a tree.
use otg_premium_version.Common.{
  ℕ, ◌≡◌, refl, Bool, true, false, ◌&&◌, not, none, some, List, [], ◌∷◌, ◌==◌, if◌then◌else◌, arith,
  Option-cases, inl, inr, Bool-cases,
}
use mathlib.Core.Option.{some-injective}
use mathlib.Core.Path.{subst, sym}
use otg_premium_version.WildcardTree.{
  Node, node, Children, nil, cons, breakpoint, find, remove, remove_from, prune, is_dead,
}
use otg_premium_version.WildcardTree.Keys.{find-set}
use otg_premium_version.WildcardTree.Names.{contains, same}
use otg_premium_version.WildcardTree.Names.{same_iff}
use otg_premium_version.WildcardTree.Shape.{IsTight, IsTightChildren, IsTight-find, find-erase}

contains-dead : (n : Node) (w : List ℕ) → is_dead n ≡ true → contains w n ≡ false
unfolding is_dead find
contains-dead (node b nil) [] h = ground arith
contains-dead (node b nil) (c ∷ w) h = refl
contains-dead (node b (cons k n cs)) w h = absurd (ground arith)

contains-prune :
    (c d : ℕ) (child old : Node) (b : Bool) (cs : Children) (w : List ℕ)
    → IsTightChildren cs
    → find c cs ≡ some old
    → contains (d ∷ w) (prune c child (node b cs))
      ≡ (if c == d then contains w child else contains (d ∷ w) (node b cs))
unfolding prune
contains-prune c d child old b cs w t h = elim (Bool-cases (is_dead child)) [
  | inl e ↦ rw (e, prune) (ground (arith, find-erase d c cs t, contains-dead child w e))
  | inr e ↦ rw (e, prune) (ground (arith, h, find-set d c child cs))
]

breakpoint-prune : (c : ℕ) (child cur : Node) → breakpoint (prune c child cur) ≡ breakpoint cur
unfolding prune
breakpoint-prune c child cur = ground arith

contains-prune_step :
    (c : ℕ) (str : List ℕ) (b : Bool) (cs : Children) (old child : Node) (w : List ℕ)
    → IsTightChildren cs
    → find c cs ≡ some old
    → ((v : List ℕ) → contains v child ≡ (not (same v str) && contains v old))
    → contains w (prune c child (node b cs)) ≡ (not (same w (c ∷ str)) && contains w (node b cs))
contains-prune_step c str b cs old child [] t h below = breakpoint-prune c child (node b cs)
contains-prune_step c str b cs old child (d ∷ w) t h below =
    ground (arith, contains-prune c d child old b cs w t h, below w)

contains-remove_from :
    (str : List ℕ) (cur : Node) {out : Node} (w : List ℕ)
    → IsTight cur
    → remove_from str cur ≡ some out
    → contains w out ≡ (not (same w str) && contains w cur)
unfolding remove_from
contains-remove_from [] (node b cs) [] t h = ground arith
contains-remove_from [] (node b cs) (d ∷ w) t h = ground arith
contains-remove_from (c ∷ str) (node b cs) w t h = elim (Option-cases (find c cs)) [
  | inl e ↦ absurd (ground arith)
  | inr (m, e) ↦ elim (Option-cases (remove_from str m)) [
    | inl e' ↦ absurd (ground arith)
    | inr (m', e') ↦
        subst (λ x. contains w x ≡ (not (same w (c ∷ str)) && contains w (node b cs)))
          (some-injective (prune c m' (node b cs)) _ (ground arith))
          (contains-prune_step c str b cs m m' w t e
            λ v. contains-remove_from str m v (IsTight-find c cs m t e).1 e')
  ]
]

remove_from-none :
    (str : List ℕ) (cur : Node) → remove_from str cur ≡ none → contains str cur ≡ false
unfolding remove_from
remove_from-none [] cur h = absurd (ground arith)
remove_from-none (c ∷ str) (node b cs) h = elim (Option-cases (find c cs)) [
  | inl e ↦ ground (arith, e)
  | inr (m, e) ↦ ground (arith, e, remove_from-none str m (ground arith))
]

-- Removing a text takes this name out of the names of the tree, and changes no other, whether or
-- not it was one of them.
pub contains-remove :
    (str : List ℕ) (cur : Node) (w : List ℕ)
    → IsTight cur
    → contains w (remove str cur) ≡ (not (same w str) && contains w cur)
unfolding remove
contains-remove str cur w t = elim (Option-cases (remove_from str cur)) [
  | inl e ↦
      rw (e, remove)
        (elim (Bool-cases (same w str)) [
          | inl is ↦
              let absent : contains w cur ≡ false =
                subst (λ v. contains v cur ≡ false) (sym ((same_iff w str).0 is))
                  (remove_from-none str cur e) in
              ground arith
          | inr is_not ↦ rw is_not
        ])
  | inr (out, e) ↦ rw (e, remove) (contains-remove_from str cur w t e)
]
