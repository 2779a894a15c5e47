-- ===== src/FileLoader/Files.antt =====
-- Whole files for source/src/fileloader.cpp: the identifier, then the bytes of a tree.
use otg_premium_version.Common.{
  ℕ, Bool, true, false, ◌||◌, not, none, some, List, [], ◌∷◌, ◌++◌, if◌then◌else◌, length, leb, ◌≡◌,
  refl, arith, drop, length-append, ◌<◌, ◌≤◌,
}
use mathlib.Core.Option.{map}
use otg_premium_version.FileLoader.{loader, load_tree, same_bytes, wildcard}
use otg_premium_version.FileLoader.Marks.{
  Tree, tree, Trees, no_trees, trees, escape_bytes, write, write_all, view,
}
use otg_premium_version.FileLoader.Roundtrip.{parse_tree-write, view-node_of}

-- A root that has neither properties nor children.
unfoldable pub is_bare : Tree → Bool
is_bare (tree ty [] no_trees) = true
is_bare (tree ty _ _) = false

mutual
  unfolding write write_all

  length-write : (t : Tree) (rest : List ℕ) → length rest < length (write t rest)
  length-write (tree ty ps ts) rest = omega (
    arith,
    length-append (escape_bytes ps) (write_all ts (0xFF ∷ rest)),
    length-write_all ts (0xFF ∷ rest),
  )

  length-write_all : (ts : Trees) (rest : List ℕ) → length rest ≤ length (write_all ts rest)
  length-write_all no_trees rest = omega arith
  length-write_all (trees t ts) rest =
      omega (arith, length-write t (write_all ts rest), length-write_all ts rest)

length-escape_bytes : (p : ℕ) (ps : List ℕ) → 0 < length (escape_bytes (p ∷ ps))
unfolding escape_bytes
length-escape_bytes p ps = ground arith

write_size : (t : Tree) → leb (length (write t [])) 3 ≡ is_bare t
unfolding write write_all is_bare escape_bytes
write_size (tree ty [] no_trees) = refl
write_size (tree ty [] (trees t ts)) =
    ground (arith, length-write t (write_all ts (0xFF ∷ [])), length-write_all ts (0xFF ∷ []))
write_size (tree ty (p ∷ ps) ts) = ground (
  arith,
  length-escape_bytes p ps,
  length-append (escape_bytes (p ∷ ps)) (write_all ts (0xFF ∷ [])),
  length-write_all ts (0xFF ∷ []),
)

pub drop_append : (x w : List ℕ) → drop (length x) (x ++ w) ≡ w
drop_append [] w = refl
drop_append (b ∷ x) w = drop_append x w

loader-write :
    (a b c d : ℕ) (accepted : List ℕ) (t : Tree)
    → same_bytes (a ∷ b ∷ c ∷ d ∷ []) accepted || same_bytes (a ∷ b ∷ c ∷ d ∷ []) wildcard ≡ true
    → loader (a ∷ b ∷ c ∷ d ∷ write t []) accepted ≡ not (is_bare t)
unfolding loader
loader-write a b c d accepted t h = ground (arith, write_size t, h)

-- A file of an accepted identifier, or of the wildcard, and a tree is read as this tree, unless
-- the tree is a root without properties and children: such a file is refused.
pub load_tree-write :
    (identifier accepted : List ℕ) (t : Tree)
    → length identifier ≡ 4
    → same_bytes identifier accepted || same_bytes identifier wildcard ≡ true
    → map view (load_tree (identifier ++ write t []) accepted)
      ≡ (if is_bare t then none else some t)
unfolding load_tree
load_tree-write (a ∷ b ∷ c ∷ d ∷ []) accepted t n h =
    rw (load_tree, loader-write a b c d accepted t h, parse_tree-write t)
      (ground (arith, view-node_of t []))
load_tree-write _ accepted t n h = absurd (omega arith)
