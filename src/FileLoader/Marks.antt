-- ===== src/FileLoader/Marks.antt =====
-- The format that source/src/fileloader.cpp reads, written down by itself: the trees, and the
-- bytes that stand for them; what the loop of `parseTree` does at each mark.
use otg_premium_version.Common.{
  ℕ, false, Option, none, some, List, [], ◌∷◌, ◌++◌, if◌then◌else◌, leb, ◌≡◌, refl, arith, ◌∙◌,
  Bool-cases, inl, inr,
}
use otg_premium_version.FileLoader.{
  Node, node, Children, nil, cons, other, node_char, ParseStack, opened, open_node, close_node,
  end_props, pop, parse_loop, get_props,
}

mutual
  -- A node as the file means it: its type, its properties and its children.
  pub data Tree : Type 0 where
    tree : ℕ → List ℕ → Trees → Tree

  pub data Trees : Type 0 where
    no_trees : Trees
    trees : Tree → Trees → Trees

-- Properties are written with an ESCAPE before each byte that could be a mark.
unfoldable pub escape_bytes : List ℕ → List ℕ
escape_bytes [] = []
escape_bytes (b ∷ bs) = if leb 0xFD b then 0xFD ∷ b ∷ escape_bytes bs else b ∷ escape_bytes bs

-- The bytes of a tree, before the bytes `rest`.
unfoldable mutual
  pub write : Tree → List ℕ → List ℕ
  write (tree ty ps ts) rest = 0xFE ∷ ty ∷ escape_bytes ps ++ write_all ts (0xFF ∷ rest)

  pub write_all : Trees → List ℕ → List ℕ
  write_all no_trees rest = rest
  write_all (trees t ts) rest = write t (write_all ts rest)

-- The tree of a node that was read.
abbrev pub text : Option (List ℕ) → List ℕ
text none = []
text (some ps) = ps

abbrev type_of : Node → ℕ
type_of (node ty b e cs) = ty

unfoldable mutual
  unfolding get_props

  pub view : Node → Tree
  view (node ty b e cs) = tree ty (text (get_props (node ty b e cs))) (views cs)

  pub views : Children → Trees
  views nil = no_trees
  views (cons n ns) = trees (view n) (views ns)

pub parse_loop-other :
    (s : ParseStack) (b : ℕ) (it : List ℕ)
    → node_char b ≡ other
    → parse_loop s (b ∷ it) ≡ parse_loop s it
unfolding parse_loop
parse_loop-other s b [] h = rw (h, parse_loop) refl
parse_loop-other s b (c ∷ it) h = rw (h, parse_loop) refl

parse_loop-escape :
    (s : ParseStack) (c : ℕ) (it : List ℕ) → parse_loop s (0xFD ∷ c ∷ it) ≡ parse_loop s it
unfolding parse_loop node_char
parse_loop-escape s c it = refl

pub parse_loop-start :
    (cur : Node) (below : List Node) (c : ℕ) (it : List ℕ)
    → parse_loop (opened cur below) (0xFE ∷ c ∷ it)
      ≡ parse_loop (opened (node c it [] nil) (end_props (0xFE ∷ c ∷ it) cur ∷ below)) it
unfolding parse_loop node_char open_node
parse_loop-start cur below c it = refl

pub parse_loop-end :
    (cur : Node) (below : List Node) (it : List ℕ)
    → parse_loop (opened cur below) (0xFF ∷ it)
      ≡ parse_loop (pop (end_props (0xFF ∷ it) cur) below) it
unfolding parse_loop node_char close_node
parse_loop-end cur below [] = refl
parse_loop-end cur below (c ∷ it) = refl

node_char-small : (b : ℕ) → leb 0xFD b ≡ false → node_char b ≡ other
unfolding node_char
node_char-small b h = ground arith

-- The bytes of properties move the loop on and change nothing else.
pub parse_loop-escape_bytes :
    (s : ParseStack) (ps it : List ℕ) → parse_loop s (escape_bytes ps ++ it) ≡ parse_loop s it
unfolding escape_bytes
parse_loop-escape_bytes s [] it = refl
parse_loop-escape_bytes s (b ∷ ps) it = elim (Bool-cases (leb 0xFD b)) [
  | inl e ↦ rw e (parse_loop-escape s b (escape_bytes ps ++ it) ∙ parse_loop-escape_bytes s ps it)
  | inr e ↦ rw e (
      parse_loop-other s b (escape_bytes ps ++ it) (node_char-small b e)
      ∙ parse_loop-escape_bytes s ps it)
]
