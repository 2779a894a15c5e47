-- ===== src/FileLoader/Roundtrip.antt =====
-- What source/src/fileloader.cpp reads of a file that holds the bytes of a tree.
use otg_premium_version.Common.{
  ℕ, false, some, List, [], ◌∷◌, ◌++◌, length, ◌≡◌, refl, arith, ◌∙◌, ap, ap₂, sym, take,
  length-append,
}
use otg_premium_version.FileLoader.{
  Node, node, Children, nil, cons, opened, finished, end_props, pop, push_back, parse_loop,
  parse_tree, get_props, unescape, between, node_char,
}
use otg_premium_version.FileLoader.Marks.{
  Tree, tree, Trees, no_trees, trees, escape_bytes, write, write_all, view, views, text,
  parse_loop-start, parse_loop-end, parse_loop-escape_bytes,
}

-- The nodes that are read where the trees are written before `rest`.
mutual
  pub node_of : Tree → List ℕ → Node
  node_of (tree ty ps ts) rest =
      node ty (escape_bytes ps ++ write_all ts (0xFF ∷ rest)) (write_all ts (0xFF ∷ rest))
        (nodes_of ts (0xFF ∷ rest))

  pub nodes_of : Trees → List ℕ → Children
  nodes_of no_trees rest = nil
  nodes_of (trees t ts) rest = cons (node_of t (write_all ts rest)) (nodes_of ts rest)

push : Node → Node → Node
push (node ty b e cs) n = node ty b e (push_back cs n)

pop-push :
    (cur parent : Node) (below : List Node)
    → pop cur (parent ∷ below) ≡ opened (push parent cur) below
unfolding pop push
pop-push cur (node ty b e cs) below = refl

-- An open node after the trees are read into it.
filled : Node → Trees → List ℕ → Node
filled cur no_trees rest = cur
filled cur (trees t ts) rest =
    filled (push (end_props (write t (write_all ts rest)) cur) (node_of t (write_all ts rest))) ts
      rest

append : Children → Children → Children
append nil ms = ms
append (cons n ns) ms = cons n (append ns ms)

append-push_back :
    (cs : Children) (n : Node) (ms : Children) → append (push_back cs n) ms ≡ append cs (cons n ms)
unfolding append push_back
append-push_back nil n ms = refl
append-push_back (cons c cs) n ms = ap (cons c) (append-push_back cs n ms)

append_nil : (cs : Children) → append cs nil ≡ cs
unfolding append
append_nil nil = refl
append_nil (cons c cs) = ap (cons c) (append_nil cs)

filled-cons :
    (ty : ℕ) (b e : List ℕ) (c : Node) (cs : Children) (ts : Trees) (rest : List ℕ)
    → filled (node ty b e (cons c cs)) ts rest ≡ node ty b e (append (cons c cs) (nodes_of ts rest))
unfolding filled nodes_of push end_props push_back
filled-cons ty b e c cs no_trees rest = ap (node ty b e) (sym (append_nil (cons c cs)))
filled-cons ty b e c cs (trees t ts) rest =
    filled-cons ty b e c (push_back cs (node_of t (write_all ts rest))) ts rest
    ∙ ap (node ty b e)
        (append-push_back (cons c cs) (node_of t (write_all ts rest)) (nodes_of ts rest))

end_props-filled :
    (ty : ℕ) (b : List ℕ) (ts : Trees) (rest : List ℕ)
    → end_props rest (filled (node ty b [] nil) ts rest)
      ≡ node ty b (write_all ts rest) (nodes_of ts rest)
unfolding filled nodes_of end_props push push_back write_all append
end_props-filled ty b no_trees rest = refl
end_props-filled ty b (trees t ts) rest =
    ap (end_props rest)
      (filled-cons ty b (write t (write_all ts rest)) (node_of t (write_all ts rest)) nil ts rest)

-- From behind the type of a node to behind its END.
parse_loop-body :
    (ty : ℕ) (ps : List ℕ) (ts : Trees) (below : List Node) (rest : List ℕ)
    → ((cur : Node)
        → parse_loop (opened cur below) (write_all ts (0xFF ∷ rest))
          ≡ parse_loop (opened (filled cur ts (0xFF ∷ rest)) below) (0xFF ∷ rest))
    → parse_loop
        (opened (node ty (escape_bytes ps ++ write_all ts (0xFF ∷ rest)) [] nil) below)
        (escape_bytes ps ++ write_all ts (0xFF ∷ rest))
      ≡ parse_loop (pop (node_of (tree ty ps ts) rest) below) rest
unfolding node_of
parse_loop-body ty ps ts below rest h =
    let cur = node ty (escape_bytes ps ++ write_all ts (0xFF ∷ rest)) [] nil in
    parse_loop-escape_bytes (opened cur below) ps (write_all ts (0xFF ∷ rest))
    ∙ h cur
    ∙ parse_loop-end (filled cur ts (0xFF ∷ rest)) below rest
    ∙ ap (λ n. parse_loop (pop n below) rest)
        (end_props-filled ty (escape_bytes ps ++ write_all ts (0xFF ∷ rest)) ts (0xFF ∷ rest))

mutual
  unfolding write write_all node_of filled

  parse_loop-write :
      (t : Tree) (cur : Node) (below : List Node) (rest : List ℕ)
      → parse_loop (opened cur below) (write t rest)
        ≡ parse_loop (opened (push (end_props (write t rest) cur) (node_of t rest)) below) rest
  parse_loop-write (tree ty ps ts) cur below rest =
      parse_loop-start cur below ty (escape_bytes ps ++ write_all ts (0xFF ∷ rest))
      ∙ parse_loop-body ty ps ts
          (end_props (0xFE ∷ ty ∷ escape_bytes ps ++ write_all ts (0xFF ∷ rest)) cur ∷ below) rest
          (λ c.
            parse_loop-write_all ts c
              (end_props (0xFE ∷ ty ∷ escape_bytes ps ++ write_all ts (0xFF ∷ rest)) cur ∷ below)
              (0xFF ∷ rest))
      ∙ ap (λ s. parse_loop s rest)
          (pop-push (node_of (tree ty ps ts) rest)
            (end_props (0xFE ∷ ty ∷ escape_bytes ps ++ write_all ts (0xFF ∷ rest)) cur) below)

  parse_loop-write_all :
      (ts : Trees) (cur : Node) (below : List Node) (rest : List ℕ)
      → parse_loop (opened cur below) (write_all ts rest)
        ≡ parse_loop (opened (filled cur ts rest) below) rest
  parse_loop-write_all no_trees cur below rest = refl
  parse_loop-write_all (trees t ts) cur below rest =
      parse_loop-write t cur below (write_all ts rest)
      ∙ parse_loop-write_all ts
          (push (end_props (write t (write_all ts rest)) cur) (node_of t (write_all ts rest))) below
          rest

pub parse_tree-write : (t : Tree) → parse_tree (write t []) ≡ some (node_of t [])
unfolding parse_tree write node_char parse_loop pop finished
parse_tree-write (tree ty ps ts) =
    ap finished (parse_loop-body ty ps ts [] [] λ c. parse_loop-write_all ts c [] (0xFF ∷ []))

-- `getProps` undoes the escapes.
pub unescape-escape_bytes : (ps : List ℕ) → unescape false (escape_bytes ps) ≡ ps
unfolding unescape escape_bytes
unescape-escape_bytes [] = refl
unescape-escape_bytes (b ∷ ps) = ground (arith, unescape-escape_bytes ps)

pub take_append : (x w : List ℕ) → take (length x) (x ++ w) ≡ x
take_append [] w = refl
take_append (b ∷ x) w = ap (λ y. b ∷ y) (take_append x w)

between_append : (x w : List ℕ) → between (x ++ w) w ≡ x
unfolding between
between_append x w = ap (λ n. take n (x ++ w)) (omega (arith, length-append x w)) ∙ take_append x w

escape_bytes_empty : (ps : List ℕ) → length (escape_bytes ps) ≡ 0 → [] ≡ ps
unfolding escape_bytes
escape_bytes_empty [] h = refl
escape_bytes_empty (p ∷ ps) h = absurd (ground arith)

text-get_props :
    (ty : ℕ) (ps w : List ℕ) (cs : Children)
    → text (get_props (node ty (escape_bytes ps ++ w) w cs)) ≡ ps
unfolding get_props
text-get_props ty ps w cs = ground (
  arith,
  between_append (escape_bytes ps) w,
  length-append (escape_bytes ps) w,
  unescape-escape_bytes ps,
  escape_bytes_empty ps,
)

mutual
  unfolding view views node_of nodes_of

  pub view-node_of : (t : Tree) (rest : List ℕ) → view (node_of t rest) ≡ t
  view-node_of (tree ty ps ts) rest =
      ap₂ (tree ty) (text-get_props ty ps (write_all ts (0xFF ∷ rest)) (nodes_of ts (0xFF ∷ rest)))
        (views-nodes_of ts (0xFF ∷ rest))

  views-nodes_of : (ts : Trees) (rest : List ℕ) → views (nodes_of ts rest) ≡ ts
  views-nodes_of no_trees rest = refl
  views-nodes_of (trees t ts) rest =
      ap₂ trees (view-node_of t (write_all ts rest)) (views-nodes_of ts rest)
