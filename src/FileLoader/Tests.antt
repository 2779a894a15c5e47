-- ===== src/FileLoader/Tests.antt =====
-- Runs of the parser and of the streams of source/src/fileloader.cpp.
use otg_premium_version.Common.{ℕ, none, some, List, [], ◌∷◌, ◌++◌, ◌≡◌, refl, if◌then◌else◌, drop}
use mathlib.Core.Option.{map}
use otg_premium_version.FileLoader.{
  load_tree, parse_tree, loader, same_bytes, parse_loop, node_char, open_node, close_node,
  end_props, pop, push_back, finished, get_props, unescape, between,
}
use otg_premium_version.FileLoader.Marks.{Tree, tree, no_trees, trees, write, view}
use otg_premium_version.FileLoader.Files.{load_tree-write, is_bare}
use otg_premium_version.FileLoader.Streams.{read_string, write_string, read_string-write_string}

abbrev otbm : List ℕ
otbm = 79 ∷ 84 ∷ 66 ∷ 77 ∷ []

-- A root with a property that looks like a mark, and two children.
abbrev sample : Tree
sample =
    tree 0 (1 ∷ 0xFF ∷ 0xFD ∷ [])
      (trees (tree 2 (7 ∷ []) no_trees) (trees (tree 0xFE [] no_trees) no_trees))

abbrev sample_file : List ℕ
sample_file =
    79 ∷ 84 ∷ 66 ∷ 77 ∷ 0xFE ∷ 0 ∷ 1 ∷ 0xFD ∷ 0xFF ∷ 0xFD ∷ 0xFD ∷ 0xFE ∷ 2 ∷ 7 ∷ 0xFF ∷ 0xFE ∷ 0xFE
    ∷ 0xFF ∷ 0xFF ∷ []

sample_parses : map view (load_tree sample_file otbm) ≡ some sample
unfolding load_tree parse_tree loader same_bytes parse_loop node_char open_node close_node end_props
    pop push_back finished get_props unescape between view
sample_parses = refl

-- Without its last byte the file is refused.
truncated_fails :
    map view
      (load_tree (79 ∷ 84 ∷ 66 ∷ 77 ∷ 0xFE ∷ 0 ∷ 1 ∷ 0xFD ∷ 0xFF ∷ 0xFE ∷ 2 ∷ 7 ∷ 0xFF ∷ []) otbm)
    ≡ none
unfolding load_tree parse_tree loader same_bytes parse_loop node_char open_node close_node end_props
    pop push_back finished get_props unescape between view
truncated_fails = refl

load_tree-write_example :
    map view (load_tree (otbm ++ write sample []) otbm)
    ≡ (if is_bare sample then none else some sample)
unfolding same_bytes
load_tree-write_example = load_tree-write otbm otbm sample refl refl

read_string-write_string_example :
    read_string (drop 1 (write_string (104 ∷ 105 ∷ []) (9 ∷ []) ++ 5 ∷ []))
    ≡ some (104 ∷ 105 ∷ [], 5 ∷ [])
read_string-write_string_example = read_string-write_string (104 ∷ 105 ∷ []) (9 ∷ []) (5 ∷ [])
