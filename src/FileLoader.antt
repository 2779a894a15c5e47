-- ===== src/FileLoader.antt =====
-- source/src/fileloader.cpp and fileloader.h: the files of items and maps, a tree of nodes whose
-- bytes are marked by START, END and ESCAPE.
-- An iterator into the file is the list of the bytes from it to the end of the file. The stack of
-- pointers is the open node with its ancestors: a child is put behind its siblings when it is
-- closed instead of when it is opened, between which nothing reads the parent's children.
pub mod Marks
pub mod Roundtrip
pub mod Files
pub mod Streams
mod Tests
use otg_premium_version.Common.{
  ℕ, zero, suc, ◌+◌, ◌-◌, Bool, true, false, ◌&&◌, ◌||◌, not, Option, none, some, List, [], ◌∷◌,
  ◌++◌, ◌==◌, if◌then◌else◌, length, leb, take, drop,
}

mutual
  pub data Node : Type 0 where
    node : (type_of : ℕ) (props_begin props_end : List ℕ) → Children → Node

  pub data Children : Type 0 where
    nil : Children
    cons : Node → Children → Children

-- Node::NodeChar, and all other bytes.
pub data NodeChar : Type 0 where
  start : NodeChar
  end_of : NodeChar
  escape : NodeChar
  other : NodeChar

pub node_char : ℕ → NodeChar
node_char b =
    if b == 0xFE then start else if b == 0xFF then end_of else if b == 0xFD then escape else other

-- What the loop keeps: the node on top of `parseStack` and those below it, or, when the stack is
-- empty, the root that it was built from.
pub data ParseStack : Type 0 where
  opened : Node → List Node → ParseStack
  emptied : Node → ParseStack

-- `children.emplace_back()`
pub push_back : Children → Node → Children
push_back nil n = cons n nil
push_back (cons m ms) n = cons m (push_back ms n)

-- `if (currentNode.children.empty()) { currentNode.propsEnd = it; }`
pub end_props : List ℕ → Node → Node
end_props it (node ty b e nil) = node ty b it nil
end_props it (node ty b e (cons n cs)) = node ty b e (cons n cs)

-- `case Node::START` at `it`, with the byte of the type and what follows it.
pub open_node : List ℕ → ℕ → List ℕ → ParseStack → Option ParseStack
unfolding end_props
open_node it ty after (opened cur below) =
    some (opened (node ty after [] nil) (end_props it cur ∷ below))
open_node it ty after (emptied root) = none

-- The top of the stack is taken off.
pub pop : Node → List Node → ParseStack
unfolding push_back
pop cur [] = emptied cur
pop cur (node ty b e cs ∷ below) = opened (node ty b e (push_back cs cur)) below

-- `case Node::END` at `it`.
pub close_node : List ℕ → ParseStack → Option ParseStack
unfolding end_props pop
close_node it (opened cur below) = some (pop (end_props it cur) below)
close_node it (emptied root) = none

-- The loop of `parseTree`; `none` where it throws.
pub parse_loop : ParseStack → List ℕ → Option ParseStack
unfolding node_char open_node close_node
parse_loop s [] = some s
parse_loop s (b ∷ []) = elim (node_char b) [
  | start ↦ none
  | end_of ↦ close_node (b ∷ []) s
  | escape ↦ none
  | other ↦ some s
]
parse_loop s (b ∷ c ∷ it) = elim (node_char b) [
  | start ↦ elim (open_node (b ∷ c ∷ it) c it s) [ none ↦ none | some s' ↦ parse_loop s' it ]
  | end_of ↦ elim (close_node (b ∷ c ∷ it) s) [ none ↦ none | some s' ↦ parse_loop s' (c ∷ it) ]
  | escape ↦ parse_loop s it
  | other ↦ parse_loop s (c ∷ it)
]

-- `if (!parseStack.empty()) { throw … }`
pub finished : Option ParseStack → Option Node
finished none = none
finished (some (opened cur below)) = none
finished (some (emptied root)) = some root

-- `parseTree` behind the identifier of the file.
pub parse_tree : List ℕ → Option Node
unfolding parse_loop finished node_char
parse_tree (b ∷ ty ∷ it) = elim (node_char b) [
  | start ↦ finished (parse_loop (opened (node ty it [] nil) []) it)
  | _ ↦ none
]
parse_tree _ = none

pub same_bytes : List ℕ → List ℕ → Bool
same_bytes [] [] = true
same_bytes (x ∷ xs) (y ∷ ys) = x == y && same_bytes xs ys
same_bytes _ _ = false

abbrev pub wildcard : List ℕ
wildcard = 0 ∷ 0 ∷ 0 ∷ 0 ∷ []

-- `sizeof(Identifier) + sizeof(Node::START) + sizeof(Node::type) + sizeof(Node::END)`
abbrev pub minimal_size : ℕ
minimal_size = 7

-- The constructor of `Loader`: whether it accepts the file.
pub loader : List ℕ → List ℕ → Bool
unfolding same_bytes
loader contents accepted_identifier =
    if leb (length contents) minimal_size
    then false
    else same_bytes (take 4 contents) accepted_identifier || same_bytes (take 4 contents) wildcard

-- A loader that is made and parses, as source/src/iomap.cpp and items.cpp use it.
pub load_tree : List ℕ → List ℕ → Option Node
unfolding loader parse_tree
load_tree contents accepted_identifier =
    if loader contents accepted_identifier then parse_tree (drop 4 contents) else none

-- `std::copy_if` of `getProps`.
pub unescape : Bool → List ℕ → List ℕ
unescape last_escaped [] = []
unescape last_escaped (b ∷ bs) =
    if b == 0xFD && not last_escaped then unescape true bs else b ∷ unescape false bs

-- The bytes between two iterators.
pub between : List ℕ → List ℕ → List ℕ
between from to = take (length from - length to) from

pub get_props : Node → Option (List ℕ)
unfolding unescape between
get_props (node ty props_begin props_end cs) =
    if (length props_begin - length props_end) == 0
    then none
    else some (unescape false (between props_begin props_end))
