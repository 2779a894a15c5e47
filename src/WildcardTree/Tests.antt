-- ===== src/WildcardTree/Tests.antt =====
-- Runs of the name tree, and the theorems at concrete inputs.
use otg_premium_version.Common.{ℕ, ◌≡◌, refl, true, false, not, ◌&&◌, ◌||◌, List, [], ◌∷◌, some}
use otg_premium_version.WildcardTree.{
  Node, node, nil, cons, insert, remove, find_one, no_error, name_is_too_ambiguous,
  player_with_this_name_is_not_online, find, is_dead,
}
use otg_premium_version.WildcardTree.Names.{contains, same, contains-insert}
use otg_premium_version.WildcardTree.Shape.{IsTight, insert-IsTight, remove-IsTight}
use otg_premium_version.WildcardTree.Removal.{contains-remove}
use otg_premium_version.WildcardTree.Completion.{Answers, find_one-Answers}

-- "bo", "bob" and "al".
abbrev online : Node
online = node false (
    cons b'b' (node false (cons b'o' (node true (cons b'b' (node true nil) nil)) nil))
      (cons b'a' (node false (cons b'l' (node true nil) nil)) nil))

abbrev bob : List ℕ
bob = b'b' ∷ b'o' ∷ b'b' ∷ []

abbrev bo : List ℕ
bo = b'b' ∷ b'o' ∷ []

abbrev empty_tree : Node
empty_tree = node false nil

insert_runs :
    insert bo empty_tree
    ≡ some (node false (cons b'b' (node false (cons b'o' (node true nil) nil)) nil))
unfolding insert
insert_runs = refl

remove_prefix_keeps :
    remove bo online
    ≡ node false (
        cons b'b'
          (node false (cons b'o' (node false (cons b'b' (node true nil) nil)) nil))
          (cons b'a' (node false (cons b'l' (node true nil) nil)) nil))
unfolding remove
remove_prefix_keeps = refl

find_unique : find_one (b'a' ∷ []) [] online ≡ (no_error, b'a' ∷ b'l' ∷ [])
unfolding find_one
find_unique = refl

find_ambiguous : (find_one (b'b' ∷ []) [] online).0 ≡ name_is_too_ambiguous
unfolding find_one
find_ambiguous = refl

find_missing : find_one (b'c' ∷ []) bob online ≡ (player_with_this_name_is_not_online, bob)
unfolding find_one
find_missing = refl

online-IsTight : IsTight online
unfolding find is_dead
online-IsTight =
    (refl, refl, (refl, refl, (refl, refl, tt, tt), tt), (refl, refl, (refl, refl, tt, tt), tt))

contains-insert_example :
    contains bob (node false (cons b'b' (node false (cons b'o' (node true nil) nil)) nil))
    ≡ (same bob bo || contains bob empty_tree)
unfolding insert
contains-insert_example = contains-insert bo empty_tree bob refl

insert-IsTight_example :
    IsTight (node false (cons b'b' (node false (cons b'o' (node true nil) nil)) nil))
unfolding insert
insert-IsTight_example = insert-IsTight bo empty_tree refl tt

contains-remove_example :
    contains bob (remove bo online) ≡ (not (same bob bo) && contains bob online)
contains-remove_example = contains-remove bo online bob online-IsTight

remove-IsTight_example : IsTight (remove bob online)
remove-IsTight_example = remove-IsTight bob online online-IsTight

find_one-Answers_example : Answers (b'a' ∷ []) [] online (find_one (b'a' ∷ []) [] online)
unfolding is_dead
find_one-Answers_example = find_one-Answers (b'a' ∷ []) [] online online-IsTight refl
