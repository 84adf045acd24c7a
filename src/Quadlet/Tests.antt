-- ===== src/Quadlet/Tests.antt =====
-- A walk over a small tree, and its theorems there.
use quadsyncd.Base.{◌≡◌, refl, ◌↔◌, true, List, [], ◌∷◌, All, ok, text_eq, nat_eq}
use quadsyncd.Base.Text.{Text, str, text_code}
use quadsyncd.FilePath.{path_code}
use quadsyncd.Quadlet.Walk.{
  Node, regular, directory, nil, entry, walk_node, walk_entries, visit_checked, discover_all_files,
  discover_all_files_with_symlink_check,
}
use quadsyncd.Quadlet.Walk.Leaves.{
  file, leaves, pass, paths_of, discover_checked-pass, discover_checked_iff,
  discover_all_of_checked,
}

abbrev dir : Text
dir = str "/d"

abbrev tree : Node
tree = directory (
    entry (str ".git") (directory (entry (str "HEAD") regular nil)) (
      entry (str "a.container") regular
        (entry (str "sub") (directory (entry (str "b.env") regular nil)) nil)))

abbrev found : List Text
found = str "/d/a.container" ∷ str "/d/sub/b.env" ∷ []

walked : discover_all_files_with_symlink_check dir tree ≡ ok found
unfolding discover_all_files_with_symlink_check walk_node walk_entries visit_checked path_code
    text_code text_eq nat_eq
walked = refl

discover_checked-pass_example :
    discover_all_files_with_symlink_check dir tree ≡ pass true (leaves dir tree) []
discover_checked-pass_example = discover_checked-pass dir tree

discover_checked_iff_example :
    (discover_all_files_with_symlink_check dir tree ≡ ok found)
    ↔ (All (λ l. l.1 ≡ file) (leaves dir tree) × (found ≡ paths_of (leaves dir tree)))
discover_checked_iff_example = discover_checked_iff dir tree found

discover_all_of_checked_example : discover_all_files dir tree ≡ ok found
discover_all_of_checked_example = discover_all_of_checked dir tree found walked
