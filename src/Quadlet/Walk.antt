-- ===== src/Quadlet/Walk.antt =====
-- `DiscoverFiles`, `DiscoverAllFiles` and `DiscoverAllFilesWithSymlinkCheck`: the callbacks that
-- `filepath.WalkDir` calls on a directory tree.
pub mod Leaves
use quadsyncd.Base.{
  ℕ, ◌≡◌, refl, Bool, true, false, ◌&&◌, List, [], ◌∷◌, ◌++◌, arith, Result, ok, err, ◌>>=◌, ◌/=◌,
  not, text_eq, if◌then◌else◌,
}
use quadsyncd.Base.Text.{Text, str, has_prefix}
use quadsyncd.FilePath.{base, join}
use quadsyncd.Quadlet.{is_quadlet_file}

-- What `WalkDir` meets under a path, in its order: a node that cannot be read makes the callback
-- get an error.
mutual
  pub data Node : Type 0 where
    regular : Node
    symlink : Node
    unreadable : Node
    directory : Entries → Node

  pub data Entries : Type 0 where
    nil : Entries
    entry : Text → Node → Entries → Entries

pub data WalkError : Type 0 where
  read_failed : Text → WalkError
  symlink_found : Text → WalkError

-- What a callback answers: go on with these files, `filepath.SkipDir`, or an error.
pub data Visit : Type 0 where
  next : List Text → Visit
  skip_dir : Visit
  failed : WalkError → Visit

abbrev pub is_dir : Node → Bool
is_dir (directory es) = true
is_dir unreadable = true
is_dir _ = false

abbrev pub Visitor : Type 0
Visitor = Text → Text → Node → List Text → Visit

-- What follows a callback: below a directory, on to the next entry, or out.
abbrev enter :
    Visit → (List Text → Result WalkError (List Text)) → List Text → Result WalkError (List Text)
enter (next fs) below files = below fs
enter skip_dir below files = ok files
enter (failed e) below files = err e

-- `filepath.WalkDir`, for callbacks that answer `SkipDir` at directories only.
unfoldable mutual
  pub walk_node : Visitor → Text → Text → Node → List Text → Result WalkError (List Text)
  walk_node visit path name regular files =
      enter (visit path name regular files) (λ fs. ok fs) files
  walk_node visit path name symlink files =
      enter (visit path name symlink files) (λ fs. ok fs) files
  walk_node visit path name unreadable files =
      enter (visit path name unreadable files) (λ fs. err (read_failed path)) files
  walk_node visit path name (directory es) files =
      enter (visit path name (directory es) files) (λ fs. walk_entries visit path es fs) files

  pub walk_entries : Visitor → Text → Entries → List Text → Result WalkError (List Text)
  walk_entries visit path nil files = ok files
  walk_entries visit path (entry name n es) files =
      walk_node visit (join path name) name n files >>= λ fs. walk_entries visit path es fs

-- Hidden files and directories are skipped, the root is not.
abbrev pub is_hidden : Text → Text → Text → Bool
is_hidden dir path name = path /= dir && has_prefix name (str ".")

-- `DiscoverFiles`
unfoldable pub visit_quadlets : Visitor
visit_quadlets path name n files =
    if is_dir n
    then next files
    else if is_quadlet_file path
    then next (files ++ path ∷ [])
    else next files

-- `DiscoverAllFiles`
unfoldable pub visit_all : Text → Visitor
visit_all dir path name n files =
    if is_hidden dir path name
    then (if is_dir n then skip_dir else next files)
    else if not (is_dir n)
    then next (files ++ path ∷ [])
    else next files

abbrev pub is_symlink : Node → Bool
is_symlink symlink = true
is_symlink _ = false

-- `DiscoverAllFilesWithSymlinkCheck`
unfoldable pub visit_checked : Text → Visitor
visit_checked dir path name n files =
    if is_hidden dir path name
    then (if is_dir n then skip_dir else next files)
    else if not (is_dir n)
    then (if is_symlink n then failed (symlink_found path) else next (files ++ path ∷ []))
    else next files

unfoldable pub discover_files : Text → Node → Result WalkError (List Text)
discover_files dir root = walk_node visit_quadlets dir (base dir) root []

unfoldable pub discover_all_files : Text → Node → Result WalkError (List Text)
discover_all_files dir root = walk_node (visit_all dir) dir (base dir) root []

unfoldable pub discover_all_files_with_symlink_check : Text → Node → Result WalkError (List Text)
discover_all_files_with_symlink_check dir root =
    walk_node (visit_checked dir) dir (base dir) root []
