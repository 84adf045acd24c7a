-- ===== src/Quadlet/Walk/Leaves.antt =====
-- The walks against a description with no callbacks: the leaves below a directory in order, and
-- one pass over them.
use mathlib.Core.Path.{fun_ext}
use mathlib.Core.List.{append-nil, append_assoc}
use quadsyncd.Base.{
  ◌≡◌, refl, sym, ap, ◌∙◌, ◌↔◌, All, Bool, true, false, List, [], ◌∷◌, ◌++◌, arith, Result, ok, err,
  ◌>>=◌, text_eq, if◌then◌else◌,
}
use quadsyncd.Base.Text.{Text}
use quadsyncd.FilePath.{base, join}
use quadsyncd.Quadlet.Walk.{
  Node, regular, symlink, unreadable, directory, Entries, nil, entry, WalkError, read_failed,
  symlink_found, Visitor, is_hidden, walk_node, walk_entries, visit_all, visit_checked,
  discover_all_files, discover_all_files_with_symlink_check,
}

pub data Kind : Type 0 where
  file link closed : Kind

-- What has no hidden element on its path below `dir`: files, links, and directories that cannot
-- be read.
unfoldable mutual
  pub leaves_node : Text → Text → Text → Node → List (Text × Kind)
  leaves_node dir path name regular = if is_hidden dir path name then [] else (path, file) ∷ []
  leaves_node dir path name symlink = if is_hidden dir path name then [] else (path, link) ∷ []
  leaves_node dir path name unreadable = if is_hidden dir path name then [] else (path, closed) ∷ []
  leaves_node dir path name (directory es) =
      let below = leaves_entries dir path es in if is_hidden dir path name then [] else below

  pub leaves_entries : Text → Text → Entries → List (Text × Kind)
  leaves_entries dir path nil = []
  leaves_entries dir path (entry name n es) =
      leaves_node dir (join path name) name n ++ leaves_entries dir path es

unfoldable pub leaves : Text → Node → List (Text × Kind)
leaves dir root = leaves_node dir dir (base dir) root

-- One pass over the leaves: the first unreadable directory ends it, and so does the first link
-- where links are checked.
unfoldable pub pass : Bool → List (Text × Kind) → List Text → Result WalkError (List Text)
pass check [] files = ok files
pass check ((p, file) ∷ ls) files = pass check ls (files ++ p ∷ [])
pass true ((p, link) ∷ ls) files = err (symlink_found p)
pass false ((p, link) ∷ ls) files = pass false ls (files ++ p ∷ [])
pass check ((p, closed) ∷ ls) files = err (read_failed p)

pass-append :
    (check : Bool) (ls ms : List (Text × Kind)) (files : List Text)
    → pass check (ls ++ ms) files ≡ (pass check ls files >>= pass check ms)
unfolding pass
pass-append check [] ms files = refl
pass-append check ((p, file) ∷ ls) ms files = pass-append check ls ms (files ++ p ∷ [])
pass-append true ((p, link) ∷ ls) ms files = refl
pass-append false ((p, link) ∷ ls) ms files = pass-append false ls ms (files ++ p ∷ [])
pass-append check ((p, closed) ∷ ls) ms files = refl

-- The callback of one of the two walks.
abbrev visitor : Bool → Text → Visitor
visitor true = visit_checked
visitor false = visit_all

mutual
  unfolding walk_node visit_all visit_checked leaves_node pass

  walk_node-pass :
      (check : Bool) (dir path name : Text) (n : Node) (files : List Text)
      → walk_node (visitor check dir) path name n files
        ≡ pass check (leaves_node dir path name n) files
  walk_node-pass true dir path name regular files = ground arith
  walk_node-pass false dir path name regular files = ground arith
  walk_node-pass true dir path name symlink files = ground arith
  walk_node-pass false dir path name symlink files = ground arith
  walk_node-pass true dir path name unreadable files = ground arith
  walk_node-pass false dir path name unreadable files = ground arith
  walk_node-pass true dir path name (directory es) files =
      ground (arith, walk_entries-pass true dir path es files)
  walk_node-pass false dir path name (directory es) files =
      ground (arith, walk_entries-pass false dir path es files)

  walk_entries-pass :
      (check : Bool) (dir path : Text) (es : Entries) (files : List Text)
      → walk_entries (visitor check dir) path es files
        ≡ pass check (leaves_entries dir path es) files
  walk_entries-pass check dir path nil files = refl
  walk_entries-pass check dir path (entry name n es) files =
      rw (walk_node-pass check dir (join path name) name n files, pass-append)
        (ap (λ k. pass check (leaves_node dir (join path name) name n) files >>= k)
          (fun_ext λ fs. walk_entries-pass check dir path es fs))

-- The walk that refuses links lists the leaves in order, up to the first link or unreadable
-- directory, which is its error.
pub discover_checked-pass :
    (dir : Text) (root : Node)
    → discover_all_files_with_symlink_check dir root ≡ pass true (leaves dir root) []
unfolding discover_all_files_with_symlink_check leaves
discover_checked-pass dir root = walk_node-pass true dir dir (base dir) root []

unfoldable pub paths_of : List (Text × Kind) → List Text
paths_of [] = []
paths_of ((p, k) ∷ ls) = p ∷ paths_of ls

pass_ok :
    (ls : List (Text × Kind)) (files fs : List Text)
    → pass true ls files ≡ ok fs
    → All (λ l. l.1 ≡ file) ls × (fs ≡ files ++ paths_of ls)
unfolding pass paths_of
pass_ok [] files fs h = (tt, rw append-nil (cc))
pass_ok ((p, file) ∷ ls) files fs h =
    let (all, e) = pass_ok ls (files ++ p ∷ []) fs h in
    ((refl, all), e ∙ append_assoc files (p ∷ []) (paths_of ls))
pass_ok ((p, link) ∷ ls) files fs h = cc
pass_ok ((p, closed) ∷ ls) files fs h = cc

ok_pass :
    (check : Bool) (ls : List (Text × Kind)) (files : List Text)
    → All (λ l. l.1 ≡ file) ls
    → pass check ls files ≡ ok (files ++ paths_of ls)
unfolding pass paths_of
ok_pass check [] files h = rw append-nil
ok_pass check ((p, file) ∷ ls) files h =
    ok_pass check ls (files ++ p ∷ []) h.1 ∙ ap ok (append_assoc files (p ∷ []) (paths_of ls))
ok_pass check ((p, link) ∷ ls) files h = cc (h.0)
ok_pass check ((p, closed) ∷ ls) files h = cc (h.0)

-- The walk that refuses links succeeds exactly when every leaf below the root is a plain file,
-- and then its result is the leaves' paths in their order.
pub discover_checked_iff :
    (dir : Text) (root : Node) (fs : List Text)
    → (discover_all_files_with_symlink_check dir root ≡ ok fs)
      ↔ (All (λ l. l.1 ≡ file) (leaves dir root) × (fs ≡ paths_of (leaves dir root)))
discover_checked_iff dir root fs = (
  λ h. pass_ok (leaves dir root) [] fs (rw (discover_checked-pass dir root) at h),
  λ h. discover_checked-pass dir root ∙ ok_pass true (leaves dir root) [] h.0 ∙ ap ok (sym h.1),
)

-- Where the walk that refuses links succeeds, the plain walk gives the same files.
pub discover_all_of_checked :
    (dir : Text) (root : Node) (fs : List Text)
    → discover_all_files_with_symlink_check dir root ≡ ok fs
    → discover_all_files dir root ≡ ok fs
discover_all_of_checked dir root fs h =
    let (all, e) = (discover_checked_iff dir root fs).0 h in
    unfold discover_all_files leaves in
    walk_node-pass false dir dir (base dir) root []
    ∙ ok_pass false (leaves dir root) [] all
    ∙ ap ok (sym e)
