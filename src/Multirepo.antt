-- ===== src/Multirepo.antt =====
-- internal/multirepo/multirepo.go: the files of the repositories, merged by priority.
pub mod MergeKey
pub mod Merge
pub mod Collisions
mod Tests
use mathlib.Core.Option
use quadsyncd.Base.{
  ℕ, zero, suc, ◌+◌, Bool, true, false, ◌||◌, Option, none, some, List, [], ◌∷◌, ◌++◌, map, Result,
  ok, err, ◌>>=◌, ◌>>◌, fail_if, wrap_err, ltb, ◌==◌, nat_eq, text_eq, if◌then◌else◌,
}
use quadsyncd.Base.Text.{Text, str, has_prefix}
use quadsyncd.Base.Text.Order.{text_lt}
use quadsyncd.Base.Dict.{Dict, lookup, insert, keys}
use quadsyncd.Base.Sort.{sort_by}
use quadsyncd.FilePath.{dot_dot, is_abs, clean, rel}
use quadsyncd.Quadlet.{is_quadlet_file, unit_name_from_quadlet}
use quadsyncd.Quadlet.Walk.{Node, WalkError, discover_all_files_with_symlink_check}
use quadsyncd.Config.{RepoSpec, ConflictMode, prefer_highest_priority, conflict_fail}

pub record RepoFile : Type 0 where
  pub merge_key : Text
  pub abs_path : Text

pub record RepoState : Type 0 where
  pub spec : RepoSpec
  pub commit : Text
  pub files : List RepoFile

pub record EffectiveItem : Type 0 where
  pub merge_key : Text
  pub abs_path : Text
  pub source_repo : Text
  pub source_ref : Text
  pub source_sha : Text

pub record Conflict : Type 0 where
  pub merge_key : Text
  pub winner : EffectiveItem
  pub losers : List EffectiveItem

pub record MergeResult : Type 0 where
  pub items : List EffectiveItem
  pub conflicts : List Conflict

pub data LoadError : Type 0 where
  checkout_failed : Text → LoadError
  walk_failed : WalkError → LoadError
  no_relative_path : Text → LoadError
  absolute_key drive_prefix key_traversal : LoadError
  unsafe_path : Text → LoadError → LoadError

-- The colon of a Windows drive, `x:`
unfoldable pub has_drive : Text → Bool
has_drive (a ∷ b ∷ rest) = b == b':'
has_drive _ = false

unfoldable pub normalize_merge_key : Text → Result LoadError Text
normalize_merge_key r = do
  fail_if (is_abs r) absolute_key
  fail_if (has_drive r) drive_prefix
  let cleaned = clean r
  fail_if (cleaned == dot_dot || has_prefix cleaned (str "../")) key_traversal
  ok cleaned

abbrev or_fail : Option Text → LoadError → Result LoadError Text
or_fail none e = err e
or_fail (some t) e = ok t

unfoldable pub repo_file : Text → Text → Result LoadError RepoFile
repo_file dir abs_path = do
  r ← or_fail (rel dir abs_path) (no_relative_path abs_path)
  key ← wrap_err (unsafe_path r) (normalize_merge_key r)
  ok (record { merge_key = key; abs_path = abs_path })

unfoldable pub repo_files : Text → List Text → Result LoadError (List RepoFile)
repo_files dir [] = ok []
repo_files dir (p ∷ ps) = do f ← repo_file dir p; fs ← repo_files dir ps; ok (f ∷ fs)

-- `root` is the tree that a walk meets at `dir`.
unfoldable pub load_repo_files : Text → Node → Result LoadError (List RepoFile)
load_repo_files dir root = do
  raw ← wrap_err walk_failed (discover_all_files_with_symlink_check dir root)
  repo_files dir raw

-- A state with its place in the argument of `Merge`.
pub record IndexedState : Type 0 where
  pub state : RepoState
  pub idx : ℕ

unfoldable pub index_states : ℕ → List RepoState → List IndexedState
index_states i [] = []
index_states i (s ∷ ss) = record { state = s; idx = i } ∷ index_states (i + 1) ss

-- Higher priority first, and the earlier state first among equals.
unfoldable pub comes_before : IndexedState → IndexedState → Bool
comes_before a b =
    let pa = a.state.spec.priority in
    let pb = b.state.spec.priority in if pa == pb then ltb a.idx b.idx else ltb pb pa

unfoldable pub item_of : RepoState → RepoFile → EffectiveItem
item_of s f = record {
  merge_key = f.merge_key;
  abs_path = f.abs_path;
  source_repo = s.spec.url;
  source_ref = s.spec.ref;
  source_sha = s.commit;
}

abbrev pub Candidates : Type 0
Candidates = Dict Text (List EffectiveItem)

-- `candidates[f.MergeKey] = append(candidates[f.MergeKey], ...)`
unfoldable pub add_candidate : EffectiveItem → Candidates → Candidates
add_candidate item d =
    insert item.merge_key (Option.get_or (lookup item.merge_key d) [] ++ item ∷ []) d

unfoldable pub add_files : RepoState → List RepoFile → Candidates → Candidates
add_files s [] d = d
add_files s (f ∷ fs) d = add_files s fs (add_candidate (item_of s f) d)

unfoldable pub add_states : List IndexedState → Candidates → Candidates
add_states [] d = d
add_states (s ∷ ss) d = add_states ss (add_files s.state s.state.files d)

pub data MergeError : Type 0 where
  unknown_mode : ConflictMode → MergeError
  same_path_conflicts : List Conflict → MergeError
  unit_name_collisions : List Text → MergeError
  -- an index out of range, where a key has no candidate
  no_candidate : MergeError

-- The variables of the loop over the keys.
pub record Progress : Type 0 where
  pub items : List EffectiveItem
  pub conflicts : List Conflict
  pub conflict_errors : List Conflict

abbrev pub no_progress : Progress
no_progress = record { items = []; conflicts = []; conflict_errors = [] }

unfoldable pub resolve_conflict : ConflictMode → Conflict → Progress → Result MergeError Progress
resolve_conflict conflict_fail c p =
    ok (record p {
      conflicts = p.conflicts ++ c ∷ [];
      conflict_errors = p.conflict_errors ++ c ∷ [];
    })
resolve_conflict prefer_highest_priority c p =
    ok (record p { conflicts = p.conflicts ++ c ∷ []; items = p.items ++ c.winner ∷ [] })
resolve_conflict mode c p = err (unknown_mode mode)

unfoldable pub resolve_key :
    ConflictMode → Text → Option (List EffectiveItem) → Progress → Result MergeError Progress
resolve_key mode key none p = err no_candidate
resolve_key mode key (some []) p = err no_candidate
resolve_key mode key (some (x ∷ [])) p = ok (record p { items = p.items ++ x ∷ [] })
resolve_key mode key (some (w ∷ l ∷ ls)) p =
    resolve_conflict mode (record { merge_key = key; winner = w; losers = l ∷ ls }) p

unfoldable pub resolve_keys :
    ConflictMode → Candidates → List Text → Progress → Result MergeError Progress
resolve_keys mode d [] p = ok p
resolve_keys mode d (k ∷ ks) p = resolve_key mode k (lookup k d) p >>= resolve_keys mode d ks

-- `unitMap` of `detectUnitNameCollisions`, without the repository that only the message names.
unfoldable pub collisions : Dict Text Text → List EffectiveItem → List Text
collisions unit_map [] = []
collisions unit_map (item ∷ items) =
    let unit_name = unit_name_from_quadlet item.merge_key in
    let skipped = collisions unit_map items in
    let first = collisions (insert unit_name item.merge_key unit_map) items in
    if is_quadlet_file item.merge_key
    then elim (lookup unit_name unit_map) [
      | none ↦ first
      | some seen ↦ if seen == item.merge_key then skipped else unit_name ∷ skipped
    ]
    else skipped

unfoldable pub detect_unit_name_collisions : List EffectiveItem → Result MergeError (Unit {0})
detect_unit_name_collisions items = elim (collisions [] items) [
  | [] ↦ ok tt
  | c ∷ cs ↦ err (unit_name_collisions (c ∷ cs))
]

-- `conflictMode == config.ConflictFail && len(conflictErrors) > 0`
unfoldable pub check_conflict_errors : ConflictMode → List Conflict → Result MergeError (Unit {0})
check_conflict_errors conflict_fail (c ∷ cs) = err (same_path_conflicts (c ∷ cs))
check_conflict_errors mode cs = ok tt

unfoldable pub merge : List RepoState → ConflictMode → Result MergeError MergeResult
merge states mode = do
  let indexed = sort_by comes_before (index_states 0 states)
  let candidates = add_states indexed []
  p ← resolve_keys mode candidates (sort_by text_lt (keys candidates)) no_progress
  check_conflict_errors mode p.conflict_errors
  detect_unit_name_collisions p.items
  ok (record { items = p.items; conflicts = p.conflicts })
