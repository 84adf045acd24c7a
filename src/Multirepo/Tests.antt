-- ===== src/Multirepo/Tests.antt =====
-- Runs of the merge on two repositories, and its theorems at concrete inputs.
use mathlib.Core.List.{Memᴰ}
use quadsyncd.Base.{
  ℕ, ◌≡◌, refl, ◌↔◌, ◌⊎◌, none, List, [], ◌∷◌, ◌++◌, map, ok, All, nat_eq, text_eq,
}
use quadsyncd.Base.Text.{Text, str, text_code, split}
use quadsyncd.Base.Text.Order.{text_lt}
use quadsyncd.Base.Dict.{lookup, insert, keys}
use quadsyncd.Base.Sort.{sort_by, place}
use quadsyncd.Base.Keys.{IsAscending}
use quadsyncd.FilePath.{slash, dot, path_code, is_abs, join, join_parts, clean_parts}
use quadsyncd.FilePath.Clean.{IsName}
use quadsyncd.Quadlet.{is_quadlet_file, unit_name_from_quadlet}
use quadsyncd.Config.{RepoSpec, prefer_highest_priority, conflict_fail}
use quadsyncd.Multirepo.{
  RepoFile, RepoState, EffectiveItem, MergeResult, IndexedState, index_states, comes_before,
  item_of, add_candidate, add_files, add_states, resolve_conflict, resolve_key, resolve_keys,
  collisions, detect_unit_name_collisions, check_conflict_errors, merge, normalize_merge_key,
  has_drive,
}
use quadsyncd.Multirepo.Merge.{
  Outcome, merge-IsWinner, merge-keys, merge_prefer_total, merge_fail_iff,
}
use quadsyncd.Multirepo.Merge.Winner.{IsWinner, Provides}
use quadsyncd.Multirepo.Collisions.{detect_unit_name_collisions_iff, UnitsAgree}
use quadsyncd.Multirepo.MergeKey.{normalize_merge_key-IsName, normalize_merge_key-under}

-- What a run of the merge computes with.
unfoldable pub merge_code : Unit {0}
unfolding merge check_conflict_errors detect_unit_name_collisions collisions resolve_keys
    resolve_key resolve_conflict add_states add_files add_candidate item_of comes_before
    index_states is_quadlet_file unit_name_from_quadlet lookup insert keys sort_by place text_lt
    path_code text_code normalize_merge_key has_drive
merge_code = tt

abbrev spec : Text → ℕ → RepoSpec
spec url priority = record {
  url = url;
  ref = str "main";
  priority = priority;
  subdir = [];
  auth = none;
}

abbrev file_at : Text → Text → RepoFile
file_at key dir = record { merge_key = key; abs_path = dir ++ key }

abbrev low : RepoState
low = record {
  spec = spec (str "low") 1;
  commit = str "c1";
  files =
      file_at (str "web.container") (str "/low/") ∷ file_at (str "db.volume") (str "/low/") ∷ [];
}

abbrev high : RepoState
high = record {
  spec = spec (str "high") 7;
  commit = str "c2";
  files = file_at (str "web.container") (str "/high/") ∷ [];
}

abbrev two_states : List RepoState
two_states = low ∷ high ∷ []

abbrev expected : MergeResult
expected = record {
  items =
      record {
        merge_key = str "db.volume";
        abs_path = str "/low/db.volume";
        source_repo = str "low";
        source_ref = str "main";
        source_sha = str "c1";
      }
      ∷ record {
        merge_key = str "web.container";
        abs_path = str "/high/web.container";
        source_repo = str "high";
        source_ref = str "main";
        source_sha = str "c2";
      }
      ∷ [];
  conflicts =
      record {
        merge_key = str "web.container";
        winner = record {
          merge_key = str "web.container";
          abs_path = str "/high/web.container";
          source_repo = str "high";
          source_ref = str "main";
          source_sha = str "c2";
        };
        losers =
            record {
              merge_key = str "web.container";
              abs_path = str "/low/web.container";
              source_repo = str "low";
              source_ref = str "main";
              source_sha = str "c1";
            }
            ∷ [];
      }
      ∷ [];
}

merge_runs : merge two_states prefer_highest_priority ≡ ok expected
unfolding merge_code
merge_runs = refl

merge-IsWinner_example :
    All (λ x. IsWinner x.merge_key (index_states 0 two_states) x) expected.items
merge-IsWinner_example = merge-IsWinner two_states merge_runs

merge-keys_example :
    IsAscending (map (λ (x : EffectiveItem). x.merge_key) expected.items)
    × ((k : Text) (s : IndexedState) (x : EffectiveItem)
        → Memᴰ s (index_states 0 two_states)
        → Provides k s x
        → Memᴰ k (map (λ (y : EffectiveItem). y.merge_key) expected.items))
merge-keys_example = merge-keys two_states merge_runs

merge_prefer_total_example : Outcome two_states
merge_prefer_total_example = merge_prefer_total two_states

merge_fail_iff_example :
    (merge two_states conflict_fail ≡ ok expected)
    ↔ ((merge two_states prefer_highest_priority ≡ ok expected) × (expected.conflicts ≡ []))
merge_fail_iff_example = merge_fail_iff two_states expected

detect_unit_name_collisions_iff_example :
    (detect_unit_name_collisions expected.items ≡ ok tt)
    ↔ ((x y : EffectiveItem) → Memᴰ x expected.items → Memᴰ y expected.items → UnitsAgree x y)
detect_unit_name_collisions_iff_example = detect_unit_name_collisions_iff expected.items

key_runs : normalize_merge_key (str "a/./b.pod") ≡ ok (str "a/b.pod")
unfolding merge_code nat_eq text_eq
key_runs = refl

normalize_merge_key-IsName_example :
    (str "a/b.pod" ≡ dot) ⊎ All IsName (split slash (str "a/b.pod"))
normalize_merge_key-IsName_example = normalize_merge_key-IsName (str "a/./b.pod") key_runs

normalize_merge_key-under_example :
    (join (str "/q") (str "a/b.pod")
      ≡ slash ∷ join_parts (clean_parts (str "/q") ++ split slash (str "a/b.pod")))
    × All IsName (clean_parts (str "/q") ++ split slash (str "a/b.pod"))
unfolding is_abs nat_eq
normalize_merge_key-under_example =
    normalize_merge_key-under (str "/q") (str "a/./b.pod") refl key_runs (λ e. cc)
