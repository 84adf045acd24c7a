-- ===== src/Runstore.antt =====
-- internal/runstore/runstore.go: the types of the runs, and the checks of identifiers and names.
pub mod Store
pub mod Names
pub mod Prune
mod Tests
use quadsyncd.Base.{
  ℕ, Bool, true, false, not, Option, none, some, List, [], ◌∷◌, ◌++◌, map, Result, ok, err, ◌>>=◌,
  ◌>>◌, fail_if, ◌==◌, ◌/=◌, if◌then◌else◌, text_eq,
}
use quadsyncd.Base.Text.{Text, str, split}
use quadsyncd.Base.Dict.{Dict}
use quadsyncd.FilePath.{base, join}
use quadsyncd.Multirepo.{EffectiveItem, Conflict}

pub data RunKind : Type 0 where
  sync_run plan_run : RunKind

pub data RunStatus : Type 0 where
  running success failure : RunStatus

pub data TriggerSource : Type 0 where
  timer cli webhook startup ui : TriggerSource

pub record EffectiveItemSummary : Type 0 where
  pub merge_key : Text
  pub source_repo : Text
  pub source_ref : Text
  pub source_sha : Text

pub record ConflictSummary : Type 0 where
  pub merge_key : Text
  pub winner : EffectiveItemSummary
  pub losers : List EffectiveItemSummary

-- Times are nanoseconds since a fixed start.
pub record RunMeta : Type 0 where
  pub id : Text
  pub kind : RunKind
  pub trigger : TriggerSource
  pub started_at : ℕ
  pub ended_at : Option ℕ
  pub status : RunStatus
  pub dry_run : Bool
  pub revisions : Dict Text Text
  pub conflicts : List ConflictSummary
  pub summary : Dict Text ℕ
  pub error : Text

pub record PlanRequest : Type 0 where
  pub repo_url : Text
  pub ref : Text
  pub commit : Text

pub record PlanOp : Type 0 where
  pub op : Text
  pub path : Text
  pub unit : Text
  pub source_repo : Text
  pub source_ref : Text
  pub source_sha : Text
  pub before_path : Text
  pub after_path : Text

pub record RunPlan : Type 0 where
  pub requested : PlanRequest
  pub conflicts : List ConflictSummary
  pub ops : List PlanOp

pub data StoreError : Type 0 where
  run_not_found plan_not_found artifact_not_found bad_artifact_name bad_run_id : StoreError
  encode_failed decode_failed read_failed write_failed mkdir_failed log_line_too_long : StoreError

-- `NewStore`
unfoldable pub runs_dir : Text → Text
runs_dir base_dir = join base_dir (str "runs")

-- The checks that `safeRunDir` and `validateArtifactName` share.
unfoldable pub is_single_element : Text → Bool
is_single_element [] = false
is_single_element (c ∷ cs) = base (c ∷ cs) == c ∷ cs

unfoldable pub safe_run_dir : Text → Text → Result StoreError Text
safe_run_dir base_dir id = if is_single_element id then ok (join base_dir id) else err run_not_found

unfoldable pub validate_artifact_name : Text → Result StoreError (Unit {0})
validate_artifact_name name = fail_if (not (is_single_element name)) bad_artifact_name

-- `WorkDirForRun`
unfoldable pub work_dir_for_run : Text → Text → Result StoreError Text
work_dir_for_run base_dir id = do
  run_dir ← safe_run_dir base_dir id
  ok (join run_dir (str "workdir"))

-- `time.Parse` with the layout of the identifiers is the parameter `parse_time`.
unfoldable pub parse_run_id_timestamp : (Text → Option ℕ) → Text → Option ℕ
parse_run_id_timestamp parse_time id = elim (split b'-' id) [
  | [] ↦ none
  | date_part ∷ rest ↦ elim rest [
    | [] ↦ none
    | time_part ∷ more ↦ parse_time (date_part ++ time_part)
  ]
]

unfoldable pub item_summary : EffectiveItem → EffectiveItemSummary
item_summary item = record {
  merge_key = item.merge_key;
  source_repo = item.source_repo;
  source_ref = item.source_ref;
  source_sha = item.source_sha;
}

unfoldable pub conflict_summary_from_multirepo : Conflict → ConflictSummary
conflict_summary_from_multirepo c = record {
  merge_key = c.merge_key;
  winner = item_summary c.winner;
  losers = map item_summary c.losers;
}
