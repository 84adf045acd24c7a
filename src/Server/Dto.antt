-- ===== src/Server/Dto.antt =====
-- internal/server/dto: the shapes of the API's answers, and how they are made from the run store's.
use quadsyncd.Base.{ℕ, Bool, Option, none, some, List, [], map}
use quadsyncd.Base.Text.{Text, str}
use quadsyncd.Base.Dict.{Dict}
use quadsyncd.Runstore.{
  RunKind, sync_run, plan_run, RunStatus, running, success, failure, TriggerSource, timer, cli,
  webhook, startup, ui, EffectiveItemSummary, ConflictSummary, RunMeta, PlanOp, RunPlan,
}

pub record EffectiveItemResponse : Type 0 where
  pub merge_key : Text
  pub source_repo : Text
  pub source_ref : Text
  pub source_sha : Text

pub record ConflictResponse : Type 0 where
  pub merge_key : Text
  pub winner : EffectiveItemResponse
  pub losers : List EffectiveItemResponse

pub record RunResponse : Type 0 where
  pub id : Text
  pub kind : Text
  pub trigger : Text
  pub started_at : Text
  pub ended_at : Text
  pub status : Text
  pub dry_run : Bool
  pub revisions : Dict Text Text
  pub conflicts : List ConflictResponse
  pub summary : Dict Text ℕ
  pub error : Text

pub record RunsListResponse : Type 0 where
  pub items : List RunResponse
  pub next_cursor : Text

pub record PlanOpResponse : Type 0 where
  pub op : Text
  pub path : Text
  pub unit : Text
  pub source_repo : Text
  pub source_ref : Text
  pub source_sha : Text
  pub before_path : Text
  pub after_path : Text

pub record PlanRequestResponse : Type 0 where
  pub repo_url : Text
  pub ref : Text
  pub commit : Text

pub record PlanResponse : Type 0 where
  pub requested : PlanRequestResponse
  pub conflicts : List ConflictResponse
  pub ops : List PlanOpResponse

pub record PlanTriggerResponse : Type 0 where
  pub run_id : Text
  pub status : Text
  pub error : Text

pub record OverviewRepo : Type 0 where
  pub url : Text
  pub ref : Text
  pub sha : Text

pub record OverviewResponse : Type 0 where
  pub repositories : List OverviewRepo
  pub last_run_id : Text
  pub last_run_status : Text

pub record LogsResponse (L : Type 0) : Type 0 where
  pub items : List L
  pub next_cursor : Text

-- `string(m.Kind)`, `string(m.Status)` and `string(m.Trigger)`: the constants of the run store
unfoldable pub kind_text : RunKind → Text
kind_text sync_run = str "sync"
kind_text plan_run = str "plan"

unfoldable pub status_text : RunStatus → Text
status_text running = str "running"
status_text success = str "success"
status_text failure = str "error"

unfoldable pub trigger_text : TriggerSource → Text
trigger_text timer = str "timer"
trigger_text cli = str "cli"
trigger_text webhook = str "webhook"
trigger_text startup = str "startup"
trigger_text ui = str "ui"

unfoldable pub item_response : EffectiveItemSummary → EffectiveItemResponse
item_response l = record {
  merge_key = l.merge_key;
  source_repo = l.source_repo;
  source_ref = l.source_ref;
  source_sha = l.source_sha;
}

unfoldable pub conflict_response_from_summary : ConflictSummary → ConflictResponse
unfolding item_response
conflict_response_from_summary c = record {
  merge_key = c.merge_key;
  winner = item_response c.winner;
  losers = map item_response c.losers;
}

abbrev pub op_response : PlanOp → PlanOpResponse
op_response op = record {
  op = op.op;
  path = op.path;
  unit = op.unit;
  source_repo = op.source_repo;
  source_ref = op.source_ref;
  source_sha = op.source_sha;
  before_path = op.before_path;
  after_path = op.after_path;
}

unfoldable pub plan_response_from_plan : RunPlan → PlanResponse
unfolding conflict_response_from_summary
plan_response_from_plan p = record {
  requested = record {
    repo_url = p.requested.repo_url;
    ref = p.requested.ref;
    commit = p.requested.commit;
  };
  conflicts = map conflict_response_from_summary p.conflicts;
  ops = map op_response p.ops;
}

-- `Format(time.RFC3339Nano)` is the parameter `format_time`.
module _ (format_time : ℕ → Text) where
  abbrev pub format_option : Option ℕ → Text
  format_option none = []
  format_option (some t) = format_time t

  unfoldable pub run_response_from_meta : RunMeta → RunResponse
  unfolding conflict_response_from_summary kind_text status_text trigger_text
  run_response_from_meta m = record {
    id = m.id;
    kind = kind_text m.kind;
    trigger = trigger_text m.trigger;
    started_at = format_time m.started_at;
    ended_at = format_option m.ended_at;
    status = status_text m.status;
    dry_run = m.dry_run;
    revisions = m.revisions;
    conflicts = map conflict_response_from_summary m.conflicts;
    summary = m.summary;
    error = m.error;
  }

  unfoldable pub runs_list_response_from_metas : List RunMeta → Text → RunsListResponse
  runs_list_response_from_metas runs next_cursor = record {
    items = map run_response_from_meta runs;
    next_cursor = next_cursor;
  }
