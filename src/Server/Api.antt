-- ===== src/Server/Api.antt =====
-- internal/server/api.go: the handlers below `/api/`.
pub mod Runs
pub mod Routes
use mathlib.Core.Option
use quadsyncd.Base.{
  ℕ, Bool, true, false, not, ◌&&◌, ◌||◌, Option, none, some, List, [], ◌∷◌, map, keep, length, ltb,
  contains, Result, ok, err, ◌==◌, ◌/=◌, if◌then◌else◌, text_eq, nat_eq,
}
use quadsyncd.Base.Text.{Text, str, cut_prefix, cut_suffix, contains_text}
use quadsyncd.Base.Text.Order.{text_lt}
use quadsyncd.Base.Decimal.{pos, negsuc, atoi}
use quadsyncd.Base.Dict.{Dict, lookup}
use quadsyncd.Base.Sort.{sort_by}
use quadsyncd.Os.{Env, Disk, read_file}
use quadsyncd.Config.{Config, RepoSpec, effective_repositories, state_file_path}
use quadsyncd.Quadlet.{is_quadlet_file, unit_name_from_quadlet}
use quadsyncd.Sync.{State, ManagedFile, empty_state}
use quadsyncd.Runstore.{RunMeta, StoreError, run_not_found, plan_not_found}
use quadsyncd.Runstore.Store.{Tree, Codec, get, list, read_log, read_plan}
use quadsyncd.Server.Paging.{paginate_slice, decode_cursor}
use quadsyncd.Server.Http.{Request, Writer, Response, stream, text, set_header, write_json}
use quadsyncd.Server.Middleware.{lower_byte}
use quadsyncd.Server.Dto.{
  RunResponse, RunsListResponse, LogsResponse, PlanResponse, OverviewRepo, OverviewResponse,
  PlanTriggerResponse, status_text, run_response_from_meta, runs_list_response_from_metas,
  plan_response_from_plan,
}

pub record UnitInfo : Type 0 where
  pub name : Text
  pub source_path : Text
  pub source_repo : Text
  pub source_ref : Text
  pub source_sha : Text
  pub hash : Text

pub record UnitsResponse : Type 0 where
  pub items : List UnitInfo

pub record TimerInfo : Type 0 where
  pub unit : Text
  pub active : Bool

-- The values that are encoded as JSON.
pub data Json (L : Type 0) : Type 0 where
  error_response : Text → Json L
  overview : OverviewResponse → Json L
  runs_list : RunsListResponse → Json L
  run_detail : RunResponse → Json L
  logs : LogsResponse L → Json L
  run_plan : PlanResponse → Json L
  units : UnitsResponse → Json L
  timer_info : TimerInfo → Json L
  plan_triggered : PlanTriggerResponse → Json L

-- The two layouts of `time.Parse`, with 0 for the zero time, the strings among the values of a log
-- record, the JSON library for the state, and the status that systemd gives a unit.
pub record ApiEnv (L : Type 0) : Type 0 where
  pub format_time : ℕ → Text
  pub parse_nano : Text → Option ℕ
  pub parse_seconds : Text → Option ℕ
  pub string_field : L → Text → Option Text
  pub unmarshal_state : Text → Option State
  pub unit_status : Text → Text

abbrev pub field_or_empty : Option Text → Text
field_or_empty none = []
field_or_empty (some t) = t

-- `strings.ToLower` for ASCII
unfoldable pub to_lower : Text → Text
unfolding lower_byte
to_lower t = map lower_byte t

-- A limit as given, its default and its bound.
unfoldable pub limit_of : ℕ → ℕ → Text → ℕ
limit_of default bound given =
    let n : ℕ = if given == [] then default else elim (atoi given) [
      | none ↦ default
      | some i ↦ elim i [ pos n ↦ if ltb 0 n then n else default | negsuc n ↦ default ]
    ] in
    if ltb bound n then bound else n

unfoldable pub write_json_error : {L : Type 0} → Writer → ℕ → Text → Response (Json L)
write_json_error w status message = write_json w status (error_response message)

-- Any error of `Get` but a run that is not there is an internal one.
abbrev pub get_error : {L : Type 0} → Writer → StoreError → Response (Json L)
get_error w run_not_found = write_json_error w 404 (str "run not found")
get_error w other = write_json_error w 500 (str "failed to get run")

abbrev pub plan_error : {L : Type 0} → Writer → StoreError → Response (Json L)
plan_error w plan_not_found = write_json_error w 404 (str "plan not found for run")
plan_error w other = write_json_error w 500 (str "failed to read plan")

abbrev pub overview_repo : State → ℕ → RepoSpec → OverviewRepo
overview_repo state count spec =
    let known = field_or_empty (lookup spec.url state.revisions) in
    record {
      url = spec.url;
      ref = spec.ref;
      sha = if known == [] && state.commit /= [] && count == 1 then state.commit else known;
    }

unfoldable pub unit_infos : Dict Text ManagedFile → List UnitInfo
unit_infos [] = []
unit_infos ((dest_path, mf) ∷ files) =
    let rest = unit_infos files in
    if is_quadlet_file dest_path
    then record {
      name = unit_name_from_quadlet dest_path;
      source_path = mf.source_path;
      source_repo = mf.source_repo;
      source_ref = mf.source_ref;
      source_sha = mf.source_sha;
      hash = mf.hash;
    }
      ∷ rest
    else rest

-- The query of a request for logs.
pub record LogQuery : Type 0 where
  pub level : Text
  pub component : Text
  pub q : Text
  pub since : ℕ

module _ {L : Type 0} (a : ApiEnv L) where
  -- The first layout that fits, or the zero time.
  unfoldable pub parse_time : Text → ℕ
  parse_time given = elim (a.parse_nano given) [
    | some t ↦ t
    | none ↦ elim (a.parse_seconds given) [ some t ↦ t | none ↦ 0 ]
  ]

  abbrev pub is_recent : ℕ → Option Text → Bool
  is_recent since none = true
  is_recent since (some given) = let t = parse_time given in t == 0 || ltb since t

  -- The tests of the loop in `handleRunLogs`, one `continue` each.
  unfoldable pub keeps_record : LogQuery → L → Bool
  keeps_record query rec =
      (query.level == []
        || to_lower (field_or_empty (a.string_field rec (str "level"))) == query.level)
      && (query.component == []
          || contains_text (field_or_empty (a.string_field rec (str "component"))) query.component)
      && (query.q == [] || contains_text (field_or_empty (a.string_field rec (str "msg"))) query.q)
      && (query.since == 0 || is_recent query.since (a.string_field rec (str "time")))

  unfoldable pub log_query : Request → LogQuery
  log_query r = record {
    level = to_lower (r.query (str "level"));
    component = r.query (str "component");
    q = r.query (str "q");
    since = if r.query (str "since") == [] then 0 else parse_time (r.query (str "since"));
  }

module _ (e : Env) (h : Codec) (base_dir : Text) (a : ApiEnv h.LogRecord) (cfg : Config) where
  -- A state file that cannot be read or parsed gives the zero state.
  unfoldable pub load_sync_state : Disk → State
  load_sync_state disk = elim (read_file e (state_file_path cfg) disk) [
    | err x ↦ empty_state
    | ok content ↦ Option.get_or (a.unmarshal_state content) empty_state
  ]

  abbrev pub last_run : Result StoreError (List RunMeta) → Text × Text
  last_run (err x) = ([], [])
  last_run (ok []) = ([], [])
  last_run (ok (m ∷ ms)) = (m.id, status_text m.status)

  unfoldable pub handle_overview : Writer → Tree → Response (Json h.LogRecord)
  handle_overview w t =
      let repos = effective_repositories cfg in
      let state = load_sync_state t.disk in
      let last = last_run (list e h base_dir t) in
      write_json w 200 (
        overview (record {
          repositories = map (overview_repo state (length repos)) repos;
          last_run_id = last.0;
          last_run_status = last.1;
        }))

  unfoldable pub handle_runs : Request → Writer → Tree → Response (Json h.LogRecord)
  handle_runs r w t =
      let limit = limit_of 20 100 (r.query (str "limit")) in
      let offset = decode_cursor (r.query (str "cursor")) in
      elim (list e h base_dir t) [
        | err x ↦ write_json_error w 500 (str "failed to list runs")
        | ok runs ↦
            let page = paginate_slice runs offset limit in
            write_json w 200 (runs_list (runs_list_response_from_metas a.format_time page.0 page.1))
      ]

  unfoldable pub handle_run_detail : Text → Writer → Tree → Response (Json h.LogRecord)
  handle_run_detail id w t = elim (get e h base_dir id t) [
    | err x ↦ get_error w x
    | ok meta ↦ write_json w 200 (run_detail (run_response_from_meta a.format_time meta))
  ]

  unfoldable pub handle_run_logs : Text → Request → Writer → Tree → Response (Json h.LogRecord)
  handle_run_logs id r w t = elim (get e h base_dir id t) [
    | err x ↦ get_error w x
    | ok meta ↦
        let limit = limit_of 100 1000 (r.query (str "limit")) in
        let offset = decode_cursor (r.query (str "cursor")) in
        elim (read_log e h base_dir id t) [
          | err x ↦ write_json_error w 500 (str "failed to read logs")
          | ok records ↦
              let filtered = keep (keeps_record a (log_query a r)) records in
              let page = paginate_slice filtered offset limit in
              write_json w 200 (logs (record { items = page.0; next_cursor = page.1 }))
        ]
  ]

  unfoldable pub handle_run_plan : Text → Writer → Tree → Response (Json h.LogRecord)
  handle_run_plan id w t = elim (get e h base_dir id t) [
    | err x ↦ get_error w x
    | ok meta ↦ elim (read_plan e h base_dir id t) [
      | err x ↦ plan_error w x
      | ok p ↦ write_json w 200 (run_plan (plan_response_from_plan p))
    ]
  ]

  abbrev pub unit_before : UnitInfo → UnitInfo → Bool
  unit_before x y = text_lt x.name y.name

  unfoldable pub handle_units : Writer → Tree → Response (Json h.LogRecord)
  handle_units w t =
      let state = load_sync_state t.disk in
      write_json w 200
        (units (record { items = sort_by unit_before (unit_infos state.managed_files) }))

  unfoldable pub handle_timer : Writer → Response (Json h.LogRecord)
  handle_timer w =
      let unit = str "quadsyncd-sync.timer" in
      write_json w 200
        (timer_info (record { unit = unit; active = a.unit_status unit == str "active" }))

  -- The headers of the stream; its events are those of the broadcaster.
  unfoldable pub handle_events : Writer → Response (Json h.LogRecord)
  handle_events w = record {
    status = 200;
    writer = set_header (str "X-Accel-Buffering") (str "no") (
        set_header (str "Connection") (str "keep-alive") (
          set_header (str "Cache-Control") (str "no-cache")
            (set_header (str "Content-Type") (str "text/event-stream") w)));
    body = stream;
  }
