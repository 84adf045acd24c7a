-- ===== src/Server/Tests/Events.antt =====
-- The broadcaster and the debouncer step by step, and the pages of one run.
use mathlib.Core.List.{Memᴰ}
use quadsyncd.Base.{
  ℕ, ◌≤◌, ◌≡◌, refl, ap, true, false, none, some, [], ◌∷◌, ◌++◌, ok, length, All, text_eq, nat_eq,
  arith,
}
use quadsyncd.Base.Text.{Text, str, text_code, split, trim_suffix, cut_suffix}
use quadsyncd.Base.Dict.{lookup}
use quadsyncd.Base.Sort.{sort_by, place}
use quadsyncd.FilePath.{path_code, dir_of, to_last_slash}
use quadsyncd.Os.{Env, Disk, File, read_file, open_source}
use quadsyncd.Config.{Config, restart_changed, prefer_highest_priority}
use quadsyncd.Runstore.{RunMeta, sync_run, running, cli, is_single_element, safe_run_dir}
use quadsyncd.Runstore.Store.{Codec, Tree, list, load_runs, run_names, get, log_path}
use quadsyncd.Server.Http.{Request, fresh_writer}
use quadsyncd.Server.Dto.{RunsListResponse, run_response_from_meta}
use quadsyncd.Server.Api.{ApiEnv, handle_runs}
use quadsyncd.Server.Api.Runs.{collect_runs, page_of, asks, collect_runs_complete}
use quadsyncd.Server.Broadcaster.{
  RunTrackState, subscribe, new_broadcaster, poll, observe_log, read_new_log_lines, scan_records,
  drop_last_empty,
}
use quadsyncd.Server.Broadcaster.LogLines.{LogLine, IsLine, streamed, streamed_complete}
use quadsyncd.Server.Broadcaster.Bounds.{Buffered, unused, used, joins, broadcaster_bounded}
use quadsyncd.Server.Broadcaster.Once.{StartsFirst, starts, plans, observed, observed_once}
use quadsyncd.Server.Debounce.{
  Clockwork, requested, request, debounce, expire, call_back, Ticks, begin, tick, arrive, pass,
  ring, act,
}
use quadsyncd.Server.Debounce.Served.{requests, calls, Answered, debounce_serves}

abbrev env : Env
env = record {
  fails = λ call path. false;
  temp_name = λ disk directory. directory ++ str "/.tmp";
  sha256 = λ content. content;
}

abbrev meta : RunMeta
meta = record {
  id = str "r1";
  kind = sync_run;
  trigger = cli;
  started_at = 5;
  ended_at = none;
  status = running;
  dry_run = false;
  revisions = [];
  conflicts = [];
  summary = [];
  error = [];
}

abbrev codec : Codec
codec = record {
  LogRecord = Text;
  marshal_meta = λ m. none;
  unmarshal_meta = λ text. some meta;
  marshal_plan = λ p. none;
  unmarshal_plan = λ text. none;
  unmarshal_record = λ text. some text;
  parse_time = λ text. none;
  mod_time = λ path. none;
  generate_run_id = some (str "r1");
}

abbrev file : Text → File
file content = record { content = content; mode = 0o600 }

abbrev first_line : LogLine env codec
first_line = (str "a", str "a")

abbrev second_line : LogLine env codec
second_line = (str "b", str "b")

first-IsLine : IsLine env codec first_line
first-IsLine = (
  (omega arith, tt),
  (omega arith, tt),
  λ e. (let n : ◌≡◌ {A = ℕ} 1 0 = ap length e in omega (arith, n)),
  omega arith,
  refl,
)

second-IsLine : IsLine env codec second_line
second-IsLine = (
  (omega arith, tt),
  (omega arith, tt),
  λ e. (let n : ◌≡◌ {A = ℕ} 1 0 = ap length e in omega (arith, n)),
  omega arith,
  refl,
)

abbrev log_disk : Text → Disk
log_disk content = (log_path (str "/r/r1"), file content) ∷ []

log_there :
    (content : Text) → lookup (log_path (str "/r/r1")) (log_disk content) ≡ some (file content)
unfolding lookup path_code text_code text_eq nat_eq
log_there content = refl

-- A line before the first poll, nothing before the second, and a line before the third.
streamed_complete_example :
    streamed env codec
      (str "r1")
      (str "/r/r1")
      (log_disk (str "a\n") ∷ log_disk (str "a\n") ∷ log_disk (str "a\nb\n") ∷ [])
      (record { status = running; log_offset = 0; plan_ready = false })
    ≡ str "a" ∷ str "b" ∷ []
streamed_complete_example =
    streamed_complete env codec (str "r1") (str "/r/r1")
      (log_disk (str "a\n") ∷ log_disk (str "a\n") ∷ log_disk (str "a\nb\n") ∷ [])
      (record { status = running; log_offset = 0; plan_ready = false }) []
      (first_line ∷ second_line ∷ []) refl
      (
        first_line ∷ [],
        second_line ∷ [],
        refl,
        (first-IsLine, tt),
        (file (str "a\n"), log_there (str "a\n"), refl, refl, refl, refl),
        (
          [],
          second_line ∷ [],
          refl,
          tt,
          (file (str "a\n"), log_there (str "a\n"), refl, refl, refl, refl),
          (
            second_line ∷ [],
            [],
            refl,
            (second-IsLine, tt),
            (file (str "a\nb\n"), log_there (str "a\nb\n"), refl, refl, refl, refl),
            refl,
          ),
        ),
      )

-- The last line is read before its end is written: the offset is behind it then, and the rest of the
-- line is lost.
partial_line :
    streamed env codec
      (str "r1")
      (str "/r/r1")
      (log_disk (str "a\nb") ∷ log_disk (str "a\nbc\n") ∷ [])
      (record { status = running; log_offset = 0; plan_ready = false })
    ≡ str "a" ∷ str "b" ∷ []
unfolding streamed observe_log read_new_log_lines scan_records drop_last_empty split trim_suffix
    cut_suffix lookup path_code text_code text_eq nat_eq
partial_line = refl

abbrev runs : Tree
runs = record {
  dirs = str "/r/r1" ∷ str "/r" ∷ [];
  disk = (str "/r/r1/meta.json", file (str "{}")) ∷ log_disk (str "a\n");
}

broadcaster_bounded_example :
    Buffered (poll env codec (str "/r") runs (subscribe 1 new_broadcaster)).subs
    × All
        (λ (s : Text × RunTrackState). Memᴰ s.0 (run_names env codec (str "/r") runs.dirs))
        (poll env codec (str "/r") runs (subscribe 1 new_broadcaster)).states
unfolding path_code text_code text_eq nat_eq
broadcaster_bounded_example =
    broadcaster_bounded env codec (str "/r") (subscribe 1 new_broadcaster) runs
      (used unused (joins 1)) refl refl

observed_once_example :
    StartsFirst (observed env codec (str "r1") (str "/r/r1") (runs.disk ∷ runs.disk ∷ []) none)
    × (starts (observed env codec (str "r1") (str "/r/r1") (runs.disk ∷ runs.disk ∷ []) none) ≤ 1)
    × (plans (observed env codec (str "r1") (str "/r/r1") (runs.disk ∷ runs.disk ∷ []) none) ≤ 1)
observed_once_example =
    observed_once env codec (str "r1") (str "/r/r1") (runs.disk ∷ runs.disk ∷ [])

abbrev api : ApiEnv Text
api = record {
  format_time = λ t. [];
  parse_nano = λ t. none;
  parse_seconds = λ t. none;
  string_field = λ r name. none;
  unmarshal_state = λ t. none;
  unit_status = λ name. str "active";
}

listed : list env codec (str "/r") runs ≡ ok (meta ∷ [])
unfolding list load_runs run_names get safe_run_dir is_single_element read_file open_source sort_by
    place lookup dir_of to_last_slash path_code text_code text_eq nat_eq
listed = refl

abbrev cfg : Config
cfg = record {
  repository = none;
  repositories = [];
  paths = record { quadlet_dir = str "/q"; state_dir = str "/s" };
  sync = record {
    prune = true;
    restart = restart_changed;
    conflict_handling = prefer_highest_priority;
  };
  auth = record { ssh_key_file = []; https_token_file = [] };
  serve = record {
    enabled = true;
    listen_addr = [];
    github_webhook_secret_file = [];
    allowed_event_types = [];
    allowed_refs = [];
  };
}

abbrev asked : Request
asked = record {
  method = str "GET";
  path = str "/api/runs";
  header = λ name. [];
  cookie = λ name. ok [];
  query = λ name. [];
  body = [];
  broken = false;
  tls = true;
}

collect_runs_complete_example :
    (collect_runs env codec (str "/r") api cfg 2 (str "1") [] asked fresh_writer runs
      ≡ some (run_response_from_meta api.format_time meta ∷ []))
    × ((cursor : Text) (page : RunsListResponse)
        → page_of env codec
            (str "/r")
            api
            cfg
            (handle_runs env codec
              (str "/r")
              api
              cfg
              (asks (str "1") cursor asked)
              fresh_writer
              runs).body
          ≡ some page
        → length page.items ≤ 100)
collect_runs_complete_example =
    collect_runs_complete env codec (str "/r") api cfg (str "1") asked fresh_writer runs (meta ∷ [])
      listed (omega arith)

-- Two requests, and the call after the timer of the second one.
abbrev asked_twice : Clockwork ℕ
asked_twice = record {
  debouncer = record { callback = some 8; timer = some 8 };
  now = 8;
  waiting = 0;
  history = requested 8 ∷ requested 7 ∷ [];
}

abbrev answered_once : Clockwork ℕ
answered_once = call_back (expire asked_twice) 0

answered_once-Ticks : Ticks 5 answered_once
unfolding request debounce expire
answered_once-Ticks =
    tick
      (tick (tick (tick (tick (tick begin (arrive 7)) (pass 3)) (arrive 8)) (pass 5))
        (ring 8 refl (omega arith)))
      (act 0 refl)

debounce_serves_example :
    (calls answered_once.history ≤ requests answered_once.history)
    × (answered_once.debouncer.timer ≡ none
        → answered_once.waiting ≡ 0
        → Answered answered_once.history)
debounce_serves_example = debounce_serves 5 answered_once answered_once-Ticks
