-- ===== src/Cmd/Tests.antt =====
-- A sync by the command, whose run fails.
use quadsyncd.Base.{
  ℕ, ◌≡◌, refl, ap, length, arith, List, Result, sym, false, true, none, some, [], ◌∷◌, ◌++◌, ok,
  ◌==◌, text_eq, nat_eq,
}
use quadsyncd.Base.Text.{Text, str, text_code}
use quadsyncd.Base.Dict.{lookup, insert, erase}
use quadsyncd.Config.{Config, restart_changed, prefer_highest_priority, effective_repositories}
use quadsyncd.FilePath.{path_code}
use quadsyncd.Os.{rename_file, remove_file, write_file}
use quadsyncd.Quadlet.Walk.{regular}
use quadsyncd.Runstore.{RunMeta, sync_run, cli, failure, runs_dir, is_single_element, safe_run_dir}
use quadsyncd.Runstore.Store.{
  Codec, Tree, make_dir, write_meta_atomic, write_through_temp, create, create_at, update, get,
  append_log, write_in,
}
use quadsyncd.Sync.{empty_state}
use quadsyncd.Sync.Engine.{Host, RunError, RunResult, run, load_and_merge}
use quadsyncd.Service.Recorded.{starting}
use quadsyncd.Cmd.{trigger_of, finalize, with_status, with_result, append_lines}
use quadsyncd.Runstore.Store.RoundTrip.{IsReadable}
use quadsyncd.Sync.Filter.{select_repos}
use quadsyncd.Cmd.Recorded.{base_dir, creation, outcome, logged, command, Tells, run_sync_recorded}

abbrev host : Host
host = record {
  env = record {
    fails = λ call path. path == str "/s";
    temp_name = λ disk directory. directory ++ str "/.meta.json.1";
    sha256 = λ content. content;
  };
  ensure_checkout = λ auth url ref dest disk. (some (str "c0ffee"), disk);
  tree_at = λ dir disk. regular;
  repo_id = λ url. url;
  is_available = λ disk. true;
  validate_quadlets = λ dir disk. true;
  daemon_reload = λ disk. true;
  marshal = λ s. some (str "{}");
  unmarshal = λ text. some empty_state;
}

abbrev first_record : RunMeta
first_record = record (starting sync_run cli false 5) { id = str "r1" }

-- The metadata have one text, which is read as the record of the failed run.
abbrev failed_run : RunMeta
failed_run = record first_record { ended_at = some 9; status = failure; error = str "failed" }

abbrev codec : Codec
codec = record {
  LogRecord = Text;
  marshal_meta = λ m. some (str "{}");
  unmarshal_meta = λ text. some failed_run;
  marshal_plan = λ p. none;
  unmarshal_plan = λ text. none;
  unmarshal_record = λ text. some text;
  parse_time = λ text. none;
  mod_time = λ path. none;
  generate_run_id = some (str "r1");
}

abbrev cfg : Config
cfg = record {
  repository =
      some (record { url = str "r"; ref = str "main"; priority = 0; subdir = []; auth = none });
  repositories = [];
  paths = record { quadlet_dir = str "/q"; state_dir = str "/s" };
  sync = record {
    prune = true;
    restart = restart_changed;
    conflict_handling = prefer_highest_priority;
  };
  auth = record { ssh_key_file = []; https_token_file = [] };
  serve = record {
    enabled = false;
    listen_addr = [];
    github_webhook_secret_file = [];
    allowed_event_types = [];
    allowed_refs = [];
  };
}

abbrev error_text : RunError → Text
error_text x = str "failed"

abbrev no_files : Tree
no_files = record { dirs = []; disk = [] }

abbrev lines : Result RunError RunResult → List Text
lines r = str "{}" ∷ str "{}" ∷ []

created : (creation host codec error_text lines false 9 5 cfg [] no_files []).0 ≡ ok first_record
unfolding trigger_of runs_dir create create_at make_dir write_meta_atomic write_through_temp
    rename_file remove_file safe_run_dir is_single_element lookup insert erase path_code text_code
    text_eq nat_eq
created = refl

ends : outcome host codec error_text lines false 9 5 cfg [] no_files [] first_record ≡ failed_run
unfolding run load_and_merge select_repos effective_repositories trigger_of runs_dir create
    create_at make_dir write_meta_atomic write_through_temp rename_file remove_file safe_run_dir
    is_single_element finalize with_status with_result lookup insert erase path_code text_code
    text_eq nat_eq
ends = refl

updated :
    (update host.env codec
      (base_dir host codec error_text lines false 9 5 cfg [] no_files [])
      (outcome host codec error_text lines false 9 5 cfg [] no_files [] first_record)
      (logged host codec error_text lines false 9 5 cfg [] no_files [] first_record)).0
    ≡ ok tt
unfolding run load_and_merge select_repos effective_repositories trigger_of runs_dir create
    create_at update make_dir write_meta_atomic write_through_temp rename_file remove_file
    safe_run_dir is_single_element finalize with_status with_result append_lines append_log write_in
    write_file lookup insert erase path_code text_code text_eq nat_eq
updated = refl

is_readable : IsReadable host.env codec (str "/s/runs") (str "/s/runs/r1")
unfolding path_code text_code text_eq nat_eq
is_readable = (refl, refl, λ disk h. let e : ◌≡◌ {A = ℕ} 20 23 = ap length h in omega (arith, e))

safe :
    safe_run_dir
      (base_dir host codec error_text lines false 9 5 cfg [] no_files [])
      (outcome host codec error_text lines false 9 5 cfg [] no_files [] first_record).id
    ≡ ok (str "/s/runs/r1")
unfolding run load_and_merge select_repos effective_repositories trigger_of runs_dir finalize
    with_status with_result safe_run_dir is_single_element create create_at make_dir
    write_meta_atomic write_through_temp rename_file remove_file lookup insert erase path_code
    text_code text_eq nat_eq
safe = refl

run_sync_recorded_example :
    (final : RunMeta) × (get host.env codec
        (base_dir host codec error_text lines false 9 5 cfg [] no_files [])
        (str "r1")
        (command host codec error_text lines false 9 5 cfg [] no_files []).1.0
      ≡ ok final)
    × Tells host codec error_text lines false 9 5 cfg [] no_files [] first_record final
run_sync_recorded_example =
    run_sync_recorded host codec error_text lines false 9 5 cfg [] no_files [] first_record
      (str "/s/runs/r1") created updated (λ text h. ap some (sym ends)) is_readable safe
