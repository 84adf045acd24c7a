-- ===== src/Service/Tests.antt =====
-- Two calls while a sync runs, and the end of both syncs; a sync whose run fails, and plans.
use quadsyncd.Base.{
  ℕ, ◌≤◌, ◌≡◌, ◌↔◌, refl, ap, true, false, some, none, [], ◌∷◌, ◌++◌, ok, err, length, ◌==◌,
  text_eq, nat_eq, arith,
}
use quadsyncd.Base.Text.{Text, str, text_code}
use quadsyncd.Base.Dict.{lookup, insert, erase}
use quadsyncd.FilePath.{path_code}
use quadsyncd.Os.{rename_file, remove_file}
use quadsyncd.Quadlet.Walk.{regular}
use quadsyncd.Config.{restart_changed, prefer_highest_priority, effective_repositories}
use quadsyncd.Runstore.{
  RunMeta, PlanRequest, sync_run, webhook, success, is_single_element, safe_run_dir,
}
use quadsyncd.Runstore.Store.{
  Codec, make_dir, write_meta_atomic, write_through_temp, create, create_at, update, get,
}
use quadsyncd.Runstore.Store.RoundTrip.{IsReadable}
use quadsyncd.Sync.{Plan, empty_state}
use quadsyncd.Sync.Filter.{select_repos}
use quadsyncd.Sync.Planning.{delete_op}
use quadsyncd.Sync.Engine.{Host, RunError, no_state_dir, RunResult, run, load_and_merge}
use quadsyncd.Service.Recorded.{Shared, starting, finish_meta}
use quadsyncd.Service.Recorded.Outcome.{
  creation, answer, outcome, ended, synced, execute_sync_recorded,
}
use quadsyncd.Service.Planned.{execute, write_plan_with_artifacts}
use quadsyncd.Service.Planned.ReadOnly.{execute-journal}
use quadsyncd.Service.Planned.Artifacts.{TellsPlan, write_plan_with_artifacts_lem}
use quadsyncd.Service.{
  System, enter_trigger, after_sync, started, queued, triggered, finished, trigger, finish, initial,
  Reachable, start, later,
}
use quadsyncd.Service.SingleFlight.{Served, single_flight}

abbrev busy : System
busy = triggered (triggered (triggered initial))

busy-Reachable : Reachable busy
busy-Reachable = later (later (later start trigger) trigger) trigger

abbrev done : System
done = finished (finished busy 0) 0

done-Reachable : Reachable done
unfolding triggered finished enter_trigger after_sync
done-Reachable = later (later busy-Reachable (finish 0 refl)) (finish 0 refl)

done_runs :
    (done.service.running ≡ false) × (done.history ≡ started ∷ queued ∷ queued ∷ started ∷ [])
unfolding triggered finished enter_trigger after_sync
done_runs = (refl, refl)

single_flight_example :
    (done.syncing ≤ 1) × (done.service.running ≡ false → (done.syncing ≡ 0) × Served done.history)
single_flight_example = single_flight done-Reachable

-- Every call succeeds but those on the state directory, so that a run fails.
abbrev host : Host
host = record {
  env = record {
    fails = λ call path. path == str "/s";
    temp_name = λ disk directory. directory ++ str "/.meta.json.1";
    sha256 = λ content. content;
  };
  ensure_checkout = λ auth url ref dest disk. (some (str "c0ffee"), disk);
  tree_at = λ dir disk. regular;
  repo_id = λ url. url;
  is_available = λ disk. true;
  validate_quadlets = λ dir disk. true;
  daemon_reload = λ disk. true;
  marshal = λ s. some (str "{}");
  unmarshal = λ text. some empty_state;
}

abbrev base_dir : Text
base_dir = str "/s/runs"

abbrev run_dir : Text
run_dir = str "/s/runs/r1"

abbrev error_text : RunError → Text
error_text x = str "failed"

-- The metadata have one text, which is read as the record of the failed run.
abbrev failed_run : RunMeta
failed_run =
    finish_meta error_text 9 (err no_state_dir)
      (record (starting sync_run webhook false 5) { id = str "r1" })

abbrev codec : Codec
codec = record {
  LogRecord = Text;
  marshal_meta = λ m. some (str "{}");
  unmarshal_meta = λ text. some failed_run;
  marshal_plan = λ p. some (str "{}");
  unmarshal_plan = λ text. none;
  unmarshal_record = λ text. some text;
  parse_time = λ text. none;
  mod_time = λ path. none;
  generate_run_id = some (str "r1");
}

abbrev shared : Shared
shared = record {
  tree = record { dirs = []; disk = [] };
  cfg = record {
    repository =
        some (record { url = str "r"; ref = str "main"; priority = 0; subdir = []; auth = none });
    repositories = [];
    paths = record { quadlet_dir = str "/q"; state_dir = str "/s" };
    sync = record {
      prune = true;
      restart = restart_changed;
      conflict_handling = prefer_highest_priority;
    };
    auth = record { ssh_key_file = []; https_token_file = [] };
    serve = record {
      enabled = true;
      listen_addr = [];
      github_webhook_secret_file = [];
      allowed_event_types = [];
      allowed_refs = [];
    };
  };
  journal = [];
}

abbrev first_record : RunMeta
first_record = record (starting sync_run webhook false 5) { id = str "r1" }

first_created : (creation host codec base_dir error_text webhook 5 9 shared).0 ≡ ok first_record
unfolding create create_at make_dir write_meta_atomic write_through_temp rename_file remove_file
    safe_run_dir is_single_element lookup insert erase path_code text_code text_eq nat_eq
first_created = refl

run_fails : (answer host codec base_dir error_text webhook 5 9 shared).0 ≡ err no_state_dir
unfolding run load_and_merge select_repos effective_repositories text_eq nat_eq
run_fails = refl

last_updated :
    (update host.env codec base_dir
      (outcome host codec base_dir error_text webhook 5 9 shared first_record)
      (ended host codec base_dir error_text webhook 5 9 shared).tree).0
    ≡ ok tt
unfolding update run load_and_merge select_repos effective_repositories create create_at make_dir
    write_meta_atomic write_through_temp rename_file remove_file safe_run_dir is_single_element
    finish_meta lookup insert erase path_code text_code text_eq nat_eq
last_updated = refl

decodes :
    (text : Text)
    → codec.marshal_meta (outcome host codec base_dir error_text webhook 5 9 shared first_record)
      ≡ some text
    → codec.unmarshal_meta text
      ≡ some (outcome host codec base_dir error_text webhook 5 9 shared first_record)
unfolding run load_and_merge select_repos effective_repositories finish_meta create create_at
    make_dir write_meta_atomic write_through_temp rename_file remove_file safe_run_dir
    is_single_element lookup insert erase path_code text_code text_eq nat_eq
decodes text e = refl

is_readable : IsReadable host.env codec base_dir run_dir
unfolding path_code text_code text_eq nat_eq
is_readable = (refl, refl, λ disk h. (let e : ◌≡◌ {A = ℕ} 20 23 = ap length h in omega (arith, e)))

safe :
    safe_run_dir base_dir
      (outcome host codec base_dir error_text webhook 5 9 shared first_record).id
    ≡ ok run_dir
unfolding safe_run_dir is_single_element finish_meta run load_and_merge select_repos
    effective_repositories path_code text_code text_eq nat_eq
safe = refl

abbrev request : PlanRequest
request = record { repo_url = str "r"; ref = str "dev"; commit = [] }

execute_sync_recorded_example :
    (get host.env codec base_dir
        (outcome host codec base_dir error_text webhook 5 9 shared first_record).id
        (synced host codec base_dir error_text webhook 5 9 shared).tree
      ≡ ok (outcome host codec base_dir error_text webhook 5 9 shared first_record))
    × (((outcome host codec base_dir error_text webhook 5 9 shared first_record).status ≡ success)
        ↔ ((r : RunResult) × ((answer host codec base_dir error_text webhook 5 9 shared).0 ≡ ok r)))
    × ((synced host codec base_dir error_text webhook 5 9 shared).journal
        ≡ (answer host codec base_dir error_text webhook 5 9 shared).1.journal)
execute_sync_recorded_example =
    execute_sync_recorded host codec base_dir error_text webhook 5 9 shared first_record run_dir
      first_created last_updated decodes is_readable safe

execute-journal_example :
    (execute host codec base_dir error_text (λ x. []) request 5 9 shared).1.journal ≡ shared.journal
execute-journal_example =
    execute-journal host codec base_dir error_text (λ x. []) request 5 9 shared

-- A container, and a file that goes with it.
abbrev plan : Plan
plan = record {
  add =
      record {
        source_path = str "/w/a.container";
        dest_path = str "/q/a.container";
        hash = [];
        source_repo = str "r";
        source_ref = str "main";
        source_sha = str "c0ffee";
      }
      ∷ [];
  update = [];
  delete = delete_op (str "/q/a.env") ∷ [];
}

write_plan_with_artifacts_lem_example :
    let written =
      write_plan_with_artifacts host codec base_dir error_text
        (str "r1")
        (str "/q")
        plan
        []
        request
        shared.tree in
    TellsPlan host codec base_dir error_text
      (str "r1")
      (str "/q")
      plan
      shared.tree
      written.0.ops
      written.1
write_plan_with_artifacts_lem_example =
    write_plan_with_artifacts_lem host codec base_dir error_text (str "r1") (str "/q") plan []
      request shared.tree
