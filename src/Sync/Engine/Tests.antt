-- ===== src/Sync/Engine/Tests.antt =====
-- The theorems on a run at a host on which every call succeeds.
use quadsyncd.Base.{refl, true, false, none, some, [], ◌∷◌, ◌++◌}
use quadsyncd.Base.Text.{str}
use quadsyncd.Os.{File}
use quadsyncd.Quadlet.Walk.{directory, regular, entry, nil}
use quadsyncd.Config.{restart_changed, prefer_highest_priority}
use quadsyncd.Sync.{empty_state}
use quadsyncd.Sync.Filter.{select_repos}
use quadsyncd.Sync.Engine.{
  Host, Engine, World, new_engine_with_factory, new_engine_with_plan_options, run,
}
use quadsyncd.Base.{◌≡◌, text_eq, nat_eq}
use quadsyncd.Base.Text.{text_code}
use quadsyncd.Base.Text.Order.{text_lt}
use quadsyncd.Base.Dict.{lookup, insert, erase, keys}
use quadsyncd.Base.Sort.{sort_by, place}
use quadsyncd.FilePath.{path_code, dir_of, to_last_slash}
use quadsyncd.Os.{rename_file, remove_file, open_source, read_file, write_file}
use quadsyncd.Quadlet.{is_quadlet_file, unit_name_from_quadlet}
use quadsyncd.Quadlet.Walk.{
  discover_all_files_with_symlink_check, walk_node, walk_entries, visit_checked,
}
use quadsyncd.Config.{
  repo_dir_for_spec, quadlet_source_dir_for_spec, state_file_path, auth_for_spec,
  effective_repositories,
}
use quadsyncd.Multirepo.{
  merge, check_conflict_errors, detect_unit_name_collisions, collisions, resolve_keys, resolve_key,
  resolve_conflict, add_states, add_files, add_candidate, item_of, comes_before, index_states,
  normalize_merge_key, has_drive, repo_file, repo_files, load_repo_files,
}
use quadsyncd.Sync.Planning.{
  build_plan_from_effective, desired_files, op_for, delete_op, record_change, file_hash,
  change_in_state, change_for, plan_items, plan_deletes, is_gone, sort_plan,
}
use quadsyncd.Sync.Apply.{apply_plan, copy_all, delete_all, copy_file, through_temp, fill_temp}
use quadsyncd.Sync.NewState.{
  build_state_from_effective, manage_all, forget_all, managed_of, rel_or_dest, revisions_of,
  single_commit,
}
use quadsyncd.Sync.Restart.{
  handle_restarts, affected_units, quadlet_units_from_ops, collect_units, dest_paths,
}
use quadsyncd.Sync.Filter.{compact}
use quadsyncd.Sync.Engine.{
  load_and_merge, load_all_repo_states, load_repo_state, dirs_for, override_spec, merge_and_plan,
  plan_of, result_of, execute_plan, save_and_reload, save_state, reload_and_restart, load_state,
  reloaded, restarted,
}
use quadsyncd.Sync.Engine.Order.{QuietOrSaved, run-QuietOrSaved}
use quadsyncd.Sync.Engine.DryRun.{OnlyCheckouts, run-OnlyCheckouts}

abbrev source_file : File
source_file = record { content = str "[Container]"; mode = 0o644 }

-- Every call succeeds; a checkout writes one file.
abbrev host : Host
host = record {
  env = record {
    fails = λ call path. false;
    temp_name = λ disk directory. directory ++ str "/.quadsyncd-tmp-1";
    sha256 = λ content. content;
  };
  ensure_checkout = λ auth url ref dest disk.
      (some (str "c0ffee"), (dest ++ str "/a.container", source_file) ∷ disk);
  tree_at = λ dir disk. directory (entry (str "a.container") regular nil);
  repo_id = λ url. url;
  is_available = λ disk. true;
  validate_quadlets = λ dir disk. true;
  daemon_reload = λ disk. true;
  marshal = λ s. some (str "{}");
  unmarshal = λ text. some empty_state;
}

abbrev world : World
world = record {
  disk = [];
  dirs = [];
  cfg = record {
    repository =
        some (record { url = str "r"; ref = str "main"; priority = 0; subdir = []; auth = none });
    repositories = [];
    paths = record { quadlet_dir = str "/q"; state_dir = str "/s" };
    sync = record {
      prune = true;
      restart = restart_changed;
      conflict_handling = prefer_highest_priority;
    };
    auth = record { ssh_key_file = []; https_token_file = [] };
    serve = record {
      enabled = false;
      listen_addr = [];
      github_webhook_secret_file = [];
      allowed_event_types = [];
      allowed_refs = [];
    };
  };
  journal = [];
}

run-QuietOrSaved_example :
    QuietOrSaved host
      (select_repos [] world.cfg).1
      world
      (run host (new_engine_with_factory false) world)
run-QuietOrSaved_example = run-QuietOrSaved host (new_engine_with_factory false) world refl

abbrev plan_engine : Engine
plan_engine = new_engine_with_plan_options (str "/w") [] (str "r")

run-OnlyCheckouts_example :
    OnlyCheckouts host plan_engine
      (select_repos (str "r") world.cfg).0
      (record world { cfg = (select_repos (str "r") world.cfg).1 })
      (run host plan_engine world).1
run-OnlyCheckouts_example = run-OnlyCheckouts host plan_engine world refl

-- The run adds the file, saves the state, reloads systemd and restarts the unit of the file.
run_succeeds :
    (run host (new_engine_with_factory false) world).1.journal
    ≡ restarted (str "a.service" ∷ []) ∷ reloaded ∷ []
unfolding run load_and_merge load_all_repo_states load_repo_state dirs_for override_spec
    merge_and_plan plan_of result_of execute_plan save_and_reload save_state reload_and_restart
    load_state select_repos compact handle_restarts affected_units quadlet_units_from_ops
    collect_units dest_paths build_state_from_effective manage_all forget_all managed_of rel_or_dest
    revisions_of single_commit build_plan_from_effective desired_files op_for delete_op
    record_change file_hash change_in_state change_for plan_items plan_deletes is_gone sort_plan
    apply_plan copy_all delete_all copy_file through_temp fill_temp rename_file remove_file
    open_source read_file write_file merge check_conflict_errors detect_unit_name_collisions
    collisions resolve_keys resolve_key resolve_conflict add_states add_files add_candidate item_of
    comes_before index_states normalize_merge_key has_drive repo_file repo_files load_repo_files
    discover_all_files_with_symlink_check walk_node walk_entries visit_checked is_quadlet_file
    unit_name_from_quadlet lookup insert erase keys sort_by place text_lt repo_dir_for_spec
    quadlet_source_dir_for_spec state_file_path auth_for_spec effective_repositories dir_of
    to_last_slash path_code text_code text_eq nat_eq
run_succeeds = refl
