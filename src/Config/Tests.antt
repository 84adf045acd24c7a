-- ===== src/Config/Tests.antt =====
-- A configuration with one repository over SSH, and its validation.
use quadsyncd.Base.{◌≡◌, refl, ◌≢◌, ◌↔◌, true, false, none, some, [], ok, text_eq, nat_eq}
use quadsyncd.Base.Text.{str, text_code}
use quadsyncd.FilePath.{path_code}
use quadsyncd.Config.{
  Config, restart_unset, restart_changed, conflict_unset, prefer_highest_priority, validate,
  validate_auth, validate_subdir, validate_repo_spec, validate_spec_at, validate_repositories,
  auth_for_spec, load, apply_defaults, expand_env, expand_auth, expand_spec, expand_option_spec,
  expand_option_auth,
}
use quadsyncd.Config.Valid.{IsValid, validate_iff, load-IsValid}

abbrev written : Config
written = record {
  repository = some (record {
    url = str "git@example.org:r";
    ref = str "main";
    priority = 0;
    subdir = str "units";
    auth = none;
  });
  repositories = [];
  paths = record { quadlet_dir = str "/q"; state_dir = str "/s" };
  sync = record { prune = true; restart = restart_unset; conflict_handling = conflict_unset };
  auth = record { ssh_key_file = str "/k"; https_token_file = [] };
  serve = record {
    enabled = false;
    listen_addr = [];
    github_webhook_secret_file = [];
    allowed_event_types = [];
    allowed_refs = [];
  };
}

abbrev complete : Config
complete = record written {
  sync = record {
    prune = true;
    restart = restart_changed;
    conflict_handling = prefer_highest_priority;
  };
}

loaded : load (λ t. t) (λ p. some []) (λ t. some written) (str "c.yaml") ≡ ok complete
unfolding load apply_defaults expand_env expand_auth expand_spec expand_option_spec
    expand_option_auth validate validate_auth validate_subdir validate_repo_spec validate_spec_at
    validate_repositories auth_for_spec path_code text_code text_eq nat_eq
loaded = refl

validate_iff_example : (validate complete ≡ ok tt) ↔ IsValid complete
validate_iff_example = validate_iff complete

load-IsValid_example :
    IsValid complete
    × (complete.sync.restart ≢ restart_unset)
    × (complete.sync.conflict_handling ≢ conflict_unset)
load-IsValid_example =
    load-IsValid (λ t. t) (λ p. some []) (λ t. some written) (str "c.yaml") complete loaded
