-- ===== src/Config.antt =====
-- internal/config/config.go: the configuration, its defaults and its validation.
pub mod Valid
mod Tests
use quadsyncd.Base.{
  ℕ, ◌+◌, Bool, true, false, not, ◌&&◌, ◌||◌, Option, none, some, List, [], ◌∷◌, map, Result, ok,
  err, ◌>>◌, fail_if, wrap_err, ◌==◌, ◌/=◌, text_eq, if◌then◌else◌,
}
use quadsyncd.Base.Text.{Text, str, has_prefix}
use quadsyncd.FilePath.{dot_dot, is_abs, clean, join}

pub record AuthConfig : Type 0 where
  pub ssh_key_file : Text
  pub https_token_file : Text

-- `Priority` is a Go `int` that may be negative; only its order is used, so it is read as a number
-- with the smallest `int` at 0.
pub record RepoSpec : Type 0 where
  pub url : Text
  pub ref : Text
  pub priority : ℕ
  pub subdir : Text
  pub auth : Option AuthConfig

pub record PathsConfig : Type 0 where
  pub quadlet_dir : Text
  pub state_dir : Text

-- The policies are strings in the source, so values that no constant names occur until
-- `validate` has run.
pub data RestartPolicy : Type 0 where
  restart_none restart_changed restart_all_managed restart_unset : RestartPolicy
  restart_other : Text → RestartPolicy

pub data ConflictMode : Type 0 where
  prefer_highest_priority conflict_fail conflict_unset : ConflictMode
  conflict_other : Text → ConflictMode

pub record SyncConfig : Type 0 where
  pub prune : Bool
  pub restart : RestartPolicy
  pub conflict_handling : ConflictMode

pub record ServeConfig : Type 0 where
  pub enabled : Bool
  pub listen_addr : Text
  pub github_webhook_secret_file : Text
  pub allowed_event_types : List Text
  pub allowed_refs : List Text

pub record Config : Type 0 where
  pub repository : Option RepoSpec
  pub repositories : List RepoSpec
  pub paths : PathsConfig
  pub sync : SyncConfig
  pub auth : AuthConfig
  pub serve : ServeConfig

-- `os.ExpandEnv` depends on the environment of the process: the parameter `expand`.
module _ (expand : Text → Text) where
  unfoldable pub expand_auth : AuthConfig → AuthConfig
  expand_auth a = record {
    ssh_key_file = expand a.ssh_key_file;
    https_token_file = expand a.https_token_file;
  }

  unfoldable pub expand_option_auth : Option AuthConfig → Option AuthConfig
  expand_option_auth none = none
  expand_option_auth (some a) = some (expand_auth a)

  unfoldable pub expand_spec : RepoSpec → RepoSpec
  expand_spec s = record s {
    url = expand s.url;
    ref = expand s.ref;
    subdir = expand s.subdir;
    auth = expand_option_auth s.auth;
  }

  unfoldable pub expand_option_spec : Option RepoSpec → Option RepoSpec
  expand_option_spec none = none
  expand_option_spec (some s) = some (expand_spec s)

  unfoldable pub expand_env : Config → Config
  expand_env c = record c {
    repository = expand_option_spec c.repository;
    repositories = map expand_spec c.repositories;
    paths = record {
      quadlet_dir = expand c.paths.quadlet_dir;
      state_dir = expand c.paths.state_dir;
    };
    auth = expand_auth c.auth;
    serve = record c.serve {
      listen_addr = expand c.serve.listen_addr;
      github_webhook_secret_file = expand c.serve.github_webhook_secret_file;
    };
  }

abbrev pub default_restart : RestartPolicy → RestartPolicy
default_restart restart_unset = restart_changed
default_restart r = r

abbrev pub default_conflict : ConflictMode → ConflictMode
default_conflict conflict_unset = prefer_highest_priority
default_conflict m = m

unfoldable pub apply_defaults : Config → Config
apply_defaults c = record c {
  sync = record c.sync {
    restart = default_restart c.sync.restart;
    conflict_handling = default_conflict c.sync.conflict_handling;
  };
}

pub data ConfigError : Type 0 where
  read_failed parse_failed : ConfigError
  mutually_exclusive no_repository : ConfigError
  url_required ref_required subdir_absolute subdir_traversal : ConfigError
  two_auth_methods ssh_key_needs_ssh token_needs_https : ConfigError
  at_repository : ConfigError → ConfigError
  at_repositories : ℕ → ConfigError → ConfigError
  quadlet_dir_required state_dir_required quadlet_dir_relative state_dir_relative : ConfigError
  bad_restart bad_conflict_handling : ConfigError
  listen_addr_required secret_file_required : ConfigError

-- Per-repository settings win over the global ones.
unfoldable pub auth_for_spec : Config → RepoSpec → AuthConfig
auth_for_spec c s = elim s.auth [ none ↦ c.auth | some a ↦ a ]

unfoldable pub effective_repositories : Config → List RepoSpec
effective_repositories c = elim c.repository [ none ↦ c.repositories | some s ↦ s ∷ [] ]

unfoldable pub validate_auth : AuthConfig → Text → Result ConfigError (Unit {0})
validate_auth a repo_url = do
  fail_if (a.ssh_key_file /= [] && a.https_token_file /= []) two_auth_methods
  let is_ssh = has_prefix repo_url (str "git@") || has_prefix repo_url (str "ssh://")
  let is_https = has_prefix repo_url (str "https://")
  fail_if (a.ssh_key_file /= [] && not is_ssh) ssh_key_needs_ssh
  fail_if (a.https_token_file /= [] && not is_https) token_needs_https

unfoldable pub validate_subdir : Text → Result ConfigError (Unit {0})
validate_subdir [] = ok tt
validate_subdir (x ∷ xs) = do
  fail_if (is_abs (x ∷ xs)) subdir_absolute
  let cleaned = clean (x ∷ xs)
  fail_if (cleaned == dot_dot || has_prefix cleaned (str "../")) subdir_traversal

abbrev pub validate_own_auth : Option AuthConfig → Text → Result ConfigError (Unit {0})
validate_own_auth none url = ok tt
validate_own_auth (some a) url = validate_auth a url

unfoldable pub validate_repo_spec : RepoSpec → Result ConfigError (Unit {0})
validate_repo_spec s = do
  fail_if (s.url == []) url_required
  fail_if (s.ref == []) ref_required
  validate_subdir s.subdir
  validate_own_auth s.auth s.url

-- The checks of one repository, with its label in front of the message.
unfoldable pub validate_spec_at :
    Config → (ConfigError → ConfigError) → RepoSpec → Result ConfigError (Unit {0})
validate_spec_at c label s = do
  wrap_err label (validate_repo_spec s)
  wrap_err label (validate_auth (auth_for_spec c s) s.url)

unfoldable pub validate_specs : Config → ℕ → List RepoSpec → Result ConfigError (Unit {0})
validate_specs c i [] = ok tt
validate_specs c i (s ∷ ss) = do
  validate_spec_at c (at_repositories i) s
  validate_specs c (i + 1) ss

unfoldable pub validate_repositories :
    Config → Option RepoSpec → List RepoSpec → Result ConfigError (Unit {0})
validate_repositories c (some s) (r ∷ rs) = err mutually_exclusive
validate_repositories c none [] = err no_repository
validate_repositories c (some s) [] = validate_spec_at c at_repository s
validate_repositories c none (r ∷ rs) = validate_specs c 0 (r ∷ rs)

abbrev pub bad_policy : RestartPolicy → Bool
bad_policy (restart_other t) = true
bad_policy _ = false

abbrev pub bad_mode : ConflictMode → Bool
bad_mode (conflict_other t) = true
bad_mode _ = false

unfoldable pub validate : Config → Result ConfigError (Unit {0})
validate c = do
  validate_repositories c c.repository c.repositories
  fail_if (c.paths.quadlet_dir == []) quadlet_dir_required
  fail_if (c.paths.state_dir == []) state_dir_required
  fail_if (not (is_abs c.paths.quadlet_dir)) quadlet_dir_relative
  fail_if (not (is_abs c.paths.state_dir)) state_dir_relative
  fail_if (bad_policy c.sync.restart) bad_restart
  fail_if (bad_mode c.sync.conflict_handling) bad_conflict_handling
  fail_if (c.serve.enabled && c.serve.listen_addr == []) listen_addr_required
  fail_if (c.serve.enabled && c.serve.github_webhook_secret_file == []) secret_file_required

-- `Load`: the file system and the YAML library are the parameters `read_file` and `unmarshal`.
module _ (expand : Text → Text) (read_file : Text → Option Text)
    (unmarshal : Text → Option Config) where
  unfoldable pub load : Text → Result ConfigError Config
  load path = elim (read_file (expand path)) [
    | none ↦ err read_failed
    | some data_read ↦ elim (unmarshal data_read) [
      | none ↦ err parse_failed
      | some c ↦ do let cfg = apply_defaults (expand_env expand c); validate cfg; ok cfg
    ]
  ]

-- `RepoID` is eight bytes of a SHA-256 in hexadecimal: the parameter `repo_id`.
module _ (repo_id : Text → Text) where
  unfoldable pub repo_dir_for_spec : Config → RepoSpec → Text
  repo_dir_for_spec c s = join (join c.paths.state_dir (str "repos")) (repo_id s.url)

  unfoldable pub quadlet_source_dir_for_spec : Config → RepoSpec → Text
  quadlet_source_dir_for_spec c s =
      let repo_dir = repo_dir_for_spec c s in
      if s.subdir == [] then repo_dir else join repo_dir s.subdir

unfoldable pub state_file_path : Config → Text
state_file_path c = join c.paths.state_dir (str "state.json")
