-- ===== src/Server/Tests.antt =====
-- Requests to the server: a signed push, a plan without a token, and pages of runs.
mod Events
use mathlib.Core.List.{Memᴰ}
use quadsyncd.Base.{
  ℕ, ◌+◌, ◌≡◌, refl, ap, inl, inr, true, false, none, some, List, [], ◌∷◌, ◌++◌, ok, err, map,
  length, ◌==◌, if◌then◌else◌, text_eq, nat_eq, arith,
}
use quadsyncd.Base.Text.{
  Text, str, text_code, has_prefix, cut_prefix, trim_suffix, cut_suffix, index,
}
use quadsyncd.Config.{Config, restart_changed, prefer_highest_priority}
use quadsyncd.Runstore.{RunMeta, sync_run, running, cli}
use quadsyncd.Runstore.Store.{Codec, Tree}
use quadsyncd.Service.Recorded.{Shared}
use quadsyncd.Sync.{empty_state}
use quadsyncd.Quadlet.Walk.{regular}
use quadsyncd.Os.{Env}
use quadsyncd.Server.Paging.{follow_cursors, follow_cursors_complete}
use quadsyncd.Server.Http.{Request, Handler, fresh_writer, text, accept}
use quadsyncd.Server.Middleware.{csrf_cookie_name, csrf_middleware}
use quadsyncd.Server.Middleware.Csrf.{HasToken, csrf_middleware_guards}
use quadsyncd.Server.Webhook.{WebhookEnv, GitHubPushEvent, repo_full_name_from_url, handle_webhook}
use quadsyncd.Server.Webhook.RepoName.{https_url, ssh_url, short_url, repo_full_name_from_url_forms}
use quadsyncd.Server.Webhook.Accepts.{Accepted, handle_webhook_iff}
use quadsyncd.Server.Debounce.{unused}
use quadsyncd.Server.Api.{ApiEnv}
use quadsyncd.Server.PlanApi.{nothing}
use quadsyncd.Server.Serve.{ServerEnv, ServerState, serve}

follow_cursors_complete_example :
    follow_cursors {A = ℕ} 4 (7 ∷ 8 ∷ 9 ∷ []) 2 [] ≡ some (7 ∷ 8 ∷ 9 ∷ [])
follow_cursors_complete_example =
    follow_cursors_complete {A = ℕ} (7 ∷ 8 ∷ 9 ∷ []) 2 (omega arith) (omega arith)

repo_full_name_from_url_forms_example :
    (repo_full_name_from_url (https_url (str "h.io") (str "o/r")) ≡ str "o/r")
    × (repo_full_name_from_url (ssh_url (str "h.io") (str "o/r")) ≡ str "o/r")
    × (repo_full_name_from_url (short_url (str "h.io") (str "o/r")) ≡ str "o/r")
repo_full_name_from_url_forms_example =
    repo_full_name_from_url_forms (str "h.io") (str "o/r")
      (omega arith, (omega arith, (omega arith, (omega arith, tt))))
      (omega arith, (omega arith, (omega arith, (omega arith, tt))))
      (omega arith, (omega arith, (omega arith, (omega arith, tt))))
      (omega arith, (omega arith, (omega arith, tt)))

abbrev env : Env
env = record {
  fails = λ call path. false;
  temp_name = λ disk directory. directory ++ str "/.tmp";
  sha256 = λ content. content;
}

abbrev cfg : Config
cfg = record {
  repository = some (record {
    url = str "https://h.io/o/r";
    ref = str "refs/heads/main";
    priority = 0;
    subdir = [];
    auth = none;
  });
  repositories = [];
  paths = record { quadlet_dir = str "/q"; state_dir = str "/s" };
  sync = record {
    prune = true;
    restart = restart_changed;
    conflict_handling = prefer_highest_priority;
  };
  auth = record { ssh_key_file = []; https_token_file = [] };
  serve = record {
    enabled = true;
    listen_addr = [];
    github_webhook_secret_file = [];
    allowed_event_types = str "push" ∷ [];
    allowed_refs = [];
  };
}

-- A keyed hash and a parser for one push.
abbrev hooks : WebhookEnv
hooks = record {
  hmac_hex = λ key message. key ++ message;
  parse_event = λ body. some (record {
    ref = str "refs/heads/main";
    after = str "c0ffee";
    full_name = str "o/r";
    clone_url = [];
    ssh_url = [];
  });
}

abbrev push : Request
push = record {
  method = str "POST";
  path = str "/webhook";
  header = λ name.
      (if name == str "Content-Type"
        then str "application/json"
        else if name == str "X-GitHub-Event"
        then str "push"
        else str "sha256=k{}");
  cookie = λ name. err tt;
  query = λ name. [];
  body = str "{}";
  broken = false;
  tls = true;
}

handle_webhook_iff_example :
    (Accepted hooks cfg (str "k") push
      → handle_webhook hooks cfg (str "k") {J = ℕ} (λ n. n + 1) push fresh_writer 0
        ≡ (accept fresh_writer (str "Sync triggered"), 1))
    × (¬ Accepted hooks cfg (str "k") push
        → (handle_webhook hooks cfg (str "k") {J = ℕ} (λ n. n + 1) push fresh_writer 0).1 ≡ 0)
handle_webhook_iff_example =
    handle_webhook_iff hooks cfg (str "k") ℕ (λ n. n + 1) push fresh_writer 0

-- A plan that is asked for with a cookie, and without its value in the header.
abbrev forged : Request
forged = record {
  method = str "POST";
  path = str "/api/plan";
  header = λ name. [];
  cookie = λ name. ok (str "t0ken");
  query = λ name. [];
  body = str "{}";
  broken = false;
  tls = true;
}

abbrev count : Handler ℕ ℕ
count r w n = (record { status = 200; writer = w; body = text [] }, n + 1)

csrf_middleware_guards_example :
    (HasToken forged
      → csrf_middleware (some (str "t0ken")) count forged fresh_writer 0
        ≡ count forged fresh_writer 0)
    × (¬ HasToken forged
        → ((csrf_middleware (some (str "t0ken")) count forged fresh_writer 0).0.status ≡ 403)
          × ((csrf_middleware (some (str "t0ken")) count forged fresh_writer 0).1 ≡ 0))
csrf_middleware_guards_example =
    csrf_middleware_guards (some (str "t0ken")) count forged fresh_writer 0
      (λ e. (let n : ◌≡◌ {A = ℕ} 9 8 = ap length e in omega (arith, n))) (inl refl)

abbrev codec : Codec
codec = record {
  LogRecord = Text;
  marshal_meta = λ m. none;
  unmarshal_meta = λ text. none;
  marshal_plan = λ p. none;
  unmarshal_plan = λ text. none;
  unmarshal_record = λ text. some text;
  parse_time = λ text. none;
  mod_time = λ path. none;
  generate_run_id = some (str "r1");
}

abbrev server : ServerEnv
server = record {
  host = record {
    env = env;
    ensure_checkout = λ auth url ref dest disk. (some (str "c0ffee"), disk);
    tree_at = λ dir disk. regular;
    repo_id = λ url. url;
    is_available = λ disk. true;
    validate_quadlets = λ dir disk. true;
    daemon_reload = λ disk. true;
    marshal = λ s. some (str "{}");
    unmarshal = λ text. some empty_state;
  };
  codec = codec;
  base_dir = str "/s/runs";
  api = record {
    format_time = λ t. [];
    parse_nano = λ t. none;
    parse_seconds = λ t. none;
    string_field = λ r name. none;
    unmarshal_state = λ t. none;
    unit_status = λ name. str "active";
  };
  webhook_env = hooks;
  secret = str "k";
  delay = 5;
  csrf_token = some (str "t0ken");
  started_at = 1;
  ended_at = 2;
  decode_plan = λ body. nothing;
  error_text = λ x. [];
  work_dir_text = λ x. [];
  failure_text = λ x. [];
}

abbrev server_state : ServerState
server_state = record {
  shared = record { tree = record { dirs = []; disk = [] }; cfg = cfg; journal = [] };
  clock = unused;
}
