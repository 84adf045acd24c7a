-- ===== src/Server/Webhook.antt =====
-- internal/server/webhook.go: the checks of a webhook request and what it triggers.
pub mod RepoName
pub mod Accepts
use mathlib.Core.Option
use quadsyncd.Base.{
  ℕ, ◌+◌, Bool, true, false, not, ◌&&◌, ◌||◌, Option, none, some, List, [], ◌∷◌, Result, ok, err,
  contains, drop, ◌==◌, ◌/=◌, if◌then◌else◌, text_eq,
}
use quadsyncd.Base.Text.{Text, str, has_prefix, cut_prefix, trim_suffix, index}
use quadsyncd.Config.{Config, RepoSpec, effective_repositories}
use quadsyncd.Server.Http.{Request, Handler, read_limited, http_error, accept}

pub record GitHubPushEvent : Type 0 where
  pub ref : Text
  pub after : Text
  pub full_name : Text
  pub clone_url : Text
  pub ssh_url : Text

-- The path of a URL behind its host, or nothing where no `/` follows.
abbrev pub behind_host : Text → Text
behind_host rest = elim (index rest (str "/")) [
  | none ↦ []
  | some slash ↦ trim_suffix (drop (slash + 1) rest) (str ".git")
]

abbrev pub behind : ℕ → Option ℕ → Text → Text
behind n none text = text
behind n (some at) text = drop (at + n) text

unfoldable pub repo_full_name_from_url : Text → Text
repo_full_name_from_url raw_url =
    if has_prefix raw_url (str "git@")
    then elim (index raw_url (str ":")) [
      | none ↦ []
      | some at ↦ trim_suffix (drop (at + 1) raw_url) (str ".git")
    ]
    else let without_scheme = behind 3 (index raw_url (str "://")) raw_url in
      behind_host (behind 1 (index without_scheme (str "@")) without_scheme)

unfoldable pub repo_url_matches_event : Text → GitHubPushEvent → Bool
repo_url_matches_event cfg_url event =
    let cfg_name = repo_full_name_from_url cfg_url in
    if cfg_name == []
    then false
    else cfg_name == event.full_name
      || (event.clone_url /= [] && cfg_name == repo_full_name_from_url event.clone_url)
      || (event.ssh_url /= [] && cfg_name == repo_full_name_from_url event.ssh_url)

unfoldable pub any_repo_matches : List RepoSpec → GitHubPushEvent → Bool
any_repo_matches [] event = false
any_repo_matches (spec ∷ specs) event =
    (repo_url_matches_event spec.url event && spec.ref == event.ref) || any_repo_matches specs event

unfoldable pub matches_configured_repo : Config → GitHubPushEvent → Bool
matches_configured_repo cfg event = any_repo_matches (effective_repositories cfg) event

abbrev pub allowed : List Text → Text → Bool
allowed [] given = true
allowed (x ∷ xs) given = contains (x ∷ xs) given

unfoldable pub is_event_type_allowed : Config → Text → Bool
is_event_type_allowed cfg event_type = allowed cfg.serve.allowed_event_types event_type

unfoldable pub is_ref_allowed : Config → Text → Bool
is_ref_allowed cfg ref = allowed cfg.serve.allowed_refs ref

-- The HMAC-SHA256 in hexadecimal, of a message under a key, and the JSON library.
pub record WebhookEnv : Type 0 where
  pub hmac_hex : Text → Text → Text
  pub parse_event : Text → Option GitHubPushEvent

module _ (e : WebhookEnv) (cfg : Config) (secret : Text) where
  unfoldable pub verify_signature : Text → Text → Bool
  verify_signature body signature =
      if signature == [] then false else elim (cut_prefix signature (str "sha256=")) [
        | none ↦ false
        | some given ↦ given == e.hmac_hex secret body
      ]

  -- `trigger_sync` is the call of `s.debounce.trigger`.
  unfoldable pub handle_webhook : {J S : Type 0} → (S → S) → Handler J S
  handle_webhook trigger_sync r w s =
      if r.method /= str "POST"
      then (http_error w 405 (str "Method not allowed"), s)
      else if not (has_prefix (r.header (str "Content-Type")) (str "application/json"))
      then (http_error w 400 (str "Invalid content type"), s)
      else elim (read_limited 1_048_576 r) [
        | err u ↦ (http_error w 500 (str "Failed to read body"), s)
        | ok body ↦
            if not (verify_signature body (r.header (str "X-Hub-Signature-256")))
            then (http_error w 403 (str "Invalid signature"), s)
            else if not (is_event_type_allowed cfg (r.header (str "X-GitHub-Event")))
            then (accept w (str "Event type not configured for sync"), s)
            else elim (e.parse_event body) [
              | none ↦ (http_error w 400 (str "Invalid payload"), s)
              | some event ↦
                  if not (is_ref_allowed cfg event.ref)
                  then (accept w (str "Ref not configured for sync"), s)
                  else if not (matches_configured_repo cfg event)
                  then (accept w (str "Repository/ref not configured for sync"), s)
                  else (accept w (str "Sync triggered"), trigger_sync s)
            ]
      ]
