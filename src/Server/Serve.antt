-- ===== src/Server/Serve.antt =====
-- The routes of internal/server/server.go and internal/server/spa.go, behind the middleware.
pub mod Safety
use quadsyncd.Base.{
  ℕ, Bool, true, false, not, ◌&&◌, ◌||◌, Option, none, some, List, [], ◌∷◌, ◌++◌, ◌==◌, ◌/=◌,
  if◌then◌else◌, text_eq,
}
use quadsyncd.Base.Text.{Text, str, has_prefix, cut_suffix, is_some}
use quadsyncd.FilePath.{clean}
use quadsyncd.Runstore.{PlanRequest, TriggerSource, webhook, StoreError}
use quadsyncd.Runstore.Store.{Codec}
use quadsyncd.Sync.Engine.{Host, RunError}
use quadsyncd.Service.Recorded.{Shared}
use quadsyncd.Service.Planned.{PlanFailure, execute}
use quadsyncd.Server.Debounce.{Clockwork, request}
use quadsyncd.Server.Http.{Request, Response, Writer, Handler, asset, text, set_header, http_error}
use quadsyncd.Server.Middleware.{security_headers_middleware, csrf_middleware, is_read}
use quadsyncd.Server.Webhook.{WebhookEnv, handle_webhook}
use quadsyncd.Server.Api.{Json, ApiEnv}
use quadsyncd.Server.Api.Routes.{handle_api}
use quadsyncd.Server.PlanApi.{Decoded, handle_plan}

-- What the server keeps or was given and what it takes from the libraries; the texts are those of
-- errors.
pub record ServerEnv : Type 1 where
  pub host : Host
  pub codec : Codec
  pub base_dir : Text
  pub api : ApiEnv codec.LogRecord
  pub webhook_env : WebhookEnv
  pub secret : Text
  pub delay : ℕ
  pub csrf_token : Option Text
  pub started_at : ℕ
  pub ended_at : ℕ
  pub decode_plan : Text → Decoded
  pub error_text : RunError → Text
  pub work_dir_text : StoreError → Text
  pub failure_text : PlanFailure → Text

-- What requests may change: what the services share, and the debouncer of the webhook.
pub record ServerState : Type 0 where
  pub shared : Shared
  pub clock : Clockwork TriggerSource

-- `cleanPath` of `ServeMux`: a slash at the end stays.
unfoldable pub clean_path : Text → Text
clean_path path =
    let np = clean path in
    if is_some (cut_suffix path (str "/")) && np /= str "/" then np ++ str "/" else np

module _ (v : ServerEnv) where
  abbrev pub ServerResponse : Type 0
  ServerResponse = Response (Json v.codec.LogRecord)

  -- A file of the web interface, or the error for a method that does not read.
  unfoldable pub serve_ui : Request → Writer → Text → ServerResponse
  serve_ui r w path =
      if is_read r.method
      then record { status = 200; writer = w; body = asset path }
      else http_error w 405 (str "Method not allowed")

  unfoldable pub handle_root : Request → Writer → ServerResponse
  handle_root r w = serve_ui r w (str "/")

  unfoldable pub handle_assets : Request → Writer → ServerResponse
  handle_assets r w = serve_ui r w r.path

  unfoldable pub trigger_webhook : ServerState → ServerState
  trigger_webhook s = record s { clock = request v.delay webhook s.clock }

  unfoldable pub execute_plan_request :
      PlanRequest → ServerState → (Text × Option PlanFailure) × ServerState
  execute_plan_request req s =
      let r =
        execute v.host v.codec v.base_dir v.error_text v.work_dir_text req v.started_at v.ended_at
          s.shared in
      (r.0, record s { shared = r.1 })

  abbrev pub redirect : Writer → Text → ServerResponse
  redirect w path = record {
    status = 307;
    writer = set_header (str "Location") path w;
    body = text [];
  }

  unfoldable pub serve_mux : Handler (Json v.codec.LogRecord) ServerState
  serve_mux r w s =
      if r.path == str "/webhook"
      then handle_webhook v.webhook_env s.shared.cfg v.secret trigger_webhook r w s
      else if clean_path r.path /= r.path && r.method /= str "CONNECT"
      then (redirect w (clean_path r.path), s)
      else if r.path == str "/api/plan"
      then handle_plan v.decode_plan v.failure_text execute_plan_request r w s
      else if r.path == str "/api" || r.path == str "/assets"
      then (redirect w (r.path ++ str "/"), s)
      else if has_prefix r.path (str "/assets/")
      then (handle_assets r w, s)
      else if has_prefix r.path (str "/api/")
      then (handle_api v.host.env v.codec v.base_dir v.api s.shared.cfg r w s.shared.tree, s)
      else (handle_root r w, s)

  unfoldable pub serve : Handler (Json v.codec.LogRecord) ServerState
  serve = security_headers_middleware (csrf_middleware v.csrf_token serve_mux)
