-- ===== src/Server/Serve/Safety.antt =====
-- What a request must have to change anything.
use quadsyncd.Base.{◌≡◌, text_eq}
use quadsyncd.Base.Text.{str}
use quadsyncd.Server.Http.{Request}
use quadsyncd.Server.Middleware.Csrf.{HasToken}
use quadsyncd.Server.Webhook.Accepts.{Accepted}
use quadsyncd.Server.Serve.{ServerEnv, ServerState}

module _ (v : ServerEnv) (r : Request) (s : ServerState) where
  abbrev pub IsSignedWebhook : Type 0
  IsSignedWebhook = (r.path ≡ str "/webhook") × Accepted v.webhook_env s.shared.cfg v.secret r

  -- A request for a plan that repeats the token of its cookie.
  abbrev pub IsGuardedPlan : Type 0
  IsGuardedPlan = (r.path ≡ str "/api/plan") × (r.method ≡ str "POST") × HasToken r

  abbrev IsPlan : Type 0
  IsPlan = (r.path ≡ str "/api/plan") × (r.method ≡ str "POST")
