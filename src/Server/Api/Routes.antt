-- ===== src/Server/Api/Routes.antt =====
-- The routes below `/api/` of internal/server/api.go.
use quadsyncd.Base.{
  not, ◌&&◌, Option, none, some, [], contains, ◌==◌, ◌/=◌, if◌then◌else◌, nat_eq, text_eq,
}
use quadsyncd.Base.Text.{Text, str, cut_prefix, cut_suffix}
use quadsyncd.Os.{Env}
use quadsyncd.Config.{Config}
use quadsyncd.Runstore.Store.{Tree, Codec}
use quadsyncd.Server.Http.{Request, Writer, Response, text, set_header}
use quadsyncd.Server.Api.{
  Json, ApiEnv, write_json_error, handle_overview, handle_runs, handle_units, handle_timer,
  handle_events, handle_run_logs, handle_run_plan, handle_run_detail,
}

module _ (e : Env) (h : Codec) (base_dir : Text) (a : ApiEnv h.LogRecord) (cfg : Config) where
  abbrev pub if_get : Request → Writer → Response (Json h.LogRecord) → Response (Json h.LogRecord)
  if_get r w answer =
      if r.method /= str "GET" then write_json_error w 405 (str "Method not allowed") else answer

  abbrev pub not_implemented : Writer → Response (Json h.LogRecord)
  not_implemented w = record {
    status = 501;
    writer = set_header (str "Content-Type") (str "application/json") w;
    body = text (str "{\"error\":\"API endpoint not implemented\"}\n");
  }

  -- The identifier in front of a suffix, where it is one element of a path.
  unfoldable pub id_before : Text → Text → Option Text
  id_before rest suffix = elim (cut_suffix rest suffix) [
    | none ↦ none
    | some id ↦ if id /= [] && not (contains id b'/') then some id else none
  ]

  unfoldable pub handle_run_routes : Text → Request → Writer → Tree → Response (Json h.LogRecord)
  handle_run_routes rest r w t = elim (id_before rest (str "/logs")) [
    | some id ↦ if_get r w (handle_run_logs e h base_dir a cfg id r w t)
    | none ↦ elim (id_before rest (str "/plan")) [
      | some id ↦ if_get r w (handle_run_plan e h base_dir a cfg id w t)
      | none ↦
          if not (contains rest b'/')
          then if_get r w (handle_run_detail e h base_dir a cfg rest w t)
          else not_implemented w
    ]
  ]

  unfoldable pub handle_api : Request → Writer → Tree → Response (Json h.LogRecord)
  handle_api r w t =
      if r.path == str "/api/overview"
      then if_get r w (handle_overview e h base_dir a cfg w t)
      else if r.path == str "/api/runs"
      then if_get r w (handle_runs e h base_dir a cfg r w t)
      else if r.path == str "/api/units"
      then if_get r w (handle_units e h base_dir a cfg w t)
      else if r.path == str "/api/timer"
      then if_get r w (handle_timer e h base_dir a cfg w)
      else if r.path == str "/api/events"
      then if_get r w (handle_events e h base_dir a cfg w)
      else elim (cut_prefix r.path (str "/api/runs/")) [
        | none ↦ not_implemented w
        | some rest ↦ if rest == [] then not_implemented w else handle_run_routes rest r w t
      ]
