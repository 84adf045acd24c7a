-- ===== src/Server/PlanApi.antt =====
-- internal/server/api_plan.go: `POST /api/plan`.
use quadsyncd.Base.{
  Bool, ◌&&◌, ◌||◌, Option, none, some, [], ◌++◌, Result, ok, err, ◌==◌, ◌/=◌, if◌then◌else◌,
  text_eq,
}
use quadsyncd.Base.Text.{Text, str}
use quadsyncd.Runstore.{PlanRequest}
use quadsyncd.Service.Planned.{PlanFailure}
use quadsyncd.Server.Http.{Request, Writer, Response, read_limited, write_json}
use quadsyncd.Server.Api.{Json, plan_triggered, write_json_error}

-- The JSON decoder on a body: nothing there, an error with its text, or a request, with whether
-- anything follows it.
pub data Decoded : Type 0 where
  nothing : Decoded
  malformed : Text → Decoded
  request : PlanRequest → Bool → Decoded

abbrev pub no_request : PlanRequest
no_request = record { repo_url = []; ref = []; commit = [] }

abbrev pub answer_of :
    {L : Type 0} → (PlanFailure → Text) → Writer → Text → Option PlanFailure → Response (Json L)
answer_of failure_text w run_id none =
    write_json w 200
      (plan_triggered (record { run_id = run_id; status = str "success"; error = [] }))
answer_of failure_text w run_id (some x) =
    write_json w 500
      (plan_triggered (record { run_id = run_id; status = []; error = failure_text x }))

abbrev pub decoded_body : (Text → Decoded) → Result (Unit {0}) Text → Decoded
decoded_body decode (err u) = malformed (str "read error")
decoded_body decode (ok content) = decode content

module _ {L S : Type 0} (decode : Text → Decoded) (failure_text : PlanFailure → Text)
    (execute : PlanRequest → S → (Text × Option PlanFailure) × S) where
  unfoldable pub run_plan_request : PlanRequest → Writer → S → Response (Json L) × S
  run_plan_request req w s =
      if req.repo_url == [] && (req.ref /= [] || req.commit /= [])
      then (write_json_error w 400 (str "repo_url is required when ref or commit is specified"), s)
      else let r = execute req s in (answer_of failure_text w r.0.0 r.0.1, r.1)

  -- A body that is not there is an empty request.
  unfoldable pub handle_decoded : Decoded → Writer → S → Response (Json L) × S
  handle_decoded nothing w s = run_plan_request no_request w s
  handle_decoded (malformed message) w s =
      (write_json_error w 400 (str "invalid request body: " ++ message), s)
  handle_decoded (request req trailing) w s =
      if trailing
      then (write_json_error w 400 (str "invalid request body: unexpected trailing data"), s)
      else run_plan_request req w s

  unfoldable pub handle_plan : Request → Writer → S → Response (Json L) × S
  handle_plan r w s =
      if r.method /= str "POST"
      then (write_json_error w 405 (str "Method not allowed"), s)
      else handle_decoded (decoded_body decode (read_limited 65536 r)) w s
