-- ===== src/Server/Broadcaster.antt =====
-- internal/server/broadcaster.go: the poll of the runs directory, and the subscribers.
pub mod LogLines
pub mod Bounds
pub mod Once
use quadsyncd.Base.{
  ℕ, ◌+◌, ◌≡◌, Bool, true, false, not, ◌&&◌, Option, none, some, List, [], ◌∷◌, ◌++◌, map, keep,
  length, drop, ltb, leb, contains, Result, ok, err, ◌==◌, ◌/=◌, Eq, nat_eq, if◌then◌else◌, text_eq,
}
use quadsyncd.Base.Text.{Text, str, split, trim_suffix}
use quadsyncd.Base.Text.Order.{text_lt}
use quadsyncd.Base.Dict.{Dict, lookup, insert, erase}
use quadsyncd.Base.Sort.{sort_by}
use quadsyncd.FilePath.{join}
use quadsyncd.Os
use quadsyncd.Os.{Env, Disk, File, open_file, read_data, stat, read_file}
use quadsyncd.Runstore.{
  RunKind, RunStatus, running, success, failure, TriggerSource, ConflictSummary, RunMeta,
}
use quadsyncd.Runstore.Store.{Tree, Codec, meta_path, log_path, plan_path, run_names}

pub data EventKind : Type 0 where
  run_started run_updated log_appended plan_ready : EventKind

status_dec : Discrete RunStatus
status_dec = hlevel

instance unfoldable pub status_eq : Eq RunStatus
unfolding status_dec
status_eq = record { dec = status_dec }

-- `none` is the empty value that the JSON omits.
pub record SseEventPayload (L : Type 0) : Type 0 where
  pub run_id : Text
  pub kind : Option RunKind
  pub status : Option RunStatus
  pub trigger : Option TriggerSource
  pub dry_run : Bool
  pub started_at : Option ℕ
  pub ended_at : Option ℕ
  pub revisions : Dict Text Text
  pub conflicts : List ConflictSummary
  pub lines : List L

pub record SseEvent (L : Type 0) : Type 0 where
  pub kind : EventKind
  pub payload : SseEventPayload L

pub record RunTrackState : Type 0 where
  pub status : RunStatus
  pub log_offset : ℕ
  pub plan_ready : Bool

-- The channels of the subscribers, by an identity, with what they buffer.
pub record Broadcaster (L : Type 0) : Type 0 where
  pub subs : Dict ℕ (List (SseEvent L))
  pub states : Dict Text RunTrackState

unfoldable pub new_broadcaster : {L : Type 0} → Broadcaster L
new_broadcaster = record { subs = []; states = [] }

module _ {L : Type 0} where
  -- `id` is a new channel.
  unfoldable pub subscribe : ℕ → Broadcaster L → Broadcaster L
  subscribe id b = record b { subs = insert id [] b.subs }

  unfoldable pub unsubscribe : ℕ → Broadcaster L → Broadcaster L
  unsubscribe id b = record b { subs = erase id b.subs }

  -- A channel takes 64 events; the rest is dropped.
  unfoldable pub offer : SseEvent L → List (SseEvent L) → List (SseEvent L)
  offer ev buffered = if ltb (length buffered) 64 then buffered ++ ev ∷ [] else buffered

  unfoldable pub broadcast_to : SseEvent L → Dict ℕ (List (SseEvent L)) → Dict ℕ (List (SseEvent L))
  unfolding offer
  broadcast_to ev [] = []
  broadcast_to ev ((id, buffered) ∷ subs) = (id, offer ev buffered) ∷ broadcast_to ev subs

  unfoldable pub broadcast : SseEvent L → Broadcaster L → Broadcaster L
  broadcast ev b = record b { subs = broadcast_to ev b.subs }

  unfoldable pub broadcast_all : List (SseEvent L) → Broadcaster L → Broadcaster L
  broadcast_all [] b = b
  broadcast_all (ev ∷ evs) b = broadcast_all evs (broadcast ev b)

  -- `<-ch` in `handleEvents`, where an event is there to be taken.
  unfoldable pub receive : ℕ → Broadcaster L → Option (SseEvent L) × Broadcaster L
  receive id b = elim (lookup id b.subs) [
    | none ↦ (none, b)
    | some buffered ↦ elim buffered [
      | [] ↦ (none, b)
      | ev ∷ evs ↦ (some ev, record b { subs = insert id evs b.subs })
    ]
  ]

  unfoldable pub meta_to_payload : Text → RunMeta → SseEventPayload L
  meta_to_payload run_id meta = record {
    run_id = run_id;
    kind = some meta.kind;
    status = some meta.status;
    trigger = some meta.trigger;
    dry_run = meta.dry_run;
    started_at = some meta.started_at;
    ended_at = meta.ended_at;
    revisions = meta.revisions;
    conflicts = meta.conflicts;
    lines = [];
  }

  abbrev pub lines_payload : Text → List L → SseEventPayload L
  lines_payload run_id lines = record {
    run_id = run_id;
    kind = none;
    status = none;
    trigger = none;
    dry_run = false;
    started_at = none;
    ended_at = none;
    revisions = [];
    conflicts = [];
    lines = lines;
  }

-- The tokens of `bufio.Scanner`: what follows the last line end is one unless it is empty.
unfoldable pub drop_last_empty : List Text → List Text
drop_last_empty [] = []
drop_last_empty (x ∷ []) = if x == [] then [] else x ∷ []
drop_last_empty (x ∷ y ∷ ys) = x ∷ drop_last_empty (y ∷ ys)

module _ (e : Env) (h : Codec) where
  -- One line, from an offset, as read and without its line end, and what is read behind it.
  abbrev pub take_line : ℕ → Text → Text → List h.LogRecord × ℕ → List h.LogRecord × ℕ
  take_line offset given raw rest =
      if leb 65536 (length given)
      then ([], offset)
      else if raw == []
      then rest
      else elim (h.unmarshal_record raw) [ none ↦ rest | some r ↦ (r ∷ rest.0, rest.1) ]

  -- The records of lines, and the offset behind them. A line of 64 KiB ends the scan.
  unfoldable pub scan_records : List Text → ℕ → List h.LogRecord × ℕ
  scan_records [] offset = ([], offset)
  scan_records (given ∷ lines) offset =
      let raw = trim_suffix given (b'\r' ∷ []) in
      let rest = scan_records lines (offset + length raw + 1) in take_line offset given raw rest

  unfoldable pub read_new_log_lines : Text → ℕ → Disk → List h.LogRecord × ℕ
  read_new_log_lines path prev_offset disk =
      if e.fails open_file path then ([], prev_offset) else elim (lookup path disk) [
        | none ↦ ([], prev_offset)
        | some f ↦
            if e.fails stat path
            then ([], prev_offset)
            else if leb (length f.content) prev_offset
            then ([], prev_offset)
            else if e.fails read_data path
            then ([], prev_offset)
            else scan_records (drop_last_empty (split b'\n' (drop prev_offset f.content)))
                prev_offset
      ]

  unfoldable pub read_run_meta : Text → Disk → Option RunMeta
  read_run_meta run_dir disk = elim (read_file e (meta_path run_dir) disk) [
    | err x ↦ none
    | ok text ↦ h.unmarshal_meta text
  ]

  -- The first part of `checkRun`: the state of a run and the event of its metadata.
  unfoldable pub observe_meta :
      Text → RunMeta → Option RunTrackState → RunTrackState × List (SseEvent h.LogRecord)
  observe_meta run_id meta none = (
    record { status = meta.status; log_offset = 0; plan_ready = false },
    record { kind = run_started; payload = meta_to_payload run_id meta } ∷ [],
  )
  observe_meta run_id meta (some state) = if state.status == meta.status then (state, []) else (
    record state { status = meta.status },
    record { kind = run_updated; payload = meta_to_payload run_id meta } ∷ [],
  )

  abbrev pub log_seen :
      Text → RunTrackState → List h.LogRecord × ℕ → RunTrackState × List (SseEvent h.LogRecord)
  log_seen run_id state ([], new_offset) = (state, [])
  log_seen run_id state (r ∷ rs, new_offset) = (
    record state { log_offset = new_offset },
    record { kind = log_appended; payload = lines_payload run_id (r ∷ rs) } ∷ [],
  )

  unfoldable pub observe_log :
      Text → Text → Disk → RunTrackState → RunTrackState × List (SseEvent h.LogRecord)
  observe_log run_id run_dir disk state =
      log_seen run_id state (read_new_log_lines (log_path run_dir) state.log_offset disk)

  abbrev pub plan_seen :
      Text → RunMeta → RunTrackState → Option File → RunTrackState × List (SseEvent h.LogRecord)
  plan_seen run_id meta state none = (state, [])
  plan_seen run_id meta state (some f) = (
    record state { plan_ready = true },
    record { kind = plan_ready; payload = meta_to_payload run_id meta } ∷ [],
  )

  unfoldable pub observe_plan :
      Text → Text → RunMeta → Disk → RunTrackState → RunTrackState × List (SseEvent h.LogRecord)
  observe_plan run_id run_dir meta disk state =
      if state.plan_ready
      then (state, [])
      else if e.fails stat (plan_path run_dir)
      then (state, [])
      else plan_seen run_id meta state (lookup (plan_path run_dir) disk)

  -- What `checkRun` makes of the state of one run, with the events that it sends.
  unfoldable pub observe_run :
      Text → Text → Disk → Option RunTrackState → Option RunTrackState × List (SseEvent h.LogRecord)
  observe_run run_id run_dir disk known = elim (read_run_meta run_dir disk) [
    | none ↦ (known, [])
    | some meta ↦
        let a = observe_meta run_id meta known in
        let b = observe_log run_id run_dir disk a.0 in
        let c = observe_plan run_id run_dir meta disk b.0 in (some c.0, a.1 ++ (b.1 ++ c.1))
  ]

  abbrev pub put_state :
      Text → Option RunTrackState → Dict Text RunTrackState → Dict Text RunTrackState
  put_state run_id none states = states
  put_state run_id (some state) states = insert run_id state states

  unfoldable pub check_run : Text → Text → Disk → Broadcaster h.LogRecord → Broadcaster h.LogRecord
  check_run runs_dir run_id disk b =
      let seen = observe_run run_id (join runs_dir run_id) disk (lookup run_id b.states) in
      broadcast_all seen.1 (record b { states = put_state run_id seen.0 b.states })

  unfoldable pub check_runs :
      Text → List Text → Disk → Broadcaster h.LogRecord → Broadcaster h.LogRecord
  check_runs runs_dir [] disk b = b
  check_runs runs_dir (run_id ∷ ids) disk b =
      check_runs runs_dir ids disk (check_run runs_dir run_id disk b)

  -- The states of the runs that exist.
  unfoldable pub keep_existing : List Text → Dict Text RunTrackState → Dict Text RunTrackState
  keep_existing ids [] = []
  keep_existing ids ((id, state) ∷ states) =
      let rest = keep_existing ids states in if contains ids id then (id, state) ∷ rest else rest

  -- `os.ReadDir` gives the entries by their names; a directory that is not there has none to read.
  unfoldable pub poll : Text → Tree → Broadcaster h.LogRecord → Broadcaster h.LogRecord
  poll runs_dir t b =
      if e.fails open_file runs_dir
      then b
      else if not (contains t.dirs runs_dir)
      then b
      else let ids = sort_by text_lt (run_names e h runs_dir t.dirs) in
        let checked = check_runs runs_dir ids t.disk b in
        record checked { states = keep_existing ids checked.states }

-- The name of an event on the wire.
abbrev pub kind_name : EventKind → Text
kind_name run_started = str "run_started"
kind_name run_updated = str "run_updated"
kind_name log_appended = str "log_appended"
kind_name plan_ready = str "plan_ready"

-- `encoded` is `json.Marshal`.
unfoldable pub format_sse_event :
    {L : Type 0} → (SseEventPayload L → Option Text) → SseEvent L → Option Text
format_sse_event encoded ev = elim (encoded ev.payload) [
  | none ↦ none
  | some content ↦
      some (str "event: " ++ kind_name ev.kind ++ str "\ndata: " ++ content ++ str "\n\n")
]
