-- ===== src/Lib.antt =====
-- A model of quadsyncd, a daemon that keeps a directory of Podman quadlet files in step with git
-- repositories, and what is proved of it.
--
-- The parts and how they interact. A configuration (internal/config/config.go) names one repository
-- or several. A run of the sync engine (internal/sync/sync.go) checks every repository out, lists
-- the files of each (internal/quadlet/quadlet.go), merges them by the priority of their
-- repositories (internal/multirepo/multirepo.go), compares the result with the state that the last
-- run saved (internal/sync/state.go), and copies and deletes files in the quadlet directory. It then
-- validates, saves the new state, reloads systemd and restarts units. The run store
-- (internal/runstore/runstore.go) keeps the metadata, logs and plans of runs on disk.
--
-- The services (internal/service) run syncs, one at a time, and plans, and record them there. A server
-- (internal/server) triggers syncs by webhooks, through a debouncer, and plans by its API, which also
-- shows what the store holds; a broadcaster polls the store and streams what is new. Checkouts are
-- made by the git command (internal/git), what runs log is redacted (internal/logging), and systemd
-- is asked by systemctl (internal/systemduser). The command line (cmd/quadsyncd) syncs once or serves.
--
-- Which file models what:
--   Base       Boolean tests, results, lists, byte strings, Go maps as association lists, sorting
--   FilePath   path/filepath of the Go library for slash-separated paths: Clean, Join, Dir, Base,
--              Ext and Rel by recursion on the elements of a path
--   Os         the calls of the package os, as functions of a disk and of an environment that may
--              fail any call
--   Quadlet    IsQuadletFile, UnitNameFromQuadlet; Quadlet/Walk: the three Discover functions, as
--              callbacks of a walk over a tree of nodes
--   Config     the records, expandEnv, applyDefaults, Validate, Load and the derived paths
--   Multirepo  loadRepoFiles, normalizeMergeKey, Merge and detectUnitNameCollisions
--   Sync       the state; Sync/Planning: buildPlanFromEffective and fileHash; Sync/Apply: applyPlan
--              and copyFile; Sync/NewState: buildStateFromEffective; Sync/Restart: handleRestarts;
--              Sync/Filter: the repository filter; Sync/Engine: LoadRepoState, loadAllRepoStates,
--              loadState, saveState and Run
--   Runstore   the types of runs and the checks of names; Runstore/Store: Create, Update, Get, List,
--              the logs, plans and artifacts; Runstore/Prune: Prune
--   Service    TriggerSync of internal/service/sync.go: its two critical sections, and the steps of
--              the goroutines that call it in any order; Service/Recorded: executeSync and
--              convert.go; Service/Planned: Execute and writePlanWithArtifacts of plan.go
--   Server     Server/Serve: the routes of server.go and spa.go behind Server/Middleware;
--              Server/Webhook and Server/Debounce: webhook.go; Server/Broadcaster: broadcaster.go;
--              Server/Api, Server/PlanApi, Server/Paging and Server/Dto: api.go, api_plan.go,
--              util.go and dto; Server/Http: requests and responses as values
--   Logging    redact.go and the tee of tee.go; Logging/Ndjson: its NDJSON handler
--   Git        git.go: the commands of a checkout and their authentication
--   Systemd    systemduser.go: the commands of the client; Systemd/Activation: activation.go
--   Cmd        runSync, with its own record of the run, and loadConfig of cmd/quadsyncd/main.go
--
-- Conventions. A byte string is a list of numbers. A Go map is an association list, and the order of
-- a loop over it is that of the list. A function that returns an error returns a result whose errors
-- name the message without its text. State that is shared through a pointer, the disk and the
-- configuration of a run, is passed in and returned. Loops are structural recursions, with two kinds
-- of exception: the digits of a number are taken with as much fuel as the number, and a client that follows cursors has as many steps as there are items, and one, which
-- `follow_cursors_complete` proves to be enough. Priorities and times are natural numbers, of which
-- only the order and sums are used; what strconv.Atoi reads is bounded as an int of 64 bits.
--
-- Parameters. The run of the git command, systemd, the JSON and YAML libraries, the clock and the
-- formats of times, random identifiers and tokens, SHA-256, HMACs, the environment of the process and
-- the lines that the command `sync` logs while it runs are arguments of the definitions that use them. ToLower, EqualFold and TrimSpace are those of ASCII.
--
-- Not modelled: the lines that any other code logs while it runs, contexts and cancellation, the start and
-- the shutdown of the HTTP server and the connection of an event stream, which are input and output;
-- and the flags, the loggers and the wiring of the command `serve` (cmd/quadsyncd).
pub mod Base
pub mod FilePath
pub mod Os
pub mod Quadlet
pub mod Config
pub mod Multirepo
pub mod Sync
pub mod Runstore
pub mod Service
pub mod Server
pub mod Logging
pub mod Git
pub mod Systemd
pub mod Cmd
