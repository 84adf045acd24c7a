-- ===== src/Sync/Restart.antt =====
-- `handleRestarts`, `affectedUnits`, `allManagedUnits` and `quadletUnitsFromOps` of
-- internal/sync/sync.go. The order of the units is that of a Go map, which nothing fixes.
use quadsyncd.Base.{Bool, true, List, [], ◌∷◌, ◌++◌, if◌then◌else◌, text_eq}
use quadsyncd.Base.Text.{Text}
use quadsyncd.Base.Dict.{Dict, keys, insert}
use quadsyncd.Quadlet.{is_quadlet_file, unit_name_from_quadlet}
use quadsyncd.Config.{
  RestartPolicy, restart_none, restart_changed, restart_all_managed, restart_unset, restart_other,
}
use quadsyncd.Sync.{State, FileOp, Plan}

-- What a policy asks of systemd: nothing, or `TryRestartUnits` with these units.
pub data Restart : Type 0 where
  no_restart : Restart
  restart_units : List Text → Restart
  unknown_policy : Restart

unfoldable pub dest_paths : List FileOp → List Text
dest_paths [] = []
dest_paths (op ∷ ops) = op.dest_path ∷ dest_paths ops

-- The set of units, as the keys of a map.
unfoldable pub collect_units : List Text → Dict Text Bool → Dict Text Bool
collect_units [] units = units
collect_units (path ∷ paths) units =
    collect_units paths
      (if is_quadlet_file path then insert (unit_name_from_quadlet path) true units else units)

unfoldable pub quadlet_units_from_ops : List FileOp → List Text
quadlet_units_from_ops ops = keys (collect_units (dest_paths ops) [])

unfoldable pub affected_units : Plan → List Text
affected_units p = quadlet_units_from_ops (p.add ++ (p.update ++ p.delete))

unfoldable pub all_managed_units : State → List Text
all_managed_units s = keys (collect_units (keys s.managed_files) [])

abbrev pub restart_all : List Text → Restart
restart_all [] = no_restart
restart_all (u ∷ us) = restart_units (u ∷ us)

unfoldable pub handle_restarts : RestartPolicy → Plan → State → Restart
handle_restarts restart_none p s = no_restart
handle_restarts restart_changed p s = restart_all (affected_units p)
handle_restarts restart_all_managed p s = restart_all (all_managed_units s)
handle_restarts restart_unset p s = unknown_policy
handle_restarts (restart_other t) p s = unknown_policy
