-- ===== src/Systemd.antt =====
-- internal/systemduser/systemduser.go: systemctl and the generator of podman. The module Activation
-- is about internal/activation/activation.go.
pub mod Activation
mod Tests
use quadsyncd.Base.{
  ℕ, Bool, true, false, Option, none, some, List, [], ◌∷◌, ◌++◌, Result, ok, err, leb, ◌==◌,
  if◌then◌else◌, text_eq,
}
use quadsyncd.Base.Text.{Text, str}
use quadsyncd.Base.Decimal.{ℤ, pos, negsuc}
use quadsyncd.Git.{trim_space}

-- How a command ended: well, with an exit code that is not zero, where -1 stands for a signal, or
-- without having run.
pub data Ended : Type 0 where
  succeeded : Ended
  exited : ℤ → Ended
  not_run : Ended

pub data SystemdError : Type 0 where
  reload_failed try_restart_failed not_available generator_failed restart_failed : SystemdError
  is_active_failed : SystemdError

-- The operating system: a command with its output, the search in PATH, and what paths there are.
pub record CommandHost (W : Type 0) : Type 0 where
  pub exec : List Text → W → (Ended × Text) × W
  pub look_path : Text → W → Option Text
  pub exists : Text → W → Bool

abbrev pub generator_fallback : Text
generator_fallback = str "/usr/lib/systemd/system-generators/podman-system-generator"

-- An error of its own for whatever is wrong.
abbrev pub checked : SystemdError → Ended → Result SystemdError (Unit {0})
checked failure succeeded = ok tt
checked failure (exited code) = err failure
checked failure not_run = err failure

abbrev pub at_most_three : ℤ → Bool
at_most_three (pos n) = leb n 3
at_most_three (negsuc n) = true

-- `systemctl status` also fails for a system that is degraded.
abbrev pub availability : Ended → Result SystemdError Bool
availability succeeded = ok true
availability (exited code) = if at_most_three code then ok true else err not_available
availability not_run = err not_available

-- A unit that is not active is no error.
abbrev pub status_answer : Ended → Text → Result SystemdError Text
status_answer succeeded output = ok (trim_space output)
status_answer (exited code) output = ok (trim_space output)
status_answer not_run output = err is_active_failed

module _ {W : Type 0} (h : CommandHost W) where
  abbrev pub systemctl : List Text → W → (Ended × Text) × W
  systemctl args w = h.exec (str "systemctl" ∷ str "--user" ∷ args) w

  unfoldable pub daemon_reload : W → Result SystemdError (Unit {0}) × W
  daemon_reload w =
      let r = systemctl (str "daemon-reload" ∷ []) w in (checked reload_failed r.0.0, r.1)

  unfoldable pub try_restart_units : List Text → W → Result SystemdError (Unit {0}) × W
  try_restart_units [] w = (ok tt, w)
  try_restart_units (u ∷ us) w =
      let r = systemctl (str "try-restart" ∷ u ∷ us) w in (checked try_restart_failed r.0.0, r.1)

  unfoldable pub restart_units : List Text → W → Result SystemdError (Unit {0}) × W
  restart_units [] w = (ok tt, w)
  restart_units (u ∷ us) w =
      let r = systemctl (str "restart" ∷ u ∷ us) w in (checked restart_failed r.0.0, r.1)

  unfoldable pub is_available : W → Result SystemdError Bool × W
  is_available w = let r = systemctl (str "status" ∷ []) w in (availability r.0.0, r.1)

  abbrev pub or_fallback : Option Text → Text
  or_fallback none = generator_fallback
  or_fallback (some path) = path

  unfoldable pub quadlet_generator_path : W → Text
  quadlet_generator_path w = or_fallback (h.look_path (str "podman-system-generator") w)

  -- The directory is only logged. Without a generator there is nothing to validate with.
  unfoldable pub validate_quadlets : Text → W → Result SystemdError (Unit {0}) × W
  unfolding quadlet_generator_path
  validate_quadlets quadlet_dir w =
      let path = quadlet_generator_path w in
      let r = h.exec (path ∷ str "--user" ∷ str "--dryrun" ∷ []) w in
      if h.exists path w then (checked generator_failed r.0.0, r.1) else (ok tt, w)

  unfoldable pub get_unit_status : Text → W → Result SystemdError Text × W
  get_unit_status unit w =
      let r = systemctl (str "is-active" ∷ unit ∷ []) w in (status_answer r.0.0 r.0.1, r.1)
