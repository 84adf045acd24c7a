-- ===== src/Sync.antt =====
-- internal/sync/state.go and the types of internal/sync/sync.go.
pub mod Planning
pub mod Apply
pub mod NewState
pub mod Restart
pub mod Filter
pub mod Engine
mod Tests
use quadsyncd.Base.{ℕ, List, [], Option}
use quadsyncd.Base.Text.{Text}
use quadsyncd.Base.Dict.{Dict}

pub record ManagedFile : Type 0 where
  pub source_path : Text
  pub hash : Text
  pub source_repo : Text
  pub source_ref : Text
  pub source_sha : Text

pub record State : Type 0 where
  pub commit : Text
  pub revisions : Dict Text Text
  pub managed_files : Dict Text ManagedFile

pub record FileOp : Type 0 where
  pub source_path : Text
  pub dest_path : Text
  pub hash : Text
  pub source_repo : Text
  pub source_ref : Text
  pub source_sha : Text

pub record Plan : Type 0 where
  pub add : List FileOp
  pub update : List FileOp
  pub delete : List FileOp

abbrev pub empty_plan : Plan
empty_plan = record { add = []; update = []; delete = [] }

abbrev pub empty_state : State
empty_state = record { commit = []; revisions = []; managed_files = [] }
