-- ===== src/Sync/NewState.antt =====
-- `buildStateFromEffective` of internal/sync/sync.go.
pub mod Lookup
pub mod Converge
use quadsyncd.Base.{Option, none, some, List, [], ◌∷◌, ◌++◌, if◌then◌else◌, text_eq}
use quadsyncd.Base.Text.{Text}
use quadsyncd.Base.Dict.{Dict, insert, erase}
use quadsyncd.FilePath.{rel}
use quadsyncd.Multirepo.{RepoState}
use quadsyncd.Sync.{ManagedFile, State, FileOp, Plan}

unfoldable pub revisions_of : List RepoState → Dict Text Text → Dict Text Text
revisions_of [] revisions = revisions
revisions_of (rs ∷ states) revisions = revisions_of states (insert rs.spec.url rs.commit revisions)

unfoldable pub single_commit : List RepoState → Text
single_commit (rs ∷ []) = rs.commit
single_commit states = []

-- The path below the quadlet directory, or the destination itself where there is none.
unfoldable pub rel_or_dest : Text → Text → Text
rel_or_dest quadlet_dir dest_path = elim (rel quadlet_dir dest_path) [
  | none ↦ dest_path
  | some path ↦ path
]

unfoldable pub managed_of : Text → FileOp → ManagedFile
managed_of quadlet_dir op = record {
  source_path = rel_or_dest quadlet_dir op.dest_path;
  hash = op.hash;
  source_repo = op.source_repo;
  source_ref = op.source_ref;
  source_sha = op.source_sha;
}

unfoldable pub forget_all : List FileOp → Dict Text ManagedFile → Dict Text ManagedFile
forget_all [] d = d
forget_all (op ∷ ops) d = forget_all ops (erase op.dest_path d)

unfoldable pub manage_all : Text → List FileOp → Dict Text ManagedFile → Dict Text ManagedFile
manage_all quadlet_dir [] d = d
manage_all quadlet_dir (op ∷ ops) d =
    manage_all quadlet_dir ops (insert op.dest_path (managed_of quadlet_dir op) d)

unfoldable pub build_state_from_effective : Text → State → Plan → List RepoState → State
build_state_from_effective quadlet_dir prev p states = record {
  commit = single_commit states;
  revisions = revisions_of states [];
  managed_files =
      manage_all quadlet_dir (p.add ++ p.update) (forget_all p.delete prev.managed_files);
}
