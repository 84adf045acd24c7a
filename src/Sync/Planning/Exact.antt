-- ===== src/Sync/Planning/Exact.antt =====
-- `buildPlanFromEffective` plans exactly the operations that the difference asks for.
use mathlib.Core.Path.{subst}
use mathlib.Core.List.{Memᴰ}
use quadsyncd.Base.{
  ◌≡◌, refl, sym, ap, ◌∙◌, ◌↔◌, inl, inr, Bool, true, List, [], ok, Result-cases, text_eq,
}
use quadsyncd.Base.Text.{Text}
use quadsyncd.Os.{Env, Disk, read_file}
use quadsyncd.Multirepo.{EffectiveItem}
use quadsyncd.Sync.{ManagedFile, State, FileOp, Plan}
use quadsyncd.Sync.Planning.{
  Change, to_add, to_update, desired_files, op_for, delete_op, file_hash, change_for,
  build_plan_from_effective,
}
use quadsyncd.Sync.Planning.Diff.{Asks}
use quadsyncd.Sync.Planning.Ops.{IsStale, build_plan_from_effective-ops}
use quadsyncd.Sync.Planning.Wanted.{
  Wants, Unwanted, Wants-iff, Unwanted-iff, Missing, Differs, IsThere, change_for-add,
  change_for-update, stays_iff,
}

module _ (e : Env) (dry_run prune : Bool) (disk : Disk) (quadlet_dir : Text) (prev : State)
    (items : List EffectiveItem) where
  -- The operation puts a desired file in its place, with the hash of what stands at its source, and
  -- `Judges` is true of the place and the hash.
  pub record Puts (Judges : Text → Text → Type 0) (op : FileOp) : Type 0 where
    pub item : EffectiveItem
    pub wanted : Wants quadlet_dir op.dest_path item items
    pub content : Text
    pub readable : read_file e item.abs_path disk ≡ ok content
    pub made : op ≡ record {
      source_path = item.abs_path;
      dest_path = op.dest_path;
      hash = e.sha256 content;
      source_repo = item.source_repo;
      source_ref = item.source_ref;
      source_sha = item.source_sha;
    }
    pub judged : Judges op.dest_path (e.sha256 content)

  abbrev pub IsAddition : FileOp → Type 0
  IsAddition op = Puts (Missing e dry_run prune disk prev.managed_files) op

  abbrev pub IsUpdate : FileOp → Type 0
  IsUpdate op = Puts (Differs e dry_run prune disk prev.managed_files) op

  -- Pruning is on, and the operation removes a managed file that is not desired.
  pub record IsDeletion (op : FileOp) : Type 0 where
    pub pruning : prune ≡ true
    pub file : ManagedFile
    pub listed : Memᴰ (op.dest_path, file) prev.managed_files
    pub unwanted : Unwanted quadlet_dir op.dest_path items
    pub there : IsThere e dry_run prune disk prev.managed_files op.dest_path
    pub made : op ≡ record {
      source_path = [];
      dest_path = op.dest_path;
      hash = [];
      source_repo = [];
      source_ref = [];
      source_sha = [];
    }

  file_hash_iff :
      (path hash : Text)
      → (file_hash e dry_run prune disk path ≡ ok hash)
        ↔ ((content : Text) × (read_file e path disk ≡ ok content) × (hash ≡ e.sha256 content))
  unfolding file_hash
  file_hash_iff path hash = (
    λ h. elim (Result-cases (read_file e path disk)) [
      | inr (x, bad) ↦ cc
      | inl (content, a) ↦ (content, a, cc)
    ],
    λ (content, a, same). rw (file_hash, a) (ap ok (sym same)),
  )

  abbrev Asked : Change → FileOp → Type 0
  Asked c op = Asks e dry_run prune disk prev c (desired_files quadlet_dir items []) op

  -- An operation that is asked for puts a desired file in its place, where its change means `Judges`.
  Asked-iff :
      (c : Change) (Judges : Text → Text → Type 0)
      → ((dest_path hash : Text)
          → (change_for e dry_run prune disk prev dest_path hash ≡ ok c) ↔ Judges dest_path hash)
      → (op : FileOp) → Asked c op ↔ Puts Judges op
  unfolding op_for
  Asked-iff c Judges means op = (
    λ a.
        let (content, readable, same) = (file_hash_iff a.item.abs_path a.hash).0 a.hashed in
        let there : a.dest_path ≡ op.dest_path = sym (ap (λ (x : FileOp). x.dest_path) a.made) in
        record {
          item = a.item;
          wanted =
              subst (λ k. Wants quadlet_dir k a.item items) there
                ((Wants-iff quadlet_dir a.dest_path a.item items).0 a.wanted);
          content = content;
          readable = readable;
          made =
              a.made
              ∙ (ap (λ k. op_for k a.item a.hash) there
                  ∙ ap (λ k. op_for op.dest_path a.item k) same);
          judged =
              subst (λ k. Judges k (e.sha256 content)) there
                (subst (λ k. Judges a.dest_path k) same ((means a.dest_path a.hash).0 a.decided));
        },
    λ p. record {
      dest_path = op.dest_path;
      item = p.item;
      wanted = (Wants-iff quadlet_dir op.dest_path p.item items).1 p.wanted;
      hash = e.sha256 p.content;
      hashed = (file_hash_iff p.item.abs_path (e.sha256 p.content)).1 (p.content, p.readable, refl);
      decided = (means op.dest_path (e.sha256 p.content)).1 p.judged;
      made = p.made;
    },
  )

  IsStale-iff :
      (op : FileOp)
      → ((prune ≡ true)
          × IsStale e dry_run prune disk (desired_files quadlet_dir items []) prev.managed_files op)
        ↔ IsDeletion op
  unfolding delete_op
  IsStale-iff op = (
    λ (on, s).
        let (gone, there) = (stays_iff e prune disk prev s.dest_path [] dry_run _).0 s.leaves in
        let same : s.dest_path ≡ op.dest_path = sym (ap (λ (x : FileOp). x.dest_path) s.made) in
        let unwanted = (Unwanted-iff quadlet_dir s.dest_path items).0 gone in
        record {
          pruning = on;
          file = s.file;
          listed = subst (λ (k : Text). Memᴰ (k, s.file) prev.managed_files) same s.listed;
          unwanted = subst (λ k. Unwanted quadlet_dir k items) same unwanted;
          there = subst (IsThere e dry_run prune disk prev.managed_files) same there;
          made = s.made ∙ ap delete_op same;
        },
    λ d. (
      d.pruning,
      record {
        dest_path = op.dest_path;
        file = d.file;
        listed = d.listed;
        leaves =
            (stays_iff e prune disk prev op.dest_path [] dry_run _).1
              ((Unwanted-iff quadlet_dir op.dest_path items).1 d.unwanted, d.there);
        made = d.made;
      },
    ),
  )

  both : {A B C : Type 0} → A ↔ B → B ↔ C → A ↔ C
  both f g = (λ a. g.0 (f.0 a), λ c. f.1 (g.1 c))

  -- A plan that is built has exactly these operations: for each destination of a desired file, taken
  -- from the last item that has it, an addition when it is missing and an update when its hash is
  -- another, by the managed state or in a dry run by the file on disk, with the hash of what stands at
  -- the item's source and with where the item is from; and, if pruning is on, a deletion for each
  -- managed file that no item has for its destination and that, in a dry run, is there still.
  pub build_plan_from_effective_iff :
      (q : Plan)
      → build_plan_from_effective e dry_run prune disk quadlet_dir prev items ≡ ok q
      → (op : FileOp)
      → (Memᴰ op q.add ↔ IsAddition op)
        × (Memᴰ op q.update ↔ IsUpdate op)
        × (Memᴰ op q.delete ↔ IsDeletion op)
  build_plan_from_effective_iff q h op =
      let (adds, updates, deletes) =
        build_plan_from_effective-ops e dry_run prune disk quadlet_dir prev items q h op in
      (
        both adds (Asked-iff to_add _ (λ d k. change_for-add e prune disk prev d k dry_run) op),
        both updates
            (Asked-iff to_update _ (λ d k. change_for-update e prune disk prev d k dry_run) op),
        both deletes (IsStale-iff op),
      )
