-- ===== src/Sync/Engine/Checkouts.antt =====
-- What the checkouts of a run do to the disk.
use mathlib.Core.Path.{subst}
use quadsyncd.Base.{
  ◌≡◌, refl, sym, ap, ◌∙◌, ◌≢◌, ◌⊎◌, inl, inr, false, Bool-cases, List, [], ◌∷◌, Option-cases, ok,
  Result-cases, ◌==◌, text_eq, arith,
}
use quadsyncd.Base.Text.{Text, str}
use quadsyncd.FilePath.{join}
use quadsyncd.Os.{Disk}
use quadsyncd.Config.{Config, AuthConfig, RepoSpec, auth_for_spec, repo_dir_for_spec}
use quadsyncd.Multirepo.{RepoState, load_repo_files}
use quadsyncd.Sync.Engine.{
  Host, Engine, override_spec, load_repo_state, dirs_for, load_all_repo_states,
}

module _ (h : Host) (eng : Engine) (cfg : Config) where
  -- The directory in which the repositories are checked out: that of the plan, or else the state's.
  abbrev pub IsRoot : Text → Type 0
  IsRoot root =
      ((eng.work_dir_override ≡ []) × (root ≡ cfg.paths.state_dir))
      ⊎ ((eng.work_dir_override ≢ []) × (root ≡ eng.work_dir_override))

  pub has-IsRoot : (root : Text) × IsRoot root
  has-IsRoot = elim (Bool-cases (eng.work_dir_override == [])) [
    | inl unset ↦
        let e : eng.work_dir_override ≡ [] = ground arith in (cfg.paths.state_dir, inl (e, refl))
    | inr set ↦
        let ne : eng.work_dir_override ≢ [] = λ k. (ground (arith, k, set)) in
        (eng.work_dir_override, inr (ne, refl))
  ]

  -- From one disk to another by nothing but checkouts: of some of the first repositories, in their
  -- order, each into a directory of its own below the root.
  abbrev pub Checkouts : Text → List RepoSpec → Disk → Disk → Type 0
  Checkouts root [] disk after = after ≡ disk
  Checkouts root (spec ∷ specs) disk after =
      (after ≡ disk)
      ⊎ ((auth : AuthConfig) × (ref : Text) × Checkouts root specs
            (h.ensure_checkout auth spec.url ref
              (join (join root (str "repos")) (h.repo_id spec.url)) disk).1
            after)

  nothing : (root : Text) (specs : List RepoSpec) (disk : Disk) → Checkouts root specs disk disk
  nothing root [] disk = refl
  nothing root (spec ∷ specs) disk = inl refl

  abbrev dest_of : Text → RepoSpec → Text
  dest_of root spec = join (join root (str "repos")) (h.repo_id spec.url)

  dirs_for-dest :
      (root : Text) (spec : RepoSpec)
      → IsRoot root
      → (dirs_for h eng cfg (override_spec eng.spec_overrides spec)).0 ≡ dest_of root spec
  unfolding dirs_for override_spec repo_dir_for_spec text_eq
  dirs_for-dest root spec (inl (unset, at)) = rw (unset, at) refl
  dirs_for-dest root spec (inr (set, at)) =
      let is_set : (eng.work_dir_override == []) ≡ false = ground (arith, set) in
      rw (is_set, at, dirs_for) refl

  load_repo_state-disk :
      (auth : AuthConfig) (spec : RepoSpec) (repo_dir src_dir : Text) (disk : Disk)
      → (load_repo_state h auth spec repo_dir src_dir disk).1
        ≡ (h.ensure_checkout auth spec.url spec.ref repo_dir disk).1
  unfolding load_repo_state
  load_repo_state-disk auth spec repo_dir src_dir disk =
      let r = h.ensure_checkout auth spec.url spec.ref repo_dir disk in
      elim (Option-cases r.0) [
        | inl e ↦ rw (e, load_repo_state) refl
        | inr (commit, e) ↦ elim (Result-cases (load_repo_files src_dir (h.tree_at src_dir r.1))) [
          | inr (x, bad) ↦ rw (e, bad, load_repo_state) refl
          | inl (files, a) ↦ rw (e, a, load_repo_state) refl
        ]
      ]

  -- Where a checkout succeeds, the disk is that of the rest.
  kept :
      (given : RepoSpec) (specs : List RepoSpec) (disk : Disk) (rs : RepoState)
      → let spec = override_spec eng.spec_overrides given in
        let dirs = dirs_for h eng cfg spec in
        let r = load_repo_state h (auth_for_spec cfg spec) spec dirs.0 dirs.1 disk in
        r.0 ≡ ok rs
        → (load_all_repo_states h eng cfg (given ∷ specs) disk).1
          ≡ (load_all_repo_states h eng cfg specs r.1).1
  unfolding load_all_repo_states
  kept given specs disk rs a =
      let spec = override_spec eng.spec_overrides given in
      let dirs = dirs_for h eng cfg spec in
      let r = load_repo_state h (auth_for_spec cfg spec) spec dirs.0 dirs.1 disk in
      elim (Result-cases (load_all_repo_states h eng cfg specs r.1).0) [
        | inr (x, bad) ↦ rw (a, bad, load_all_repo_states) refl
        | inl (states, b) ↦ rw (a, b, load_all_repo_states) refl
      ]

  pub load_all_repo_states-Checkouts :
      (root : Text) (specs : List RepoSpec) (disk : Disk)
      → IsRoot root
      → Checkouts root specs disk (load_all_repo_states h eng cfg specs disk).1
  unfolding load_all_repo_states override_spec
  load_all_repo_states-Checkouts root [] disk is_root = refl
  load_all_repo_states-Checkouts root (given ∷ specs) disk is_root =
      let spec = override_spec eng.spec_overrides given in
      let auth = auth_for_spec cfg spec in
      let dirs = dirs_for h eng cfg spec in
      let r = load_repo_state h auth spec dirs.0 dirs.1 disk in
      let one : r.1 ≡ (h.ensure_checkout auth spec.url spec.ref (dest_of root given) disk).1 =
        load_repo_state-disk auth spec dirs.0 dirs.1 disk
        ∙ ap (λ d. (h.ensure_checkout auth spec.url spec.ref d disk).1)
            (dirs_for-dest root given is_root) in
      inr (
        auth,
        spec.ref,
        subst (λ d. Checkouts root specs d (load_all_repo_states h eng cfg (given ∷ specs) disk).1)
            one
            (elim (Result-cases r.0) [
              | inr (x, bad) ↦
                  subst (Checkouts root specs r.1) (sym (rw (bad, load_all_repo_states) refl))
                    (nothing root specs r.1)
              | inl (rs, a) ↦
                  subst (Checkouts root specs r.1) (sym (kept given specs disk rs a))
                    (load_all_repo_states-Checkouts root specs r.1 is_root)
            ]),
      )
