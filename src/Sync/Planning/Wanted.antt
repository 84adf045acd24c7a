-- ===== src/Sync/Planning/Wanted.antt =====
-- What is asked of a plan, told without the steps that make it: the desired files and their changes.
use mathlib.Core.Path.{subst}
use mathlib.Core.List.{Memᴰ}
use quadsyncd.Base.{
  ◌≡◌, refl, sym, ap, ◌∙◌, ◌≢◌, ◌↔◌, ◌⊎◌, inl, inr, Bool, true, false, Bool-cases, Option, none,
  some, Option-cases, List, [], ◌∷◌, All, Result, ok, err, ◌==◌, text_eq, arith, if◌then◌else◌,
}
use quadsyncd.Base.Text.{Text}
use quadsyncd.Base.Dict.{
  Dict, lookup, insert, lookup-insert_same, lookup-insert_other, mem-lookup, lookup-mem,
}
use quadsyncd.FilePath.{join}
use quadsyncd.Os.{Env, Disk, OsError, not_exist, failed, stat, read_file}
use quadsyncd.Multirepo.{EffectiveItem}
use quadsyncd.Sync.{ManagedFile, State}
use quadsyncd.Sync.Planning.{
  PlanError, Change, to_add, to_update, up_to_date, Desired, desired_files, file_hash, change_for,
  change_on_disk, change_in_state, is_gone, stays, disk_hash_failed,
}
use quadsyncd.Sync.NewState.Lookup.{desired_files-Nodup}

module _ (quadlet_dir dest_path : Text) where
  abbrev pub GoesThere : EffectiveItem → Type 0
  GoesThere item = join quadlet_dir item.merge_key ≡ dest_path

  -- No item has the destination.
  abbrev pub Unwanted : List EffectiveItem → Type 0
  Unwanted items = All (λ item. join quadlet_dir item.merge_key ≢ dest_path) items

  -- The item is the last one with the destination.
  abbrev pub Wants : EffectiveItem → List EffectiveItem → Type 0
  Wants item [] = ⊥
  Wants item (x ∷ xs) = Wants item xs ⊎ ((x ≡ item) × GoesThere x × Unwanted xs)

  abbrev found : List EffectiveItem → Desired → Option EffectiveItem
  found items d = lookup dest_path (desired_files quadlet_dir items d)

  Unwanted-found :
      (items : List EffectiveItem) (d : Desired)
      → Unwanted items
      → found items d ≡ lookup dest_path d
  unfolding desired_files
  Unwanted-found [] d u = refl
  Unwanted-found (x ∷ xs) d u =
      Unwanted-found xs (insert (join quadlet_dir x.merge_key) x d) u.1
      ∙ lookup-insert_other dest_path (join quadlet_dir x.merge_key) x d (λ e. u.0 (sym e))

  Wants-found :
      (item : EffectiveItem) (items : List EffectiveItem) (d : Desired)
      → Wants item items
      → found items d ≡ some item
  unfolding desired_files
  Wants-found item [] d w = absurd w
  Wants-found item (x ∷ xs) d (inl w) =
      Wants-found item xs (insert (join quadlet_dir x.merge_key) x d) w
  Wants-found item (x ∷ xs) d (inr (same, here, u)) =
      Unwanted-found xs (insert (join quadlet_dir x.merge_key) x d) u
      ∙ (ap (λ k. lookup k (insert (join quadlet_dir x.merge_key) x d)) (sym here)
          ∙ (lookup-insert_same (join quadlet_dir x.merge_key) x d ∙ ap some same))

  decide_wanted :
      (items : List EffectiveItem) → ((item : EffectiveItem) × Wants item items) ⊎ Unwanted items
  decide_wanted [] = inr tt
  decide_wanted (x ∷ xs) = elim (decide_wanted xs) [
    | inl (item, w) ↦ inl (item, inl w)
    | inr u ↦ elim (Bool-cases (join quadlet_dir x.merge_key == dest_path)) [
      | inl e ↦
          let here : join quadlet_dir x.merge_key ≡ dest_path = ground arith in
          inl (x, inr (refl, here, u))
      | inr e ↦
          let away : join quadlet_dir x.merge_key ≢ dest_path = λ k. (ground (arith, k, e)) in
          inr (away, u)
    ]
  ]

  pub Wants-iff :
      (item : EffectiveItem) (items : List EffectiveItem)
      → Memᴰ (dest_path, item) (desired_files quadlet_dir items []) ↔ Wants item items
  unfolding lookup
  Wants-iff item items = (
    λ m.
        let at = mem-lookup dest_path item _ (desired_files-Nodup quadlet_dir items [] tt) m in
        elim (decide_wanted items) [
          | inl (other, w) ↦
              let same : other ≡ item =
                some_same other item (sym (Wants-found other items [] w) ∙ at) in
              subst (λ x. Wants x items) same w
          | inr u ↦
              let no : ◌≡◌ {A = Option EffectiveItem} none (some item) =
                sym (Unwanted-found items [] u) ∙ at in
              cc
        ],
    λ w. lookup-mem dest_path item _ (Wants-found item items [] w),
  )
    where
      some_same : (a b : EffectiveItem) → ◌≡◌ {A = Option EffectiveItem} (some a) (some b) → a ≡ b
      some_same a b e = cc

  pub Unwanted-iff : (items : List EffectiveItem) → (found items [] ≡ none) ↔ Unwanted items
  unfolding lookup
  Unwanted-iff items = (
    λ n. elim (decide_wanted items) [
      | inr u ↦ u
      | inl (item, w) ↦ absurd (
          let no : ◌≡◌ {A = Option EffectiveItem} none (some item) =
            sym n ∙ Wants-found item items [] w in
          cc)
    ],
    λ u. Unwanted-found items [] u,
  )

module _ (e : Env) (dry_run prune : Bool) (disk : Disk) (managed : Dict Text ManagedFile) where
  -- A dry run asks the disk, and a real one the managed files.
  abbrev pub Missing : Text → Text → Type 0
  Missing dest_path hash =
      ((dry_run ≡ true) × (read_file e dest_path disk ≡ err not_exist))
      ⊎ ((dry_run ≡ false) × (lookup dest_path managed ≡ none))

  abbrev pub Differs : Text → Text → Type 0
  Differs dest_path hash =
      ((dry_run ≡ true)
        × ((content : Text) × (read_file e dest_path disk ≡ ok content)
            × (e.sha256 content ≢ hash)))
      ⊎ ((dry_run ≡ false)
          × ((m : ManagedFile) × (lookup dest_path managed ≡ some m) × (m.hash ≢ hash)))

  -- A dry run plans no deletion of a file of which the system says that it is not there.
  abbrev pub IsThere : Text → Type 0
  IsThere dest_path =
      (dry_run ≡ false) ⊎ ((e.fails stat dest_path ≡ true) ⊎ (lookup dest_path disk ≢ none))

-- What `change_on_disk` makes of what is read.
module _ (e : Env) (prune : Bool) (disk : Disk) (dest_path hash : Text) where
  by_read : Result OsError Text → Result PlanError Change
  by_read (err not_exist) = ok to_add
  by_read (err failed) = err (disk_hash_failed dest_path)
  by_read (ok content) = if e.sha256 content == hash then ok up_to_date else ok to_update

  change_on_disk-by_read :
      (r : Result OsError Text)
      → read_file e dest_path disk ≡ r
      → change_on_disk e true prune disk dest_path hash ≡ by_read r
  unfolding change_on_disk file_hash by_read
  change_on_disk-by_read (err not_exist) k = rw (change_on_disk, file_hash, k) refl
  change_on_disk-by_read (err failed) k = rw (change_on_disk, file_hash, k) refl
  change_on_disk-by_read (ok content) k = rw (change_on_disk, file_hash, k) refl

  by_read-add : (r : Result OsError Text) → by_read r ≡ ok to_add → r ≡ err not_exist
  unfolding by_read
  by_read-add (err not_exist) h = refl
  by_read-add (err failed) h = cc
  by_read-add (ok content) h = ground arith

  by_read-update :
      (r : Result OsError Text)
      → by_read r ≡ ok to_update
      → (content : Text) × (r ≡ ok content) × (e.sha256 content ≢ hash)
  unfolding by_read
  by_read-update (err not_exist) h = cc
  by_read-update (err failed) h = cc
  by_read-update (ok content) h = (content, refl, λ k. ground (arith, h, k))

  differing : (content : Text) → e.sha256 content ≢ hash → by_read (ok content) ≡ ok to_update
  unfolding by_read
  differing content n = ground (arith, n)

  in_state : Option ManagedFile → Change
  unfolding change_in_state
  in_state o = change_in_state e false prune disk o hash

  in_state-add : (o : Option ManagedFile) → in_state o ≡ to_add → o ≡ none
  unfolding change_in_state in_state
  in_state-add none h = refl
  in_state-add (some m) h = ground arith

  in_state-update :
      (o : Option ManagedFile)
      → in_state o ≡ to_update
      → (m : ManagedFile) × (o ≡ some m) × (m.hash ≢ hash)
  unfolding change_in_state in_state
  in_state-update none h = cc
  in_state-update (some m) h = (m, refl, λ k. ground (arith, h, k))

  in_state-differs : (m : ManagedFile) → m.hash ≢ hash → in_state (some m) ≡ to_update
  unfolding change_in_state in_state
  in_state-differs m n = ground (arith, n)

ok_injective : (a b : Change) → ◌≡◌ {A = Result PlanError Change} (ok a) (ok b) → a ≡ b
ok_injective a b h = cc

module _ (e : Env) (prune : Bool) (disk : Disk) (prev : State) (dest_path hash : Text) where
  pub change_for-add :
      (dry_run : Bool)
      → (change_for e dry_run prune disk prev dest_path hash ≡ ok to_add)
        ↔ Missing e dry_run prune disk prev.managed_files dest_path hash
  unfolding change_for by_read in_state change_in_state
  change_for-add true = (
    λ h. inl (
      refl,
      by_read-add e prune disk dest_path hash (read_file e dest_path disk)
          (sym (change_on_disk-by_read e prune disk dest_path hash _ refl) ∙ h),
    ),
    λ m. elim m [
      | inl (t, missing) ↦
          change_on_disk-by_read e prune disk dest_path hash (err not_exist) missing
      | inr (t, at) ↦ cc
    ],
  )
  change_for-add false = (
    λ h. inr (
      refl,
      in_state-add e prune disk dest_path hash (lookup dest_path prev.managed_files)
          (ok_injective _ _ h),
    ),
    λ m. elim m [
      | inl (t, at) ↦ cc
      | inr (t, at) ↦ ap (λ o. ok (change_in_state e false prune disk o hash)) at
    ],
  )

  pub change_for-update :
      (dry_run : Bool)
      → (change_for e dry_run prune disk prev dest_path hash ≡ ok to_update)
        ↔ Differs e dry_run prune disk prev.managed_files dest_path hash
  unfolding change_for by_read in_state change_in_state
  change_for-update true = (
    λ h. inl (
      refl,
      by_read-update e prune disk dest_path hash (read_file e dest_path disk)
          (sym (change_on_disk-by_read e prune disk dest_path hash _ refl) ∙ h),
    ),
    λ m. elim m [
      | inl (t, (content, at, n)) ↦
          change_on_disk-by_read e prune disk dest_path hash (ok content) at
          ∙ differing e prune disk dest_path hash content n
      | inr (t, at) ↦ cc
    ],
  )
  change_for-update false = (
    λ h. inr (
      refl,
      in_state-update e prune disk dest_path hash (lookup dest_path prev.managed_files)
          (ok_injective _ _ h),
    ),
    λ m. elim m [
      | inl (t, at) ↦ cc
      | inr (t, (x, at, n)) ↦
          ap (λ o. ok (change_in_state e false prune disk o hash)) at
          ∙ ap ok (in_state-differs e prune disk dest_path hash x n)
    ],
  )

  is_gone-present :
      is_gone e true prune disk dest_path ≡ false
      → (e.fails stat dest_path ≡ true) ⊎ (lookup dest_path disk ≢ none)
  unfolding is_gone
  is_gone-present h = elim (Bool-cases (e.fails stat dest_path)) [
    | inl f ↦ inl f
    | inr f ↦
        inr (λ n.
          let gone : is_gone e true prune disk dest_path ≡ true = rw (is_gone, f, n) refl in cc)
  ]

  is_gone-not :
      (e.fails stat dest_path ≡ true) ⊎ (lookup dest_path disk ≢ none)
      → is_gone e true prune disk dest_path ≡ false
  unfolding is_gone
  is_gone-not (inl f) = rw (is_gone, f) refl
  is_gone-not (inr n) = elim (Bool-cases (e.fails stat dest_path)) [
    | inl f ↦ rw (is_gone, f) refl
    | inr f ↦ elim (Option-cases (lookup dest_path disk)) [
      | inl k ↦ absurd (n k)
      | inr (x, k) ↦ rw (is_gone, f, k) refl
    ]
  ]

  -- A managed file is to go exactly when it is not desired, and there in a dry run.
  pub stays_iff :
      (dry_run : Bool) (o : Option EffectiveItem)
      → (stays e dry_run prune disk o (is_gone e dry_run prune disk dest_path) ≡ false)
        ↔ ((o ≡ none) × IsThere e dry_run prune disk prev.managed_files dest_path)
  stays_iff dry_run (some item) = (λ h. cc, λ h. cc)
  stays_iff false none = (λ h. (refl, inl refl), λ h. refl)
  stays_iff true none =
      (λ h. (refl, inr (is_gone-present h)), λ h. elim h.1 [ inl k ↦ cc | inr k ↦ is_gone-not k ])
