-- ===== src/Sync/NewState/Lookup.antt =====
-- The managed files of the new state by lookup, and plans for which nothing is to be done.
use mathlib.Core.List.{Memᴰ}
use mathlib.Core.List.Memᴰ
use quadsyncd.Base.{
  ◌≡◌, refl, ap, ◌∙◌, ◌≢◌, ◌⊎◌, inl, inr, Bool, false, Option, none, some, Option-cases, List, [],
  ◌∷◌, ok, text_eq,
}
use quadsyncd.Base.Text.{Text}
use quadsyncd.Base.Dict.{
  Dict, lookup, insert, erase, NodupKeys, lookup-insert_same, lookup-insert_other,
  lookup-erase_same, lookup-erase_other, insert-NodupKeys,
}
use quadsyncd.FilePath.{join}
use quadsyncd.Os.{Env, Disk}
use quadsyncd.Multirepo.{EffectiveItem}
use quadsyncd.Sync.{ManagedFile, State, FileOp, Plan}
use quadsyncd.Sync.Planning.{
  Change, to_add, to_update, up_to_date, Desired, delete_op, op_for, plan_items, plan_deletes,
  desired_files, file_hash, change_for, change_in_state, record_change,
}
use quadsyncd.Sync.NewState.{managed_of, forget_all, manage_all}

pub Change-cases : (c : Change) → (c ≡ to_add) ⊎ ((c ≡ to_update) ⊎ (c ≡ up_to_date))
Change-cases to_add = inl refl
Change-cases to_update = inr (inl refl)
Change-cases up_to_date = inr (inr refl)

-- An operation of the list is for the path.
abbrev pub For : Text → List FileOp → Type 0
For p ops = (op : FileOp) × Memᴰ op ops × (p ≡ op.dest_path)

abbrev pub NotFor : Text → List FileOp → Type 0
NotFor p ops = (op : FileOp) → Memᴰ op ops → p ≢ op.dest_path

pub NotFor-cons :
    (p : Text) (op : FileOp) (ops : List FileOp)
    → p ≢ op.dest_path
    → NotFor p ops
    → NotFor p (op ∷ ops)
NotFor-cons p op ops n rest o m = elim (Memᴰ.cases_cons m) [
  | inl same ↦ λ at. n (at ∙ ap (λ (x : FileOp). x.dest_path) same)
  | inr later ↦ rest o later
]

pub op_for-dest :
    (dest_path : Text) (item : EffectiveItem) (hash : Text)
    → dest_path ≡ (op_for dest_path item hash).dest_path
unfolding op_for
op_for-dest dest_path item hash = refl

pub delete_op-dest : (dest_path : Text) → (delete_op dest_path).dest_path ≡ dest_path
unfolding delete_op
delete_op-dest dest_path = refl

module _ (quadlet_dir : Text) (p : Text) where
  pub manage_all-lookup :
      (ops : List FileOp) (d : Dict Text ManagedFile)
      → ((op : FileOp) × Memᴰ op ops
          × (p ≡ op.dest_path)
          × (lookup p (manage_all quadlet_dir ops d) ≡ some (managed_of quadlet_dir op)))
        ⊎ (NotFor p ops × (lookup p (manage_all quadlet_dir ops d) ≡ lookup p d))
  unfolding manage_all
  manage_all-lookup [] d = inr (λ op m. absurd (Memᴰ.not-nil m), refl)
  manage_all-lookup (op ∷ ops) d =
      elim (manage_all-lookup ops (insert op.dest_path (managed_of quadlet_dir op) d)) [
        | inl (ot, m, at, there) ↦ inl (ot, Memᴰ.tail m, at, there)
        | inr (not_later, same) ↦ elim (text_eq.dec p op.dest_path) [
          | yes at ↦ inl (
            op,
            Memᴰ.head refl,
            at,
            same
                ∙ (ap (λ (x : Text). lookup x (insert op.dest_path (managed_of quadlet_dir op) d))
                      at
                    ∙ lookup-insert_same op.dest_path (managed_of quadlet_dir op) d),
          )
          | no n ↦ inr (
            NotFor-cons p op ops n not_later,
            same ∙ lookup-insert_other p op.dest_path (managed_of quadlet_dir op) d n,
          )
        ]
      ]

  pub forget_all-lookup :
      (ops : List FileOp) (d : Dict Text ManagedFile)
      → (For p ops × (lookup p (forget_all ops d) ≡ none))
        ⊎ (NotFor p ops × (lookup p (forget_all ops d) ≡ lookup p d))
  unfolding forget_all
  forget_all-lookup [] d = inr (λ op m. absurd (Memᴰ.not-nil m), refl)
  forget_all-lookup (op ∷ ops) d = elim (forget_all-lookup ops (erase op.dest_path d)) [
    | inl ((ot, m, at), gone) ↦ inl ((ot, Memᴰ.tail m, at), gone)
    | inr (not_later, same) ↦ elim (text_eq.dec p op.dest_path) [
      | yes at ↦ inl (
        (op, Memᴰ.head refl, at),
        same
            ∙ (ap (λ (x : Text). lookup x (erase op.dest_path d)) at
                ∙ lookup-erase_same op.dest_path d),
      )
      | no n ↦ inr (NotFor-cons p op ops n not_later, same ∙ lookup-erase_other p op.dest_path d n)
    ]
  ]

pub desired_files-Nodup :
    (quadlet_dir : Text) (items : List EffectiveItem) (d : Desired)
    → NodupKeys d
    → NodupKeys (desired_files quadlet_dir items d)
unfolding desired_files
desired_files-Nodup quadlet_dir [] d h = h
desired_files-Nodup quadlet_dir (item ∷ items) d h =
    desired_files-Nodup quadlet_dir items _
      (insert-NodupKeys (join quadlet_dir item.merge_key) item d h)

pub change_in_state-disk :
    (e : Env) (prune : Bool) (disk later_disk : Disk) (o : Option ManagedFile) (hash : Text)
    → change_in_state e false prune disk o hash ≡ change_in_state e false prune later_disk o hash
unfolding change_in_state
change_in_state-disk e prune disk later_disk none hash = refl
change_in_state-disk e prune disk later_disk (some m) hash = refl

module _ (e : Env) (prune : Bool) (disk : Disk) (next : State) where
  -- The source has a hash and the managed state has the same one.
  abbrev pub Settled : Text → EffectiveItem → Type 0
  Settled dest_path item =
      (hash : Text) × (file_hash e false prune disk item.abs_path ≡ ok hash)
      × (change_in_state e false prune disk (lookup dest_path next.managed_files) hash ≡ up_to_date)

  pub Settled-plan_items :
      (d : Desired) (p : Plan)
      → ((dest_path : Text) (item : EffectiveItem)
          → Memᴰ (dest_path, item) d
          → Settled dest_path item)
      → plan_items e false prune disk next d p ≡ ok p
  unfolding plan_items change_for record_change
  Settled-plan_items [] p h = refl
  Settled-plan_items ((dest_path, item) ∷ d) p h =
      let (hash, hashed, same) = h dest_path item (Memᴰ.head refl) in
      rw (hashed, same, plan_items, change_for, record_change)
        (Settled-plan_items d p (λ x y m. h x y (Memᴰ.tail m)))

  pub desired-plan_deletes :
      (desired : Desired) (ms : Dict Text ManagedFile) (p : Plan)
      → ((dest_path : Text) (m : ManagedFile)
          → Memᴰ (dest_path, m) ms
          → lookup dest_path desired ≢ none)
      → plan_deletes e false prune disk desired ms p ≡ p
  unfolding plan_deletes
  desired-plan_deletes desired [] p h = refl
  desired-plan_deletes desired ((dest_path, m) ∷ ms) p h =
      let rest = desired-plan_deletes desired ms p (λ x y k. h x y (Memᴰ.tail k)) in
      elim (Option-cases (lookup dest_path desired)) [
        | inl gone ↦ absurd (h dest_path m (Memᴰ.head refl) gone)
        | inr (item, there) ↦ rw (there, plan_deletes) rest
      ]
