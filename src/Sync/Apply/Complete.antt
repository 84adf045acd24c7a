-- ===== src/Sync/Apply/Complete.antt =====
-- `applyPlan` without an error: the disk is the one the plan asks for.
use mathlib.Core.List.{Memᴰ}
use mathlib.Core.List.Memᴰ
use quadsyncd.Base.{
  ◌≡◌, refl, sym, ap, ◌∙◌, ◌≢◌, inl, inr, Bool-cases, Option, none, Option-cases, List, [], ◌∷◌,
  ◌++◌, ok, err, if◌then◌else◌, ◌==◌, text_eq, arith,
}
use quadsyncd.Base.Text.{Text}
use quadsyncd.Base.Dict.{lookup, lookup-erase_same}
use quadsyncd.Os.{Io, Env, Disk, File, OsError, not_exist, failed, remove_file, mkdir_all, remove}
use quadsyncd.Sync.{FileOp, Plan}
use quadsyncd.Sync.Apply.{
  ApplyError, copy_file, temp_for, and_then, copy_all, delete_all, apply_plan, forgive,
  delete_failed, add_failed, update_failed,
}
use quadsyncd.Sync.Apply.Copy.{CopyLaw, Copied, copy_file-atomic, Copied-other, remove_file-lookup}

-- The disk that the copies ask for, by looking up one path: the last copy to it decides.
unfoldable pub copied_at : List FileOp → Disk → Text → Option File → Option File
copied_at [] disk p x = x
copied_at (op ∷ ops) disk p x =
    copied_at ops disk p (if p == op.dest_path then lookup op.source_path disk else x)

-- The same after the deletions.
unfoldable pub deleted_at : List FileOp → Text → Option File → Option File
deleted_at [] p x = x
deleted_at (op ∷ ops) p x = deleted_at ops p (if p == op.dest_path then none else x)

-- No source of the list is a destination of it.
abbrev pub SourcesKept : List FileOp → Type 0
SourcesKept ops = (op ot : FileOp) → Memᴰ op ops → Memᴰ ot ops → op.source_path ≢ ot.dest_path

abbrev pub NoTemps : Env → List FileOp → Type 0
NoTemps e ops =
    (op : FileOp) → Memᴰ op ops → (disk : Disk) → temp_for e op.dest_path disk ≢ op.dest_path

copied_at-append :
    (xs ys : List FileOp) (disk : Disk) (p : Text) (x : Option File)
    → copied_at (xs ++ ys) disk p x ≡ copied_at ys disk p (copied_at xs disk p x)
unfolding copied_at
copied_at-append [] ys disk p x = refl
copied_at-append (op ∷ xs) ys disk p x = copied_at-append xs ys disk p _

copied_at-other :
    (ops : List FileOp) (disk : Disk) (p : Text) (x : Option File)
    → ((op : FileOp) → Memᴰ op ops → p ≢ op.dest_path)
    → copied_at ops disk p x ≡ x
unfolding copied_at
copied_at-other [] disk p x n = refl
copied_at-other (op ∷ ops) disk p x n =
    ap (λ (y : Option File). copied_at ops disk p y) (ground (arith, n op (Memᴰ.head refl)))
    ∙ copied_at-other ops disk p x (λ o m. n o (Memᴰ.tail m))

module _ (e : Env) where
  and_then-ok :
      {E F : Type 0} (wrap : E → F) (rest : Disk → Io F) (r : Io E)
      → (and_then wrap rest r).0 ≡ ok tt
      → (r.0 ≡ ok tt) × ((rest r.1).0 ≡ ok tt) × ((and_then wrap rest r).1 ≡ (rest r.1).1)
  and_then-ok wrap rest (ok u, d) h = (refl, h, refl)
  and_then-ok wrap rest (err x, d) h = cc

  CopyLaw-ok :
      (tmp src dst : Text) (d : Disk) (r : Io OsError)
      → CopyLaw tmp src dst d r
      → r.0 ≡ ok tt
      → Copied src dst d r.1
  CopyLaw-ok tmp src dst d (ok u, d2) law h = law
  CopyLaw-ok tmp src dst d (err x, d2) law h = cc

  remove-gone :
      (path : Text) (d : Disk)
      → (forgive e (remove_file e path d)).0 ≡ ok tt
      → lookup path (remove_file e path d).1 ≡ none
  unfolding remove_file
  remove-gone path d h = elim (Option-cases (lookup path d)) [
    | inl k ↦ ground arith
    | inr (f, k) ↦ elim (Bool-cases (e.fails remove path)) [
      | inl l ↦ cc
      | inr l ↦ ground (arith, lookup-erase_same path d)
    ]
  ]

  forgive-disk : (r : Io OsError) → (forgive e r).1 ≡ r.1
  forgive-disk (err not_exist, d) = refl
  forgive-disk (err failed, d) = refl
  forgive-disk (ok u, d) = refl

  remove-lookup :
      (p path : Text) (d : Disk)
      → (forgive e (remove_file e path d)).0 ≡ ok tt
      → lookup p (forgive e (remove_file e path d)).1 ≡ (if p == path then none else lookup p d)
  remove-lookup p path d h = rw (forgive-disk (remove_file e path d)) (elim (text_eq.dec p path) [
    | yes at ↦ ground (arith, remove-gone path d h, at)
    | no n ↦ ground (arith, remove_file-lookup e p path d n)
  ])

  delete_all-ok :
      (ops : List FileOp) (d : Disk)
      → (delete_all e ops d).0 ≡ ok tt
      → (p : Text) → lookup p (delete_all e ops d).1 ≡ deleted_at ops p (lookup p d)
  unfolding delete_all deleted_at
  delete_all-ok [] d h p = refl
  delete_all-ok (op ∷ ops) d h p =
      let r = forgive e (remove_file e op.dest_path d) in
      let (gone, later, same) = and_then-ok (delete_failed op.dest_path) (delete_all e ops) r h in
      ap (λ (x : Disk). lookup p x) same
      ∙ (delete_all-ok ops r.1 later p
          ∙ ap (λ (x : Option File). deleted_at ops p x) (remove-lookup p op.dest_path d gone))

  module _ (start : Disk) (wrap : Text → OsError → ApplyError) where
    copy_all-ok :
        (ops : List FileOp) (d : Disk)
        → SourcesKept ops
        → NoTemps e ops
        → ((op : FileOp) → Memᴰ op ops → lookup op.source_path d ≡ lookup op.source_path start)
        → (copy_all e wrap ops d).0 ≡ ok tt
        → (p : Text) → lookup p (copy_all e wrap ops d).1 ≡ copied_at ops start p (lookup p d)
    unfolding copy_all copied_at
    copy_all-ok [] d kept temps sources h p = refl
    copy_all-ok (op ∷ ops) d kept temps sources h p =
        let r = copy_file e op.source_path op.dest_path d in
        let (done, later, same) = and_then-ok (wrap op.dest_path) (copy_all e wrap ops) r h in
        let head = Memᴰ.head refl in
        let copied =
          CopyLaw-ok _ op.source_path op.dest_path d r
            (copy_file-atomic e op.source_path op.dest_path d (temps op head d)) done in
        ap (λ (x : Disk). lookup p x) same
        ∙ (copy_all-ok ops r.1 (λ o t m n. kept o t (Memᴰ.tail m) (Memᴰ.tail n))
              (λ o m. temps o (Memᴰ.tail m))
              (λ o m.
                Copied-other op.source_path op.dest_path d r.1 o.source_path copied
                  (kept o op (Memᴰ.tail m) head)
                ∙ sources o (Memᴰ.tail m))
              later p
            ∙ ap (λ (x : Option File). copied_at ops start p x)
                (copied.1 p
                  ∙ ap (λ (x : Option File). if p == op.dest_path then x else lookup p d)
                      (sources op head)))

  copies_and_deletes :
      (add update delete : List FileOp) (disk : Disk)
      → SourcesKept (add ++ update)
      → NoTemps e (add ++ update)
      → (and_then
          (λ x. x)
          (λ d. and_then (λ x. x) (delete_all e delete) (copy_all e update_failed update d))
          (copy_all e add_failed add disk)).0
        ≡ ok tt
      → (path : Text)
      → lookup path
          (and_then
            (λ x. x)
            (λ d. and_then (λ x. x) (delete_all e delete) (copy_all e update_failed update d))
            (copy_all e add_failed add disk)).1
        ≡ deleted_at delete path (copied_at (add ++ update) disk path (lookup path disk))
  copies_and_deletes add update delete disk kept temps h path =
      let left = λ (o : FileOp) (m : Memᴰ o add). Memᴰ.append_left update m in
      let right = λ (o : FileOp) (m : Memᴰ o update). Memᴰ.append_right add m in
      let r = copy_all e add_failed add disk in
      let (added, h2, same) =
        and_then-ok (λ (x : ApplyError). x)
          (λ d. and_then (λ x. x) (delete_all e delete) (copy_all e update_failed update d)) r h in
      let (updated, deleted, same2) =
        and_then-ok (λ (x : ApplyError). x) (delete_all e delete)
          (copy_all e update_failed update r.1) h2 in
      let first =
        copy_all-ok disk add_failed add disk (λ o t m n. kept o t (left o m) (left t n))
          (λ o m. temps o (left o m)) (λ o m. refl) added in
      let second =
        copy_all-ok disk update_failed update r.1 (λ o t m n. kept o t (right o m) (right t n))
          (λ o m. temps o (right o m))
          (λ o m.
            first o.source_path
            ∙ copied_at-other add disk o.source_path _ (λ t n. kept o t (right o m) (left t n)))
          updated path in
      ap (λ (x : Disk). lookup path x) (same ∙ same2)
      ∙ (delete_all-ok delete _ deleted path
          ∙ ap (λ (x : Option File). deleted_at delete path x)
              (second
                ∙ (ap (λ (x : Option File). copied_at update disk path x) (first path)
                    ∙ sym (copied_at-append add update disk path (lookup path disk)))))

  -- When `applyPlan` answers without an error, every path holds what the plan says: the file that
  -- stood at the source of the last addition or update of that path when it began, nothing if
  -- the plan deletes it, and what it held if the plan does not name it. No source of an
  -- addition or an update is a destination of one, and no temporary file has the name of
  -- the destination that it is made for.
  pub apply_plan_complete :
      (quadlet_dir : Text) (p : Plan) (disk : Disk)
      → SourcesKept (p.add ++ p.update)
      → NoTemps e (p.add ++ p.update)
      → (apply_plan e quadlet_dir p disk).0 ≡ ok tt
      → (path : Text)
      → lookup path (apply_plan e quadlet_dir p disk).1
        ≡ deleted_at p.delete path (copied_at (p.add ++ p.update) disk path (lookup path disk))
  unfolding apply_plan
  apply_plan_complete quadlet_dir p disk kept temps h path =
      elim (Bool-cases (e.fails mkdir_all quadlet_dir)) [
        | inl k ↦ cc
        | inr k ↦
            rw (k, apply_plan)
              (copies_and_deletes p.add p.update p.delete disk kept temps (rw (k, apply_plan) at h)
                path)
      ]
