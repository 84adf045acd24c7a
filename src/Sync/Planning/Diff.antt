-- ===== src/Sync/Planning/Diff.antt =====
-- Which operations `buildPlanFromEffective` plans.
use mathlib.Core.Path.{subst}
use mathlib.Core.List.{Memᴰ}
use mathlib.Core.List.Memᴰ
use quadsyncd.Base.{
  ◌≡◌, refl, sym, ap, ◌∙◌, ◌≢◌, ◌⊎◌, inl, inr, Bool, List, [], ◌∷◌, ◌++◌, Result, ok, Result-cases,
  text_eq,
}
use quadsyncd.Base.Text.{Text}
use quadsyncd.Os.{Env, Disk}
use quadsyncd.Multirepo.{EffectiveItem}
use quadsyncd.Sync.{State, FileOp, Plan}
use quadsyncd.Sync.Planning.{
  PlanError, Change, to_add, to_update, up_to_date, Desired, op_for, record_change, file_hash,
  change_for, plan_items,
}

-- The operations of a plan for a change.
abbrev pub ops_of : Change → Plan → List FileOp
ops_of to_add p = p.add
ops_of to_update p = p.update
ops_of up_to_date p = []

ok-injective : {p q : Plan} → ◌≡◌ {A = Result PlanError Plan} (ok p) (ok q) → p ≡ q
ok-injective h = cc

pub last_mem {ℓ κ} :
    {A : Type ℓ} {B : Type κ} {b : B} (xs : List A) {x y : A}
    → Memᴰ y (xs ++ x ∷ [])
    → Memᴰ y xs ⊎ ((b ≡ b) × (y ≡ x))
last_mem xs m = elim (Memᴰ.append_cases xs m) [
  | inl old ↦ inl old
  | inr new ↦ elim (Memᴰ.cases_cons new) [
    | inl same ↦ inr (refl, same)
    | inr none_left ↦ absurd (Memᴰ.not-nil none_left)
  ]
]

module _ (e : Env) (dry_run prune : Bool) (disk : Disk) (prev : State) where
  -- The operation is that of a desired file, whose source has a hash that asks for the change.
  pub record Asks (c : Change) (desired : Desired) (op : FileOp) : Type 0 where
    pub dest_path : Text
    pub item : EffectiveItem
    pub wanted : Memᴰ (dest_path, item) desired
    pub hash : Text
    pub hashed : file_hash e dry_run prune disk item.abs_path ≡ ok hash
    pub decided : change_for e dry_run prune disk prev dest_path hash ≡ ok c
    pub made : op ≡ op_for dest_path item hash

  -- The first step of a plan that succeeds.
  pub plan_items-step :
      (dest_path : Text) (item : EffectiveItem) (d : Desired) (p q : Plan)
      → plan_items e dry_run prune disk prev ((dest_path, item) ∷ d) p ≡ ok q
      → (hash : Text) × (c : Change) × (file_hash e dry_run prune disk item.abs_path ≡ ok hash)
        × (change_for e dry_run prune disk prev dest_path hash ≡ ok c)
        × (plan_items e dry_run prune disk prev d (record_change c (op_for dest_path item hash) p)
            ≡ ok q)
  unfolding plan_items
  plan_items-step dest_path item d p q h =
      elim (Result-cases (file_hash e dry_run prune disk item.abs_path)) [
        | inr (x, bad) ↦ cc
        | inl (hash, a) ↦
            elim (Result-cases (change_for e dry_run prune disk prev dest_path hash)) [
              | inr (x, bad) ↦ cc
              | inl (c, b) ↦ (hash, c, a, b, rw (a, b, plan_items) at h)
            ]
      ]

  record-mem :
      (c k : Change) (op ot : FileOp) (p : Plan)
      → Memᴰ ot (ops_of c (record_change k op p))
      → Memᴰ ot (ops_of c p) ⊎ ((c ≡ k) × (ot ≡ op))
  unfolding record_change
  record-mem to_add to_add op ot p m = last_mem p.add m
  record-mem to_add to_update op ot p m = inl m
  record-mem to_add up_to_date op ot p m = inl m
  record-mem to_update to_add op ot p m = inl m
  record-mem to_update to_update op ot p m = last_mem p.update m
  record-mem to_update up_to_date op ot p m = inl m
  record-mem up_to_date k op ot p m = absurd (Memᴰ.not-nil m)

  mem-record :
      (c k : Change) (op ot : FileOp) (p : Plan)
      → Memᴰ ot (ops_of c p)
      → Memᴰ ot (ops_of c (record_change k op p))
  unfolding record_change
  mem-record to_add to_add op ot p m = Memᴰ.append_left (op ∷ []) m
  mem-record to_add to_update op ot p m = m
  mem-record to_add up_to_date op ot p m = m
  mem-record to_update to_add op ot p m = m
  mem-record to_update to_update op ot p m = Memᴰ.append_left (op ∷ []) m
  mem-record to_update up_to_date op ot p m = m
  mem-record up_to_date k op ot p m = absurd (Memᴰ.not-nil m)

  recorded :
      (c : Change) (op : FileOp) (p : Plan)
      → c ≢ up_to_date
      → Memᴰ op (ops_of c (record_change c op p))
  unfolding record_change
  recorded to_add op p n = Memᴰ.append_right p.add (Memᴰ.head refl)
  recorded to_update op p n = Memᴰ.append_right p.update (Memᴰ.head refl)
  recorded up_to_date op p n = absurd (n refl)

  later :
      (c : Change) (x : Text × EffectiveItem) (d : Desired) (op : FileOp)
      → Asks c d op
      → Asks c (x ∷ d) op
  later c x d op a = record {
    dest_path = a.dest_path;
    item = a.item;
    wanted = Memᴰ.tail a.wanted;
    hash = a.hash;
    hashed = a.hashed;
    decided = a.decided;
    made = a.made;
  }

  pub planned-Asks :
      (c : Change) (d : Desired) (p q : Plan) (ot : FileOp)
      → plan_items e dry_run prune disk prev d p ≡ ok q
      → Memᴰ ot (ops_of c q)
      → Memᴰ ot (ops_of c p) ⊎ Asks c d ot
  unfolding plan_items
  planned-Asks c [] p q ot h m =
      inl (subst (λ (x : Plan). Memᴰ ot (ops_of c x)) (sym (ok-injective h)) m)
  planned-Asks c ((dest_path, item) ∷ d) p q ot h m =
      let (hash, k, hashed, decided, rest) = plan_items-step dest_path item d p q h in
      let op = op_for dest_path item hash in
      elim (planned-Asks c d (record_change k op p) q ot rest m) [
        | inr a ↦ inr (later c (dest_path, item) d ot a)
        | inl n ↦ elim (record-mem c k op ot p n) [
          | inl old ↦ inl old
          | inr (same, is_op) ↦ inr (record {
            dest_path = dest_path;
            item = item;
            wanted = Memᴰ.head refl;
            hash = hash;
            hashed = hashed;
            decided = rw same decided;
            made = is_op;
          })
        ]
      ]

  kept_planned :
      (c : Change) (d : Desired) (p q : Plan) (ot : FileOp)
      → plan_items e dry_run prune disk prev d p ≡ ok q
      → Memᴰ ot (ops_of c p)
      → Memᴰ ot (ops_of c q)
  unfolding plan_items
  kept_planned c [] p q ot h m = subst (λ (x : Plan). Memᴰ ot (ops_of c x)) (ok-injective h) m
  kept_planned c ((dest_path, item) ∷ d) p q ot h m =
      let (hash, k, hashed, decided, rest) = plan_items-step dest_path item d p q h in
      let op = op_for dest_path item hash in
      kept_planned c d (record_change k op p) q ot rest (mem-record c k op ot p m)

  pub asks-planned :
      (c : Change) (d : Desired) (p q : Plan) (ot : FileOp)
      → c ≢ up_to_date
      → plan_items e dry_run prune disk prev d p ≡ ok q
      → Asks c d ot
      → Memᴰ ot (ops_of c q)
  asks-planned c [] p q ot n h a = absurd (Memᴰ.not-nil a.wanted)
  asks-planned c ((dest_path, item) ∷ d) p q ot n h a =
      let (hash, k, hashed, decided, rest) = plan_items-step dest_path item d p q h in
      let op = op_for dest_path item hash in
      elim (Memᴰ.cases_cons a.wanted) [
        | inr m ↦ asks-planned c d (record_change k op p) q ot n rest (record {
          dest_path = a.dest_path;
          item = a.item;
          wanted = m;
          hash = a.hash;
          hashed = a.hashed;
          decided = a.decided;
          made = a.made;
        })
        | inl same ↦
            let same_dest : a.dest_path ≡ dest_path = ap (λ (x : Text × EffectiveItem). x.0) same in
            let same_item : a.item ≡ item = ap (λ (x : Text × EffectiveItem). x.1) same in
            let same_hash : a.hash ≡ hash = cc in
            let same_change : c ≡ k = cc in
            let is_op : ot ≡ op = cc in
            kept_planned c d (record_change k op p) q ot rest
              (rw (is_op, same_change) (recorded k op p (λ x. n (same_change ∙ x))))
      ]

  -- Every desired file has a hash and a change when the plan succeeds.
  pub record Judged (dest_path : Text) (item : EffectiveItem) : Type 0 where
    pub hash : Text
    pub change : Change
    pub hashed : file_hash e dry_run prune disk item.abs_path ≡ ok hash
    pub decided : change_for e dry_run prune disk prev dest_path hash ≡ ok change

  pub plan_items-Judged :
      (d : Desired) (p q : Plan) (dest_path : Text) (item : EffectiveItem)
      → plan_items e dry_run prune disk prev d p ≡ ok q
      → Memᴰ (dest_path, item) d
      → Judged dest_path item
  plan_items-Judged [] p q dest_path item h m = absurd (Memᴰ.not-nil m)
  plan_items-Judged ((dest, it) ∷ d) p q dest_path item h m =
      let (hash, k, hashed, decided, rest) = plan_items-step dest it d p q h in
      elim (Memᴰ.cases_cons m) [
        | inr n ↦ plan_items-Judged d _ q dest_path item rest n
        | inl same ↦
            let same_dest : dest_path ≡ dest = ap (λ (x : Text × EffectiveItem). x.0) same in
            let same_item : item ≡ it = ap (λ (x : Text × EffectiveItem). x.1) same in
            record {
              hash = hash;
              change = k;
              hashed = rw same_item hashed;
              decided = rw same_dest decided;
            }
      ]
