-- ===== src/Sync/Tests.antt =====
-- A run on a small disk: one file to add and one to delete.
use mathlib.Core.List.{Memᴰ}
use mathlib.Core.List.Memᴰ
use quadsyncd.Base.{
  ℕ, ◌≡◌, refl, sym, ap, ◌∙◌, ◌≢◌, ◌↔◌, inl, inr, true, false, none, [], ◌∷◌, ◌++◌, drop, length,
  arith, ok, text_eq, nat_eq,
}
use quadsyncd.Base.Text.{Text, str, text_code}
use quadsyncd.Base.Text.Order.{text_lt}
use quadsyncd.Base.Dict.{lookup, insert, erase}
use quadsyncd.Base.Sort.{sort_by, place}
use quadsyncd.FilePath.{path_code, dir_of, to_last_slash}
use quadsyncd.Os.{Env, Disk, open_source, read_file, remove_file, rename_file}
use quadsyncd.Config.{Config, RepoSpec, restart_changed, prefer_highest_priority}
use quadsyncd.Multirepo.{EffectiveItem}
use quadsyncd.Sync.{State, FileOp, Plan, empty_plan}
use quadsyncd.Sync.Planning.{
  desired_files, op_for, delete_op, record_change, file_hash, change_in_state, change_for,
  plan_items, plan_deletes, is_gone, sort_plan, build_plan_from_effective,
}
use quadsyncd.Sync.Apply.{apply_plan, copy_all, delete_all, copy_file, through_temp, fill_temp}
use quadsyncd.Sync.Apply.Atomic.{apply_plan-atomic, IsSound, Settled}
use quadsyncd.Sync.Apply.Complete.{apply_plan_complete, deleted_at, copied_at, SourcesKept, NoTemps}
use quadsyncd.Sync.NewState.{build_state_from_effective}
use quadsyncd.Sync.NewState.Converge.{replan-nothing}
use quadsyncd.Sync.Planning.Exact.{build_plan_from_effective_iff, IsAddition, IsUpdate, IsDeletion}
use quadsyncd.Sync.Filter.{matching, compact, select_repos, select_repos_lem}

abbrev dir : Text
dir = str "/q"

abbrev source : Text
source = str "/r/a.container"

abbrev dest : Text
dest = str "/q/a.container"

abbrev old : Text
old = str "/q/b.volume"

-- No call fails, and a hash is the content itself.
abbrev calm : Env
calm = record {
  fails = λ call path. false;
  temp_name = λ disk directory. directory ++ str "/.quadsyncd-tmp-1";
  sha256 = λ content. content;
}

abbrev disk : Disk
disk =
    (source, record { content = str "[Container]"; mode = 0o600 })
    ∷ (old, record { content = str "[Volume]"; mode = 0o644 })
    ∷ []

abbrev item : EffectiveItem
item = record {
  merge_key = str "a.container";
  abs_path = source;
  source_repo = str "https://example.org/r";
  source_ref = str "main";
  source_sha = str "c0ffee";
}

abbrev prev : State
prev = record {
  commit = [];
  revisions = [];
  managed_files =
      (
        old,
        record {
          source_path = str "b.volume";
          hash = str "[Volume]";
          source_repo = [];
          source_ref = [];
          source_sha = [];
        },
      )
      ∷ [];
}

abbrev addition : FileOp
addition = record {
  source_path = source;
  dest_path = dest;
  hash = str "[Container]";
  source_repo = str "https://example.org/r";
  source_ref = str "main";
  source_sha = str "c0ffee";
}

abbrev removal : FileOp
removal = record {
  source_path = [];
  dest_path = old;
  hash = [];
  source_repo = [];
  source_ref = [];
  source_sha = [];
}

abbrev plan : Plan
plan = record { add = addition ∷ []; update = []; delete = removal ∷ [] }

planned : build_plan_from_effective calm false true disk dir prev (item ∷ []) ≡ ok plan
unfolding build_plan_from_effective desired_files op_for delete_op record_change file_hash
    change_in_state change_for plan_items plan_deletes is_gone sort_plan sort_by place text_lt
    read_file open_source lookup insert text_code path_code text_eq nat_eq
planned = refl

applied : (apply_plan calm dir plan disk).0 ≡ ok tt
unfolding apply_plan copy_all delete_all copy_file through_temp fill_temp rename_file remove_file
    open_source lookup insert erase dir_of to_last_slash text_code path_code text_eq nat_eq
applied = refl

replan-nothing_example :
    build_plan_from_effective calm false true disk dir
      (build_state_from_effective dir prev plan [])
      (item ∷ [])
    ≡ ok empty_plan
replan-nothing_example =
    replan-nothing calm true disk dir prev (item ∷ []) plan [] planned disk (λ d i m. refl)

only : {A : Type 0} {x y : A} → Memᴰ x (y ∷ []) → x ≡ y
only m = elim (Memᴰ.cases_cons m) [
  | inl same ↦ same
  | inr none_left ↦ absurd (Memᴰ.not-nil none_left)
]

last_byte : ℕ → Text → ℕ
last_byte c [] = c
last_byte c (x ∷ xs) = last_byte x xs

last_byte-append : (c d : ℕ) (xs ys : Text) → last_byte c (xs ++ d ∷ ys) ≡ last_byte d ys
unfolding last_byte
last_byte-append c d [] ys = refl
last_byte-append c d (x ∷ xs) ys = last_byte-append x d xs ys

temp_ends :
    (directory path : Text) → last_byte 0 path ≢ b'1' → directory ++ str "/.quadsyncd-tmp-1" ≢ path
unfolding last_byte
temp_ends directory path n h = n (
    ap (λ (x : Text). last_byte 0 x) (sym h)
    ∙ last_byte-append 0 b'/' directory (str ".quadsyncd-tmp-1"))

source_ends : last_byte 0 source ≢ b'1'
unfolding last_byte
source_ends h = cc

dest_ends : last_byte 0 dest ≢ b'1'
unfolding last_byte
dest_ends h = cc

abbrev second_byte : Text → ℕ
second_byte (x ∷ y ∷ ys) = y
second_byte xs = 0

source-ne-dest : source ≢ dest
source-ne-dest h = let bytes : ◌≡◌ {A = ℕ} 114 113 = ap second_byte h in omega (arith, bytes)

source-ne-old : source ≢ old
source-ne-old h = cc

sources_kept : SourcesKept (addition ∷ [])
sources_kept op ot m n h = source-ne-dest (
    sym (ap (λ (x : FileOp). x.source_path) (only m))
    ∙ (h ∙ ap (λ (x : FileOp). x.dest_path) (only n)))

no_temps : NoTemps calm (addition ∷ [])
no_temps op m d h = temp_ends _ dest dest_ends (h ∙ ap (λ (x : FileOp). x.dest_path) (only m))

apply_plan_complete_example :
    lookup dest (apply_plan calm dir plan disk).1
    ≡ deleted_at (removal ∷ []) dest (copied_at (addition ∷ []) disk dest (lookup dest disk))
apply_plan_complete_example =
    apply_plan_complete calm dir plan disk sources_kept no_temps applied dest

is_sound : IsSound calm (addition ∷ []) (removal ∷ [])
is_sound = record {
  source_apart = λ op m d dst h.
      temp_ends _ source source_ends (h ∙ ap (λ (x : FileOp). x.source_path) (only m));
  dest_apart =
      λ op m d dst h. temp_ends _ dest dest_ends (h ∙ ap (λ (x : FileOp). x.dest_path) (only m));
  source_kept = sources_kept;
  source_stays = λ op ot m n h. source-ne-old (
      sym (ap (λ (x : FileOp). x.source_path) (only m))
      ∙ (h ∙ ap (λ (x : FileOp). x.dest_path) (only n)));
}

apply_plan-atomic_example :
    Settled (addition ∷ []) (removal ∷ []) disk dest (lookup dest (apply_plan calm dir plan disk).1)
apply_plan-atomic_example =
    apply_plan-atomic calm dir plan disk dest is_sound (λ d dst. temp_ends _ dest dest_ends)

build_plan_from_effective_iff_example :
    (Memᴰ addition plan.add ↔ IsAddition calm false true disk dir prev (item ∷ []) addition)
    × (Memᴰ addition plan.update ↔ IsUpdate calm false true disk dir prev (item ∷ []) addition)
    × (Memᴰ addition plan.delete ↔ IsDeletion calm false true disk dir prev (item ∷ []) addition)
build_plan_from_effective_iff_example =
    build_plan_from_effective_iff calm false true disk dir prev (item ∷ []) plan planned addition

-- A configuration with two repositories, and the URL of the second.
abbrev spec_at : Text → RepoSpec
spec_at url = record { url = url; ref = str "main"; priority = 0; subdir = []; auth = none }

abbrev config : Config
config = record {
  repository = none;
  repositories = spec_at (str "a") ∷ spec_at (str "b") ∷ [];
  paths = record { quadlet_dir = dir; state_dir = str "/s" };
  sync = record {
    prune = true;
    restart = restart_changed;
    conflict_handling = prefer_highest_priority;
  };
  auth = record { ssh_key_file = []; https_token_file = [] };
  serve = record {
    enabled = false;
    listen_addr = [];
    github_webhook_secret_file = [];
    allowed_event_types = [];
    allowed_refs = [];
  };
}

select_repos_lem_example : select_repos (str "b") config ≡ (
  matching (str "b") config.repositories,
  record config {
    repositories =
        matching (str "b") config.repositories
        ++ drop (length (matching (str "b") config.repositories)) config.repositories;
  },
)
select_repos_lem_example = select_repos_lem (str "b") config (λ h. cc) refl

-- The filter leaves the second repository twice in the shared configuration, and the first is lost.
filter_runs :
    (select_repos (str "b") config).1.repositories ≡ spec_at (str "b") ∷ spec_at (str "b") ∷ []
unfolding select_repos compact text_eq nat_eq
filter_runs = refl
