-- ===== src/Config/Valid.antt =====
-- `Validate` of internal/config/config.go accepts exactly the configurations that are valid by a
-- description without an order of checks.
use mathlib.Core.Path.{subst}
use quadsyncd.Base.{
  ℕ, ◌+◌, ◌≡◌, refl, ◌≢◌, ◌↔◌, ◌⊎◌, inl, inr, Bool, true, false, Bool-cases, Option-cases, Option,
  none, some, List, [], ◌∷◌, Result, ok, err, All, fail_if, wrap_err, text_eq, arith, ◌>>◌,
}
use quadsyncd.Base.Text.{Text, str, has_prefix}
use quadsyncd.FilePath.{is_abs, clean, dot_dot}
use quadsyncd.Config.{
  Config, AuthConfig, RepoSpec, RestartPolicy, ConflictMode, ConfigError, auth_for_spec, validate,
  validate_auth, validate_subdir, validate_own_auth, validate_repo_spec, validate_spec_at,
  validate_specs, validate_repositories, bad_policy, bad_mode, load, apply_defaults, expand_env,
  restart_unset, restart_none, restart_changed, restart_all_managed, restart_other,
  prefer_highest_priority, conflict_fail, conflict_other, default_restart, default_conflict,
  conflict_unset, at_repository, at_repositories,
}

module _ {E : Type 0} where
  seq_iff : (m k : Result E (Unit {0})) → (m >> k ≡ ok tt) ↔ ((m ≡ ok tt) × (k ≡ ok tt))
  seq_iff (ok u) k = (λ h. (refl, h), λ h. h.1)
  seq_iff (err x) k = (λ h. cc, λ h. cc (h.0))

  fail_if_iff : (b : Bool) (x : E) → (fail_if b x ≡ ok tt) ↔ (b ≡ false)
  fail_if_iff true x = (λ h. cc, λ h. cc)
  fail_if_iff false x = (λ h. refl, λ h. refl)

  wrap_err_iff :
      {F : Type 0} (f : F → E) (r : Result F (Unit {0})) → (wrap_err f r ≡ ok tt) ↔ (r ≡ ok tt)
  wrap_err_iff f (ok u) = (λ h. refl, λ h. refl)
  wrap_err_iff f (err x) = (λ h. cc, λ h. cc)

-- A test and what follows it both pass.
guard_iff :
    {E : Type 0} (b : Bool) (x : E) (k : Result E (Unit {0}))
    → (fail_if b x >> k ≡ ok tt) ↔ ((b ≡ false) × (k ≡ ok tt))
guard_iff b x k = (
  λ h. ((fail_if_iff b x).0 ((seq_iff (fail_if b x) k).0 h).0, ((seq_iff (fail_if b x) k).0 h).1),
  λ h. (seq_iff (fail_if b x) k).1 ((fail_if_iff b x).1 h.0, h.1),
)

-- At most one method, and each only with a URL of its scheme.
pub record IsConsistent (a : AuthConfig) (url : Text) : Type 0 where
  pub one_method : (a.ssh_key_file ≡ []) ⊎ (a.https_token_file ≡ [])
  pub ssh_scheme :
      a.ssh_key_file ≢ []
      → (has_prefix url (str "git@") ≡ true) ⊎ (has_prefix url (str "ssh://") ≡ true)
  pub https_scheme : a.https_token_file ≢ [] → has_prefix url (str "https://") ≡ true

consistent : (a : AuthConfig) (url : Text) → validate_auth a url ≡ ok tt → IsConsistent a url
unfolding validate_auth
consistent a url h = record {
  one_method = elim (text_eq.dec a.ssh_key_file []) [ yes e ↦ inl e | no n ↦ inr (ground arith) ];
  ssh_scheme = λ n. elim (Bool-cases (has_prefix url (str "git@"))) [
    | inl e ↦ inl e
    | inr m ↦ inr (ground arith)
  ];
  https_scheme = λ n. ground arith;
}

validated : (a : AuthConfig) (url : Text) → IsConsistent a url → validate_auth a url ≡ ok tt
unfolding validate_auth
validated a url v = elim (text_eq.dec a.ssh_key_file []) [
  | yes e ↦ elim (text_eq.dec a.https_token_file []) [
    | yes f ↦ ground arith
    | no m ↦ ground (arith, v.https_scheme m)
  ]
  | no n ↦ elim (text_eq.dec a.https_token_file []) [
    | yes f ↦ elim (v.ssh_scheme n) [ inl g ↦ ground arith | inr g ↦ ground arith ]
    | no m ↦ absurd (elim v.one_method [ inl e ↦ n e | inr e ↦ m e ])
  ]
]

-- The subdirectory is empty, or relative and does not lead up when cleaned.
abbrev pub StaysInside : Text → Type 0
StaysInside subdir =
    (subdir ≡ [])
    ⊎ ((is_abs subdir ≡ false)
        × (clean subdir ≢ dot_dot)
        × (has_prefix (clean subdir) (str "../") ≡ false))

validate_subdir_iff : (subdir : Text) → (validate_subdir subdir ≡ ok tt) ↔ StaysInside subdir
unfolding validate_subdir
validate_subdir_iff [] = (λ h. inl refl, λ h. refl)
validate_subdir_iff (x ∷ xs) =
    (λ h. inr (ground arith), λ v. elim v [ inl e ↦ cc | inr w ↦ ground arith ])

-- A repository that can be checked out: a URL, a reference, a subdirectory inside it, and an
-- authentication that fits.
pub record IsValidSpec (c : Config) (s : RepoSpec) : Type 0 where
  pub has_url : s.url ≢ []
  pub has_ref : s.ref ≢ []
  pub inside : StaysInside s.subdir
  pub auth_fits : IsConsistent (auth_for_spec c s) s.url

own_auth :
    (c : Config) (s : RepoSpec)
    → IsConsistent (auth_for_spec c s) s.url
    → validate_own_auth s.auth s.url ≡ ok tt
unfolding auth_for_spec
own_auth c s v = elim (Option-cases s.auth) [
  | inl e ↦ rw e refl
  | inr (a, e) ↦ rw e (validated a s.url (rw e at v))
]

spec_passed :
    (c : Config) (label : ConfigError → ConfigError) (s : RepoSpec)
    → validate_spec_at c label s ≡ ok tt
    → IsValidSpec c s
unfolding validate_spec_at validate_repo_spec
spec_passed c label s h = record {
  has_url = λ e. ground arith;
  has_ref = λ e. ground arith;
  inside = (validate_subdir_iff s.subdir).0 (ground arith);
  auth_fits = consistent (auth_for_spec c s) s.url (ground arith);
}

spec_passes :
    (c : Config) (label : ConfigError → ConfigError) (s : RepoSpec)
    → IsValidSpec c s
    → validate_spec_at c label s ≡ ok tt
unfolding validate_spec_at validate_repo_spec
spec_passes c label s v = ground (
  arith,
  v.has_url,
  v.has_ref,
  (validate_subdir_iff s.subdir).1 v.inside,
  validated (auth_for_spec c s) s.url v.auth_fits,
  own_auth c s v.auth_fits,
)

validate_specs_iff :
    (c : Config) (i : ℕ) (ss : List RepoSpec)
    → (validate_specs c i ss ≡ ok tt) ↔ All (IsValidSpec c) ss
unfolding validate_specs
validate_specs_iff c i [] = (λ h. tt, λ h. refl)
validate_specs_iff c i (s ∷ ss) =
    let both = seq_iff (validate_spec_at c (at_repositories i) s) (validate_specs c (i + 1) ss) in
    let rest = validate_specs_iff c (i + 1) ss in
    (
      λ h. (spec_passed c (at_repositories i) s (both.0 h).0, rest.0 (both.0 h).1),
      λ v. both.1 (spec_passes c (at_repositories i) s v.0, rest.1 v.1),
    )

-- The repositories are one, or a list that is not empty, and each is valid.
abbrev pub HasValidRepositories : Config → Option RepoSpec → List RepoSpec → Type 0
HasValidRepositories c (some s) (r ∷ rs) = ⊥
HasValidRepositories c none [] = ⊥
HasValidRepositories c (some s) [] = IsValidSpec c s
HasValidRepositories c none (r ∷ rs) = All (IsValidSpec c) (r ∷ rs)

validate_repositories_iff :
    (c : Config) (o : Option RepoSpec) (rs : List RepoSpec)
    → (validate_repositories c o rs ≡ ok tt) ↔ HasValidRepositories c o rs
unfolding validate_repositories
validate_repositories_iff c (some s) (r ∷ rs) = (λ h. cc, λ v. absurd v)
validate_repositories_iff c none [] = (λ h. cc, λ v. absurd v)
validate_repositories_iff c (some s) [] =
    (spec_passed c at_repository s, spec_passes c at_repository s)
validate_repositories_iff c none (r ∷ rs) = validate_specs_iff c 0 (r ∷ rs)

pub record IsValid (c : Config) : Type 0 where
  pub repositories_valid : HasValidRepositories c c.repository c.repositories
  pub quadlet_dir_absolute : is_abs c.paths.quadlet_dir ≡ true
  pub state_dir_absolute : is_abs c.paths.state_dir ≡ true
  pub known_restart : bad_policy c.sync.restart ≡ false
  pub known_mode : bad_mode c.sync.conflict_handling ≡ false
  pub serve_complete :
      c.serve.enabled ≡ true
      → (c.serve.listen_addr ≢ []) × (c.serve.github_webhook_secret_file ≢ [])

absolute-ne-nil : (path : Text) → is_abs path ≡ true → path ≢ []
unfolding is_abs
absolute-ne-nil [] h e = cc
absolute-ne-nil (x ∷ xs) h e = cc

-- `Validate` accepts a configuration exactly if it has one repository or a list that is not empty
-- but not both, each with a URL, a reference, a subdirectory that does not leave it and an
-- authentication of the URL's scheme; absolute directories; known policies or unset ones; and,
-- if it serves, an address and a secret.
pub validate_iff : (c : Config) → (validate c ≡ ok tt) ↔ IsValid c
unfolding validate
validate_iff c = (
  λ h. record {
    repositories_valid = (validate_repositories_iff c c.repository c.repositories).0 (ground arith);
    quadlet_dir_absolute = ground arith;
    state_dir_absolute = ground arith;
    known_restart = ground arith;
    known_mode = ground arith;
    serve_complete = λ e. (λ f. ground arith, λ f. ground arith);
  },
  λ v. ground (
    arith,
    (validate_repositories_iff c c.repository c.repositories).1 v.repositories_valid,
    absolute-ne-nil c.paths.quadlet_dir v.quadlet_dir_absolute,
    absolute-ne-nil c.paths.state_dir v.state_dir_absolute,
    v.quadlet_dir_absolute,
    v.state_dir_absolute,
    v.known_restart,
    v.known_mode,
    v.serve_complete,
  ),
)

then_ok :
    (m : Result ConfigError (Unit {0})) (a c : Config) → (m >> ok a) ≡ ok c → (m ≡ ok tt) × (a ≡ c)
then_ok (ok u) a c h = (refl, cc)
then_ok (err x) a c h = cc

default_restart-set : (r : RestartPolicy) → default_restart r ≢ restart_unset
default_restart-set restart_none h = cc
default_restart-set restart_changed h = cc
default_restart-set restart_all_managed h = cc
default_restart-set restart_unset h = cc
default_restart-set (restart_other t) h = cc

default_conflict-set : (m : ConflictMode) → default_conflict m ≢ conflict_unset
default_conflict-set prefer_highest_priority h = cc
default_conflict-set conflict_fail h = cc
default_conflict-set conflict_unset h = cc
default_conflict-set (conflict_other t) h = cc

-- A configuration that `Load` answers is valid, and its policies are set: the defaults are filled in
-- before the validation.
pub load-IsValid :
    (expand : Text → Text) (read_file : Text → Option Text) (unmarshal : Text → Option Config)
    → (path : Text) (c : Config) → load expand read_file unmarshal path ≡ ok c
    → IsValid c × (c.sync.restart ≢ restart_unset) × (c.sync.conflict_handling ≢ conflict_unset)
unfolding load apply_defaults
load-IsValid expand read_file unmarshal path c h = elim (Option-cases (read_file (expand path))) [
  | inl bad ↦ cc
  | inr (text, a) ↦ elim (Option-cases (unmarshal text)) [
    | inl bad ↦ cc
    | inr (d, b) ↦
        let full = apply_defaults (expand_env expand d) in
        let loaded : validate full >> ok full ≡ ok c = (rw (a, b, load) at h) in
        let (passed, same) = then_ok (validate full) full c loaded in
        subst
          (λ (x : Config).
            IsValid x
            × (x.sync.restart ≢ restart_unset)
            × (x.sync.conflict_handling ≢ conflict_unset))
          same ((validate_iff full).0 passed, default_restart-set _, default_conflict-set _)
  ]
]
