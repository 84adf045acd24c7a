-- ===== src/Sync/Filter.antt =====
-- The repository filter of `Run` in internal/sync/sync.go: `filtered := repos[:0]` appends into the
-- array of `repos`, which is that of `cfg.Repositories` when there is no single repository.
use mathlib.Core.List.{append-nil, append_assoc}
use quadsyncd.Base.{
  zero, ◌≢◌, ◌≡◌, refl, sym, ap, ◌∙◌, ℕ, suc, inl, inr, Bool-cases, none, some, List, [], ◌∷◌, ◌++◌,
  keep, drop, length, ◌==◌, if◌then◌else◌, text_eq,
}
use quadsyncd.Base.Text.{Text}
use quadsyncd.Config.{Config, RepoSpec, effective_repositories}

-- The array is `written`, then the slots that were read and are not written yet, then the rest:
-- an append overwrites the first of those slots.
unfoldable pub compact :
    Text → List RepoSpec → List RepoSpec → List RepoSpec → List RepoSpec × List RepoSpec
compact url written gap [] = (written, written ++ gap)
compact url written gap (r ∷ rest) =
    let kept = compact url (written ++ r ∷ []) (drop 1 (gap ++ r ∷ [])) rest in
    let skipped = compact url written (gap ++ r ∷ []) rest in if r.url == url then kept else skipped

-- The repositories of a run, and the configuration as the filter leaves it.
unfoldable pub select_repos : Text → Config → List RepoSpec × Config
select_repos [] cfg = (effective_repositories cfg, cfg)
select_repos (x ∷ xs) cfg = elim cfg.repository [
  | some s ↦ ((compact (x ∷ xs) [] [] (s ∷ [])).0, cfg)
  | none ↦
      let r = compact (x ∷ xs) [] [] cfg.repositories in (r.0, record cfg { repositories = r.1 })
]

-- The repositories with the URL, in their order.
abbrev pub matching : Text → List RepoSpec → List RepoSpec
matching url specs = keep (λ r. r.url == url) specs

drop-suc : (n : ℕ) (xs : List RepoSpec) → drop (suc n) xs ≡ drop n (drop 1 xs)
drop-suc zero [] = refl
drop-suc (suc n) [] = refl
drop-suc n (x ∷ xs) = refl

drop-gap :
    (gap rest : List RepoSpec) (r : RepoSpec)
    → drop 1 (gap ++ r ∷ []) ++ rest ≡ drop 1 (gap ++ r ∷ rest)
drop-gap [] rest r = refl
drop-gap (x ∷ gap) rest r = append_assoc gap (r ∷ []) rest

compact_lem :
    (url : Text) (written gap rest : List RepoSpec)
    → compact url written gap rest ≡ (
      written ++ matching url rest,
      written ++ matching url rest ++ drop (length (matching url rest)) (gap ++ rest),
    )
unfolding compact
compact_lem url written gap [] = rw (append-nil written, append-nil gap) refl
compact_lem url written gap (r ∷ rest) = elim (Bool-cases (r.url == url)) [
  | inl h ↦
      let kept = matching url rest in
      let ih = compact_lem url (written ++ r ∷ []) (drop 1 (gap ++ r ∷ [])) rest in
      let front = append_assoc written (r ∷ []) kept in
      let back : drop (length kept) (drop 1 (gap ++ r ∷ []) ++ rest)
          ≡ drop (suc (length kept)) (gap ++ r ∷ rest) =
        ap (λ (xs : List RepoSpec). drop (length kept) xs) (drop-gap gap rest r)
        ∙ sym (drop-suc (length kept) (gap ++ r ∷ rest)) in
      rw (h, compact) (ih ∙ cc)
  | inr h ↦
      let ih = compact_lem url written (gap ++ r ∷ []) rest in
      let assoc = append_assoc gap (r ∷ []) rest in rw (h, compact) (ih ∙ cc)
]

-- With a filter and no single repository, a run works on the repositories with the URL of the
-- filter, in their order. It also leaves the shared configuration changed: these repositories
-- stand at its front, over what was there, and the rest of the list is as it was.
pub select_repos_lem :
    (url : Text) (cfg : Config)
    → url ≢ []
    → cfg.repository ≡ none
    → select_repos url cfg ≡ (
      matching url cfg.repositories,
      record cfg {
        repositories =
            matching url cfg.repositories
            ++ drop (length (matching url cfg.repositories)) cfg.repositories;
      },
    )
unfolding select_repos
select_repos_lem [] cfg n h = absurd (n refl)
select_repos_lem (x ∷ xs) cfg n h =
    simp (h, select_repos, compact_lem (x ∷ xs) [] [] cfg.repositories)
