-- ===== src/Multirepo/Merge/Selection.antt =====
-- `merge` as one equation: the winners of the keys in order, and the conflicts, unless two units
-- collide.
use quadsyncd.Base.{
  ◌≡◌, refl, ap, ◌∙◌, ◌≢◌, none, some, List, [], ◌∷◌, ok, err, ◌>>=◌, All, All-of_mem, text_eq,
}
use quadsyncd.Base.Text.{Text}
use quadsyncd.Base.Text.Order.{text_lt}
use quadsyncd.Base.Dict.{lookup, keys, NodupKeys, insert-NodupKeys, mem-keys}
use quadsyncd.Base.Sort.{sort_by, mem-sort_by}
use quadsyncd.Config.{prefer_highest_priority, conflict_fail}
use quadsyncd.Multirepo.{
  RepoFile, RepoState, EffectiveItem, Conflict, IndexedState, index_states, comes_before, item_of,
  Candidates, add_candidate, add_files, add_states, no_progress, check_conflict_errors,
  same_path_conflicts, detect_unit_name_collisions, merge,
}
use quadsyncd.Multirepo.Merge.Candidates.{contributors, extend, lookup-candidates}
use quadsyncd.Multirepo.Merge.Resolve.{
  HasCandidate, winners, conflicts_at, resolve_prefer, resolve_fail, singles-eq-winners,
}

add_files-NodupKeys :
    (s : RepoState) (fs : List RepoFile) (d : Candidates)
    → NodupKeys d
    → NodupKeys (add_files s fs d)
unfolding add_files add_candidate
add_files-NodupKeys s [] d h = h
add_files-NodupKeys s (f ∷ fs) d h =
    add_files-NodupKeys s fs (add_candidate (item_of s f) d) (insert-NodupKeys _ _ d h)

add_states-NodupKeys :
    (ss : List IndexedState) (d : Candidates) → NodupKeys d → NodupKeys (add_states ss d)
unfolding add_states
add_states-NodupKeys [] d h = h
add_states-NodupKeys (s ∷ ss) d h =
    add_states-NodupKeys ss (add_files s.state s.state.files d)
      (add_files-NodupKeys s.state s.state.files d h)

module _ (states : List RepoState) where
  -- The variables that `merge` computes before its loop.
  abbrev pub ranked : List IndexedState
  ranked = sort_by comes_before (index_states 0 states)

  abbrev pub candidates : Candidates
  candidates = add_states ranked []

  abbrev pub ordered_keys : List Text
  ordered_keys = sort_by text_lt (keys candidates)

  pub candidates-NodupKeys : NodupKeys candidates
  candidates-NodupKeys = add_states-NodupKeys ranked [] tt

  contributors-cons :
      (k : Text)
      → lookup k candidates ≢ none
      → (w : EffectiveItem) × (ls : List EffectiveItem) × (contributors k ranked ≡ w ∷ ls)
  contributors-cons k h = go (contributors k ranked) (lookup-candidates k ranked)
    where
      go :
          (l : List EffectiveItem)
          → lookup k candidates ≡ extend none l
          → (w : EffectiveItem) × (ls : List EffectiveItem) × (l ≡ w ∷ ls)
      go [] e = absurd (h e)
      go (w ∷ ls) e = (w, ls, refl)

  lookup-cons_of :
      (k : Text) {w : EffectiveItem} {ls : List EffectiveItem}
      → contributors k ranked ≡ w ∷ ls
      → lookup k candidates ≡ some (w ∷ ls)
  lookup-cons_of k e = lookup-candidates k ranked ∙ ap (extend none) e

  pub ordered_keys-HasCandidate : All (HasCandidate candidates) ordered_keys
  ordered_keys-HasCandidate = All-of_mem _ ordered_keys λ k m.
      let (w, ls, e) =
        contributors-cons k (mem-keys k candidates (mem-sort_by text_lt k (keys candidates) m)) in
      (w, ls, lookup-cons_of k e)

  pub merge_prefer : merge states prefer_highest_priority ≡ (
      detect_unit_name_collisions (winners candidates ordered_keys) >>= λ _. ok (record {
        items = winners candidates ordered_keys;
        conflicts = conflicts_at candidates ordered_keys;
      }))
  unfolding merge check_conflict_errors
  merge_prefer = rw (resolve_prefer candidates ordered_keys no_progress ordered_keys-HasCandidate)

  -- A conflict ends the merge in the mode that fails; without one the modes agree.
  pub merge_fail_conflict :
      (c : Conflict) (cs : List Conflict)
      → conflicts_at candidates ordered_keys ≡ c ∷ cs
      → merge states conflict_fail ≡ err (same_path_conflicts (c ∷ cs))
  unfolding merge check_conflict_errors
  merge_fail_conflict c cs e =
      rw (resolve_fail candidates ordered_keys no_progress ordered_keys-HasCandidate) (rw e)

  pub merge_fail_agrees :
      conflicts_at candidates ordered_keys ≡ []
      → merge states conflict_fail ≡ merge states prefer_highest_priority
  unfolding merge check_conflict_errors
  merge_fail_agrees e = rw (
    resolve_fail candidates ordered_keys no_progress ordered_keys-HasCandidate,
    resolve_prefer candidates ordered_keys no_progress ordered_keys-HasCandidate,
    singles-eq-winners candidates ordered_keys ordered_keys-HasCandidate e,
    e,
  )
