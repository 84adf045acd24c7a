-- ===== src/Multirepo/Merge.antt =====
-- What `Merge` selects: for each key the item of the state that comes first, each key once and in
-- order, and how the two modes of conflict handling relate.
pub mod Candidates
pub mod Winner
pub mod Resolve
pub mod Selection
use mathlib.Core.Path.{subst}
use mathlib.Core.List.{Memᴰ}
use quadsyncd.Base.{
  ℕ, ◌≡◌, refl, sym, ap, ◌∙◌, ◌≢◌, ◌↔◌, ◌⊎◌, inl, inr, Option, none, some, List, [], ◌∷◌, map,
  arith, Result, ok, err, ◌>>=◌, All, All-of_mem, text_eq, Result-cases,
}
use quadsyncd.Base.Text.{Text}
use quadsyncd.Base.Text.Order.{text_lt}
use quadsyncd.Base.Dict.{lookup, keys, keys-mem}
use quadsyncd.Base.Keys.{IsAscending, sort_keys-IsAscending}
use quadsyncd.Base.Sort.{mem-sort_by, sort_by-mem, sort_by-IsSorted}
use quadsyncd.Config.{prefer_highest_priority, conflict_fail}
use quadsyncd.Multirepo.{
  RepoState, EffectiveItem, Conflict, MergeResult, MergeError, unit_name_collisions,
  same_path_conflicts, IndexedState, index_states, comes_before, item_of, collisions,
  detect_unit_name_collisions, merge,
}
use quadsyncd.Multirepo.Merge.Candidates.{from_files, contributors, lookup-candidates, extend}
use quadsyncd.Multirepo.Merge.Winner.{
  Provides, IsWinner, contributors-IsWinner, contributors-ne-nil, comes_before-IsOrder,
}
use quadsyncd.Multirepo.Merge.Resolve.{HasCandidate, winner_of, winners, conflicts_at}
use quadsyncd.Multirepo.Merge.Selection.{
  ranked, candidates, ordered_keys, candidates-NodupKeys, ordered_keys-HasCandidate, merge_prefer,
  merge_fail_conflict, merge_fail_agrees,
}

key_of_winner :
    (k : Text) (ss : List IndexedState) (w : EffectiveItem) → IsWinner k ss w → w.merge_key ≡ k
unfolding item_of
key_of_winner k ss w h = cc (h.provides.keyed, h.provides.made)

-- Winning among the ranked states is winning among the states as they were given.
unranked :
    (k : Text) (states : List RepoState) (w : EffectiveItem)
    → IsWinner k (ranked states) w
    → IsWinner k (index_states 0 states) w
unranked k states w h = record {
  source = h.source;
  among = mem-sort_by comes_before h.source (index_states 0 states) h.among;
  provides = h.provides;
  first = λ t y m p. h.first t y (sort_by-mem comes_before t (index_states 0 states) m) p;
}

module _ (states : List RepoState) where
  IsWinner-at :
      (k : Text) (w : EffectiveItem) (ls : List EffectiveItem)
      → lookup k (candidates states) ≡ some (w ∷ ls)
      → IsWinner k (index_states 0 states) w
  IsWinner-at k w ls e = unranked k states w (go (contributors k (ranked states)) refl)
    where
      go :
          (l : List EffectiveItem)
          → contributors k (ranked states) ≡ l
          → IsWinner k (ranked states) w
      go [] h = cc (e, lookup-candidates k (ranked states), h)
      go (x ∷ xs) h =
          contributors-IsWinner k (ranked states) {rest = ls}
            (sort_by-IsSorted comes_before-IsOrder (index_states 0 states))
            (ground (arith, e, lookup-candidates k (ranked states), h))

  winners_win :
      (ks : List Text)
      → All (HasCandidate (candidates states)) ks
      → All (λ x. IsWinner x.merge_key (index_states 0 states) x) (winners (candidates states) ks)
        × (map (λ (x : EffectiveItem). x.merge_key) (winners (candidates states) ks) ≡ ks)
  unfolding winners
  winners_win [] h = (tt, refl)
  winners_win (k ∷ ks) ((w, ls, e), hs) =
      let (all, same) = winners_win ks hs in
      let win = IsWinner-at k w ls e in
      let key = key_of_winner k (index_states 0 states) w win in
      rw e ((subst (λ j. IsWinner j (index_states 0 states) w) (sym key) win, all), cc (key, same))

provided_lookup :
    (states : List RepoState) (k : Text)
    → contributors k (ranked states) ≢ []
    → lookup k (candidates states) ≢ none
provided_lookup states k h e = go (contributors k (ranked states)) refl
  where
    go : (l : List EffectiveItem) → contributors k (ranked states) ≡ l → ⊥
    go [] n = h n
    go (x ∷ xs) n = cc (e, lookup-candidates k (ranked states), n)

ok_inv {ℓ κ μ} :
    {E : Type ℓ} {A : Type κ} {B : Type μ} (m : Result E A) (b : B) {r : B}
    → (m >>= λ _. ok b) ≡ ok r
    → (a : A) × (m ≡ ok a) × (b ≡ r)
ok_inv (ok a) b h = (a, refl, cc)
ok_inv (err e) b h = cc

module _ (states : List RepoState) {r : MergeResult}
    (merged : merge states prefer_highest_priority ≡ ok r) where
  selected :
      record {
        items = winners (candidates states) (ordered_keys states);
        conflicts = conflicts_at (candidates states) (ordered_keys states);
      }
      ≡ r
  selected = (ok_inv (detect_unit_name_collisions _) _ (sym (merge_prefer states) ∙ merged)).2

  -- When the merge that prefers priorities succeeds, each item of its result is made of a file of
  -- one of the given states, and no state that has a file with the same merge key comes before
  -- that one: none has a higher priority, and none of the same priority stands earlier.
  pub merge-IsWinner : All (λ x. IsWinner x.merge_key (index_states 0 states) x) r.items
  merge-IsWinner =
      subst (λ (m : MergeResult). All (λ x. IsWinner x.merge_key (index_states 0 states) x) m.items)
        selected (winners_win states (ordered_keys states) (ordered_keys-HasCandidate states)).0

  keys_of_items : map (λ (x : EffectiveItem). x.merge_key) r.items ≡ ordered_keys states
  keys_of_items =
      subst
        (λ (m : MergeResult).
          map (λ (x : EffectiveItem). x.merge_key) m.items ≡ ordered_keys states)
        selected (winners_win states (ordered_keys states) (ordered_keys-HasCandidate states)).1

  -- When the merge that prefers priorities succeeds, the merge keys of its items are strictly
  -- ascending, so no key has two items, and every key of a file of a given state is among them.
  pub merge-keys :
      IsAscending (map (λ (x : EffectiveItem). x.merge_key) r.items)
      × ((k : Text) (s : IndexedState) (x : EffectiveItem)
          → Memᴰ s (index_states 0 states)
          → Provides k s x
          → Memᴰ k (map (λ (y : EffectiveItem). y.merge_key) r.items))
  merge-keys = rw keys_of_items (
    sort_keys-IsAscending (candidates states) (candidates-NodupKeys states),
    λ k s x m p. sort_by-mem text_lt k (keys (candidates states)) (
        keys-mem k (candidates states) (
          provided_lookup states k (
            contributors-ne-nil k (ranked states) s x
              (sort_by-mem comes_before s (index_states 0 states) m) p))),
  )

abbrev pub Outcome : List RepoState → Type 0
Outcome states =
    ((r : MergeResult) × (merge states prefer_highest_priority ≡ ok r))
    ⊎ ((units : List Text) × (merge states prefer_highest_priority
          ≡ err (unit_name_collisions units)))

-- The merge that prefers priorities returns a result or reports units that collide, whatever the
-- states are; no other error is possible.
pub merge_prefer_total : (states : List RepoState) → Outcome states
unfolding detect_unit_name_collisions
merge_prefer_total states =
    go (collisions [] (winners (candidates states) (ordered_keys states))) refl
  where
    go :
        (cs : List Text)
        → collisions [] (winners (candidates states) (ordered_keys states)) ≡ cs
        → Outcome states
    go [] e =
        let r : MergeResult = record {
          items = winners (candidates states) (ordered_keys states);
          conflicts = conflicts_at (candidates states) (ordered_keys states);
        } in
        inl (r, merge_prefer states ∙ rw (e, detect_unit_name_collisions))
    go (c ∷ cs) e = inr (c ∷ cs, merge_prefer states ∙ rw (e, detect_unit_name_collisions))

-- The merge that fails on conflicts gives a result exactly when the merge that prefers priorities
-- gives the same one and reports no conflict.
pub merge_fail_iff :
    (states : List RepoState) (r : MergeResult)
    → (merge states conflict_fail ≡ ok r)
      ↔ ((merge states prefer_highest_priority ≡ ok r) × (r.conflicts ≡ []))
merge_fail_iff states r = go (conflicts_at (candidates states) (ordered_keys states)) refl
  where
    go :
        (cs : List Conflict)
        → conflicts_at (candidates states) (ordered_keys states) ≡ cs
        → (merge states conflict_fail ≡ ok r)
          ↔ ((merge states prefer_highest_priority ≡ ok r) × (r.conflicts ≡ []))
    go [] e = (
      λ h.
          let same = sym (merge_fail_agrees states e) ∙ h in
          (same, sym (ap (λ (m : MergeResult). m.conflicts) (selected states same)) ∙ e),
      λ h. merge_fail_agrees states e ∙ h.0,
    )
    go (c ∷ cs) e = (
      λ h. cc (merge_fail_conflict states c cs e, h),
      λ h. cc (ap (λ (m : MergeResult). m.conflicts) (selected states h.0), e, h.1),
    )
