-- ===== src/Multirepo/Merge/Resolve.antt =====
-- The loop of `merge` over the keys, in both modes of conflict handling.
use mathlib.Core.List.{append-nil, append_assoc}
use quadsyncd.Base.{◌≡◌, refl, ap, ◌∙◌, Option, some, List, [], ◌∷◌, ◌++◌, ok, All, text_eq}
use quadsyncd.Base.Text.{Text}
use quadsyncd.Base.Dict.{lookup}
use quadsyncd.Config.{prefer_highest_priority, conflict_fail}
use quadsyncd.Multirepo.{
  EffectiveItem, Conflict, Candidates, Progress, resolve_conflict, resolve_key, resolve_keys,
}

-- The key has a candidate, as every key of the map of candidates.
abbrev pub HasCandidate : Candidates → Text → Type 0
HasCandidate d k = (w : EffectiveItem) × (ls : List EffectiveItem) × (lookup k d ≡ some (w ∷ ls))

abbrev pub winner_of : Option (List EffectiveItem) → List EffectiveItem → List EffectiveItem
winner_of (some (w ∷ ls)) rest = w ∷ rest
winner_of _ rest = rest

-- The first candidate of each key.
unfoldable pub winners : Candidates → List Text → List EffectiveItem
winners d [] = []
winners d (k ∷ ks) = winner_of (lookup k d) (winners d ks)

abbrev pub conflict_at : Text → Option (List EffectiveItem) → List Conflict → List Conflict
conflict_at k (some (w ∷ l ∷ ls)) rest =
    record { merge_key = k; winner = w; losers = l ∷ ls } ∷ rest
conflict_at k _ rest = rest

-- The keys with more than one candidate.
unfoldable pub conflicts_at : Candidates → List Text → List Conflict
conflicts_at d [] = []
conflicts_at d (k ∷ ks) = conflict_at k (lookup k d) (conflicts_at d ks)

pub resolve_prefer :
    (d : Candidates) (ks : List Text) (p : Progress)
    → All (HasCandidate d) ks
    → resolve_keys prefer_highest_priority d ks p
      ≡ ok (record p {
        items = p.items ++ winners d ks;
        conflicts = p.conflicts ++ conflicts_at d ks;
      })
unfolding resolve_keys resolve_key resolve_conflict winners conflicts_at
resolve_prefer d [] p h = simp append-nil
resolve_prefer d (k ∷ ks) p ((w, [], e), hs) =
    rw e (resolve_prefer d ks (record p { items = p.items ++ w ∷ [] }) hs ∙ rw append_assoc)
resolve_prefer d (k ∷ ks) p ((w, l ∷ ls, e), hs) = rw e (
    resolve_prefer d ks
      (record p {
        conflicts = p.conflicts ++ record { merge_key = k; winner = w; losers = l ∷ ls } ∷ [];
        items = p.items ++ w ∷ [];
      })
      hs
    ∙ simp append_assoc)

abbrev pub single_of : Option (List EffectiveItem) → List EffectiveItem → List EffectiveItem
single_of (some (w ∷ [])) rest = w ∷ rest
single_of _ rest = rest

-- The candidates of the keys with only one.
unfoldable pub singles : Candidates → List Text → List EffectiveItem
singles d [] = []
singles d (k ∷ ks) = single_of (lookup k d) (singles d ks)

pub resolve_fail :
    (d : Candidates) (ks : List Text) (p : Progress)
    → All (HasCandidate d) ks
    → resolve_keys conflict_fail d ks p
      ≡ ok (record {
        items = p.items ++ singles d ks;
        conflicts = p.conflicts ++ conflicts_at d ks;
        conflict_errors = p.conflict_errors ++ conflicts_at d ks;
      })
unfolding resolve_keys resolve_key resolve_conflict singles conflicts_at
resolve_fail d [] p h = simp append-nil
resolve_fail d (k ∷ ks) p ((w, [], e), hs) =
    rw e (resolve_fail d ks (record p { items = p.items ++ w ∷ [] }) hs ∙ rw append_assoc)
resolve_fail d (k ∷ ks) p ((w, l ∷ ls, e), hs) =
    let c : Conflict = record { merge_key = k; winner = w; losers = l ∷ ls } in
    rw e (
      resolve_fail d ks
        (record p {
          conflicts = p.conflicts ++ c ∷ [];
          conflict_errors = p.conflict_errors ++ c ∷ [];
        })
        hs
      ∙ simp append_assoc)

-- Without a conflict the two modes select the same items.
pub singles-eq-winners :
    (d : Candidates) (ks : List Text)
    → All (HasCandidate d) ks
    → conflicts_at d ks ≡ []
    → singles d ks ≡ winners d ks
unfolding singles winners conflicts_at
singles-eq-winners d [] h e = refl
singles-eq-winners d (k ∷ ks) ((w, [], e), hs) none_at =
    rw e (ap (◌∷◌ w) (singles-eq-winners d ks hs (rw e at none_at)))
singles-eq-winners d (k ∷ ks) ((w, l ∷ ls, e), hs) none_at = cc (rw e at none_at)
