-- ===== src/Multirepo/Merge/Candidates.antt =====
-- The map of candidates holds, under each key, what the states contribute to it in their order.
use mathlib.Core.List.{append-nil, append_assoc}
use mathlib.Core.Option
use mathlib.Core.Logic.{if_pos, if_neg}
use quadsyncd.Base.{
  ◌≡◌, refl, sym, ap, ◌∙◌, Option, none, some, List, [], ◌∷◌, ◌++◌, arith, ◌==◌, text_eq,
  if◌then◌else◌,
}
use quadsyncd.Base.Text.{Text}
use quadsyncd.Base.Dict.{lookup, lookup-insert, lookup-nil}
use quadsyncd.Multirepo.{
  RepoFile, RepoState, EffectiveItem, IndexedState, item_of, Candidates, add_candidate, add_files,
  add_states,
}

-- The items that the files of one state make for the key, in the order of the files.
unfoldable pub from_files : Text → RepoState → List RepoFile → List EffectiveItem
from_files k s [] = []
from_files k s (f ∷ fs) =
    let rest = from_files k s fs in if k == f.merge_key then item_of s f ∷ rest else rest

unfoldable pub contributors : Text → List IndexedState → List EffectiveItem
contributors k [] = []
contributors k (s ∷ ss) = from_files k s.state s.state.files ++ contributors k ss

abbrev pub extend {ℓ} : {A : Type ℓ} → Option (List A) → List A → Option (List A)
extend o [] = o
extend o (x ∷ xs) = some (Option.get_or o [] ++ x ∷ xs)

extend-some {ℓ} : {A : Type ℓ} (ys xs : List A) → extend (some ys) xs ≡ some (ys ++ xs)
extend-some ys [] = ap some (sym (append-nil ys))
extend-some ys (x ∷ xs) = refl

extend-append {ℓ} :
    {A : Type ℓ} (o : Option (List A)) (xs ys : List A)
    → extend (extend o xs) ys ≡ extend o (xs ++ ys)
extend-append o [] ys = refl
extend-append o (x ∷ xs) ys =
    extend-some (Option.get_or o [] ++ x ∷ xs) ys
    ∙ ap some (append_assoc (Option.get_or o []) (x ∷ xs) ys)

lookup-add_candidate :
    (k : Text) (s : RepoState) (f : RepoFile) (d : Candidates)
    → lookup k (add_candidate (item_of s f) d) ≡ (
        if k == f.merge_key
        then some (Option.get_or (lookup k d) [] ++ item_of s f ∷ [])
        else lookup k d)
unfolding add_candidate item_of
lookup-add_candidate k s f d = ground (
  arith,
  lookup-insert k f.merge_key (Option.get_or (lookup f.merge_key d) [] ++ item_of s f ∷ []) d,
)

lookup-add_files :
    (k : Text) (s : RepoState) (fs : List RepoFile) (d : Candidates)
    → lookup k (add_files s fs d) ≡ extend (lookup k d) (from_files k s fs)
unfolding add_files from_files
lookup-add_files k s [] d = refl
lookup-add_files k s (f ∷ fs) d =
    rw (lookup-add_files k s fs, lookup-add_candidate)
      (elim (text_eq.dec k f.merge_key) [
        | yes e ↦ rw (if_pos _ e) (
            extend-some (Option.get_or (lookup k d) [] ++ item_of s f ∷ []) (from_files k s fs)
            ∙ ap some (
                append_assoc (Option.get_or (lookup k d) []) (item_of s f ∷ [])
                  (from_files k s fs)))
        | no n ↦ rw (if_neg _ n)
      ])

pub lookup-add_states :
    (k : Text) (ss : List IndexedState) (d : Candidates)
    → lookup k (add_states ss d) ≡ extend (lookup k d) (contributors k ss)
unfolding add_states contributors
lookup-add_states k [] d = refl
lookup-add_states k (s ∷ ss) d =
    lookup-add_states k ss (add_files s.state s.state.files d)
    ∙ rw lookup-add_files (extend-append (lookup k d) _ _)

-- From the empty map, a key is there exactly if some state contributes to it.
pub lookup-candidates :
    (k : Text) (ss : List IndexedState)
    → lookup k (add_states ss []) ≡ extend none (contributors k ss)
lookup-candidates k ss = rw lookup-add_states (rw lookup-nil)
