-- ===== src/Multirepo/Merge/Winner.antt =====
-- Among the states that contribute a key, the first in the order of priorities wins it.
use mathlib.Core.Path.{subst}
use mathlib.Core.List.{Memᴰ, append-eq-nil_iff}
use mathlib.Core.List.Memᴰ
use mathlib.Core.Logic.{if_pos, if_neg}
use quadsyncd.Base.{
  ◌<◌, ◌≤◌, ◌⊎◌, ◌≡◌, refl, ap, ◌∙◌, ◌≢◌, inl, inr, true, false, List, [], ◌∷◌, arith, text_eq,
  nat_eq, All-mem,
}
use quadsyncd.Base.Text.{Text}
use quadsyncd.Base.Sort.{IsOrder, IsSorted}
use quadsyncd.Multirepo.{RepoFile, RepoState, EffectiveItem, IndexedState, comes_before, item_of}
use quadsyncd.Multirepo.Merge.Candidates.{from_files, contributors}

comes_before_asymm : (a b : IndexedState) → comes_before a b ≡ true → comes_before b a ≡ false
unfolding comes_before
comes_before_asymm a b h = ground arith

comes_before_le_trans :
    (a b c : IndexedState)
    → comes_before b a ≡ false
    → comes_before c b ≡ false
    → comes_before c a ≡ false
unfolding comes_before
comes_before_le_trans a b c h k = ground arith

pub comes_before-IsOrder : IsOrder comes_before
comes_before-IsOrder = record { asymm = comes_before_asymm; le_trans = comes_before_le_trans }

-- The state has a file with the key, and `x` is the item made of it.
pub record Provides (k : Text) (s : IndexedState) (x : EffectiveItem) : Type 0 where
  pub file : RepoFile
  pub listed : Memᴰ file s.state.files
  pub keyed : k ≡ file.merge_key
  pub made : x ≡ item_of s.state file

-- The priority of `t` is lower than that of `s`, or it is the same and `t` does not stand earlier.
abbrev pub Behind : IndexedState → IndexedState → Type 0
Behind t s =
    (t.state.spec.priority < s.state.spec.priority)
    ⊎ ((t.state.spec.priority ≡ s.state.spec.priority) × (s.idx ≤ t.idx))

comes_before-Behind : (t s : IndexedState) → comes_before t s ≡ false → Behind t s
unfolding comes_before
comes_before-Behind t s h = elim (nat_eq.dec t.state.spec.priority s.state.spec.priority) [
  | yes e ↦ inr (e, ground arith)
  | no n ↦ inl (ground arith)
]

-- Every state that provides the key is behind the one that `w` is from, or is that one.
pub record IsWinner (k : Text) (ss : List IndexedState) (w : EffectiveItem) : Type 0 where
  pub source : IndexedState
  pub among : Memᴰ source ss
  pub provides : Provides k source w
  pub first : (t : IndexedState) (y : EffectiveItem) → Memᴰ t ss → Provides k t y → Behind t source

from_files_head :
    (k : Text) (s : RepoState) (fs : List RepoFile) {x : EffectiveItem} {xs : List EffectiveItem}
    → from_files k s fs ≡ x ∷ xs
    → (f : RepoFile) × Memᴰ f fs × (k ≡ f.merge_key) × (x ≡ item_of s f)
unfolding from_files
from_files_head k s [] h = cc
from_files_head k s (f ∷ fs) h = elim (text_eq.dec k f.merge_key) [
  | yes e ↦ (f, Memᴰ.head refl, e, cc (rw (if_pos _ e) at h))
  | no n ↦
      let (g, m, keyed, made) = from_files_head k s fs (rw (if_neg _ n) at h) in
      (g, Memᴰ.tail m, keyed, made)
]

from_files-ne-nil :
    (k : Text) (s : RepoState) (fs : List RepoFile) (f : RepoFile)
    → Memᴰ f fs
    → k ≡ f.merge_key
    → from_files k s fs ≢ []
unfolding from_files
from_files-ne-nil k s [] f m e h = absurd (Memᴰ.not-nil m)
from_files-ne-nil k s (g ∷ fs) f m e h = elim (text_eq.dec k g.merge_key) [
  | yes p ↦ cc (rw (if_pos _ p) at h)
  | no n ↦ elim (Memᴰ.cases_cons m) [
    | inl same ↦ n (e ∙ ap (λ (r : RepoFile). r.merge_key) same)
    | inr later ↦ from_files-ne-nil k s fs f later e (rw (if_neg _ n) at h)
  ]
]

pub contributors-IsWinner :
    (k : Text) (ss : List IndexedState) {w : EffectiveItem} {rest : List EffectiveItem}
    → IsSorted comes_before ss
    → contributors k ss ≡ w ∷ rest
    → IsWinner k ss w
unfolding contributors
contributors-IsWinner k [] sorted h = cc
contributors-IsWinner k (s ∷ ss) {w} {rest} sorted h =
    go (λ h'. contributors-IsWinner k ss sorted.1 h') (from_files k s.state s.state.files) refl
  where
    none_here :
        (t : IndexedState) (y : EffectiveItem)
        → t ≡ s
        → Provides k t y
        → from_files k s.state s.state.files ≢ []
    none_here t y same p =
        from_files-ne-nil k s.state s.state.files p.file
          (subst (λ (u : IndexedState). Memᴰ p.file u.state.files) same p.listed) p.keyed

    go :
        (contributors k ss ≡ w ∷ rest → IsWinner k ss w)
        → (l : List EffectiveItem) → from_files k s.state s.state.files ≡ l
        → IsWinner k (s ∷ ss) w
    go later [] e =
        let r = later (rw e at h) in
        record {
          source = r.source;
          among = Memᴰ.tail r.among;
          provides = r.provides;
          first = λ t y m p. elim (Memᴰ.cases_cons m) [
            | inl same ↦ absurd (none_here t y same p e)
            | inr n ↦ r.first t y n p
          ];
        }
    go later (x ∷ xs) e =
        let (f, m, keyed, made) = from_files_head k s.state s.state.files e in
        record {
          source = s;
          among = Memᴰ.head refl;
          provides = record { file = f; listed = m; keyed = keyed; made = cc (rw e at h) };
          first = λ t y n p. elim (Memᴰ.cases_cons n) [
            | inl same ↦ inr (ground (arith, same))
            | inr late ↦
                comes_before-Behind t s (All-mem (λ u. comes_before u s ≡ false) ss sorted.0 late)
          ];
        }

-- A key that some state provides has a contributor.
pub contributors-ne-nil :
    (k : Text) (ss : List IndexedState) (s : IndexedState) (x : EffectiveItem)
    → Memᴰ s ss
    → Provides k s x
    → contributors k ss ≢ []
unfolding contributors
contributors-ne-nil k [] s x m p h = absurd (Memᴰ.not-nil m)
contributors-ne-nil k (t ∷ ss) s x m p h = elim (Memᴰ.cases_cons m) [
  | inl same ↦
      from_files-ne-nil k t.state t.state.files p.file
        (subst (λ (u : IndexedState). Memᴰ p.file u.state.files) same p.listed) p.keyed
        (append-eq-nil_iff.0 h).0
  | inr n ↦ contributors-ne-nil k ss s x n p (append-eq-nil_iff.0 h).1
]
