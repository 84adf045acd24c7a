-- ===== src/Multirepo/MergeKey.antt =====
-- `normalizeMergeKey` gives keys that stay below any directory they are joined to.
use quadsyncd.Base.{
  ◌≡◌, refl, sym, ap, ◌∙◌, ◌≢◌, ◌⊎◌, inl, inr, true, false, List, [], ◌∷◌, ◌++◌, arith, ok, All,
  All-append, text_eq, nat_eq,
}
use quadsyncd.Base.Text.{Text, str, split, has_prefix, cut_prefix}
use quadsyncd.FilePath.{slash, dot, dot_dot, is_abs, join_parts, clean_parts, clean, join, or_dot}
use quadsyncd.FilePath.Clean.{IsName, clean_parts-relative, clean_parts-absolute}
use quadsyncd.FilePath.Under.{join-under, split-join_parts-All}
use quadsyncd.Multirepo.{normalize_merge_key}

-- What an accepted key is, and the tests that it passed.
accepted :
    (r : Text) {k : Text}
    → normalize_merge_key r ≡ ok k
    → (is_abs r ≡ false) × (clean r ≡ k) × (k ≢ dot_dot) × (has_prefix k (str "../") ≡ false)
unfolding normalize_merge_key
accepted r h = ground arith

-- A path that begins with two dots and a slash, or is two dots, is refused.
refused :
    (ps : List Text)
    → join_parts (dot_dot ∷ ps) ≢ dot_dot
    → has_prefix (join_parts (dot_dot ∷ ps)) (str "../") ≡ true
unfolding join_parts has_prefix cut_prefix nat_eq
refused [] h = absurd (h refl)
refused (p ∷ ps) h = refl

or_dot-dots : (ps : List Text) → or_dot (join_parts (dot_dot ∷ ps)) ≡ join_parts (dot_dot ∷ ps)
unfolding join_parts
or_dot-dots [] = refl
or_dot-dots (p ∷ ps) = refl

or_dot-names :
    (p : Text) (ps : List Text) → p ≢ [] → or_dot (join_parts (p ∷ ps)) ≡ join_parts (p ∷ ps)
unfolding join_parts
or_dot-names [] ps h = absurd (h refl)
or_dot-names (x ∷ xs) [] h = refl
or_dot-names (x ∷ xs) (q ∷ qs) h = refl

key_parts :
    (ps : List Text)
    → All IsName ps
    → (or_dot (join_parts ps) ≡ dot) ⊎ All IsName (split slash (or_dot (join_parts ps)))
key_parts [] h = inl (unfold join_parts in refl)
key_parts (p ∷ ps) h =
    inr (rw (or_dot-names p ps h.0.filled, split-join_parts-All (p ∷ ps) h (λ e. cc)) h)

cleaned_relative : (r : Text) → is_abs r ≡ false → clean r ≡ or_dot (join_parts (clean_parts r))
unfolding clean
cleaned_relative r h = rw h

-- An accepted merge key is `.` or a relative path of plain names: no part of it is empty, `.` or
-- `..`, and none holds a slash.
pub normalize_merge_key-IsName :
    (r : Text) {k : Text} → normalize_merge_key r ≡ ok k → (k ≡ dot) ⊎ All IsName (split slash k)
normalize_merge_key-IsName r {k} h = elim (clean_parts-relative r passed.0) [
  | inl names ↦ rw key (key_parts (clean_parts r) names)
  | inr (q, dots) ↦ absurd (climbs q (key ∙ ap (λ ps. or_dot (join_parts ps)) dots ∙ or_dot-dots q))
]
  where
    passed : (is_abs r ≡ false) × (clean r ≡ k) × (k ≢ dot_dot) × (has_prefix k (str "../") ≡ false)
    passed = accepted r h

    key : k ≡ or_dot (join_parts (clean_parts r))
    key = sym passed.1 ∙ cleaned_relative r passed.0

    climbs : (q : List Text) → k ≡ join_parts (dot_dot ∷ q) → ⊥
    climbs q e = cc (e, passed.3, refused q (λ d. passed.2 (e ∙ d)))

-- A file of an accepted merge key other than `.` is written strictly below the directory of the
-- quadlets: the parts of the destination are those of the cleaned directory, then those of the
-- key, none of them `..`.
pub normalize_merge_key-under :
    (d r : Text) {k : Text}
    → is_abs d ≡ true
    → normalize_merge_key r ≡ ok k
    → k ≢ dot
    → (join d k ≡ slash ∷ join_parts (clean_parts d ++ split slash k))
      × All IsName (clean_parts d ++ split slash k)
normalize_merge_key-under d r {k} abs h n = elim (normalize_merge_key-IsName r h) [
  | inl e ↦ absurd (n e)
  | inr names ↦ (
    join-under d k abs names,
    All-append IsName (clean_parts d) (split slash k) (clean_parts-absolute d abs) names,
  )
]
