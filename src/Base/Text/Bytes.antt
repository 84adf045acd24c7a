-- ===== src/Base/Text/Bytes.antt =====
-- Texts without a byte: what searching, trimming and splitting at it do.
use quadsyncd.Base.{
  ℕ, ◌≡◌, ◌≢◌, refl, none, Bool-cases, inl, inr, List, [], ◌∷◌, ◌++◌, All, ◌==◌, nat_eq, text_eq,
  arith,
}
use quadsyncd.Base.Text.{Text, cut_suffix, trim_suffix, split, push}

-- `c` is no byte of a text.
abbrev pub Lacks : ℕ → Text → Type 0
Lacks c text = All (λ x. x ≢ c) text

cut_suffix_nowhere : (c : ℕ) (xs : Text) → Lacks c xs → cut_suffix xs (c ∷ []) ≡ none
unfolding cut_suffix
cut_suffix_nowhere c [] h = ground arith
cut_suffix_nowhere c (x ∷ xs) h = ground (arith, cut_suffix_nowhere c xs h.1)

pub trim_suffix_nowhere : (c : ℕ) (xs : Text) → Lacks c xs → trim_suffix xs (c ∷ []) ≡ xs
unfolding trim_suffix
trim_suffix_nowhere c xs h = rw (cut_suffix_nowhere c xs h) refl

-- A line in front of its end is the first piece.
pub split_line : (c : ℕ) (l rest : Text) → Lacks c l → split c (l ++ c ∷ rest) ≡ l ∷ split c rest
unfolding split
split_line c [] rest h = ground arith
split_line c (x ∷ l) rest h = ground (arith, split_line c l rest h.1)

push-ne-nil : (x : ℕ) (ps : List Text) → push x ps ≢ []
push-ne-nil x [] h = cc
push-ne-nil x (p ∷ ps) h = cc

pub split-ne-nil : (c : ℕ) (t : Text) → split c t ≢ []
unfolding split
split-ne-nil c [] = λ h. cc
split-ne-nil c (x ∷ t) = elim (Bool-cases (x == c)) [
  | inl e ↦ rw e (λ h. cc)
  | inr e ↦ rw e (push-ne-nil x (split c t))
]
