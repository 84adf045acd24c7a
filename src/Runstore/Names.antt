-- ===== src/Runstore/Names.antt =====
-- Which identifiers and artifact names pass the checks of internal/runstore/runstore.go.
use quadsyncd.Base.{
  ℕ, ◌≡◌, refl, sym, ◌≢◌, ◌↔◌, ◌⊎◌, inl, inr, true, false, [], ◌∷◌, contains, text_eq, nat_eq,
  arith,
}
use quadsyncd.Base.Text.{Text}
use quadsyncd.FilePath.{base, or_slash, slash, last_element, strip_slashes}
use quadsyncd.Runstore.{is_single_element}

last_element-plain : (s : Text) → contains (last_element s) slash ≡ false
unfolding last_element
last_element-plain [] = refl
last_element-plain (x ∷ xs) = ground (arith, last_element-plain xs)

last_element_of_plain : (s : Text) → contains s slash ≡ false → last_element s ≡ s
unfolding last_element
last_element_of_plain [] h = refl
last_element_of_plain (x ∷ xs) h = ground (arith, last_element_of_plain xs)

strip_slashes_of_plain : (s : Text) → contains s slash ≡ false → strip_slashes s ≡ s
unfolding strip_slashes
strip_slashes_of_plain [] h = refl
strip_slashes_of_plain (x ∷ []) h = ground arith
strip_slashes_of_plain (x ∷ y ∷ ys) h =
    rw (strip_slashes_of_plain (y ∷ ys) (ground arith), strip_slashes) refl

-- A text is one element or the root alone.
abbrev pub IsPlain : Text → Type 0
IsPlain id = (id ≢ []) × ((contains id slash ≡ false) ⊎ (id ≡ slash ∷ []))

or_slash-plain :
    (s t : Text)
    → contains s slash ≡ false
    → or_slash s ≡ t
    → (contains t slash ≡ false) ⊎ (t ≡ slash ∷ [])
or_slash-plain [] t h e = inr (sym e)
or_slash-plain (x ∷ xs) t h e = inl (rw (sym e) h)

base_of_plain : (c : ℕ) (cs : Text) → contains (c ∷ cs) slash ≡ false → base (c ∷ cs) ≡ c ∷ cs
unfolding base
base_of_plain c cs h = rw (strip_slashes_of_plain (c ∷ cs) h, last_element_of_plain (c ∷ cs) h) refl

base-slash : base (slash ∷ []) ≡ slash ∷ []
unfolding base last_element strip_slashes nat_eq
base-slash = refl

-- A text passes as a single path element exactly when it is not empty and it has no slash or is
-- the root `/`: no check beyond those, so `.` and `..` pass as well.
pub is_single_element_iff : (id : Text) → (is_single_element id ≡ true) ↔ IsPlain id
unfolding is_single_element base
is_single_element_iff [] = (λ h. cc, λ h. absurd (h.0 refl))
is_single_element_iff (c ∷ cs) = (
  λ h. (
    λ e. cc,
    or_slash-plain _ (c ∷ cs) (last_element-plain (strip_slashes (c ∷ cs))) (ground arith),
  ),
  λ h. elim h.1 [
    | inl plain ↦ ground (arith, base_of_plain c cs plain)
    | inr root ↦ rw (root, is_single_element) (ground (arith, base-slash))
  ],
)
