-- ===== src/Base/Text/Replace.antt =====
-- What `strings.ReplaceAll` leaves of the text that it replaces.
use quadsyncd.Base.{
  ℕ, zero, suc, ◌-◌, ◌≡◌, ◌≢◌, refl, sym, ap, ◌∙◌, inl, inr, true, false, Bool-cases, Option-cases,
  [], ◌∷◌, ◌++◌, All, length, ◌==◌, if◌then◌else◌, nat_eq, arith,
}
use quadsyncd.Base.Text.{Text, cut_prefix, has_prefix, index, contains_text, replace_from}

-- No byte of `p` is one of `new`.
abbrev pub IsDisjoint : Text → Text → Type 0
IsDisjoint new p = All (λ y. All (λ x. x ≢ y) new) p

prefix_cons :
    (x y : ℕ) (xs ys : Text)
    → has_prefix (x ∷ xs) (y ∷ ys) ≡ (if x == y then has_prefix xs ys else false)
unfolding has_prefix cut_prefix
prefix_cons x y xs ys = ground arith

replace_nil : (old new : Text) (n : ℕ) → replace_from old new n [] ≡ []
unfolding replace_from
replace_nil old new n = refl

replace_skip :
    (old new : Text) (n x : ℕ) (xs : Text)
    → replace_from old new (suc n) (x ∷ xs) ≡ replace_from old new n xs
unfolding replace_from
replace_skip old new n x xs = refl

replace_cons :
    (old new : Text) (x : ℕ) (xs : Text)
    → replace_from old new 0 (x ∷ xs) ≡ (
        if has_prefix (x ∷ xs) old
        then new ++ replace_from old new (length old - 1) xs
        else x ∷ replace_from old new 0 xs)
unfolding replace_from
replace_cons old new x xs = refl

all_prefix : (xs : Text) → has_prefix xs [] ≡ true
unfolding has_prefix cut_prefix
all_prefix [] = refl
all_prefix (x ∷ xs) = refl

contains_cons :
    (x : ℕ) (xs p : Text)
    → contains_text (x ∷ xs) p ≡ (if has_prefix (x ∷ xs) p then true else contains_text xs p)
unfolding contains_text index
contains_cons x xs p = elim (Bool-cases (has_prefix (x ∷ xs) p)) [
  | inl e ↦ rw e refl
  | inr e ↦ elim (Option-cases (index xs p)) [
    | inl n ↦ rw (e, n) refl
    | inr (k, n) ↦ rw (e, n) refl
  ]
]

contains_nil : (y : ℕ) (ys : Text) → contains_text [] (y ∷ ys) ≡ false
unfolding contains_text index has_prefix cut_prefix
contains_nil y ys = refl

-- A text behind bytes that differ from the first one of `y ∷ ys`.
contains_behind :
    (front rest : Text) (y : ℕ) (ys : Text)
    → All (λ x. x ≢ y) front
    → contains_text (front ++ rest) (y ∷ ys) ≡ contains_text rest (y ∷ ys)
contains_behind [] rest y ys h = refl
contains_behind (x ∷ front) rest y ys h =
    let differ : has_prefix (x ∷ front ++ rest) (y ∷ ys) ≡ false =
      prefix_cons x y (front ++ rest) ys ∙ ground (arith, h.0) in
    contains_cons x (front ++ rest) (y ∷ ys) ∙ rw differ (contains_behind front rest y ys h.1)

module _ (old : Text) (m : ℕ) (ms : Text) where
  abbrev new : Text
  new = m ∷ ms

  -- A prefix of what was replaced that has nothing of the mark was one before.
  prefix_before :
      (xs p : Text)
      → IsDisjoint new p
      → has_prefix (replace_from old new 0 xs) p ≡ true
      → has_prefix xs p ≡ true
  prefix_before xs [] d h = all_prefix xs
  prefix_before [] (y ∷ p) d h = sym (ap (λ t. has_prefix t (y ∷ p)) (replace_nil old new 0)) ∙ h
  prefix_before (x ∷ xs) (y ∷ p) d h = elim (Bool-cases (has_prefix (x ∷ xs) old)) [
    | inl e ↦
        let matched : has_prefix (replace_from old new 0 (x ∷ xs)) (y ∷ p) ≡ false =
          ap (λ t. has_prefix t (y ∷ p)) (replace_cons old new x xs)
          ∙ rw e (
              prefix_cons m y (ms ++ replace_from old new (length old - 1) xs) p
              ∙ ground (arith, d.0.0)) in
        cc
    | inr e ↦
        let kept : has_prefix (replace_from old new 0 (x ∷ xs)) (y ∷ p)
            ≡ (if x == y then has_prefix (replace_from old new 0 xs) p else false) =
          ap (λ t. has_prefix t (y ∷ p)) (replace_cons old new x xs)
          ∙ rw e (prefix_cons x y (replace_from old new 0 xs) p) in
        ground (arith, kept, prefix_cons x y xs p, prefix_before xs p d.1)
  ]

  -- Where a text that has nothing of the mark is found, it was before.
  pub found_before :
      (n : ℕ) (xs : Text) (y : ℕ) (ys : Text)
      → IsDisjoint new (y ∷ ys)
      → contains_text (replace_from old new n xs) (y ∷ ys) ≡ true
      → contains_text xs (y ∷ ys) ≡ true
  found_before n [] y ys d h = sym (ap (λ t. contains_text t (y ∷ ys)) (replace_nil old new n)) ∙ h
  found_before (suc n) (x ∷ xs) y ys d h =
      let shorter : contains_text (replace_from old new n xs) (y ∷ ys) ≡ true =
        sym (ap (λ t. contains_text t (y ∷ ys)) (replace_skip old new n x xs)) ∙ h in
      ground (arith, contains_cons x xs (y ∷ ys), found_before n xs y ys d shorter)
  found_before zero (x ∷ xs) y ys d h = elim (Bool-cases (has_prefix (x ∷ xs) old)) [
    | inl e ↦
        let rest = replace_from old new (length old - 1) xs in
        let path : contains_text (replace_from old new 0 (x ∷ xs)) (y ∷ ys)
            ≡ contains_text rest (y ∷ ys) =
          ap (λ t. contains_text t (y ∷ ys)) (replace_cons old new x xs)
          ∙ rw e (contains_behind new rest y ys d.0) in
        ground (
          arith,
          contains_cons x xs (y ∷ ys),
          found_before (length old - 1) xs y ys d (sym path ∙ h),
        )
    | inr e ↦
        let same : replace_from old new 0 (x ∷ xs) ≡ x ∷ replace_from old new 0 xs =
          replace_cons old new x xs ∙ rw e refl in
        let path : contains_text (replace_from old new 0 (x ∷ xs)) (y ∷ ys) ≡ (
            if has_prefix (replace_from old new 0 (x ∷ xs)) (y ∷ ys)
            then true
            else contains_text (replace_from old new 0 xs) (y ∷ ys)) =
          rw same (contains_cons x (replace_from old new 0 xs) (y ∷ ys)) in
        elim (Bool-cases (has_prefix (x ∷ xs) (y ∷ ys))) [
          | inl q ↦ contains_cons x xs (y ∷ ys) ∙ rw q refl
          | inr q ↦ elim (Bool-cases (has_prefix (replace_from old new 0 (x ∷ xs)) (y ∷ ys))) [
            | inl k ↦ absurd (let was = prefix_before (x ∷ xs) (y ∷ ys) d k in cc)
            | inr k ↦
                let behind : contains_text (replace_from old new 0 xs) (y ∷ ys) ≡ true =
                  ground (arith, path) in
                ground (arith, contains_cons x xs (y ∷ ys), found_before 0 xs y ys d behind)
          ]
        ]
  ]

-- What is replaced is not found any more, if it has nothing of the mark.
pub replaced_gone :
    (m : ℕ) (ms : Text) (n : ℕ) (xs : Text) (y : ℕ) (ys : Text)
    → IsDisjoint (m ∷ ms) (y ∷ ys)
    → contains_text (replace_from (y ∷ ys) (m ∷ ms) n xs) (y ∷ ys) ≡ false
replaced_gone m ms n [] y ys d =
    ap (λ t. contains_text t (y ∷ ys)) (replace_nil (y ∷ ys) (m ∷ ms) n) ∙ contains_nil y ys
replaced_gone m ms (suc n) (x ∷ xs) y ys d =
    ap (λ t. contains_text t (y ∷ ys)) (replace_skip (y ∷ ys) (m ∷ ms) n x xs)
    ∙ replaced_gone m ms n xs y ys d
replaced_gone m ms zero (x ∷ xs) y ys d = elim (Bool-cases (has_prefix (x ∷ xs) (y ∷ ys))) [
  | inl e ↦
      ap (λ t. contains_text t (y ∷ ys)) (replace_cons (y ∷ ys) (m ∷ ms) x xs)
      ∙ rw e (
          contains_behind (m ∷ ms) (replace_from (y ∷ ys) (m ∷ ms) (length (y ∷ ys) - 1) xs) y ys
            d.0
          ∙ replaced_gone m ms (length (y ∷ ys) - 1) xs y ys d)
  | inr e ↦
      let rest = replace_from (y ∷ ys) (m ∷ ms) 0 xs in
      let same : replace_from (y ∷ ys) (m ∷ ms) 0 (x ∷ xs) ≡ x ∷ rest =
        replace_cons (y ∷ ys) (m ∷ ms) x xs ∙ rw e refl in
      elim (Bool-cases (has_prefix (x ∷ rest) (y ∷ ys))) [
        | inl k ↦ absurd (
            let was =
              prefix_before (y ∷ ys) m ms (x ∷ xs) (y ∷ ys) d
                (ap (λ t. has_prefix t (y ∷ ys)) same ∙ k) in
            cc)
        | inr k ↦
            ap (λ t. contains_text t (y ∷ ys)) same
            ∙ contains_cons x rest (y ∷ ys)
            ∙ rw k (replaced_gone m ms 0 xs y ys d)
      ]
]
