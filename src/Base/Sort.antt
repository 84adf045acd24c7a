-- ===== src/Base/Sort.antt =====
-- The package `sort`: any stable sort gives the list that this insertion sort gives.
use mathlib.Core.List.{Memᴰ, Perm}
use mathlib.Core.List.Memᴰ
use mathlib.Core.List.Perm
use quadsyncd.Base.{
  ◌≡◌, refl, ◌⊎◌, inl, inr, Bool, true, false, List, [], ◌∷◌, All, Bool-cases, if◌then◌else◌,
}

module _ {ℓ} {A : Type ℓ} (lt : A → A → Bool) where
  -- `x` goes before the first element that is not smaller than it.
  unfoldable pub place : A → List A → List A
  place x [] = x ∷ []
  place x (y ∷ ys) = let rest = place x ys in if lt y x then y ∷ rest else x ∷ y ∷ ys

  -- `sort.SliceStable`, `sort.Slice`, `sort.Strings`
  unfoldable pub sort_by : List A → List A
  unfolding place
  sort_by [] = []
  sort_by (x ∷ xs) = place x (sort_by xs)

  -- No element is smaller than one before it.
  abbrev pub IsSorted : List A → Type ℓ
  IsSorted [] = Unit
  IsSorted (x ∷ xs) = All (λ y. lt y x ≡ false) xs × IsSorted xs

  place-perm : (x : A) (ys : List A) → Perm (place x ys) (x ∷ ys)
  unfolding place
  place-perm x [] = Perm.refl (x ∷ [])
  place-perm x (y ∷ ys) = elim (Bool-cases (lt y x)) [
    | inl smaller ↦ rw smaller (Perm.trans (Perm.cons y (place-perm x ys)) (Perm.swap x y ys))
    | inr other ↦ rw other (Perm.refl (x ∷ y ∷ ys))
  ]

  -- Sorting rearranges the list.
  pub sort_by-perm : (xs : List A) → Perm (sort_by xs) xs
  unfolding sort_by
  sort_by-perm [] = Perm.refl []
  sort_by-perm (x ∷ xs) = Perm.trans (place-perm x (sort_by xs)) (Perm.cons x (sort_by-perm xs))

  mem-place : (a x : A) (ys : List A) → Memᴰ a (place x ys) → (a ≡ x) ⊎ Memᴰ a ys
  unfolding place
  mem-place a x [] m = Memᴰ.cases_cons m
  mem-place a x (y ∷ ys) m = elim (Bool-cases (lt y x)) [
    | inl smaller ↦ elim (Memᴰ.cases_cons (rw smaller at m)) [
      | inl e ↦ inr (Memᴰ.head e)
      | inr n ↦ elim (mem-place a x ys n) [ inl e ↦ inl e | inr k ↦ inr (Memᴰ.tail k) ]
    ]
    | inr other ↦ Memᴰ.cases_cons (rw other at m)
  ]

  place-mem_self : (x : A) (ys : List A) → Memᴰ x (place x ys)
  unfolding place
  place-mem_self x [] = Memᴰ.head refl
  place-mem_self x (y ∷ ys) = elim (Bool-cases (lt y x)) [
    | inl smaller ↦ rw smaller (Memᴰ.tail (place-mem_self x ys))
    | inr other ↦ rw other (Memᴰ.head refl)
  ]

  place-mem : (a x : A) (ys : List A) → Memᴰ a ys → Memᴰ a (place x ys)
  unfolding place
  place-mem a x (y ∷ ys) m = elim (Bool-cases (lt y x)) [
    | inl smaller ↦
        rw smaller (elim (Memᴰ.cases_cons m) [
          | inl e ↦ Memᴰ.head e
          | inr n ↦ Memᴰ.tail (place-mem a x ys n)
        ])
    | inr other ↦ rw other (Memᴰ.tail m)
  ]
  place-mem a x [] m = absurd (Memᴰ.not-nil m)

  -- Sorting neither adds nor drops an element.
  pub mem-sort_by : (a : A) (xs : List A) → Memᴰ a (sort_by xs) → Memᴰ a xs
  unfolding sort_by
  mem-sort_by a [] m = m
  mem-sort_by a (x ∷ xs) m = elim (mem-place a x (sort_by xs) m) [
    | inl e ↦ Memᴰ.head e
    | inr n ↦ Memᴰ.tail (mem-sort_by a xs n)
  ]

  pub sort_by-mem : (a : A) (xs : List A) → Memᴰ a xs → Memᴰ a (sort_by xs)
  unfolding sort_by
  sort_by-mem a [] m = m
  sort_by-mem a (x ∷ xs) m = elim (Memᴰ.cases_cons m) [
    | inl e ↦ Memᴰ.cast e (place-mem_self x (sort_by xs))
    | inr n ↦ place-mem a x (sort_by xs) (sort_by-mem a xs n)
  ]

module _ {ℓ κ} {A : Type ℓ} (lt : A → A → Bool) (P : A → Type κ) where
  All-place : (x : A) (ys : List A) → P x → All P ys → All P (place lt x ys)
  unfolding place
  All-place x [] h hs = (h, tt)
  All-place x (y ∷ ys) h hs = elim (Bool-cases (lt y x)) [
    | inl smaller ↦ rw smaller (hs.0, All-place x ys h hs.1)
    | inr other ↦ rw other (h, hs)
  ]

  pub All-sort_by : (xs : List A) → All P xs → All P (sort_by lt xs)
  unfolding sort_by
  All-sort_by [] h = tt
  All-sort_by (x ∷ xs) h = All-place x (sort_by lt xs) h.0 (All-sort_by xs h.1)

-- What a comparison must meet for its sort to be in order.
pub record IsOrder {ℓ} {A : Type ℓ} (lt : A → A → Bool) : Type ℓ where
  pub asymm : (a b : A) → lt a b ≡ true → lt b a ≡ false
  pub le_trans : (a b c : A) → lt b a ≡ false → lt c b ≡ false → lt c a ≡ false

module _ {ℓ} {A : Type ℓ} {lt : A → A → Bool} (o : IsOrder lt) where
  All-le :
      (x y : A) (ys : List A)
      → lt y x ≡ false
      → All (λ z. lt z y ≡ false) ys
      → All (λ z. lt z x ≡ false) ys
  All-le x y [] h hs = tt
  All-le x y (z ∷ zs) h hs = (o.le_trans x y z h hs.0, All-le x y zs h hs.1)

  place-IsSorted : (x : A) (ys : List A) → IsSorted lt ys → IsSorted lt (place lt x ys)
  unfolding place
  place-IsSorted x [] h = (tt, tt)
  place-IsSorted x (y ∷ ys) h = elim (Bool-cases (lt y x)) [
    | inl smaller ↦
        rw smaller (
          All-place lt (λ z. lt z y ≡ false) x ys (o.asymm y x smaller) h.0,
          place-IsSorted x ys h.1,
        )
    | inr other ↦ rw other ((other, All-le x y ys other h.0), h)
  ]

  pub sort_by-IsSorted : (xs : List A) → IsSorted lt (sort_by lt xs)
  unfolding sort_by
  sort_by-IsSorted [] = tt
  sort_by-IsSorted (x ∷ xs) = place-IsSorted x (sort_by lt xs) (sort_by-IsSorted xs)
