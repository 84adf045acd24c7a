-- ===== src/Base/Keys.antt =====
-- The keys of a map in the order of `sort.Strings`: each once, strictly ascending.
use mathlib.Core.List.{Memᴰ, Nodup, Nodup-cons}
use mathlib.Core.List.Perm
use mathlib.Core.Path.{subst}
use quadsyncd.Base.{
  ◌≡◌, refl, ◌≢◌, sym, true, false, List, [], ◌∷◌, text_eq, All, Bool-cases, inl, inr,
}
use quadsyncd.Base.Text.{Text}
use quadsyncd.Base.Text.Order.{text_lt, text_lt_asymm, text_le_trans, text_eq_of_le}
use quadsyncd.Base.Dict.{Dict, keys, NodupKeys, keys-Nodup}
use quadsyncd.Base.Sort.{IsOrder, IsSorted, sort_by, sort_by-perm, sort_by-IsSorted}

pub text_lt-IsOrder : IsOrder text_lt
text_lt-IsOrder = record { asymm = text_lt_asymm; le_trans = text_le_trans }

-- Every element is smaller than all behind it.
abbrev pub IsAscending : List Text → Type 0
IsAscending [] = Unit
IsAscending (x ∷ xs) = All (λ y. text_lt x y ≡ true) xs × IsAscending xs

ascend :
    (x : Text) (xs : List Text)
    → All (λ y. text_lt y x ≡ false) xs
    → ((y : Text) → Memᴰ y xs → x ≢ y)
    → All (λ y. text_lt x y ≡ true) xs
ascend x [] h n = tt
ascend x (y ∷ ys) h n = (
  elim (Bool-cases (text_lt x y)) [
    | inl less ↦ less
    | inr le ↦ absurd (n y (Memᴰ.head refl) (text_eq_of_le x y le h.0))
  ],
  ascend x ys h.1 (λ z m. n z (Memᴰ.tail m)),
)

sorted_distinct : (xs : List Text) → IsSorted text_lt xs → Nodup xs → IsAscending xs
sorted_distinct [] s n = tt
sorted_distinct (x ∷ xs) s n = (
  ascend x xs s.0 (λ y m e. (Nodup-cons.0 n).0 (subst (λ z. ∥ Memᴰ z xs ∥₁) (sym e) ∣ m ∣₁)),
  sorted_distinct xs s.1 (Nodup-cons.0 n).1,
)

-- `sort.Strings` of the keys of a map
pub sort_keys-IsAscending {ℓ} :
    {V : Type ℓ} (d : Dict Text V) → NodupKeys d → IsAscending (sort_by text_lt (keys d))
sort_keys-IsAscending d h =
    sorted_distinct _ (sort_by-IsSorted text_lt-IsOrder (keys d))
      (Perm.nodup (Perm.symm (sort_by-perm text_lt (keys d))) (keys-Nodup d h))
