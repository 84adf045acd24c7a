-- ===== src/Base/Membership.antt =====
-- `contains` decides membership.
use mathlib.Core.List.{Memᴰ}
use mathlib.Core.List.Memᴰ
use quadsyncd.Base.{◌≡◌, inl, inr, true, Bool-cases, List, [], ◌∷◌, contains, ◌==◌, text_eq, arith}
use quadsyncd.Base.Text.{Text}

pub contains-of_mem : (xs : List Text) (x : Text) → Memᴰ x xs → contains xs x ≡ true
contains-of_mem [] x m = absurd (Memᴰ.not-nil m)
contains-of_mem (y ∷ ys) x m = elim (Memᴰ.cases_cons m) [
  | inl e ↦ ground arith
  | inr n ↦ ground (arith, contains-of_mem ys x n)
]

pub mem_of_contains : (xs : List Text) (x : Text) → contains xs x ≡ true → Memᴰ x xs
mem_of_contains [] x h = cc
mem_of_contains (y ∷ ys) x h = elim (Bool-cases (y == x)) [
  | inl e ↦ Memᴰ.head (ground arith)
  | inr e ↦ Memᴰ.tail (mem_of_contains ys x (ground arith))
]
