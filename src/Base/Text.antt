-- ===== src/Base/Text.antt =====
-- Go strings as their bytes, and what the source uses of the package `strings`.
pub mod Order
pub mod Bytes
pub mod Replace
use Prim.Native.Char.{code}
use Prim.Native.String.{String}
use mathlib.Core.Option
use quadsyncd.Base.{
  ℕ, zero, suc, ◌-◌, ◌≡◌, refl, ap, Bool, true, false, Option, none, some, List, [], ◌∷◌, ◌++◌,
  arith, length, drop, ◌==◌, nat_eq, text_eq, if◌then◌else◌,
}

abbrev pub Text : Type 0
Text = List ℕ

-- The bytes of an ASCII literal.
abbrev pub str : String → Text
str String.[] = []
str (String.◌∷◌ c s) = code c ∷ str s

-- `strings.CutPrefix`
unfoldable pub cut_prefix : Text → Text → Option Text
cut_prefix s [] = some s
cut_prefix [] (y ∷ ys) = none
cut_prefix (x ∷ xs) (y ∷ ys) = if x == y then cut_prefix xs ys else none

abbrev pub is_some {ℓ} : {A : Type ℓ} → Option A → Bool
is_some none = false
is_some (some a) = true

unfoldable pub has_prefix : Text → Text → Bool
has_prefix s p = is_some (cut_prefix s p)

-- `strings.CutSuffix`
unfoldable pub cut_suffix : Text → Text → Option Text
cut_suffix [] t = if [] == t then some [] else none
cut_suffix (x ∷ xs) t =
    let rest = cut_suffix xs t in if (x ∷ xs) == t then some [] else Option.map (◌∷◌ x) rest

-- `strings.TrimSuffix`
unfoldable pub trim_suffix : Text → Text → Text
trim_suffix s t = Option.get_or (cut_suffix s t) s

-- `strings.Index`, with `none` for -1
unfoldable pub index : Text → Text → Option ℕ
index [] sub = if has_prefix [] sub then some 0 else none
index (x ∷ xs) sub =
    let rest = index xs sub in if has_prefix (x ∷ xs) sub then some 0 else Option.map suc rest

-- `strings.Contains`
unfoldable pub contains_text : Text → Text → Bool
contains_text s sub = is_some (index s sub)

-- The loop of `strings.ReplaceAll` for a text to replace that is not empty; the counter is what
-- is left of the match in progress.
unfoldable pub replace_from : Text → Text → ℕ → Text → Text
replace_from old new n [] = []
replace_from old new (suc n) (x ∷ xs) = replace_from old new n xs
replace_from old new zero (x ∷ xs) =
    let matched = replace_from old new (length old - 1) xs in
    let plain = replace_from old new 0 xs in
    if has_prefix (x ∷ xs) old then new ++ matched else x ∷ plain

unfoldable pub replace_all : Text → Text → Text → Text
replace_all s old new = replace_from old new 0 s

-- One more byte in front of the first piece.
abbrev pub push : ℕ → List Text → List Text
push y [] = (y ∷ []) ∷ []
push y (p ∷ ps) = (y ∷ p) ∷ ps

-- `strings.Split` at one byte
unfoldable pub split : ℕ → Text → List Text
split c [] = [] ∷ []
split c (x ∷ xs) = let rest = split c xs in if x == c then [] ∷ rest else push x rest

-- What a run of the functions above computes with.
unfoldable pub text_code : Unit {0}
unfolding cut_prefix has_prefix cut_suffix trim_suffix index contains_text replace_from replace_all
    split
text_code = tt
