-- ===== src/Base/Decimal.antt =====
-- `strconv.Itoa` and `strconv.Atoi` for an `int` of 64 bits.
use quadsyncd.Base.{
  ℕ, zero, suc, ◌+◌, ◌-◌, ◌*◌, ◌/◌, ◌%◌, ◌≤◌, ◌<◌, ◌≡◌, sym, ap, ◌∙◌, Bool, true, false, ◌&&◌,
  Option, none, some, [], ◌∷◌, ◌++◌, ltb, leb, ◌==◌, nat_eq, if◌then◌else◌, arith, All, All-append,
}
use mathlib.Core.Path.{subst}
use quadsyncd.Base.Text.{Text}

pub data ℤ : Type 0 where
  pos negsuc : ℕ → ℤ

-- One more than the largest `int`.
abbrev pub int_limit : ℕ
int_limit = 9_223_372_036_854_775_808

-- The digits of a number, with as much fuel as the number is large.
unfoldable pub digits : ℕ → ℕ → Text
digits zero n = []
digits (suc f) n =
    let front = digits f (n / 10) in if ltb n 10 then (n + 48) ∷ [] else front ++ (n % 10 + 48) ∷ []

-- `strconv.Itoa` of a number that is not negative
unfoldable pub itoa : ℕ → Text
unfolding digits
itoa n = digits (n + 1) n

abbrev pub is_digit : ℕ → Bool
is_digit c = leb 48 c && leb c 57

-- The value of digits behind those of `acc`.
unfoldable pub digits_value : ℕ → Text → Option ℕ
digits_value acc [] = some acc
digits_value acc (c ∷ cs) =
    let rest = digits_value (acc * 10 + (c - 48)) cs in if is_digit c then rest else none

-- A sign, as read, in front of at least one digit.
unfoldable pub signed_value : Bool → Text → Option ℤ
signed_value negative [] = none
signed_value negative (c ∷ cs) = elim (digits_value 0 (c ∷ cs)) [
  | none ↦ none
  | some n ↦
      if negative
      then if n == 0 then some (pos 0) else if leb n int_limit then some (negsuc (n - 1)) else none
      else if ltb n int_limit
      then some (pos n)
      else none
]

-- `strconv.Atoi`
unfoldable pub atoi : Text → Option ℤ
atoi [] = none
atoi (c ∷ cs) =
    if c == b'-'
    then signed_value true cs
    else if c == b'+'
    then signed_value false cs
    else signed_value false (c ∷ cs)

abbrev IsDigit : ℕ → Type 0
IsDigit c = (48 ≤ c) × (c ≤ 57)

digits-IsDigit : (f n : ℕ) → All IsDigit (digits f n)
unfolding digits
digits-IsDigit zero n = tt
digits-IsDigit (suc f) n = ground (
  arith,
  All-append IsDigit (digits f (n / 10)) ((n % 10 + 48) ∷ []) (digits-IsDigit f (n / 10))
      ((omega arith, omega arith), tt),
)

digits_value-append :
    (acc : ℕ) (xs : Text) (n : ℕ) (c : ℕ)
    → digits_value acc xs ≡ some n
    → IsDigit c
    → digits_value acc (xs ++ c ∷ []) ≡ some (n * 10 + (c - 48))
unfolding digits_value
digits_value-append acc [] n c h d = ground arith
digits_value-append acc (x ∷ xs) n c h d =
    ground (arith, digits_value-append (acc * 10 + (x - 48)) xs n c)

digits_value-digits : (f n : ℕ) → n < f → digits_value 0 (digits f n) ≡ some n
unfolding digits digits_value
digits_value-digits zero n h = elim h [ ]
digits_value-digits (suc f) n h = ground (
  arith,
  digits_value-digits f (n / 10),
  digits_value-append 0 (digits f (n / 10)) (n / 10) (n % 10 + 48),
)

-- The number is printed with at least one digit.
digits_cons : (f n : ℕ) → (c : ℕ) × (cs : Text) × (digits (suc f) n ≡ c ∷ cs)
unfolding digits
digits_cons f n =
    elim (digits f (n / 10))
      as (λ front.
        (c : ℕ) × (cs : Text) × ((if ltb n 10 then (n + 48) ∷ [] else front ++ (n % 10 + 48) ∷ [])
          ≡ c ∷ cs)) [
            | [] ↦ (if ltb n 10 then n + 48 else n % 10 + 48, [], ground arith)
            | d ∷ ds ↦ (
              if ltb n 10 then n + 48 else d,
              if ltb n 10 then [] else ds ++ (n % 10 + 48) ∷ [],
              ground arith,
            )
          ]

atoi_of_digits :
    (c : ℕ) (cs : Text) (n : ℕ)
    → IsDigit c
    → digits_value 0 (c ∷ cs) ≡ some n
    → n < int_limit
    → atoi (c ∷ cs) ≡ some (pos n)
unfolding atoi signed_value
atoi_of_digits c cs n d h lt = ground arith

-- Every `int` that is not negative is read back as it was printed.
pub atoi-itoa : (n : ℕ) → n < int_limit → atoi (itoa n) ≡ some (pos n)
unfolding itoa
atoi-itoa n lt =
    let (c, cs, e) = digits_cons n n in
    let one : n + 1 ≡ suc n = omega arith in
    let all : All IsDigit (digits (suc n) n) = digits-IsDigit (suc n) n in
    let v : digits_value 0 (digits (suc n) n) ≡ some n =
      digits_value-digits (suc n) n (omega arith) in
    let all' : All IsDigit (c ∷ cs) = subst (All IsDigit) e all in
    let v' : digits_value 0 (c ∷ cs) ≡ some n = sym (ap (digits_value 0) e) ∙ v in
    ap atoi (ap (λ k. digits k n) one ∙ e) ∙ atoi_of_digits c cs n all'.0 v' lt

-- A printed number has digits only.
pub itoa-bytes : (n : ℕ) → All (λ c. c < 256) (itoa n)
unfolding itoa
itoa-bytes n = weaken (digits (n + 1) n) (digits-IsDigit (n + 1) n)
  where
    weaken : (xs : Text) → All IsDigit xs → All (λ c. c < 256) xs
    weaken [] h = tt
    weaken (x ∷ xs) h = (omega (arith, h.0), weaken xs h.1)
