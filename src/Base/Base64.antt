-- ===== src/Base/Base64.antt =====
-- `base64.StdEncoding`
use quadsyncd.Base.{
  ℕ, ◌+◌, ◌-◌, ◌*◌, ◌/◌, ◌%◌, ◌<◌, ◌≡◌, ap, ◌∙◌, refl, Bool, true, false, not, ◌&&◌, Option, none,
  some, [], ◌∷◌, keep, ltb, leb, ◌==◌, nat_eq, if◌then◌else◌, arith, All,
}
use quadsyncd.Base.Text.{Text}

-- The alphabet at a number below 64.
unfoldable pub letter : ℕ → ℕ
letter n =
    if ltb n 26
    then n + 65
    else if ltb n 52
    then n + 71
    else if ltb n 62
    then n - 4
    else if n == 62
    then b'+'
    else b'/'

unfoldable pub letter_value : ℕ → Option ℕ
letter_value c =
    if leb 65 c && leb c 90
    then some (c - 65)
    else if leb 97 c && leb c 122
    then some (c - 71)
    else if leb 48 c && leb c 57
    then some (c + 4)
    else if c == b'+'
    then some 62
    else if c == b'/'
    then some 63
    else none

letter_value-letter : (n : ℕ) → n < 64 → letter_value (letter n) ≡ some n
unfolding letter_value letter
letter_value-letter n h = ground arith

-- Three bytes are four letters; what is left of the last letters is padded.
unfoldable pub encode : Text → Text
unfolding letter
encode [] = []
encode (a ∷ []) = letter (a / 4) ∷ letter (a % 4 * 16) ∷ b'=' ∷ b'=' ∷ []
encode (a ∷ b ∷ []) =
    letter (a / 4) ∷ letter (a % 4 * 16 + b / 16) ∷ letter (b % 16 * 4) ∷ b'=' ∷ []
encode (a ∷ b ∷ c ∷ rest) =
    letter (a / 4)
    ∷ letter (a % 4 * 16 + b / 16)
    ∷ letter (b % 16 * 4 + c / 64)
    ∷ letter (c % 64)
    ∷ encode rest

-- The bytes of the numbers of a group of letters, of which the last may be missing.
abbrev one_byte : ℕ → ℕ → ℕ
one_byte p q = p * 4 + q / 16

abbrev second_byte : ℕ → ℕ → ℕ
second_byte q r = q % 16 * 16 + r / 4

abbrev third_byte : ℕ → ℕ → ℕ
third_byte r s = r % 4 * 64 + s

-- The last group, which may be padded: with nothing behind the padding.
unfoldable pub decode_padded : ℕ → ℕ → ℕ → Text → Option Text
decode_padded p q c [] =
    if c == b'='
    then some (one_byte p q ∷ [])
    else elim (letter_value c) [ none ↦ none | some r ↦ some (one_byte p q ∷ second_byte q r ∷ []) ]
decode_padded p q c (x ∷ xs) = none

abbrev group : Option ℕ → Option ℕ → Option ℕ → Option ℕ → Option Text → Option Text
group (some p) (some q) (some r) (some s) (some rest) =
    some (one_byte p q ∷ second_byte q r ∷ third_byte r s ∷ rest)
group _ _ _ _ _ = none

abbrev padded : Option ℕ → Option ℕ → ℕ → Text → Option Text
padded (some p) (some q) c rest = decode_padded p q c rest
padded _ _ _ _ = none

unfoldable pub decode_groups : Text → Option Text
unfolding letter_value decode_padded
decode_groups [] = some []
decode_groups (a ∷ b ∷ c ∷ d ∷ rest) =
    let more = decode_groups rest in
    if d == b'='
    then padded (letter_value a) (letter_value b) c rest
    else group (letter_value a) (letter_value b) (letter_value c) (letter_value d) more
decode_groups _ = none

unfoldable pub is_kept : ℕ → Bool
is_kept c = not (c == b'\n') && not (c == b'\r')

-- `DecodeString` skips line ends, wants the padding, and lets nothing follow it.
unfoldable pub decode : Text → Option Text
unfolding decode_groups is_kept
decode text = decode_groups (keep is_kept text)

letter-IsKept : (n : ℕ) → n < 64 → is_kept (letter n) ≡ true
unfolding letter is_kept
letter-IsKept n h = ground arith

letter_not_padding : (n : ℕ) → n < 64 → (letter n == b'=') ≡ false
unfolding letter
letter_not_padding n h = ground arith

abbrev IsKept : ℕ → Type 0
IsKept c = is_kept c ≡ true

keep-All : (cs : Text) → All IsKept cs → keep is_kept cs ≡ cs
keep-All [] h = refl
keep-All (c ∷ cs) h = rw (h.0, keep) (ap (◌∷◌ c) (keep-All cs h.1))

-- The printed text holds no line end.
encode-IsKept : (bs : Text) → All (λ b. b < 256) bs → All IsKept (encode bs)
unfolding encode is_kept nat_eq
encode-IsKept [] h = tt
encode-IsKept (a ∷ []) h = (
  letter-IsKept (a / 4) (omega (arith, h.0)),
  (letter-IsKept (a % 4 * 16) (omega arith), (refl, (refl, tt))),
)
encode-IsKept (a ∷ b ∷ []) h =
    let first = letter-IsKept (a / 4) (omega (arith, h.0)) in
    let second = letter-IsKept (a % 4 * 16 + b / 16) (omega (arith, h.1.0)) in
    let third = letter-IsKept (b % 16 * 4) (omega arith) in (first, (second, (third, (refl, tt))))
encode-IsKept (a ∷ b ∷ c ∷ rest) h =
    let first = letter-IsKept (a / 4) (omega (arith, h.0)) in
    let second = letter-IsKept (a % 4 * 16 + b / 16) (omega (arith, h.1.0)) in
    let third = letter-IsKept (b % 16 * 4 + c / 64) (omega (arith, h.1.1.0)) in
    let fourth = letter-IsKept (c % 64) (omega arith) in
    (first, (second, (third, (fourth, encode-IsKept rest h.1.1.1))))

decode_groups_letters :
    (p q r s : ℕ) (rest : Text)
    → (p < 64) × (q < 64) × (r < 64) × (s < 64)
    → decode_groups (letter p ∷ letter q ∷ letter r ∷ letter s ∷ rest)
      ≡ group (some p) (some q) (some r) (some s) (decode_groups rest)
unfolding decode_groups
decode_groups_letters p q r s rest (hp, hq, hr, hs) =
    rw
      (
        letter_not_padding s hs,
        letter_value-letter p hp,
        letter_value-letter q hq,
        letter_value-letter r hr,
        letter_value-letter s hs,
      )
      (refl)

decode_groups_nil : decode_groups [] ≡ some []
unfolding decode_groups
decode_groups_nil = refl

decode_two_letters :
    (p q : ℕ)
    → (p < 64) × (q < 64)
    → decode_groups (letter p ∷ letter q ∷ b'=' ∷ b'=' ∷ []) ≡ some (one_byte p q ∷ [])
unfolding decode_groups decode_padded nat_eq
decode_two_letters p q (hp, hq) = rw (letter_value-letter p hp, letter_value-letter q hq) (refl)

decode_three_letters :
    (p q r : ℕ)
    → (p < 64) × (q < 64) × (r < 64)
    → decode_groups (letter p ∷ letter q ∷ letter r ∷ b'=' ∷ [])
      ≡ some (one_byte p q ∷ second_byte q r ∷ [])
unfolding decode_groups decode_padded nat_eq
decode_three_letters p q r (hp, hq, hr) =
    rw
      (
        letter_value-letter p hp,
        letter_value-letter q hq,
        letter_not_padding r hr,
        letter_value-letter r hr,
      )
      (refl)

decode_groups-encode : (bs : Text) → All (λ b. b < 256) bs → decode_groups (encode bs) ≡ some bs
unfolding encode
decode_groups-encode [] h = decode_groups_nil
decode_groups-encode (a ∷ []) h =
    let e : one_byte (a / 4) (a % 4 * 16) ≡ a = omega arith in
    decode_two_letters (a / 4) (a % 4 * 16) (omega (arith, h.0), omega arith)
    ∙ ap (λ x. some (x ∷ [])) e
decode_groups-encode (a ∷ b ∷ []) h =
    let e : one_byte (a / 4) (a % 4 * 16 + b / 16) ≡ a = omega (arith, h.1.0) in
    let e2 : second_byte (a % 4 * 16 + b / 16) (b % 16 * 4) ≡ b = omega (arith, h.1.0) in
    decode_three_letters (a / 4) (a % 4 * 16 + b / 16) (b % 16 * 4)
      (omega (arith, h.0), omega (arith, h.1.0), omega arith)
    ∙ ap (λ x. some (x ∷ second_byte (a % 4 * 16 + b / 16) (b % 16 * 4) ∷ [])) e
    ∙ ap (λ x. some (a ∷ x ∷ [])) e2
decode_groups-encode (a ∷ b ∷ c ∷ rest) h =
    let e : one_byte (a / 4) (a % 4 * 16 + b / 16) ≡ a = omega (arith, h.1.0) in
    let e2 : second_byte (a % 4 * 16 + b / 16) (b % 16 * 4 + c / 64) ≡ b =
      omega (arith, h.1.0, h.1.1.0) in
    let e3 : third_byte (b % 16 * 4 + c / 64) (c % 64) ≡ c = omega (arith, h.1.1.0) in
    decode_groups_letters (a / 4) (a % 4 * 16 + b / 16) (b % 16 * 4 + c / 64) (c % 64) (encode rest)
      (omega (arith, h.0), omega (arith, h.1.0), omega (arith, h.1.1.0), omega arith)
    ∙ rw (decode_groups-encode rest h.1.1.1, e, e2, e3) refl

-- What is encoded is decoded again.
pub decode-encode : (bs : Text) → All (λ b. b < 256) bs → decode (encode bs) ≡ some bs
unfolding decode
decode-encode bs h =
    ap decode_groups (keep-All (encode bs) (encode-IsKept bs h)) ∙ decode_groups-encode bs h
