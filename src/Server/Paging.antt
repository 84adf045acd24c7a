-- ===== src/Server/Paging.antt =====
-- The pages and cursors of internal/server/util.go.
use mathlib.Core.Option
use quadsyncd.Base.{
  ℕ, zero, suc, ◌+◌, ◌-◌, ◌≤◌, ◌<◌, ◌≡◌, ◌≢◌, refl, sym, ap, ◌∙◌, Bool-cases, inl, inr, false,
  Option, none, some, List, [], ◌∷◌, ◌++◌, length, drop, ltb, leb, ◌==◌, if◌then◌else◌, text_eq,
  arith,
}
use quadsyncd.Base.Text.{Text}
use quadsyncd.Base.Decimal.{int_limit, pos, negsuc, itoa, itoa-bytes, atoi, atoi-itoa}
use quadsyncd.Base.Base64.{encode, decode, decode-encode}

unfoldable pub encode_cursor : ℕ → Text
encode_cursor offset = encode (itoa offset)

unfoldable pub decode_cursor : Text → ℕ
decode_cursor cursor = if cursor == [] then 0 else elim (decode cursor) [
  | none ↦ 0
  | some b ↦ elim (atoi b) [ none ↦ 0 | some i ↦ elim i [ pos n ↦ n | negsuc n ↦ 0 ] ]
]

decode-encode-itoa : (n : ℕ) → decode (encode (itoa n)) ≡ some (itoa n)
decode-encode-itoa n = decode-encode (itoa n) (itoa-bytes n)

encode_cursor-ne-nil : (n : ℕ) → n < int_limit → encode_cursor n ≢ []
unfolding encode_cursor decode atoi
encode_cursor-ne-nil n lt h =
    let nothing : decode (encode (itoa n)) ≡ some [] = ap decode h in
    let empty : itoa n ≡ [] = cc (decode-encode-itoa n) in
    let read : ◌≡◌ {A = Option _} none (some (pos n)) = sym (ap atoi empty) ∙ atoi-itoa n lt in cc

-- A cursor for an offset that an `int` holds leads back to the offset.
pub decode_cursor-encode_cursor :
    (offset : ℕ) → offset < int_limit → decode_cursor (encode_cursor offset) ≡ offset
unfolding decode_cursor encode_cursor decode
decode_cursor-encode_cursor n lt = elim (Bool-cases (encode_cursor n == [])) [
  | inl e ↦ absurd (encode_cursor-ne-nil n lt (ground arith))
  | inr e ↦ rw (e, encode_cursor, decode-encode-itoa n, atoi-itoa n lt) (refl)
]

module _ {ℓ} {A : Type ℓ} where
  abbrev pub take : ℕ → List A → List A
  take zero xs = []
  take (suc n) [] = []
  take (suc n) (x ∷ xs) = x ∷ take n xs

  -- `items[from:to]`
  abbrev pub slice : List A → ℕ → ℕ → List A
  slice items from to = take (to - from) (drop from items)

  -- A page from an offset on and the cursor of the next one, empty behind the last.
  unfoldable pub paginate_slice : List A → ℕ → ℕ → List A × Text
  paginate_slice items offset limit =
      if leb (length items) offset
      then ([], [])
      else let end = offset + limit in
        if ltb end (length items)
        then (slice items offset end, encode_cursor end)
        else (drop offset items, [])

  -- What a client collects that asks for the first page and follows the cursors to the last.
  unfoldable pub follow_cursors : ℕ → List A → ℕ → Text → Option (List A)
  follow_cursors zero items limit cursor = none
  follow_cursors (suc fuel) items limit cursor =
      let page = paginate_slice items (decode_cursor cursor) limit in
      let rest = follow_cursors fuel items limit page.1 in
      if page.1 == [] then some page.0 else Option.map (λ more. page.0 ++ more) rest

  take-append-drop : (n : ℕ) (xs : List A) → take n xs ++ drop n xs ≡ xs
  take-append-drop zero xs = refl
  take-append-drop (suc n) [] = refl
  take-append-drop (suc n) (x ∷ xs) = ap (◌∷◌ x) (take-append-drop n xs)

  drop_nil : (n : ℕ) → drop {A = A} n [] ≡ []
  drop_nil zero = refl
  drop_nil (suc n) = refl

  drop-drop : (n m : ℕ) (xs : List A) → drop n (drop m xs) ≡ drop (m + n) xs
  drop-drop n zero xs = let e : 0 + n ≡ n = omega arith in rw e refl
  drop-drop n (suc m) [] = drop_nil n ∙ sym (drop_nil (suc m + n))
  drop-drop n (suc m) (x ∷ xs) =
      let e : suc m + n ≡ suc (m + n) = omega arith in rw e (drop-drop n m xs)

  -- A page and what lies behind it.
  slice-append-drop :
      (items : List A) (from limit : ℕ)
      → slice items from (from + limit) ++ drop (from + limit) items ≡ drop from items
  slice-append-drop items from limit =
      let e : from + limit - from ≡ limit = omega arith in
      rw (e, ← drop-drop limit from items) (take-append-drop limit (drop from items))

  drop_all : (n : ℕ) (xs : List A) → length xs ≤ n → drop n xs ≡ []
  drop_all n [] h = drop_nil n
  drop_all zero (x ∷ xs) h = absurd (omega (arith, h))
  drop_all (suc n) (x ∷ xs) h = drop_all n xs (omega (arith, h))

  -- From any offset on, with more fuel than items are left.
  follow_from :
      (fuel offset : ℕ) (items : List A) (limit : ℕ)
      → 0 < limit
      → length items < int_limit
      → length items < fuel + offset
      → (cursor : Text) → decode_cursor cursor ≡ offset
      → 0 < fuel
      → follow_cursors fuel items limit cursor ≡ some (drop offset items)
  unfolding follow_cursors paginate_slice text_eq
  follow_from zero offset items limit positive small enough cursor at more = absurd (omega arith)
  follow_from (suc fuel) offset items limit positive small enough cursor at more =
      elim (Bool-cases (leb (length items) offset)) [
        | inl done ↦
            let e : drop offset items ≡ [] = drop_all offset items (ground arith) in
            rw (at, done, e) refl
        | inr left ↦ elim (Bool-cases (ltb (offset + limit) (length items))) [
          | inr last ↦ rw (at, left, last) refl
          | inl next ↦
              let small' : offset + limit < int_limit = ground arith in
              let ne : (encode_cursor (offset + limit) == []) ≡ false =
                ground (arith, encode_cursor-ne-nil (offset + limit) small') in
              let rest : follow_cursors fuel items limit (encode_cursor (offset + limit))
                  ≡ some (drop (offset + limit) items) =
                follow_from fuel (offset + limit) items limit positive small (omega arith)
                  (encode_cursor (offset + limit))
                  (decode_cursor-encode_cursor (offset + limit) small') (ground arith) in
              rw (at, left, next, ne, rest) (ap some (slice-append-drop items offset limit))
        ]
      ]

  -- With any limit that is not zero, the pages that a client gets by following the cursors from the
  -- first page on hold every item once and in order, and the last page is reached within as many
  -- requests as there are items, and one.
  pub follow_cursors_complete :
      (items : List A) (limit : ℕ)
      → 0 < limit
      → length items < int_limit
      → follow_cursors (length items + 1) items limit [] ≡ some items
  unfolding decode_cursor text_eq
  follow_cursors_complete items limit positive small =
      follow_from (length items + 1) 0 items limit positive small (omega arith) [] refl
        (omega arith)

  length-take_le : (n : ℕ) (xs : List A) → length (take n xs) ≤ n
  length-take_le zero xs = omega arith
  length-take_le (suc n) [] = omega arith
  length-take_le (suc n) (x ∷ xs) = omega (arith, length-take_le n xs)

  length-drop_le : (n k : ℕ) (xs : List A) → length xs ≤ n + k → length (drop n xs) ≤ k
  length-drop_le zero k xs h = omega (arith, h)
  length-drop_le (suc n) k [] h = omega arith
  length-drop_le (suc n) k (x ∷ xs) h = length-drop_le n k xs (omega (arith, h))

  -- No page is longer than the limit.
  pub length-paginate_slice :
      (items : List A) (offset limit : ℕ) → length (paginate_slice items offset limit).0 ≤ limit
  unfolding paginate_slice
  length-paginate_slice items offset limit =
      let width : offset + limit - offset ≡ limit = omega arith in
      elim (Bool-cases (leb (length items) offset)) [
        | inl done ↦ rw done (omega arith)
        | inr left ↦ elim (Bool-cases (ltb (offset + limit) (length items))) [
          | inl next ↦ rw (left, next, width) (length-take_le limit (drop offset items))
          | inr last ↦ rw (left, last) (length-drop_le offset limit items (ground arith))
        ]
      ]
