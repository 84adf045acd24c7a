-- ===== src/FilePath/Clean.antt =====
-- What `clean` leaves of a path: names, and before them `..` where the path is relative.
use mathlib.Core.List.{reverse, reverse-cons, reverse-reverse}
use mathlib.Core.Logic.{if_pos, if_neg}
use quadsyncd.Base.{
  ℕ, ◌≡◌, refl, ap, ◌∙◌, ◌≢◌, ◌⊎◌, inl, inr, true, false, List, [], ◌∷◌, ◌++◌, arith, All,
  All-append, Bool-cases, ◌==◌, contains, nat_eq, text_eq,
}
use quadsyncd.Base.Text.{Text, split, push}
use quadsyncd.FilePath.{
  slash, dot, dot_dot, is_abs, join_parts, back, clean_step, clean_loop, clean_parts,
}

-- An element of a path that is neither empty nor a dot nor two dots, and holds no slash.
pub record IsName (p : Text) : Type 0 where
  pub filled : p ≢ []
  pub not_dot : p ≢ dot
  pub not_dots : p ≢ dot_dot
  pub plain : contains p slash ≡ false

module _ where
  push-plain :
      (x : ℕ) (ps : List Text)
      → (x == slash) ≡ false
      → All (λ p. contains p slash ≡ false) ps
      → All (λ p. contains p slash ≡ false) (push x ps)
  push-plain x [] h hs = ground arith
  push-plain x (p ∷ ps) h hs = ground arith

-- No piece of a split path holds a slash.
pub split-plain : (s : Text) → All (λ p. contains p slash ≡ false) (split slash s)
unfolding split
split-plain [] = ground arith
split-plain (x ∷ xs) = elim (Bool-cases (x == slash)) [
  | inl e ↦ rw e (refl, split-plain xs)
  | inr n ↦ rw n (push-plain x (split slash xs) n (split-plain xs))
]

split-append-slash :
    (p : Text) (s : Text)
    → contains p slash ≡ false
    → split slash (p ++ slash ∷ s) ≡ p ∷ split slash s
unfolding split
split-append-slash [] s h = ground arith
split-append-slash (x ∷ xs) s h = ground (arith, split-append-slash xs s)

split_plain_eq : (p : Text) → contains p slash ≡ false → split slash p ≡ p ∷ []
unfolding split
split_plain_eq [] h = refl
split_plain_eq (x ∷ xs) h = ground (arith, split_plain_eq xs)

-- Joining elements that hold no slash and splitting again gives the elements.
pub split-join_parts :
    (p : Text) (ps : List Text)
    → All (λ q. contains q slash ≡ false) (p ∷ ps)
    → split slash (join_parts (p ∷ ps)) ≡ p ∷ ps
unfolding join_parts
split-join_parts p [] h = split_plain_eq p h.0
split-join_parts p (q ∷ ps) h =
    split-append-slash p (join_parts (q ∷ ps)) h.0 ∙ ap (◌∷◌ p) (split-join_parts q ps h.1)

-- The reversed elements of a relative path: names, then `..` only.
abbrev pub IsStack : List Text → Type 0
IsStack [] = Unit
IsStack (t ∷ ts) = (IsName t ⊎ ((t ≡ dot_dot) × All (λ u. u ≡ dot_dot) ts)) × IsStack ts

back-IsStack : (stack : List Text) → IsStack stack → IsStack (back false stack)
unfolding back
back-IsStack [] h = (inr (refl, tt), tt)
back-IsStack (t ∷ ts) (top, rest) = elim (text_eq.dec t dot_dot) [
  | yes e ↦ rw (if_pos _ e) (inr (refl, (e, dots e top)), (top, rest))
  | no n ↦ rw (if_neg _ n) rest
]
  where
    dots :
        t ≡ dot_dot
        → IsName t ⊎ ((t ≡ dot_dot) × All (λ u. u ≡ dot_dot) ts)
        → All (λ u. u ≡ dot_dot) ts
    dots e (inl n) = absurd (n.not_dots e)
    dots e (inr d) = d.1

clean_step-IsStack :
    (stack : List Text) (p : Text)
    → contains p slash ≡ false
    → IsStack stack
    → IsStack (clean_step false stack p)
unfolding clean_step
clean_step-IsStack stack p h s = elim (text_eq.dec p []) [
  | yes e ↦ rw (if_pos _ e) s
  | no n ↦ rw (if_neg _ n) (elim (text_eq.dec p dot) [
    | yes e ↦ rw (if_pos _ e) s
    | no m ↦ rw (if_neg _ m) (elim (text_eq.dec p dot_dot) [
      | yes e ↦ rw (if_pos _ e) (back-IsStack stack s)
      | no k ↦
          rw (if_neg _ k) (inl (record { filled = n; not_dot = m; not_dots = k; plain = h }), s)
    ])
  ])
]

back-All-IsName : (stack : List Text) → All IsName stack → All IsName (back true stack)
unfolding back
back-All-IsName [] h = tt
back-All-IsName (t ∷ ts) h = ground (arith, h.0.not_dots)

clean_step-All-IsName :
    (stack : List Text) (p : Text)
    → contains p slash ≡ false
    → All IsName stack
    → All IsName (clean_step true stack p)
unfolding clean_step
clean_step-All-IsName stack p h s = elim (text_eq.dec p []) [
  | yes e ↦ rw (if_pos _ e) s
  | no n ↦ rw (if_neg _ n) (elim (text_eq.dec p dot) [
    | yes e ↦ rw (if_pos _ e) s
    | no m ↦ rw (if_neg _ m) (elim (text_eq.dec p dot_dot) [
      | yes e ↦ rw (if_pos _ e) (back-All-IsName stack s)
      | no k ↦ rw (if_neg _ k) (record { filled = n; not_dot = m; not_dots = k; plain = h }, s)
    ])
  ])
]

clean_loop-IsStack :
    (stack ps : List Text)
    → All (λ p. contains p slash ≡ false) ps
    → IsStack stack
    → IsStack (clean_loop false stack ps)
unfolding clean_loop
clean_loop-IsStack stack [] hs s = s
clean_loop-IsStack stack (p ∷ ps) (h, hs) s =
    clean_loop-IsStack (clean_step false stack p) ps hs (clean_step-IsStack stack p h s)

clean_loop-All-IsName :
    (stack ps : List Text)
    → All (λ p. contains p slash ≡ false) ps
    → All IsName stack
    → All IsName (clean_loop true stack ps)
unfolding clean_loop
clean_loop-All-IsName stack [] hs s = s
clean_loop-All-IsName stack (p ∷ ps) (h, hs) s =
    clean_loop-All-IsName (clean_step true stack p) ps hs (clean_step-All-IsName stack p h s)

All-reverse : (P : Text → Type 0) (ps : List Text) → All P ps → All P (reverse ps)
All-reverse P [] h = tt
All-reverse P (p ∷ ps) h =
    rw reverse-cons (All-append P (reverse ps) (p ∷ []) (All-reverse P ps h.1) (h.0, tt))

no_dots : (ts : List Text) → All (λ u. u ≡ dot_dot) ts → All IsName ts → ts ≡ []
no_dots [] h k = refl
no_dots (t ∷ ts) h k = absurd (k.0.not_dots h.0)

-- Put in order, the elements of a relative path are names only, or begin with `..`.
reverse-IsStack :
    (stack : List Text)
    → IsStack stack
    → All IsName (reverse stack) ⊎ ((r : List Text) × (reverse stack ≡ dot_dot ∷ r))
reverse-IsStack [] h = inl tt
reverse-IsStack (t ∷ ts) (top, rest) = rw reverse-cons (go top (reverse-IsStack ts rest))
  where
    go :
        IsName t ⊎ ((t ≡ dot_dot) × All (λ u. u ≡ dot_dot) ts)
        → All IsName (reverse ts) ⊎ ((r : List Text) × (reverse ts ≡ dot_dot ∷ r))
        → All IsName (reverse ts ++ t ∷ [])
          ⊎ ((r : List Text) × (reverse ts ++ t ∷ [] ≡ dot_dot ∷ r))
    go (inl n) (inl names) = inl (All-append IsName (reverse ts) (t ∷ []) names (n, tt))
    go _ (inr (r, e)) = inr (r ++ t ∷ [], ap (λ l. l ++ t ∷ []) e)
    go (inr (e, dots)) (inl names) = inr (
      [],
      rw (no_dots ts dots (rw reverse-reverse at (All-reverse IsName (reverse ts) names)))
          (ap (λ u. u ∷ []) e),
    )

pub clean_parts-relative :
    (s : Text)
    → is_abs s ≡ false
    → All IsName (clean_parts s) ⊎ ((r : List Text) × (clean_parts s ≡ dot_dot ∷ r))
unfolding clean_parts
clean_parts-relative s h =
    rw h (reverse-IsStack _ (clean_loop-IsStack [] (split slash s) (split-plain s) tt))

-- An absolute path has names only.
pub clean_parts-absolute : (s : Text) → is_abs s ≡ true → All IsName (clean_parts s)
unfolding clean_parts
clean_parts-absolute s h =
    rw h (All-reverse IsName _ (clean_loop-All-IsName [] (split slash s) (split-plain s) tt))
