-- ===== src/FilePath/Under.antt =====
-- Joining a clean relative path to an absolute directory stays below the directory, and two
-- relative paths give two results.
use mathlib.Core.List.{
  reverse, reverse-cons, reverse-append, reverse-reverse, append_assoc, append_cancel_left,
}
use mathlib.Core.Logic.{if_pos, if_neg}
use mathlib.Core.Path.{ap₂}
use quadsyncd.Base.{
  ℕ, ◌≡◌, refl, sym, ap, ◌∙◌, ◌≢◌, Bool, true, false, List, [], ◌∷◌, ◌++◌, arith, All, All-append,
  Bool-cases, inl, inr, ◌==◌, contains, drop, nat_eq, text_eq,
}
use quadsyncd.Base.Text.{Text, split, push}
use quadsyncd.FilePath.{slash, is_abs, join_parts, clean_step, clean_loop, clean_parts, clean, join}
use quadsyncd.FilePath.Clean.{IsName, split-join_parts, clean_parts-absolute}

split-cons : (s : Text) → (p : Text) × (ps : List Text) × (split slash s ≡ p ∷ ps)
unfolding split
split-cons [] = ([], [], refl)
split-cons (x ∷ xs) = elim (Bool-cases (x == slash)) [
  | inl e ↦ ([], split slash xs, rw e)
  | inr n ↦ let (p, ps, eq) = split-cons xs in (x ∷ p, ps, rw (n, eq))
]

split-append : (s t : Text) → split slash (s ++ slash ∷ t) ≡ split slash s ++ split slash t
unfolding split
split-append [] t = ground arith
split-append (x ∷ xs) t = elim (Bool-cases (x == slash)) [
  | inl e ↦ rw e (ap (◌∷◌ []) (split-append xs t))
  | inr n ↦ let (p, ps, eq) = split-cons xs in rw (n, split-append xs t, eq)
]

clean_loop-append :
    (r : Bool) (stack ps qs : List Text)
    → clean_loop r stack (ps ++ qs) ≡ clean_loop r (clean_loop r stack ps) qs
unfolding clean_loop
clean_loop-append r stack [] qs = refl
clean_loop-append r stack (p ∷ ps) qs = clean_loop-append r (clean_step r stack p) ps qs

clean_step-name :
    (r : Bool) (stack : List Text) (p : Text) → IsName p → clean_step r stack p ≡ p ∷ stack
unfolding clean_step
clean_step-name r stack p h =
    rw (if_neg _ h.filled) (rw (if_neg _ h.not_dot) (rw (if_neg _ h.not_dots)))

clean_loop-names :
    (r : Bool) (stack ps : List Text) → All IsName ps → clean_loop r stack ps ≡ reverse ps ++ stack
unfolding clean_loop
clean_loop-names r stack [] h = refl
clean_loop-names r stack (p ∷ ps) h =
    rw (clean_step-name r stack p h.0) (clean_loop-names r (p ∷ stack) ps h.1 ∙ shift)
  where
    shift : reverse ps ++ p ∷ stack ≡ reverse (p ∷ ps) ++ stack
    shift = rw reverse-cons (sym (append_assoc (reverse ps) (p ∷ []) stack))

reverse_onto : (a b : List Text) → reverse (reverse a ++ b) ≡ reverse b ++ a
reverse_onto a b = reverse-append (reverse a) b ∙ ap (λ l. reverse b ++ l) (reverse-reverse a)

is_abs-append : (d s : Text) → is_abs d ≡ true → is_abs (d ++ s) ≡ true
unfolding is_abs
is_abs-append [] s h = ground arith
is_abs-append (x ∷ xs) s h = h

module _ (d k : Text) (abs : is_abs d ≡ true) (names : All IsName (split slash k)) where
  -- The elements of the joined path are those of the directory and then those of `k`.
  pub clean_parts-under : clean_parts (d ++ slash ∷ k) ≡ clean_parts d ++ split slash k
  unfolding clean_parts
  clean_parts-under =
      rw (is_abs-append d (slash ∷ k) abs, abs, split-append d k)
        (ap reverse (
            clean_loop-append true [] (split slash d) (split slash k)
            ∙ clean_loop-names true _ (split slash k) names)
          ∙ reverse_onto (split slash k) _)

  -- So the joined path is a slash and those elements.
  pub join-under : join d k ≡ slash ∷ join_parts (clean_parts d ++ split slash k)
  unfolding join clean
  join-under = go d k abs (is_abs-append d (slash ∷ k) abs) clean_parts-under names
    where
      go :
          (e l : Text)
          → is_abs e ≡ true
          → is_abs (e ++ slash ∷ l) ≡ true
          → clean_parts (e ++ slash ∷ l) ≡ clean_parts e ++ split slash l
          → All IsName (split slash l)
          → join e l ≡ slash ∷ join_parts (clean_parts e ++ split slash l)
      go [] l a b c ns = unfold is_abs in cc
      go (x ∷ xs) [] a b c ns = absurd (unfold split in ns.0.filled refl)
      go (x ∷ xs) (y ∷ ys) a b c ns = rw (b, c)

join_parts-push :
    (x : ℕ) (p : Text) (ps : List Text) → join_parts (push x (p ∷ ps)) ≡ x ∷ join_parts (p ∷ ps)
unfolding join_parts
join_parts-push x p [] = refl
join_parts-push x p (q ∷ ps) = refl

join_parts-nil : (s : Text) → join_parts ([] ∷ split slash s) ≡ slash ∷ join_parts (split slash s)
join_parts-nil s = let (p, ps, e) = split-cons s in rw e (unfold join_parts in refl)

join_parts-push-split :
    (x : ℕ) (s : Text) → join_parts (push x (split slash s)) ≡ x ∷ join_parts (split slash s)
join_parts-push-split x s = let (p, ps, e) = split-cons s in rw e (join_parts-push x p ps)

join_parts-split : (s : Text) → join_parts (split slash s) ≡ s
unfolding split
join_parts-split [] = unfold join_parts in refl
join_parts-split (x ∷ xs) = elim (nat_eq.dec x slash) [
  | yes e ↦ rw (if_pos _ e) (join_parts-nil xs ∙ ap₂ ◌∷◌ (sym e) (join_parts-split xs))
  | no n ↦ rw (if_neg _ n) (join_parts-push-split x xs ∙ ap (◌∷◌ x) (join_parts-split xs))
]

plain_parts : (ps : List Text) → All IsName ps → All (λ q. contains q slash ≡ false) ps
plain_parts [] h = tt
plain_parts (p ∷ ps) h = (h.0.plain, plain_parts ps h.1)

pub split-join_parts-All :
    (ps : List Text) → All IsName ps → ps ≢ [] → split slash (join_parts ps) ≡ ps
split-join_parts-All [] h n = absurd (n refl)
split-join_parts-All (p ∷ ps) h n = split-join_parts p ps (plain_parts (p ∷ ps) h)

append-ne-nil : (ps : List Text) (s : Text) → ps ++ split slash s ≢ []
append-ne-nil [] s h = let (p, ps, e) = split-cons s in cc
append-ne-nil (p ∷ ps) s h = cc

-- Different names under one directory are different paths.
pub join-injective :
    (d k l : Text)
    → is_abs d ≡ true
    → All IsName (split slash k)
    → All IsName (split slash l)
    → join d k ≡ join d l
    → k ≡ l
join-injective d k l abs hk hl e =
    sym (join_parts-split k) ∙ ap join_parts same ∙ join_parts-split l
  where
    parts : Text → List Text
    parts s = clean_parts d ++ split slash s

    names : (s : Text) → All IsName (split slash s) → All IsName (parts s)
    names s h = All-append IsName (clean_parts d) (split slash s) (clean_parts-absolute d abs) h

    joined : join_parts (parts k) ≡ join_parts (parts l)
    joined = ap (drop 1) (sym (join-under d k abs hk) ∙ e ∙ join-under d l abs hl)

    same : split slash k ≡ split slash l
    same = append_cancel_left (clean_parts d) _ _ (
        sym (split-join_parts-All (parts k) (names k hk) (append-ne-nil (clean_parts d) k))
        ∙ ap (split slash) joined
        ∙ split-join_parts-All (parts l) (names l hl) (append-ne-nil (clean_parts d) l))
