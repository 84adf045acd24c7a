-- ===== src/Base/Dict.antt =====
-- Go maps as association lists. The order of the entries is the order of a `range` loop, which
-- Go leaves open; no statement about a map depends on it unless it says so.
use mathlib.Core.List.{Memᴰ, Nodup, Nodup-nil, Nodup-cons}
use mathlib.Core.List.Memᴰ
use mathlib.Core.HLevel.{⊥_prop}
use mathlib.Core.Logic.{if_pos, if_neg, ∥∥₁_elim}
use quadsyncd.Base.{
  ◌≡◌, refl, sym, ap, ◌≢◌, ◌↔◌, inl, inr, true, Option, none, some, List, [], ◌∷◌, arith, Eq, ◌==◌,
  contains, if◌then◌else◌,
}

abbrev pub Dict {ℓ κ} : Type ℓ → Type κ → Type (ℓ ⊔ κ)
Dict K V = List (K × V)

unfoldable pub keys {ℓ κ} : {K : Type ℓ} {V : Type κ} → Dict K V → List K
keys [] = []
keys ((k, v) ∷ d) = k ∷ keys d

pair_path {ℓ κ} :
    {A : Type ℓ} {B : Type κ} {a x : A} {b y : B} → a ≡ x → b ≡ y → ◌≡◌ {A = A × B} (a, b) (x, y)
pair_path h k = cc

some-injective {ℓ} : {A : Type ℓ} {a b : A} → ◌≡◌ {A = Option A} (some a) (some b) → a ≡ b
some-injective h = cc

module _ {ℓ κ} {K : Type ℓ} {V : Type κ} ⦃e : Eq K⦄ where
  -- `v, ok := d[k]`
  unfoldable pub lookup : K → Dict K V → Option V
  lookup k [] = none
  lookup k ((j, w) ∷ d) = let rest = lookup k d in if k == j then some w else rest

  -- `d[k] = v`
  unfoldable pub insert : K → V → Dict K V → Dict K V
  insert k v [] = (k, v) ∷ []
  insert k v ((j, w) ∷ d) = let rest = insert k v d in if k == j then (k, v) ∷ d else (j, w) ∷ rest

  -- `delete(d, k)`
  unfoldable pub erase : K → Dict K V → Dict K V
  erase k [] = []
  erase k ((j, w) ∷ d) = let rest = erase k d in if k == j then rest else (j, w) ∷ rest

  -- No key has two entries, as in every Go map.
  abbrev pub NodupKeys : Dict K V → Type κ
  NodupKeys [] = Unit
  NodupKeys ((k, _) ∷ d) = (lookup k d ≡ none) × NodupKeys d

  pub lookup-nil : (k : K) → lookup k [] ≡ none
  unfolding lookup
  lookup-nil k = refl

  pub lookup-cons :
      (j k : K) (v : V) (d : Dict K V)
      → lookup j ((k, v) ∷ d) ≡ (if j == k then some v else lookup j d)
  unfolding lookup
  lookup-cons j k v d = ground arith

  pub lookup-insert :
      (j k : K) (v : V) (d : Dict K V)
      → lookup j (insert k v d) ≡ (if j == k then some v else lookup j d)
  unfolding insert lookup
  lookup-insert j k v [] = refl
  lookup-insert j k v ((i, w) ∷ d) = ground (arith, lookup-insert j k v d)

  pub lookup-erase :
      (j k : K) (d : Dict K V) → lookup j (erase k d) ≡ (if j == k then none else lookup j d)
  unfolding erase lookup
  lookup-erase j k [] = ground arith
  lookup-erase j k ((i, w) ∷ d) = ground (arith, lookup-erase j k d)

  pub lookup-insert_same : (k : K) (v : V) (d : Dict K V) → lookup k (insert k v d) ≡ some v
  lookup-insert_same k v d = ground (arith, lookup-insert k k v d)

  pub lookup-insert_other :
      (j k : K) (v : V) (d : Dict K V) → j ≢ k → lookup j (insert k v d) ≡ lookup j d
  lookup-insert_other j k v d n = ground (arith, lookup-insert j k v d)

  pub lookup-erase_same : (k : K) (d : Dict K V) → lookup k (erase k d) ≡ none
  lookup-erase_same k d = ground (arith, lookup-erase k k d)

  pub lookup-erase_other : (j k : K) (d : Dict K V) → j ≢ k → lookup j (erase k d) ≡ lookup j d
  lookup-erase_other j k d n = ground (arith, lookup-erase j k d)

  pub insert-NodupKeys : (k : K) (v : V) (d : Dict K V) → NodupKeys d → NodupKeys (insert k v d)
  unfolding insert
  insert-NodupKeys k v [] h = (lookup-nil k, tt)
  insert-NodupKeys k v ((j, w) ∷ d) h =
      ground (arith, insert-NodupKeys k v d h.1, lookup-insert j k v d)

  pub erase-NodupKeys : (k : K) (d : Dict K V) → NodupKeys d → NodupKeys (erase k d)
  unfolding erase
  erase-NodupKeys k [] h = tt
  erase-NodupKeys k ((j, w) ∷ d) h = ground (arith, erase-NodupKeys k d h.1, lookup-erase j k d)

  pub contains-keys : (d : Dict K V) (k : K) → (contains (keys d) k ≡ true) ↔ (lookup k d ≢ none)
  unfolding keys lookup
  contains-keys [] k = (λ h. ground arith, λ h. absurd (h refl))
  contains-keys ((j, w) ∷ d) k = ground (arith, contains-keys d k)

  pub mem-keys : (k : K) (d : Dict K V) → Memᴰ k (keys d) → lookup k d ≢ none
  unfolding keys lookup
  mem-keys k [] m = absurd (Memᴰ.not-nil m)
  mem-keys k ((j, w) ∷ d) m = elim (Memᴰ.cases_cons m) [
    | inl same ↦ λ h. ground arith
    | inr n ↦ λ h. ground (arith, mem-keys k d n)
  ]

  pub keys-mem : (k : K) (d : Dict K V) → lookup k d ≢ none → Memᴰ k (keys d)
  unfolding keys lookup
  keys-mem k [] h = absurd (h refl)
  keys-mem k ((j, w) ∷ d) h = elim (e.dec k j) [
    | yes same ↦ Memᴰ.head same
    | no n ↦ Memᴰ.tail (keys-mem k d (λ x. h (rw (if_neg _ n) x)))
  ]

  pub keys-Nodup : (d : Dict K V) → NodupKeys d → Nodup (keys d)
  unfolding keys
  keys-Nodup [] h = Nodup-nil
  keys-Nodup ((k, w) ∷ d) h =
      Nodup-cons.1 (λ m. ∥∥₁_elim m ⊥_prop (λ n. mem-keys k d n h.0), keys-Nodup d h.1)

  pub mem-lookup :
      (k : K) (v : V) (d : Dict K V) → NodupKeys d → Memᴰ (k, v) d → lookup k d ≡ some v
  unfolding lookup
  mem-lookup k v [] h m = absurd (Memᴰ.not-nil m)
  mem-lookup k v ((j, w) ∷ d) h m = elim (Memᴰ.cases_cons m) [
    | inl same ↦
        let same_key : k ≡ j = ap (λ (x : K × V). x.0) same in
        let same_value : v ≡ w = ap (λ (x : K × V). x.1) same in
        rw (if_pos (e.dec k j) same_key) (ap some (sym same_value))
    | inr n ↦ ground (arith, mem-lookup k v d h.1 n, h.0)
  ]

  pub lookup-mem : (k : K) (v : V) (d : Dict K V) → lookup k d ≡ some v → Memᴰ (k, v) d
  unfolding lookup
  lookup-mem k v [] h = cc
  lookup-mem k v ((j, w) ∷ d) h = elim (e.dec k j) [
    | yes same ↦ Memᴰ.head (pair_path same (some-injective (sym (rw (if_pos _ same) at h))))
    | no n ↦ Memᴰ.tail (lookup-mem k v d (rw (if_neg _ n) at h))
  ]

  pub mem-lookup_some : (k : K) (v : V) (d : Dict K V) → Memᴰ (k, v) d → lookup k d ≢ none
  unfolding lookup
  mem-lookup_some k v [] m = absurd (Memᴰ.not-nil m)
  mem-lookup_some k v ((j, w) ∷ d) m = elim (Memᴰ.cases_cons m) [
    | inl same ↦ λ h. ground (arith, ap (λ (x : K × V). x.0) same)
    | inr n ↦ λ h. ground (arith, mem-lookup_some k v d n)
  ]
