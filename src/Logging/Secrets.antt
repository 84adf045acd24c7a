-- ===== src/Logging/Secrets.antt =====
-- What the redaction of internal/logging/redact.go leaves of secrets.
use mathlib.Core.List.{Memᴰ}
use mathlib.Core.List.Memᴰ
use quadsyncd.Base.{
  ◌≡◌, ◌≢◌, refl, ap, ◌∙◌, inl, inr, true, false, Bool-cases, List, [], ◌∷◌, All, keep, ◌/=◌,
  nat_eq, text_eq, arith,
}
use quadsyncd.Base.Text.{Text, str, contains_text, replace_all}
use quadsyncd.Base.Text.Replace.{IsDisjoint, found_before, replaced_gone}
use quadsyncd.Logging.{
  Value, string_value, group_value, other_value, Attrs, no_attrs, attr, LogRecord, mark,
  filter_secrets, redact_string, redact_value, redact_attrs, redact_record,
}

-- A secret that is not empty and shares no byte with the mark.
abbrev pub IsPlainSecret : Text → Type 0
IsPlainSecret s = (s ≢ []) × IsDisjoint mark s

abbrev pub Hides : List Text → Text → Type 0
Hides secrets t = All (λ s. contains_text t s ≡ false) secrets

replace_all-hides : (t s : Text) → IsPlainSecret s → contains_text (replace_all t s mark) s ≡ false
unfolding replace_all
replace_all-hides t [] (ne, d) = absurd (ne refl)
replace_all-hides t (y ∷ ys) (ne, d) = replaced_gone b'[' (str "REDACTED]") 0 t y ys d

replace_all-keeps :
    (t old s : Text)
    → IsPlainSecret s
    → contains_text t s ≡ false
    → contains_text (replace_all t old mark) s ≡ false
unfolding replace_all
replace_all-keeps t old [] (ne, d) h = absurd (ne refl)
replace_all-keeps t old (y ∷ ys) (ne, d) h =
    elim (Bool-cases (contains_text (replace_all t old mark) (y ∷ ys))) [
      | inr gone ↦ gone
      | inl found ↦
          absurd (let was = found_before old b'[' (str "REDACTED]") 0 t y ys d found in cc)
    ]

redact_string-keeps :
    (secrets : List Text) (t s : Text)
    → IsPlainSecret s
    → contains_text t s ≡ false
    → contains_text (redact_string secrets t) s ≡ false
unfolding redact_string
redact_string-keeps [] t s p h = h
redact_string-keeps (x ∷ secrets) t s p h =
    redact_string-keeps secrets (replace_all t x mark) s p (replace_all-keeps t x s p h)

redact_string-Hides :
    (secrets : List Text) (t : Text)
    → All IsPlainSecret secrets
    → Hides secrets (redact_string secrets t)
unfolding redact_string
redact_string-Hides [] t p = tt
redact_string-Hides (x ∷ secrets) t p = (
  redact_string-keeps secrets (replace_all t x mark) x p.0 (replace_all-hides t x p.0),
  redact_string-Hides secrets (replace_all t x mark) p.1,
)

module _ (secrets : List Text) where
  -- No string of the attributes holds a secret, however deep in groups it lies.
  unfoldable mutual
    pub ValueHides : Value → Type 0
    ValueHides (string_value t) = Hides secrets t
    ValueHides (group_value attrs) = AttrsHide attrs
    ValueHides (other_value v) = Unit

    pub AttrsHide : Attrs → Type 0
    AttrsHide no_attrs = Unit
    AttrsHide (attr key value attrs) = ValueHides value × AttrsHide attrs

  module _ (plain : All IsPlainSecret secrets) where
    mutual
      unfolding redact_value redact_attrs ValueHides AttrsHide

      redact_value-Hides : (v : Value) → ValueHides (redact_value secrets v)
      redact_value-Hides (string_value t) = redact_string-Hides secrets t plain
      redact_value-Hides (group_value attrs) = redact_attrs-Hide attrs
      redact_value-Hides (other_value v) = tt

      redact_attrs-Hide : (a : Attrs) → AttrsHide (redact_attrs secrets a)
      redact_attrs-Hide no_attrs = tt
      redact_attrs-Hide (attr key value attrs) = (redact_value-Hides value, redact_attrs-Hide attrs)

-- What hides several texts hides each of them.
Hides-mem :
    (secrets : List Text) (s t : Text)
    → Memᴰ s secrets
    → Hides secrets t
    → contains_text t s ≡ false
Hides-mem [] s t m h = absurd (Memᴰ.not-nil m)
Hides-mem (x ∷ secrets) s t m h = elim (Memᴰ.cases_cons m) [
  | inl same ↦ ap (contains_text t) same ∙ h.0
  | inr n ↦ Hides-mem secrets s t n h.1
]

module _ (secrets : List Text) (s : Text) (m : Memᴰ s secrets) where
  mutual
    unfolding ValueHides AttrsHide

    ValueHides-mem : (v : Value) → ValueHides secrets v → ValueHides (s ∷ []) v
    ValueHides-mem (string_value t) h = (Hides-mem secrets s t m h, tt)
    ValueHides-mem (group_value attrs) h = AttrsHide-mem attrs h
    ValueHides-mem (other_value v) h = tt

    AttrsHide-mem : (a : Attrs) → AttrsHide secrets a → AttrsHide (s ∷ []) a
    AttrsHide-mem no_attrs h = tt
    AttrsHide-mem (attr key value attrs) h = (ValueHides-mem value h.0, AttrsHide-mem attrs h.1)

-- A secret that is not empty is kept.
mem-filter_secrets :
    (secrets : List Text) (s : Text) → Memᴰ s secrets → s ≢ [] → Memᴰ s (filter_secrets secrets)
unfolding filter_secrets
mem-filter_secrets [] s m ne = absurd (Memᴰ.not-nil m)
mem-filter_secrets (x ∷ secrets) s m ne = elim (Memᴰ.cases_cons m) [
  | inl same ↦
      let kept : (x /= []) ≡ true = ground (arith, same, ne) in rw (kept, keep) (Memᴰ.head same)
  | inr n ↦ elim (Bool-cases (x /= [])) [
    | inl kept ↦ rw (kept, keep) (Memᴰ.tail (mem-filter_secrets secrets s n ne))
    | inr dropped ↦ rw (dropped, keep) (mem-filter_secrets secrets s n ne)
  ]
]

-- What is kept is not empty.
filter_secrets-plain :
    (secrets : List Text)
    → All (IsDisjoint mark) secrets
    → All IsPlainSecret (filter_secrets secrets)
unfolding filter_secrets
filter_secrets-plain [] d = tt
filter_secrets-plain (x ∷ secrets) d = elim (Bool-cases (x /= [])) [
  | inl kept ↦
      let ne : x ≢ [] = λ e. (ground (arith, e, kept)) in
      rw (kept, keep) ((ne, d.0), filter_secrets-plain secrets d.1)
  | inr dropped ↦ rw (dropped, keep) (filter_secrets-plain secrets d.1)
]

-- The record that the redacting handler hands on holds none of the secrets that it was given, except
-- empty ones, in its message and in the strings of its attributes, however deep in groups they lie,
-- provided that no secret shares a byte with `[REDACTED]`.
pub redact_record-Hides :
    (secrets : List Text) (r : LogRecord)
    → All (IsDisjoint mark) secrets
    → (s : Text) → Memᴰ s secrets
    → s ≢ []
    → (contains_text (redact_record (filter_secrets secrets) r).message s ≡ false)
      × AttrsHide (s ∷ []) (redact_record (filter_secrets secrets) r).attrs
unfolding redact_record
redact_record-Hides secrets r d s m ne =
    hidden (filter_secrets secrets) (mem-filter_secrets secrets s m ne)
      (filter_secrets-plain secrets d)
  where
    hidden :
        (kept : List Text)
        → Memᴰ s kept
        → All IsPlainSecret kept
        → (contains_text (redact_record kept r).message s ≡ false)
          × AttrsHide (s ∷ []) (redact_record kept r).attrs
    hidden [] n p = absurd (Memᴰ.not-nil n)
    hidden (x ∷ xs) n p = (
      Hides-mem (x ∷ xs) s _ n (redact_string-Hides (x ∷ xs) r.message p),
      AttrsHide-mem (x ∷ xs) s n _ (redact_attrs-Hide (x ∷ xs) p r.attrs),
    )
