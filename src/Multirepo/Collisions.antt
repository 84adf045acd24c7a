-- ===== src/Multirepo/Collisions.antt =====
-- `detectUnitNameCollisions` accepts exactly the items of which no two quadlets with different
-- merge keys make one unit.
use mathlib.Core.Logic.{if_pos, if_neg}
use mathlib.Core.List.{Memᴰ}
use mathlib.Core.List.Memᴰ
use quadsyncd.Base.{
  ◌≡◌, refl, sym, ◌↔◌, ◌⊎◌, inl, inr, true, false, none, some, List, [], ◌∷◌, arith, ok,
  Option-cases, Bool-cases, text_eq, ◌==◌, if◌then◌else◌,
}
use quadsyncd.Base.Text.{Text}
use quadsyncd.Base.Dict.{Dict, lookup, insert, lookup-nil, lookup-insert}
use quadsyncd.Quadlet.{is_quadlet_file, unit_name_from_quadlet}
use quadsyncd.Multirepo.{EffectiveItem, collisions, detect_unit_name_collisions}

-- Two quadlets of the items that make one unit have one merge key.
abbrev pub UnitsAgree : EffectiveItem → EffectiveItem → Type 0
UnitsAgree x y =
    is_quadlet_file x.merge_key ≡ true
    → is_quadlet_file y.merge_key ≡ true
    → unit_name_from_quadlet x.merge_key ≡ unit_name_from_quadlet y.merge_key
    → x.merge_key ≡ y.merge_key

-- The item agrees with the unit that the map holds under its name.
abbrev Fits : Dict Text Text → EffectiveItem → Type 0
Fits m x =
    is_quadlet_file x.merge_key ≡ true
    → (seen : Text) → lookup (unit_name_from_quadlet x.merge_key) m ≡ some seen
    → seen ≡ x.merge_key

collisions_quadlet :
    (m : Dict Text Text) (i : EffectiveItem) (items : List EffectiveItem)
    → is_quadlet_file i.merge_key ≡ true
    → collisions m (i ∷ items) ≡ []
    → ((lookup (unit_name_from_quadlet i.merge_key) m ≡ none)
        × (collisions (insert (unit_name_from_quadlet i.merge_key) i.merge_key m) items ≡ []))
      ⊎ ((lookup (unit_name_from_quadlet i.merge_key) m ≡ some i.merge_key)
          × (collisions m items ≡ []))
unfolding collisions
collisions_quadlet m i items q h = ground arith

collisions_other :
    (m : Dict Text Text) (i : EffectiveItem) (items : List EffectiveItem)
    → is_quadlet_file i.merge_key ≡ false
    → collisions m (i ∷ items) ≡ []
    → collisions m items ≡ []
unfolding collisions
collisions_other m i items q h = ground arith

-- No collision: every item fits the map, and the items agree among themselves.
Fits-of_nil :
    (m : Dict Text Text) (items : List EffectiveItem)
    → collisions m items ≡ []
    → (x : EffectiveItem) → Memᴰ x items
    → Fits m x
Fits-of_nil m [] h x mem q seen e = absurd (Memᴰ.not-nil mem)
Fits-of_nil m (i ∷ items) h x mem q seen e = elim (Memᴰ.cases_cons mem) [
  | inl same ↦ elim (collisions_quadlet m i items (rw same at q) h) [
    | inl (free, rest) ↦ cc (e, free, same)
    | inr (taken, rest) ↦ cc (e, taken, same)
  ]
  | inr n ↦ elim (Bool-cases (is_quadlet_file i.merge_key)) [
    | inl quad ↦ elim (collisions_quadlet m i items quad h) [
      | inl (free, rest) ↦
          Fits-of_nil (insert (unit_name_from_quadlet i.merge_key) i.merge_key m) items rest x n q
            seen
            (ground (
              arith,
              e,
              free,
              lookup-insert (unit_name_from_quadlet x.merge_key)
                  (unit_name_from_quadlet i.merge_key) i.merge_key m,
            ))
      | inr (taken, rest) ↦ Fits-of_nil m items rest x n q seen e
    ]
    | inr other ↦ Fits-of_nil m items (collisions_other m i items other h) x n q seen e
  ]
]

-- The first item agrees with each later one.
head_agrees :
    (m : Dict Text Text) (i : EffectiveItem) (items : List EffectiveItem)
    → collisions m (i ∷ items) ≡ []
    → (y : EffectiveItem) → Memᴰ y items
    → UnitsAgree i y
head_agrees m i items h y n qi qy e = elim (collisions_quadlet m i items qi h) [
  | inl (free, rest) ↦
      Fits-of_nil (insert (unit_name_from_quadlet i.merge_key) i.merge_key m) items rest y n qy
        i.merge_key
        (ground (
          arith,
          e,
          lookup-insert (unit_name_from_quadlet y.merge_key) (unit_name_from_quadlet i.merge_key)
              i.merge_key m,
        ))
  | inr (taken, rest) ↦ Fits-of_nil m items rest y n qy i.merge_key (rw e at taken)
]

-- Some map has no collision with the tail.
tail_of_nil :
    (m : Dict Text Text) (i : EffectiveItem) (items : List EffectiveItem)
    → collisions m (i ∷ items) ≡ []
    → (m' : Dict Text Text) × (collisions m' items ≡ [])
tail_of_nil m i items h = elim (Bool-cases (is_quadlet_file i.merge_key)) [
  | inl quad ↦ elim (collisions_quadlet m i items quad h) [
    | inl (free, rest) ↦ (insert (unit_name_from_quadlet i.merge_key) i.merge_key m, rest)
    | inr (taken, rest) ↦ (m, rest)
  ]
  | inr other ↦ (m, collisions_other m i items other h)
]

agree_of_nil :
    (items : List EffectiveItem) (m : Dict Text Text)
    → collisions m items ≡ []
    → (x y : EffectiveItem) → Memᴰ x items
    → Memᴰ y items
    → UnitsAgree x y
agree_of_nil [] m h x y mx my qx qy e = absurd (Memᴰ.not-nil mx)
agree_of_nil (i ∷ items) m h x y mx my qx qy e = elim (Memᴰ.cases_cons mx) [
  | inl x_first ↦ elim (Memᴰ.cases_cons my) [
    | inl y_first ↦ cc (x_first, y_first)
    | inr y_later ↦
        let key = head_agrees m i items h y y_later (rw x_first at qx) qy (rw x_first at e) in
        cc (x_first, key)
  ]
  | inr x_later ↦ elim (Memᴰ.cases_cons my) [
    | inl y_first ↦
        let key = head_agrees m i items h x x_later (rw y_first at qy) qx (sym (rw y_first at e)) in
        cc (y_first, key)
    | inr y_later ↦
        let (m', rest) = tail_of_nil m i items h in
        agree_of_nil items m' rest x y x_later y_later qx qy e
  ]
]

Fits-insert :
    (m : Dict Text Text) (i x : EffectiveItem)
    → is_quadlet_file i.merge_key ≡ true
    → UnitsAgree i x
    → Fits m x
    → Fits (insert (unit_name_from_quadlet i.merge_key) i.merge_key m) x
Fits-insert m i x q agree fit qx seen e =
    elim (text_eq.dec (unit_name_from_quadlet x.merge_key) (unit_name_from_quadlet i.merge_key)) [
      | yes p ↦ cc (rw (if_pos _ p) at read, agree q qx (sym p))
      | no n ↦ fit qx seen (rw (if_neg _ n) at read)
    ]
  where
    read :
        (if unit_name_from_quadlet x.merge_key == unit_name_from_quadlet i.merge_key
          then some i.merge_key
          else lookup (unit_name_from_quadlet x.merge_key) m)
        ≡ some seen
    read = rw lookup-insert at e

nil_of_agree :
    (items : List EffectiveItem) (m : Dict Text Text)
    → ((x y : EffectiveItem) → Memᴰ x items → Memᴰ y items → UnitsAgree x y)
    → ((x : EffectiveItem) → Memᴰ x items → Fits m x)
    → collisions m items ≡ []
unfolding collisions
nil_of_agree [] m agree fits = refl
nil_of_agree (i ∷ items) m agree fits =
    let skipped =
      nil_of_agree items m (λ x y mx my. agree x y (Memᴰ.tail mx) (Memᴰ.tail my))
        (λ x mx. fits x (Memᴰ.tail mx)) in
    elim (Bool-cases (is_quadlet_file i.merge_key)) [
      | inl q ↦
          let added =
            nil_of_agree items (insert (unit_name_from_quadlet i.merge_key) i.merge_key m)
              (λ x y mx my. agree x y (Memᴰ.tail mx) (Memᴰ.tail my))
              (λ x mx.
                Fits-insert m i x q (agree i x (Memᴰ.head refl) (Memᴰ.tail mx))
                  (fits x (Memᴰ.tail mx))) in
          elim (Option-cases (lookup (unit_name_from_quadlet i.merge_key) m)) [
            | inl free ↦ rw (q, free) added
            | inr (seen, taken) ↦
                rw (q, taken) (rw (if_pos _ (fits i (Memᴰ.head refl) q seen taken)) skipped)
          ]
      | inr other ↦ rw other skipped
    ]

-- The check of unit names accepts a list of items exactly when any two quadlets in it that make
-- the same unit have the same merge key.
pub detect_unit_name_collisions_iff :
    (items : List EffectiveItem)
    → (detect_unit_name_collisions items ≡ ok tt)
      ↔ ((x y : EffectiveItem) → Memᴰ x items → Memᴰ y items → UnitsAgree x y)
unfolding detect_unit_name_collisions
detect_unit_name_collisions_iff items = (
  λ h. agree_of_nil items [] (none_found h),
  λ agree. rw (
    nil_of_agree items [] agree
        (λ x mx qx seen e. cc (e, lookup-nil {V = Text} (unit_name_from_quadlet x.merge_key))),
    detect_unit_name_collisions,
  ),
)
  where
    none_found : detect_unit_name_collisions items ≡ ok tt → collisions [] items ≡ []
    none_found h = ground arith
