-- ===== src/Logging/Ndjson/Panics.antt =====
-- When the NDJSON handler panics.
use mathlib.Core.Path.{subst}
use quadsyncd.Base.{
  ℕ, ◌≡◌, ◌≢◌, refl, sym, ap, ◌∙◌, inl, inr, ◌⊎◌, false, Bool-cases, Option, none, some,
  Option-cases, List, [], ◌∷◌, if◌then◌else◌, text_eq, arith,
}
use quadsyncd.Base.Text.{Text, str}
use quadsyncd.Logging.{Value, Attrs, attr, LogRecord, string_value}
use quadsyncd.Logging.Ndjson.{
  Node, leaf, object, Fields, no_fields, field, find, put, NdjsonHandler, is_empty_attr, put_below,
  add_attr_to_map, add_all, attr_list, standard_fields, record_map,
}

find-put_self : (k : Text) (n : Node) (m : Fields) → find k (put k n m) ≡ some n
unfolding find put
find-put_self k n no_fields = ground arith
find-put_self k n (field j o fs) = ground (arith, find-put_self k n fs)

abbrev Inside : (Fields → Type 0) → Option Node → Type 0
Inside P none = Unit
Inside P (some (leaf v)) = ⊥
Inside P (some (object o)) = P o

-- Along the groups there are maps, or nothing yet.
IsOpen : List Text → Fields → Type 0
IsOpen [] m = Unit
IsOpen (g ∷ gs) m = Inside (IsOpen gs) (find g m)

nothing-IsOpen : (gs : List Text) → IsOpen gs no_fields
unfolding IsOpen find
nothing-IsOpen [] = tt
nothing-IsOpen (g ∷ gs) = tt

-- With maps along the groups there is a map afterwards, again with maps along the groups.
put_below-IsOpen :
    (gs : List Text) (key : Text) (v : Value) (m : Fields)
    → IsOpen gs m
    → (m2 : Fields) × (put_below gs key v m ≡ some m2) × IsOpen gs m2
unfolding put_below IsOpen
put_below-IsOpen [] key v m h = (put key (leaf v) m, refl, tt)
put_below-IsOpen (g ∷ gs) key v m h = elim (Option-cases (find g m)) [
  | inl e ↦
      let (o, made, open_o) = put_below-IsOpen gs key v no_fields (nothing-IsOpen gs) in
      (
        put g (object o) m,
        rw (put_below, e, made) refl,
        subst (Inside (IsOpen gs)) (sym (find-put_self g (object o) m)) open_o,
      )
  | inr (n, e) ↦ at_node (put_below-IsOpen gs key v) n e (subst (Inside (IsOpen gs)) e h)
]
  where
    at_node :
        ((o : Fields) → IsOpen gs o → (p : Fields) × (put_below gs key v o ≡ some p) × IsOpen gs p)
        → (n : Node) → find g m ≡ some n
        → Inside (IsOpen gs) (some n)
        → (m2 : Fields) × (put_below (g ∷ gs) key v m ≡ some m2) × IsOpen (g ∷ gs) m2
    at_node deeper (leaf x) e inside = absurd inside
    at_node deeper (object o) e inside =
        let (p, made, open_p) = deeper o inside in
        (
          put g (object p) m,
          rw (put_below, e, made) refl,
          subst (Inside (IsOpen gs)) (sym (find-put_self g (object p) m)) open_p,
        )

add_all-IsOpen :
    (replace : List Text → Text × Value → Text × Value) (gs : List Text)
    (attrs : List (Text × Value))
    → (m : Fields) → IsOpen gs m
    → (m2 : Fields) × (add_all replace gs attrs m ≡ some m2) × IsOpen gs m2
unfolding add_all add_attr_to_map
add_all-IsOpen replace gs [] m h = (m, refl, h)
add_all-IsOpen replace gs (a ∷ attrs) m h =
    let b = replace gs a in
    elim (Bool-cases (is_empty_attr b)) [
      | inl e ↦ rw (add_all, e) (add_all-IsOpen replace gs attrs m h)
      | inr e ↦
          let (m1, made, open_1) = put_below-IsOpen gs b.0 b.1 m h in
          rw (add_all, e, made) (add_all-IsOpen replace gs attrs m1 open_1)
    ]

-- Where what has the name of the first group is no map, nothing can be added.
blocked :
    (replace : List Text → Text × Value → Text × Value)
    → (g : Text) (gs : List Text) (a : Text × Value) (m : Fields) (v : Value)
    → find g m ≡ some (leaf v)
    → add_attr_to_map replace (g ∷ gs) a m
      ≡ (if is_empty_attr (replace (g ∷ gs) a) then some m else none)
unfolding add_attr_to_map put_below
blocked replace g gs a m v e = elim (Bool-cases (is_empty_attr (replace (g ∷ gs) a))) [
  | inl n ↦ rw (add_attr_to_map, n) refl
  | inr n ↦ rw (add_attr_to_map, n, put_below, e) refl
]

add_all-blocked :
    (replace : List Text → Text × Value → Text × Value)
    → (g : Text) (gs : List Text) (attrs : List (Text × Value)) (m : Fields) (v : Value)
    → find g m ≡ some (leaf v)
    → (add_all replace (g ∷ gs) attrs m ≡ none) ⊎ (add_all replace (g ∷ gs) attrs m ≡ some m)
unfolding add_all
add_all-blocked replace g gs [] m v e = inr refl
add_all-blocked replace g gs (a ∷ attrs) m v e =
    elim (Bool-cases (is_empty_attr (replace (g ∷ gs) a))) [
      | inl n ↦
          let kept : add_attr_to_map replace (g ∷ gs) a m ≡ some m =
            blocked replace g gs a m v e ∙ rw n refl in
          rw (add_all, kept) (add_all-blocked replace g gs attrs m v e)
      | inr n ↦
          let gone : add_attr_to_map replace (g ∷ gs) a m ≡ none =
            blocked replace g gs a m v e ∙ rw n refl in
          inl (rw (add_all, gone) refl)
    ]

abbrev pub IsStandard : Text → Type 0
IsStandard g = (g ≡ str "time") ⊎ ((g ≡ str "level") ⊎ (g ≡ str "msg"))

module _ (level_text : ℕ → Text) (h : NdjsonHandler) (r : LogRecord) where
  abbrev begun : Fields
  begun = standard_fields r level_text

  find_standard : (g : Text) → IsStandard g → (v : Value) × (find g begun ≡ some (leaf v))
  unfolding find text_eq
  find_standard g s = elim s [
    | inl e ↦ (string_value r.time, ap (λ k. find k begun) e)
    | inr s2 ↦ elim s2 [
      | inl e ↦ (string_value (level_text r.level), ap (λ k. find k begun) e)
      | inr e ↦ (string_value r.message, ap (λ k. find k begun) e)
    ]
  ]

  find_other : (g : Text) → ¬ IsStandard g → find g begun ≡ none
  unfolding find
  find_other g n =
      let a : g ≢ str "time" = λ e. n (inl e) in
      let b : g ≢ str "level" = λ e. n (inr (inl e)) in
      let c : g ≢ str "msg" = λ e. n (inr (inr e)) in ground arith

  begun-IsOpen :
      (groups : List Text)
      → ((g : Text) (gs : List Text) → groups ≡ g ∷ gs → ¬ IsStandard g)
      → IsOpen groups begun
  unfolding IsOpen
  begun-IsOpen [] n = tt
  begun-IsOpen (g ∷ gs) n = subst (Inside (IsOpen gs)) (sym (find_other g (n g gs refl))) tt

  -- A handler whose first group, if it has one, is not named like a standard field turns every
  -- record into a map.
  pub record_map_made :
      ((g : Text) (gs : List Text) → h.groups ≡ g ∷ gs → ¬ IsStandard g)
      → (m : Fields) × (record_map level_text h r ≡ some m)
  unfolding record_map
  record_map_made other =
      let (m1, e1, open_1) =
        add_all-IsOpen h.replace_attr h.groups h.attrs begun (begun-IsOpen h.groups other) in
      let (m2, e2, open_2) = add_all-IsOpen h.replace_attr h.groups (attr_list r.attrs) m1 open_1 in
      (m2, rw (record_map, e1, e2) refl)

  -- Below a group that is named `time`, `level` or `msg`, a record makes the handler panic when its
  -- first attribute is kept.
  pub record_map_panics :
      (g : Text) (gs : List Text)
      → h.groups ≡ g ∷ gs
      → IsStandard g
      → (key : Text) (v : Value) (attrs : Attrs) → r.attrs ≡ attr key v attrs
      → is_empty_attr (h.replace_attr (g ∷ gs) (key, v)) ≡ false
      → record_map level_text h r ≡ none
  unfolding record_map add_all
  record_map_panics g gs below standard key v attrs first kept =
      let (x, at) = find_standard g standard in
      let stuck : add_attr_to_map h.replace_attr (g ∷ gs) (key, v) begun ≡ none =
        blocked h.replace_attr g gs (key, v) begun x at ∙ rw kept refl in
      let own_attrs = ap (λ groups. add_all h.replace_attr groups h.attrs begun) below in
      let its_attrs : add_all h.replace_attr h.groups (attr_list r.attrs) begun ≡ none =
        ap (λ groups. add_all h.replace_attr groups (attr_list r.attrs) begun) below
        ∙ ap (λ attrs. add_all h.replace_attr (g ∷ gs) (attr_list attrs) begun) first
        ∙ add_all-stuck (key, v) (attr_list attrs) stuck in
      elim (add_all-blocked h.replace_attr g gs h.attrs begun x at) [
        | inl e ↦ rw (record_map, own_attrs ∙ e) refl
        | inr e ↦ rw (record_map, own_attrs ∙ e, its_attrs) refl
      ]
    where
      add_all-stuck :
          (a : Text × Value) (attrs : List (Text × Value))
          → add_attr_to_map h.replace_attr (g ∷ gs) a begun ≡ none
          → add_all h.replace_attr (g ∷ gs) (a ∷ attrs) begun ≡ none
      add_all-stuck a attrs e = rw (add_all, e) refl
