-- ===== src/Logging/Ndjson.antt =====
-- The NDJSON handler of internal/logging/tee.go.
pub mod Panics
use mathlib.Core.Option
use quadsyncd.Base.{
  ℕ, Bool, true, false, ◌&&◌, Option, none, some, List, [], ◌∷◌, ◌++◌, Result, ok, err, leb, ◌==◌,
  if◌then◌else◌, text_eq,
}
use quadsyncd.Base.Text.{Text, str}
use quadsyncd.Logging.{
  Value, string_value, group_value, other_value, Attrs, no_attrs, attr, LogRecord,
}

-- `map[string]interface{}`: the values of attributes and nested maps.
mutual
  pub data Node : Type 0 where
    leaf : Value → Node
    object : Fields → Node

  pub data Fields : Type 0 where
    no_fields : Fields
    field : Text → Node → Fields → Fields

unfoldable pub find : Text → Fields → Option Node
find k no_fields = none
find k (field j n fs) = let rest = find k fs in if k == j then some n else rest

unfoldable pub put : Text → Node → Fields → Fields
put k n no_fields = field k n no_fields
put k n (field j o fs) = let rest = put k n fs in if k == j then field k n fs else field j o rest

-- The handler; `replace_attr` is the identity where the options name none.
pub record NdjsonHandler : Type 0 where
  pub level : ℕ
  pub attrs : List (Text × Value)
  pub groups : List Text
  pub replace_attr : List Text → Text × Value → Text × Value

abbrev pub is_null : Value → Bool
is_null (string_value s) = false
is_null (group_value a) = false
is_null (other_value v) = v == str "null"

-- `slog.Attr{}`
abbrev pub is_empty_attr : Text × Value → Bool
is_empty_attr (key, value) = key == [] && is_null value

-- The map below the groups, or `none`: the assertion that what has the name of a group is a map
-- panics.
unfoldable pub put_below : List Text → Text → Value → Fields → Option Fields
put_below [] key value m = some (put key (leaf value) m)
put_below (g ∷ gs) key value m =
    let fresh = put_below gs key value no_fields in
    elim (find g m) [
      | none ↦ Option.map (λ o. put g (object o) m) fresh
      | some n ↦ elim n [
        | leaf v ↦ none
        | object o ↦ Option.map (λ p. put g (object p) m) (put_below gs key value o)
      ]
    ]

unfoldable pub add_attr_to_map :
    (List Text → Text × Value → Text × Value) → List Text → Text × Value → Fields → Option Fields
add_attr_to_map replace groups given m =
    let a = replace groups given in if is_empty_attr a then some m else put_below groups a.0 a.1 m

unfoldable pub add_all :
    (List Text → Text × Value → Text × Value)
    → List Text
    → List (Text × Value)
    → Fields
    → Option Fields
add_all replace groups [] m = some m
add_all replace groups (a ∷ attrs) m = elim (add_attr_to_map replace groups a m) [
  | none ↦ none
  | some n ↦ add_all replace groups attrs n
]

abbrev pub attr_list : Attrs → List (Text × Value)
attr_list no_attrs = []
attr_list (attr key value attrs) = (key, value) ∷ attr_list attrs

abbrev pub standard_fields : LogRecord → (ℕ → Text) → Fields
standard_fields r level_text = field (str "time") (leaf (string_value r.time)) (
    field (str "level") (leaf (string_value (level_text r.level)))
      (field (str "msg") (leaf (string_value r.message)) no_fields))

module _ (level_text : ℕ → Text) where
  unfoldable pub ndjson_enabled : NdjsonHandler → ℕ → Bool
  ndjson_enabled h level = leb h.level level

  -- The map that `Handle` encodes.
  unfoldable pub record_map : NdjsonHandler → LogRecord → Option Fields
  record_map h r = elim (add_all h.replace_attr h.groups h.attrs (standard_fields r level_text)) [
    | none ↦ none
    | some m ↦ add_all h.replace_attr h.groups (attr_list r.attrs) m
  ]

  abbrev pub write_encoded :
      {E W : Type 0} → (Text → W → Option E × W) → W → Result E Text → Option E × W
  write_encoded write w (err x) = (some x, w)
  write_encoded write w (ok line) = write line w

  -- `encode` is `json.Marshal`; the answer is `none` for a panic.
  unfoldable pub handle_ndjson :
      {E W : Type 0}
      → (Fields → Result E Text)
      → (Text → W → Option E × W)
      → NdjsonHandler
      → LogRecord
      → W
      → Option (Option E × W)
  handle_ndjson encode write h r w =
      Option.map (λ m. write_encoded write w (encode m)) (record_map h r)

  unfoldable pub ndjson_with_attrs : NdjsonHandler → Attrs → NdjsonHandler
  ndjson_with_attrs h attrs = record h { attrs = h.attrs ++ attr_list attrs }

  unfoldable pub ndjson_with_group : NdjsonHandler → Text → NdjsonHandler
  ndjson_with_group h name = if name == [] then h else record h { groups = h.groups ++ name ∷ [] }
