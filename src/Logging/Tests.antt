-- ===== src/Logging/Tests.antt =====
-- A secret in a message and in a group, and a group that is named like a standard field.
use quadsyncd.Base.{
  ℕ, ◌≡◌, ◌≢◌, refl, ap, inr, false, none, List, [], ◌∷◌, All, contains, length, arith, text_eq,
  nat_eq,
}
use quadsyncd.Base.Text.{Text, str, text_code, contains_text, replace_all, replace_from}
use quadsyncd.Logging.{
  LogRecord, mark, attr, no_attrs, string_value, group_value, filter_secrets, redact_string,
  redact_record,
}
use quadsyncd.Logging.Secrets.{AttrsHide, redact_record-Hides}
use quadsyncd.Base.Text.Replace.{IsDisjoint}
use mathlib.Core.List.Memᴰ
use quadsyncd.Logging.Ndjson.{NdjsonHandler, record_map}
use quadsyncd.Logging.Ndjson.Panics.{record_map_panics}

-- An empty secret is ignored.
abbrev secrets : List Text
secrets = str "s3c" ∷ [] ∷ []

abbrev line : LogRecord
line = record {
  time = str "now";
  level = 4;
  message = str "use s3cs3c";
  attrs =
      attr (str "request") (group_value (attr (str "token") (string_value (str "xs3c")) no_attrs))
        no_attrs;
}

apart : (y : ℕ) (xs : Text) → contains xs y ≡ false → All (λ x. x ≢ y) xs
apart y [] h = tt
apart y (x ∷ xs) h = (λ e. (ground (arith, e)), apart y xs (ground arith))

disjoint : All (IsDisjoint mark) secrets
unfolding nat_eq
disjoint = ((apart b's' mark refl, (apart b'3' mark refl, (apart b'c' mark refl, tt))), (tt, tt))

redact_record-Hides_example :
    (contains_text (redact_record (filter_secrets secrets) line).message (str "s3c") ≡ false)
    × AttrsHide (str "s3c" ∷ []) (redact_record (filter_secrets secrets) line).attrs
redact_record-Hides_example =
    redact_record-Hides secrets line disjoint (str "s3c") (Memᴰ.head refl)
      (λ e. let n : ◌≡◌ {A = ℕ} 3 0 = ap length e in omega (arith, n))

redacted : (redact_record (filter_secrets secrets) line).message ≡ str "use [REDACTED][REDACTED]"
unfolding filter_secrets redact_record redact_string replace_all replace_from text_code text_eq
    nat_eq
redacted = refl

abbrev grouped : NdjsonHandler
grouped = record { level = 4; attrs = []; groups = str "msg" ∷ []; replace_attr = λ groups a. a }

panicked : record_map (λ level. str "INFO") grouped line ≡ none
unfolding text_eq
panicked =
    record_map_panics (λ level. str "INFO") grouped line (str "msg") [] refl (inr (inr refl))
      (str "request") (group_value (attr (str "token") (string_value (str "xs3c")) no_attrs))
      no_attrs refl refl
