-- ===== src/Logging.antt =====
-- internal/logging: redaction of secrets, the tee, and the handler that writes NDJSON.
pub mod Secrets
pub mod Tee
pub mod Ndjson
mod Tests
use mathlib.Core.Option
use quadsyncd.Base.{
  ℕ, Bool, true, false, ◌||◌, Option, none, some, List, [], ◌∷◌, ◌++◌, keep, Result, ok, err, leb,
  ◌==◌, ◌/=◌, if◌then◌else◌, text_eq,
}
use quadsyncd.Base.Text.{Text, str, replace_all}

-- The attributes of slog: strings, groups, and any other value, by its encoding.
mutual
  pub data Value : Type 0 where
    string_value : Text → Value
    group_value : Attrs → Value
    other_value : Text → Value

  pub data Attrs : Type 0 where
    no_attrs : Attrs
    attr : Text → Value → Attrs → Attrs

-- Levels are numbers with the smallest `int` at 0.
pub record LogRecord : Type 0 where
  pub time : Text
  pub level : ℕ
  pub message : Text
  pub attrs : Attrs

abbrev pub mark : Text
mark = str "[REDACTED]"

-- `NewRedactingHandler` ignores secrets that are empty.
unfoldable pub filter_secrets : List Text → List Text
filter_secrets secrets = keep (λ s. s /= []) secrets

unfoldable pub redact_string : List Text → Text → Text
redact_string [] s = s
redact_string (secret ∷ secrets) s = redact_string secrets (replace_all s secret mark)

module _ (secrets : List Text) where
  unfoldable mutual
    pub redact_value : Value → Value
    redact_value (string_value s) = string_value (redact_string secrets s)
    redact_value (group_value attrs) = group_value (redact_attrs attrs)
    redact_value (other_value v) = other_value v

    pub redact_attrs : Attrs → Attrs
    redact_attrs no_attrs = no_attrs
    redact_attrs (attr key value attrs) = attr key (redact_value value) (redact_attrs attrs)

-- `Handle` of the redacting handler, up to the handler behind it.
unfoldable pub redact_record : List Text → LogRecord → LogRecord
redact_record [] r = r
redact_record (s ∷ ss) r = record r {
  message = redact_string (s ∷ ss) r.message;
  attrs = redact_attrs (s ∷ ss) r.attrs;
}

-- A handler that writes to a world `W`, and may fail with an error of `E`.
pub record LogHandler (E W : Type 0) : Type 0 where
  pub enabled : ℕ → Bool
  pub handle : LogRecord → W → Option E × W
  pub with_attrs : Attrs → W → W

abbrev pub later_error {ℓ} : {E : Type ℓ} → Option E → Option E → Option E
later_error last none = last
later_error last (some e) = some e

module _ {E W : Type 0} where
  unfoldable pub redacting : List Text → LogHandler E W → LogHandler E W
  redacting secrets inner =
      let kept = filter_secrets secrets in
      record {
        enabled = inner.enabled;
        handle = λ r w. inner.handle (redact_record kept r) w;
        with_attrs = λ attrs w. inner.with_attrs (redact_attrs kept attrs) w;
      }

  unfoldable pub tee_enabled : List (LogHandler E W) → ℕ → Bool
  tee_enabled [] level = false
  tee_enabled (h ∷ hs) level = h.enabled level || tee_enabled hs level

  -- The loop of `Handle`, with the last error so far.
  unfoldable pub tee_loop : List (LogHandler E W) → LogRecord → Option E → W → Option E × W
  tee_loop [] r last w = (last, w)
  tee_loop (h ∷ hs) r last w =
      let given = h.handle r w in
      let handled = tee_loop hs r (later_error last given.0) given.1 in
      let skipped = tee_loop hs r last w in if h.enabled r.level then handled else skipped

  unfoldable pub tee_attrs : List (LogHandler E W) → Attrs → W → W
  tee_attrs [] attrs w = w
  tee_attrs (h ∷ hs) attrs w = tee_attrs hs attrs (h.with_attrs attrs w)

  unfoldable pub tee : List (LogHandler E W) → LogHandler E W
  tee hs = record {
    enabled = tee_enabled hs;
    handle = λ r w. tee_loop hs r none w;
    with_attrs = λ attrs w. tee_attrs hs attrs w;
  }
