-- ===== src/Logging/Tee.antt =====
-- The tee gives a record to every handler that is enabled for it, whatever the others answer.
use quadsyncd.Base.{
  ℕ, ◌≡◌, refl, ap, ◌∙◌, inl, inr, false, Bool-cases, Option, none, List, [], ◌∷◌, keep, arith,
}
use quadsyncd.Logging.{LogRecord, LogHandler, tee_enabled, later_error, tee_loop, tee}

module _ {E W : Type 0} where
  -- All handlers of a list, one after the other, with the last error.
  abbrev pub handle_each : List (LogHandler E W) → LogRecord → Option E → W → Option E × W
  handle_each [] r last w = (last, w)
  handle_each (h ∷ hs) r last w =
      handle_each hs r (later_error last (h.handle r w).0) (h.handle r w).1

  tee_loop-each :
      (hs : List (LogHandler E W)) (r : LogRecord) (last : Option E) (w : W)
      → tee_loop hs r last w ≡ handle_each (keep (λ h. h.enabled r.level) hs) r last w
  unfolding tee_loop
  tee_loop-each [] r last w = refl
  tee_loop-each (h ∷ hs) r last w = elim (Bool-cases (h.enabled r.level)) [
    | inl e ↦ rw (e, keep) (tee_loop-each hs r (later_error last (h.handle r w).0) (h.handle r w).1)
    | inr e ↦ rw (e, keep) (tee_loop-each hs r last w)
  ]

  keep_nil-disabled :
      (hs : List (LogHandler E W)) (level : ℕ)
      → tee_enabled hs level ≡ false
      → keep (λ (h : LogHandler E W). h.enabled level) hs ≡ []
  unfolding tee_enabled
  keep_nil-disabled [] level d = refl
  keep_nil-disabled (h ∷ hs) level d = elim (Bool-cases (h.enabled level)) [
    | inl e ↦ ground (arith, e)
    | inr e ↦ rw (e, keep) (keep_nil-disabled hs level (ground (arith, e)))
  ]

  -- The tee is its handlers that are enabled for the level of the record, one after the other: each
  -- gets the record, an error of one does not keep it from the next, and the last error is the
  -- answer. A tee that is not enabled for a level has no handler that is, and does nothing.
  pub tee-handle_each :
      (hs : List (LogHandler E W)) (r : LogRecord) (w : W)
      → ((tee hs).handle r w ≡ handle_each (keep (λ h. h.enabled r.level) hs) r none w)
        × ((tee hs).enabled r.level ≡ false → (tee hs).handle r w ≡ (none, w))
  unfolding tee
  tee-handle_each hs r w = (
    tee_loop-each hs r none w,
    λ d.
        (tee_loop-each hs r none w
          ∙ ap (λ kept. handle_each kept r none w) (keep_nil-disabled hs r.level d)),
  )
