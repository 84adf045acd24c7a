-- ===== src/Server/Broadcaster/LogLines.antt =====
-- The broadcaster streams every line of a growing log once.
use mathlib.Core.List.{append_assoc, append-nil}
use quadsyncd.Base.{
  ℕ, ◌+◌, ◌<◌, ◌≡◌, ◌≢◌, refl, sym, ap, ◌∙◌, false, Bool-cases, inl, inr, some, List, [], ◌∷◌, ◌++◌,
  All, length, drop, leb, ◌==◌, nat_eq, text_eq, arith,
}
use quadsyncd.Base.Text.{Text, split, trim_suffix}
use quadsyncd.Base.Text.Bytes.{Lacks, trim_suffix_nowhere, split_line, split-ne-nil}
use quadsyncd.Base.Dict.{lookup}
use quadsyncd.Os.{Env, Disk, File, open_file, read_data, stat}
use quadsyncd.Runstore.Store.{Codec, log_path}
use quadsyncd.Server.Broadcaster.{
  RunTrackState, SseEvent, drop_last_empty, take_line, scan_records, read_new_log_lines,
  observe_log, log_seen,
}

drop_last_empty-cons :
    (x : Text) (ps : List Text) → ps ≢ [] → drop_last_empty (x ∷ ps) ≡ x ∷ drop_last_empty ps
unfolding drop_last_empty
drop_last_empty-cons x [] h = absurd (h refl)
drop_last_empty-cons x (p ∷ ps) h = refl

length-append : (xs ys : Text) → length (xs ++ ys) ≡ length xs + length ys
length-append [] ys = omega arith
length-append (x ∷ xs) ys = omega (arith, length-append xs ys)

drop-append : (xs ys : Text) → drop (length xs) (xs ++ ys) ≡ ys
drop-append [] ys = refl
drop-append (x ∷ xs) ys = drop-append xs ys

module _ (e : Env) (h : Codec) where
  -- A line of the log, its record, and that the line is one of NDJSON.
  abbrev pub LogLine : Type 0
  LogLine = Text × h.LogRecord

  abbrev pub IsLine : LogLine → Type 0
  IsLine (line, r) =
      (Lacks b'\n' line)
      × (Lacks b'\r' line)
      × (line ≢ [])
      × (length line < 65536)
      × (h.unmarshal_record line ≡ some r)

  -- The content of a log with these lines.
  abbrev pub ndjson : List LogLine → Text
  ndjson [] = []
  ndjson ((line, r) ∷ lines) = line ++ b'\n' ∷ ndjson lines

  abbrev pub texts : List LogLine → List Text
  texts [] = []
  texts ((line, r) ∷ lines) = line ∷ texts lines

  abbrev pub records : List LogLine → List h.LogRecord
  records [] = []
  records ((line, r) ∷ lines) = r ∷ records lines

  tokens :
      (lines : List LogLine)
      → All IsLine lines
      → drop_last_empty (split b'\n' (ndjson lines)) ≡ texts lines
  unfolding drop_last_empty split text_eq
  tokens [] v = refl
  tokens ((line, r) ∷ lines) (l, v) =
      ap drop_last_empty (split_line b'\n' line (ndjson lines) l.0)
      ∙ drop_last_empty-cons line (split b'\n' (ndjson lines)) (split-ne-nil b'\n' (ndjson lines))
      ∙ ap (◌∷◌ line) (tokens lines v)

  scan_records-cons :
      (given : Text) (lines : List Text) (offset : ℕ)
      → let raw = trim_suffix given (b'\r' ∷ []) in
        scan_records e h (given ∷ lines) offset
        ≡ take_line e h offset given raw (scan_records e h lines (offset + length raw + 1))
  unfolding scan_records
  scan_records-cons given lines offset = refl

  scan_line :
      (line : Text) (lines : List Text) (offset : ℕ) (r : h.LogRecord)
      → IsLine (line, r)
      → let rest = scan_records e h lines (offset + length line + 1) in
        scan_records e h (line ∷ lines) offset ≡ (r ∷ rest.0, rest.1)
  scan_line line lines offset r (no_end, no_return, ne, short, parsed) =
      let fits : leb 65536 (length line) ≡ false = ground arith in
      let filled : (line == []) ≡ false = ground (arith, ne) in
      scan_records-cons line lines offset
      ∙ ap (λ raw. take_line e h offset line raw (scan_records e h lines (offset + length raw + 1)))
          (trim_suffix_nowhere b'\r' line no_return)
      ∙ rw (fits, filled, parsed) refl

  scanned :
      (lines : List LogLine) (offset : ℕ)
      → All IsLine lines
      → scan_records e h (texts lines) offset ≡ (records lines, offset + length (ndjson lines))
  unfolding scan_records
  scanned [] offset v = let end : offset + 0 ≡ offset = omega arith in rw end refl
  scanned ((line, r) ∷ lines) offset (l, v) =
      let end : offset + length line + 1 + length (ndjson lines)
          ≡ offset + length (line ++ b'\n' ∷ ndjson lines) =
        omega (arith, length-append line (b'\n' ∷ ndjson lines)) in
      scan_line line (texts lines) offset r l
      ∙ ap (λ (x : List h.LogRecord × ℕ). (r ∷ x.0, x.1))
          (scanned lines (offset + length line + 1) v)
      ∙ ap (λ n. (r ∷ records lines, n)) end

  ndjson-append : (xs ys : List LogLine) → ndjson (xs ++ ys) ≡ ndjson xs ++ ndjson ys
  ndjson-append [] ys = refl
  ndjson-append ((line, r) ∷ xs) ys =
      ap (λ t. line ++ b'\n' ∷ t) (ndjson-append xs ys)
      ∙ sym (append_assoc line (b'\n' ∷ ndjson xs) (ndjson ys))

  records-append : (xs ys : List LogLine) → records (xs ++ ys) ≡ records xs ++ records ys
  records-append [] ys = refl
  records-append ((line, r) ∷ xs) ys = ap (◌∷◌ r) (records-append xs ys)

  records_of_nothing : (lines : List LogLine) → length (ndjson lines) ≡ 0 → records lines ≡ []
  records_of_nothing [] n = refl
  records_of_nothing ((line, r) ∷ lines) n =
      absurd (omega (arith, length-append line (b'\n' ∷ ndjson lines)))

  -- The log stands on disk with these lines, and can be read.
  abbrev pub HoldsLog : Text → List LogLine → Disk → Type 0
  HoldsLog path lines disk =
      (f : File) × (lookup path disk ≡ some f)
      × (f.content ≡ ndjson lines)
      × (e.fails open_file path ≡ false)
      × (e.fails stat path ≡ false)
      × (e.fails read_data path ≡ false)

  read_new_log_lines_exact :
      (path : Text) (done new : List LogLine) (disk : Disk)
      → HoldsLog path (done ++ new) disk
      → All IsLine new
      → read_new_log_lines e h path (length (ndjson done)) disk
        ≡ (records new, length (ndjson (done ++ new)))
  unfolding read_new_log_lines
  read_new_log_lines_exact path done new disk (f, at, content, o, st, rd) v =
      let whole : f.content ≡ ndjson done ++ ndjson new = content ∙ ndjson-append done new in
      let size : length (ndjson (done ++ new)) ≡ length (ndjson done) + length (ndjson new) =
        ap length (ndjson-append done new) ∙ length-append (ndjson done) (ndjson new) in
      let behind : drop (length (ndjson done)) f.content ≡ ndjson new =
        ap (drop (length (ndjson done))) whole ∙ drop-append (ndjson done) (ndjson new) in
      let total : length f.content ≡ length (ndjson done) + length (ndjson new) =
        ap length whole ∙ length-append (ndjson done) (ndjson new) in
      elim (Bool-cases (leb (length f.content) (length (ndjson done)))) [
        | inl all ↦
            let none_new : length (ndjson new) ≡ 0 = ground arith in
            let same : length (ndjson done) ≡ length (ndjson (done ++ new)) = omega arith in
            rw (o, at, st, all) (λ i. (sym (records_of_nothing new none_new) i, same i))
        | inr more ↦
            rw (o, at, st, more, rd, behind, tokens new v)
              (scanned new (length (ndjson done)) v ∙ ap (λ n. (records new, n)) (sym size))
      ]

  -- The log of a run at successive polls, which only grows, by lines that are not in `done`.
  abbrev pub Grows : Text → List LogLine → List Disk → List LogLine → Type 0
  Grows path done [] added = added ≡ []
  Grows path done (disk ∷ disks) added =
      (new later : List LogLine) × (added ≡ new ++ later)
      × All IsLine new
      × HoldsLog path (done ++ new) disk
      × Grows path (done ++ new) disks later

  abbrev pub event_lines : List (SseEvent h.LogRecord) → List h.LogRecord
  event_lines [] = []
  event_lines (ev ∷ evs) = ev.payload.lines ++ event_lines evs

  -- The records of the events of `observeLog` on one disk after another.
  unfoldable pub streamed : Text → Text → List Disk → RunTrackState → List h.LogRecord
  streamed run_id run_dir [] state = []
  streamed run_id run_dir (disk ∷ disks) state =
      let seen = observe_log e h run_id run_dir disk state in
      event_lines seen.1 ++ streamed run_id run_dir disks seen.0

  observe_log-read :
      (run_id run_dir : Text) (disk : Disk) (state : RunTrackState) (done new : List LogLine)
      → state.log_offset ≡ length (ndjson done)
      → HoldsLog (log_path run_dir) (done ++ new) disk
      → All IsLine new
      → observe_log e h run_id run_dir disk state
        ≡ log_seen e h run_id state (records new, length (ndjson (done ++ new)))
  unfolding observe_log
  observe_log-read run_id run_dir disk state done new at holds v =
      ap (λ n. log_seen e h run_id state (read_new_log_lines e h (log_path run_dir) n disk)) at
      ∙ ap (log_seen e h run_id state)
          (read_new_log_lines_exact (log_path run_dir) done new disk holds v)

  observe_log-exact :
      (run_id run_dir : Text) (disk : Disk) (state : RunTrackState) (done new : List LogLine)
      → state.log_offset ≡ length (ndjson done)
      → HoldsLog (log_path run_dir) (done ++ new) disk
      → All IsLine new
      → (event_lines (observe_log e h run_id run_dir disk state).1 ≡ records new)
        × ((observe_log e h run_id run_dir disk state).0.log_offset ≡ length (ndjson (done ++ new)))
  observe_log-exact run_id run_dir disk state done [] at holds v =
      let seen : observe_log e h run_id run_dir disk state ≡ (state, []) =
        observe_log-read run_id run_dir disk state done [] at holds v in
      rw seen (refl, at ∙ ap (λ l. length (ndjson l)) (sym (append-nil done)))
  observe_log-exact run_id run_dir disk state done ((line, r) ∷ new) at holds v =
      rw (observe_log-read run_id run_dir disk state done ((line, r) ∷ new) at holds v)
        (append-nil (r ∷ records new), refl)

  -- However the log of a run grows from poll to poll, by whole lines of NDJSON that are shorter than
  -- 64 KiB, the events of the polls carry the records of the new lines, each once and in order.
  pub streamed_complete :
      (run_id run_dir : Text) (disks : List Disk) (state : RunTrackState)
      (done added : List LogLine)
      → state.log_offset ≡ length (ndjson done)
      → Grows (log_path run_dir) done disks added
      → streamed run_id run_dir disks state ≡ records added
  unfolding streamed
  streamed_complete run_id run_dir [] state done added at g = rw g refl
  streamed_complete run_id run_dir (disk ∷ disks) state done added at
        (new, later, split_up, v, holds, g) =
      let (lines, offset) = observe_log-exact run_id run_dir disk state done new at holds v in
      rw (lines, split_up, records-append)
        (ap (λ rest. records new ++ rest)
          (streamed_complete run_id run_dir disks (observe_log e h run_id run_dir disk state).0
            (done ++ new) later offset g))
