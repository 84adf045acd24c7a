-- ===== src/Server/Broadcaster/Bounds.antt =====
-- What the broadcaster keeps is bounded: the buffers of channels and the states of runs.
use mathlib.Core.List.{Memᴰ}
use mathlib.Core.Path.{subst}
use quadsyncd.Base.{
  ℕ, suc, ◌≤◌, ◌≡◌, refl, true, false, Bool-cases, inl, inr, some, Option-cases, List, [], ◌∷◌,
  ◌++◌, length, contains, ◌==◌, All, text_eq, nat_eq, arith,
}
use quadsyncd.Base.Text.{Text}
use quadsyncd.Base.Text.Order.{text_lt}
use quadsyncd.Base.Dict.{Dict, lookup, insert, erase}
use quadsyncd.Base.Sort.{sort_by, mem-sort_by}
use quadsyncd.Base.Membership.{mem_of_contains}
use quadsyncd.Os.{Env, Disk, open_file}
use quadsyncd.FilePath.{join}
use quadsyncd.Runstore.Store.{Tree, Codec, run_names}
use quadsyncd.Server.Broadcaster.{
  SseEvent, RunTrackState, Broadcaster, new_broadcaster, subscribe, unsubscribe, offer,
  broadcast_to, broadcast, broadcast_all, receive, observe_run, put_state, check_run, check_runs,
  keep_existing, poll,
}

module _ {L : Type 0} where
  -- No channel buffers more than 64 events.
  abbrev pub Buffered : Dict ℕ (List (SseEvent L)) → Type 0
  Buffered subs = All (λ (s : ℕ × List (SseEvent L)). length s.1 ≤ 64) subs

  length-append_one :
      (xs : List (SseEvent L)) (x : SseEvent L) → length (xs ++ x ∷ []) ≡ suc (length xs)
  length-append_one [] x = refl
  length-append_one (y ∷ xs) x = omega (arith, length-append_one xs x)

  length-offer :
      (ev : SseEvent L) (xs : List (SseEvent L)) → length xs ≤ 64 → length (offer ev xs) ≤ 64
  unfolding offer
  length-offer ev xs h = ground (arith, length-append_one xs ev)

  broadcast_to-Buffered :
      (ev : SseEvent L) (subs : Dict ℕ (List (SseEvent L)))
      → Buffered subs
      → Buffered (broadcast_to ev subs)
  unfolding broadcast_to
  broadcast_to-Buffered ev [] h = tt
  broadcast_to-Buffered ev ((id, xs) ∷ subs) h =
      (length-offer ev xs h.0, broadcast_to-Buffered ev subs h.1)

  broadcast_all-Buffered :
      (evs : List (SseEvent L)) (b : Broadcaster L)
      → Buffered b.subs
      → Buffered (broadcast_all evs b).subs
  unfolding broadcast_all broadcast
  broadcast_all-Buffered [] b h = h
  broadcast_all-Buffered (ev ∷ evs) b h =
      broadcast_all-Buffered evs (broadcast ev b) (broadcast_to-Buffered ev b.subs h)

  insert-Buffered :
      (id : ℕ) (xs : List (SseEvent L)) (subs : Dict ℕ (List (SseEvent L)))
      → length xs ≤ 64
      → Buffered subs
      → Buffered (insert id xs subs)
  unfolding insert
  insert-Buffered id xs [] n h = (n, tt)
  insert-Buffered id xs ((j, ys) ∷ subs) n h = elim (Bool-cases (id == j)) [
    | inl e ↦ rw e (n, h.1)
    | inr e ↦ rw e (h.0, insert-Buffered id xs subs n h.1)
  ]

  erase-Buffered :
      (id : ℕ) (subs : Dict ℕ (List (SseEvent L))) → Buffered subs → Buffered (erase id subs)
  unfolding erase
  erase-Buffered id [] h = tt
  erase-Buffered id ((j, xs) ∷ subs) h = elim (Bool-cases (id == j)) [
    | inl e ↦ rw e (erase-Buffered id subs h.1)
    | inr e ↦ rw e (h.0, erase-Buffered id subs h.1)
  ]

  lookup-Buffered :
      (id : ℕ) (xs : List (SseEvent L)) (subs : Dict ℕ (List (SseEvent L)))
      → Buffered subs
      → lookup id subs ≡ some xs
      → length xs ≤ 64
  unfolding lookup
  lookup-Buffered id xs [] h e = cc
  lookup-Buffered id xs ((j, ys) ∷ subs) h e = elim (Bool-cases (id == j)) [
    | inl same ↦ let found : ys ≡ xs = ground arith in subst (λ zs. length zs ≤ 64) found h.0
    | inr other ↦ lookup-Buffered id xs subs h.1 (ground arith)
  ]

  receive-Buffered : (id : ℕ) (b : Broadcaster L) → Buffered b.subs → Buffered (receive id b).1.subs
  unfolding receive
  receive-Buffered id b h = elim (Option-cases (lookup id b.subs)) [
    | inl e ↦ rw (receive, e) h
    | inr (xs, e) ↦ taken xs e (lookup-Buffered id xs b.subs h e)
  ]
    where
      taken :
          (xs : List (SseEvent L))
          → lookup id b.subs ≡ some xs
          → length xs ≤ 64
          → Buffered (receive id b).1.subs
      taken [] e n = rw (receive, e) h
      taken (x ∷ xs) e n = rw (receive, e) (insert-Buffered id xs b.subs (omega arith) h)

module _ (e : Env) (h : Codec) (runs_dir : Text) where
  check_runs-Buffered :
      (ids : List Text) (disk : Disk) (b : Broadcaster h.LogRecord)
      → Buffered b.subs
      → Buffered (check_runs e h runs_dir ids disk b).subs
  unfolding check_runs check_run
  check_runs-Buffered [] disk b v = v
  check_runs-Buffered (id ∷ ids) disk b v =
      let seen = observe_run e h id (join runs_dir id) disk (lookup id b.states) in
      check_runs-Buffered ids disk (check_run e h runs_dir id disk b)
        (broadcast_all-Buffered seen.1 (record b { states = put_state e h id seen.0 b.states }) v)

  poll-Buffered :
      (t : Tree) (b : Broadcaster h.LogRecord)
      → Buffered b.subs
      → Buffered (poll e h runs_dir t b).subs
  unfolding poll
  poll-Buffered t b v = elim (Bool-cases (e.fails open_file runs_dir)) [
    | inl f ↦ rw f v
    | inr f ↦ elim (Bool-cases (contains t.dirs runs_dir)) [
      | inr c ↦ rw (f, c) v
      | inl c ↦
          rw (f, c)
            (check_runs-Buffered (sort_by text_lt (run_names e h runs_dir t.dirs)) t.disk b v)
    ]
  ]

  -- Handlers subscribe, take events and leave while the poll runs.
  pub data Use (b : Broadcaster h.LogRecord) : Broadcaster h.LogRecord → Type 0 where
    joins : (id : ℕ) → Use b (subscribe id b)
    leaves : (id : ℕ) → Use b (unsubscribe id b)
    takes : (id : ℕ) → Use b (receive id b).1
    polls : (t : Tree) → Use b (poll e h runs_dir t b)

  pub data Used : Broadcaster h.LogRecord → Type 0 where
    unused : Used new_broadcaster
    used : {b c : Broadcaster h.LogRecord} → Used b → Use b c → Used c

  Used-Buffered : {b : Broadcaster h.LogRecord} → Used b → Buffered b.subs
  unfolding new_broadcaster subscribe unsubscribe
  Used-Buffered unused = tt
  Used-Buffered (used {b} u (joins id)) =
      insert-Buffered id [] b.subs (omega arith) (Used-Buffered u)
  Used-Buffered (used {b} u (leaves id)) = erase-Buffered id b.subs (Used-Buffered u)
  Used-Buffered (used {b} u (takes id)) = receive-Buffered id b (Used-Buffered u)
  Used-Buffered (used {b} u (polls t)) = poll-Buffered t b (Used-Buffered u)

  keep_existing-keys :
      (ids : List Text) (states : Dict Text RunTrackState)
      → All (λ (s : Text × RunTrackState). Memᴰ s.0 ids) (keep_existing e h ids states)
  unfolding keep_existing
  keep_existing-keys ids [] = tt
  keep_existing-keys ids ((id, state) ∷ states) = elim (Bool-cases (contains ids id)) [
    | inl c ↦ rw c (mem_of_contains ids id c, keep_existing-keys ids states)
    | inr c ↦ rw c (keep_existing-keys ids states)
  ]

  weaken :
      (ids names : List Text) (states : Dict Text RunTrackState)
      → ((id : Text) → Memᴰ id ids → Memᴰ id names)
      → All (λ (s : Text × RunTrackState). Memᴰ s.0 ids) states
      → All (λ (s : Text × RunTrackState). Memᴰ s.0 names) states
  weaken ids names [] f v = tt
  weaken ids names (s ∷ states) f v = (f s.0 v.0, weaken ids names states f v.1)

  -- However handlers subscribe, take events and leave between polls, no channel buffers more than
  -- 64 events, also after one more poll; and when that poll can read the runs directory, every state
  -- that it keeps is that of a run that exists there.
  pub broadcaster_bounded :
      (b : Broadcaster h.LogRecord) (t : Tree)
      → Used b
      → e.fails open_file runs_dir ≡ false
      → contains t.dirs runs_dir ≡ true
      → Buffered (poll e h runs_dir t b).subs
        × All
            (λ (s : Text × RunTrackState). Memᴰ s.0 (run_names e h runs_dir t.dirs))
            (poll e h runs_dir t b).states
  unfolding poll
  broadcaster_bounded b t u f c = (poll-Buffered t b (Used-Buffered u), states_exist f c)
    where
      states_exist :
          e.fails open_file runs_dir ≡ false
          → contains t.dirs runs_dir ≡ true
          → All
              (λ (s : Text × RunTrackState). Memᴰ s.0 (run_names e h runs_dir t.dirs))
              (poll e h runs_dir t b).states
      states_exist f c =
          rw (f, c)
            (let ids = sort_by text_lt (run_names e h runs_dir t.dirs) in
              let kept = check_runs e h runs_dir ids t.disk b in
              weaken ids (run_names e h runs_dir t.dirs) (keep_existing e h ids kept.states)
                (λ id m. mem-sort_by text_lt id (run_names e h runs_dir t.dirs) m)
                (keep_existing-keys ids kept.states))
