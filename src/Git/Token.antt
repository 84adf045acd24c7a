-- ===== src/Git/Token.antt =====
-- What stands in the arguments of the commands that a checkout runs.
use mathlib.Core.Path.{subst}
use quadsyncd.Base.{
  ◌≡◌, refl, inl, inr, Bool, true, false, Bool-cases, Option-cases, List, [], ◌∷◌, ◌++◌, All,
  Result, ok, err, Result-cases, contains, ◌/=◌, ◌&&◌, ◌||◌, text_eq,
}
use quadsyncd.Base.Text.{Text, str, has_prefix}
use quadsyncd.FilePath.{join, dir_of}
use quadsyncd.Os.{mkdir_all, read_file}
use quadsyncd.Git.{
  Command, GitError, fetch_failed, clone_failed, ShellClient, GitHost, insert_git_flags,
  credential_helper, in_dir, configure_auth, run_with_auth, update_repo, checkout_ref, reset_ref,
  head_commit, reset_from, check_out_from, ensure_checkout,
}

-- The words that the source writes out.
abbrev pub fixed_words : List Text
fixed_words =
    str "git"
    ∷ str "-C"
    ∷ str "-c"
    ∷ credential_helper
    ∷ str "clone"
    ∷ str "--no-checkout"
    ∷ str "fetch"
    ∷ str "origin"
    ∷ str "checkout"
    ∷ str "-f"
    ∷ str "reset"
    ∷ str "--hard"
    ∷ str "rev-parse"
    ∷ str "HEAD"
    ∷ []

-- A host that keeps the commands that it ran, the last first.
abbrev pub recording : {W : Type 0} → GitHost W → GitHost (W × List Command)
recording h = record {
  env = h.env;
  disk_of = λ w. h.disk_of w.0;
  exists = λ path w. h.exists path w.0;
  exec = λ cmd w. (let r = h.exec cmd w.0 in (r.0, (r.1, cmd ∷ w.1)));
}

module _ (url ref dest_dir : Text) where
  -- An argument that is a fixed word or comes from what the checkout was asked for.
  pub data IsKnown (a : Text) : Type 0 where
    word : contains fixed_words a ≡ true → IsKnown a
    the_url : a ≡ url → IsKnown a
    the_directory : a ≡ dest_dir → IsKnown a
    the_reference : a ≡ ref → IsKnown a
    the_remote : a ≡ str "origin/" ++ ref → IsKnown a

  abbrev pub AllKnown : List Command → Type 0
  AllKnown cmds = All (λ (cmd : Command). All IsKnown cmd.args) cmds

  module _ {W : Type 0} (h : GitHost W) (c : ShellClient) where
    abbrev Log : Type 0
    Log = W × List Command

    abbrev Fine : Result GitError Command → Type 0
    Fine (ok full) = All IsKnown full.args
    Fine (err x) = Unit

    insert-IsKnown :
        (args : List Text)
        → All IsKnown args
        → All IsKnown (insert_git_flags args (str "-c" ∷ credential_helper ∷ []))
    unfolding insert_git_flags text_eq
    insert-IsKnown [] known = (word refl, (word refl, tt))
    insert-IsKnown (name ∷ rest) known = (known.0, (word refl, (word refl, known.1)))

    -- Authentication adds fixed words only.
    configure_auth-Fine :
        (cmd : Command) (w : Log)
        → All IsKnown cmd.args
        → Fine (configure_auth (recording h) c cmd url w)
    unfolding configure_auth
    configure_auth-Fine cmd w known = elim (Bool-cases by_key) [
      | inl a ↦ rw a known
      | inr a ↦ elim (Bool-cases by_token) [
        | inr b ↦ rw (a, b) known
        | inl b ↦ elim (Result-cases (read_file h.env c.https_token_file (h.disk_of w.0))) [
          | inr (x, e) ↦ rw (a, b, e) tt
          | inl (token, e) ↦ rw (a, b, e) (insert-IsKnown cmd.args known)
        ]
      ]
    ]
      where
        by_key : Bool
        by_key =
            c.ssh_key_file /= [] && (has_prefix url (str "git@") || has_prefix url (str "ssh://"))

        by_token : Bool
        by_token = c.https_token_file /= [] && has_prefix url (str "https://")

    run_with_auth-known :
        (failure : GitError) (cmd : Command) (w : Log)
        → All IsKnown cmd.args
        → AllKnown w.1
        → AllKnown (run_with_auth (recording h) c failure cmd url w).1.1
    unfolding run_with_auth
    run_with_auth-known failure cmd w known log =
        elim (Result-cases (configure_auth (recording h) c cmd url w)) [
          | inr (x, e) ↦ rw (run_with_auth, e) log
          | inl (full, e) ↦
              let fine : All IsKnown full.args = subst Fine e (configure_auth-Fine cmd w known) in
              elim (Option-cases (h.exec full w.0).0) [
                | inl n ↦ rw (run_with_auth, e, n) (fine, log)
                | inr (out, n) ↦ rw (run_with_auth, e, n) (fine, log)
              ]
        ]

    in_dir-IsKnown :
        (args : List Text)
        → All IsKnown args
        → All IsKnown (in_dir (recording h) c dest_dir args).args
    unfolding text_eq
    in_dir-IsKnown args known = (word refl, (word refl, (the_directory refl, known)))

    update_repo-known :
        (exists : Bool) (w : Log)
        → AllKnown w.1
        → AllKnown (update_repo (recording h) c exists url dest_dir w).1.1
    unfolding update_repo text_eq
    update_repo-known true w log =
        run_with_auth-known fetch_failed _ w
          (in_dir-IsKnown (str "fetch" ∷ str "origin" ∷ []) (word refl, (word refl, tt))) log
    update_repo-known false w log = elim (Bool-cases (h.env.fails mkdir_all (dir_of dest_dir))) [
      | inl f ↦ rw f log
      | inr f ↦ rw f (
          run_with_auth-known clone_failed _ w
            (word refl, (word refl, (word refl, (the_url refl, (the_directory refl, tt))))) log)
    ]

    checkout_ref-known :
        (w : Log) → AllKnown w.1 → AllKnown (checkout_ref (recording h) c ref dest_dir w).1.1
    unfolding checkout_ref text_eq
    checkout_ref-known w log =
        let direct = h.exec (in_dir h c dest_dir (str "checkout" ∷ str "-f" ∷ ref ∷ [])) w.0 in
        let first =
          in_dir-IsKnown (str "checkout" ∷ str "-f" ∷ ref ∷ [])
            (word refl, (word refl, (the_reference refl, tt))) in
        let second =
          in_dir-IsKnown (str "checkout" ∷ str "-f" ∷ (str "origin/" ++ ref) ∷ [])
            (word refl, (word refl, (the_remote refl, tt))) in
        elim (Option-cases direct.0) [
          | inr (out, d) ↦ rw (checkout_ref, d) (first, log)
          | inl d ↦
              let remote =
                h.exec
                  (in_dir h c dest_dir (str "checkout" ∷ str "-f" ∷ (str "origin/" ++ ref) ∷ []))
                  direct.1 in
              elim (Option-cases remote.0) [
                | inl f ↦ rw (checkout_ref, d, f) (second, (first, log))
                | inr (out, f) ↦ rw (checkout_ref, d, f) (second, (first, log))
              ]
        ]

    reset_ref-known :
        (exists : Bool) (w : Log)
        → AllKnown w.1
        → AllKnown (reset_ref (recording h) c exists ref dest_dir w).1
    unfolding reset_ref text_eq
    reset_ref-known false w log = log
    reset_ref-known true w log = (
      in_dir-IsKnown (str "reset" ∷ str "--hard" ∷ (str "origin/" ++ ref) ∷ [])
          (word refl, (word refl, (the_remote refl, tt))),
      log,
    )

    head_commit-known :
        (w : Log) → AllKnown w.1 → AllKnown (head_commit (recording h) c dest_dir w).1.1
    unfolding head_commit text_eq
    head_commit-known w log =
        let asked =
          in_dir-IsKnown (str "rev-parse" ∷ str "HEAD" ∷ []) (word refl, (word refl, tt)) in
        elim (Option-cases
          (h.exec (in_dir h c dest_dir (str "rev-parse" ∷ str "HEAD" ∷ [])) w.0).0) [
            | inl n ↦ rw (head_commit, n) (asked, log)
            | inr (out, n) ↦ rw (head_commit, n) (asked, log)
          ]

    abbrev Step : Type 0
    Step = Result GitError (Unit {0}) × Log

    reset_from-known :
        (exists : Bool) (r : Step)
        → AllKnown r.1.1
        → AllKnown (reset_from (recording h) c exists ref dest_dir r).1.1
    reset_from-known exists (err x, w) log = log
    reset_from-known exists (ok u, w) log =
        head_commit-known (reset_ref (recording h) c exists ref dest_dir w)
          (reset_ref-known exists w log)

    check_out_from-known :
        (exists : Bool) (r : Step)
        → AllKnown r.1.1
        → AllKnown (check_out_from (recording h) c exists ref dest_dir r).1.1
    check_out_from-known exists (err x, w) log = log
    check_out_from-known exists (ok u, w) log =
        reset_from-known exists (checkout_ref (recording h) c ref dest_dir w)
          (checkout_ref-known w log)

    -- Whatever the host answers, every argument of every command that a checkout runs is a fixed word
    -- of the source, the URL, the directory, the reference, or the reference at the remote: no token
    -- and no key is ever among them.
    pub ensure_checkout-known :
        (w : W) → AllKnown (ensure_checkout (recording h) c url ref dest_dir (w, [])).1.1
    unfolding ensure_checkout
    ensure_checkout-known w =
        let exists = h.exists (join dest_dir (str ".git")) w in
        check_out_from-known exists (update_repo (recording h) c exists url dest_dir (w, []))
          (update_repo-known exists (w, []) tt)
