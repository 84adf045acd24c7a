-- ===== src/Git.antt =====
-- internal/git/git.go: checkouts by the git command.
pub mod Quote
pub mod Token
mod Tests
use mathlib.Core.List.{reverse}
use quadsyncd.Base.{
  ℕ, Bool, true, false, not, ◌&&◌, ◌||◌, Option, none, some, List, [], ◌∷◌, ◌++◌, Result, ok, err,
  contains, ◌==◌, ◌/=◌, if◌then◌else◌, text_eq, nat_eq,
}
use quadsyncd.Base.Text.{Text, str, has_prefix, replace_all}
use quadsyncd.FilePath.{join, dir_of}
use quadsyncd.Os.{Env, Disk, mkdir_all, read_file}

-- A command as it is run: its arguments, with its name, and what is added to the environment.
pub record Command : Type 0 where
  pub args : List Text
  pub added_env : List Text

pub data GitError : Type 0 where
  no_parent_directory token_unreadable clone_failed fetch_failed checkout_failed : GitError
  rev_parse_failed : GitError

pub record ShellClient : Type 0 where
  pub ssh_key_file : Text
  pub https_token_file : Text

-- `strings.TrimSpace` for ASCII
abbrev pub is_space : ℕ → Bool
is_space c = contains (b' ' ∷ b'\t' ∷ b'\n' ∷ b'\r' ∷ 11 ∷ 12 ∷ []) c

unfoldable pub trim_left : Text → Text
trim_left [] = []
trim_left (c ∷ cs) = let rest = trim_left cs in if is_space c then rest else c ∷ cs

unfoldable pub trim_space : Text → Text
unfolding trim_left
trim_space t = reverse (trim_left (reverse (trim_left t)))

unfoldable pub insert_git_flags : List Text → List Text → List Text
insert_git_flags [] flags = flags
insert_git_flags (name ∷ rest) flags = name ∷ (flags ++ rest)

-- `'` ends the quotes, `\'` is a quote of its own, and `'` begins them again.
unfoldable pub shell_quote : Text → Text
shell_quote s = b'\'' ∷ (replace_all s (str "'") (str "'\\''") ++ b'\'' ∷ [])

unfoldable pub ssh_command : Text → Text
ssh_command key_file =
    str "ssh -i "
    ++ (shell_quote key_file ++ str " -o StrictHostKeyChecking=accept-new -F /dev/null")

abbrev pub credential_helper : Text
credential_helper =
    str
      "credential.helper=!f() { echo \"username=x-access-token\"; echo \"password=$QUADSYNCD_GIT_TOKEN\"; }; f"

-- The operating system: the files, what paths there are, and the run of a command, which answers
-- with its output unless it fails.
pub record GitHost (W : Type 0) : Type 0 where
  pub env : Env
  pub disk_of : W → Disk
  pub exists : Text → W → Bool
  pub exec : Command → W → Option Text × W

module _ {W : Type 0} (h : GitHost W) (c : ShellClient) where
  unfoldable pub configure_auth : Command → Text → W → Result GitError Command
  configure_auth cmd url w =
      if c.ssh_key_file /= [] && (has_prefix url (str "git@") || has_prefix url (str "ssh://"))
      then ok (record cmd {
        added_env = cmd.added_env ++ (str "GIT_SSH_COMMAND=" ++ ssh_command c.ssh_key_file) ∷ [];
      })
      else if c.https_token_file /= [] && has_prefix url (str "https://")
      then elim (read_file h.env c.https_token_file (h.disk_of w)) [
        | err x ↦ err token_unreadable
        | ok token ↦ ok (record {
          args = insert_git_flags cmd.args (str "-c" ∷ credential_helper ∷ []);
          added_env =
              cmd.added_env
              ++ str "GIT_TERMINAL_PROMPT=0"
                ∷ (str "QUADSYNCD_GIT_TOKEN=" ++ trim_space token)
                ∷ [];
        })
      ]
      else ok cmd

  abbrev pub plain : List Text → Command
  plain args = record { args = args; added_env = [] }

  abbrev pub in_dir : Text → List Text → Command
  in_dir dest_dir args = plain (str "git" ∷ str "-C" ∷ dest_dir ∷ args)

  -- A command with authentication, and its error if it fails.
  unfoldable pub run_with_auth : GitError → Command → Text → W → Result GitError (Unit {0}) × W
  run_with_auth failure cmd url w = elim (configure_auth cmd url w) [
    | err x ↦ (err x, w)
    | ok full ↦
        let r = h.exec full w in elim r.0 [ none ↦ (err failure, r.1) | some out ↦ (ok tt, r.1) ]
  ]

  -- The clone, or the fetch where there is a repository.
  unfoldable pub update_repo : Bool → Text → Text → W → Result GitError (Unit {0}) × W
  update_repo exists url dest_dir w =
      if exists
      then run_with_auth fetch_failed (in_dir dest_dir (str "fetch" ∷ str "origin" ∷ [])) url w
      else if h.env.fails mkdir_all (dir_of dest_dir)
      then (err no_parent_directory, w)
      else run_with_auth clone_failed
          (plain (str "git" ∷ str "clone" ∷ str "--no-checkout" ∷ url ∷ dest_dir ∷ [])) url w

  -- The reference itself, or else the branch of the remote.
  unfoldable pub checkout_ref : Text → Text → W → Result GitError (Unit {0}) × W
  checkout_ref ref dest_dir w =
      let direct = h.exec (in_dir dest_dir (str "checkout" ∷ str "-f" ∷ ref ∷ [])) w in
      elim direct.0 [
        | some out ↦ (ok tt, direct.1)
        | none ↦
            let remote =
              h.exec (in_dir dest_dir (str "checkout" ∷ str "-f" ∷ (str "origin/" ++ ref) ∷ []))
                direct.1 in
            elim remote.0 [ none ↦ (err checkout_failed, remote.1) | some out ↦ (ok tt, remote.1) ]
      ]

  -- A reset that fails is no error.
  unfoldable pub reset_ref : Bool → Text → Text → W → W
  reset_ref exists ref dest_dir w =
      let r =
        h.exec (in_dir dest_dir (str "reset" ∷ str "--hard" ∷ (str "origin/" ++ ref) ∷ [])) w in
      if exists then r.1 else w

  unfoldable pub head_commit : Text → W → Result GitError Text × W
  head_commit dest_dir w =
      let r = h.exec (in_dir dest_dir (str "rev-parse" ∷ str "HEAD" ∷ [])) w in
      elim r.0 [ none ↦ (err rev_parse_failed, r.1) | some out ↦ (ok (trim_space out), r.1) ]

  -- Behind the checkout of the reference.
  abbrev pub reset_from :
      Bool → Text → Text → Result GitError (Unit {0}) × W → Result GitError Text × W
  reset_from exists ref dest_dir (err x, w) = (err x, w)
  reset_from exists ref dest_dir (ok u, w) = head_commit dest_dir (reset_ref exists ref dest_dir w)

  -- Behind the clone or the fetch.
  abbrev pub check_out_from :
      Bool → Text → Text → Result GitError (Unit {0}) × W → Result GitError Text × W
  check_out_from exists ref dest_dir (err x, w) = (err x, w)
  check_out_from exists ref dest_dir (ok u, w) =
      reset_from exists ref dest_dir (checkout_ref ref dest_dir w)

  unfoldable pub ensure_checkout : Text → Text → Text → W → Result GitError Text × W
  ensure_checkout url ref dest_dir w =
      let exists = h.exists (join dest_dir (str ".git")) w in
      check_out_from exists ref dest_dir (update_repo exists url dest_dir w)
