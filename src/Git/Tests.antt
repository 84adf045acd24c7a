-- ===== src/Git/Tests.antt =====
-- A path with a quote and a space, and a clone with a token.
use quadsyncd.Base.{◌≡◌, refl, false, some, [], ◌∷◌, ◌++◌, ok, drop, text_eq, nat_eq, arith}
use quadsyncd.Base.Text.{str, text_code}
use quadsyncd.Base.Dict.{lookup}
use quadsyncd.FilePath.{path_code}
use quadsyncd.Os.{Disk, read_file, open_source}
use quadsyncd.Git.{
  ShellClient, GitHost, shell_quote, ssh_command, ensure_checkout, update_repo, run_with_auth,
  configure_auth, insert_git_flags, checkout_ref, reset_ref, head_commit, trim_space, trim_left,
}
use quadsyncd.Git.Quote.{read_word, read_word-shell_quote}
use quadsyncd.Git.Token.{AllKnown, recording, ensure_checkout-known}

read_word-shell_quote_example :
    (read_word false (shell_quote (str "/home/o'neil/my key") ++ str " -v")
      ≡ some (str "/home/o'neil/my key", str " -v"))
    × (read_word false (drop 7 (ssh_command (str "/home/o'neil/my key")))
        ≡ some (str "/home/o'neil/my key", str " -o StrictHostKeyChecking=accept-new -F /dev/null"))
read_word-shell_quote_example =
    read_word-shell_quote (str "/home/o'neil/my key") (str " -v") (ground arith)

abbrev host : GitHost Disk
host = record {
  env = record {
    fails = λ call path. false;
    temp_name = λ disk directory. directory;
    sha256 = λ content. content;
  };
  disk_of = λ w. w;
  exists = λ path w. false;
  exec = λ cmd w. (some (str "c0ffee\n"), w);
}

abbrev client : ShellClient
client = record { ssh_key_file = []; https_token_file = str "/token" }

abbrev disk : Disk
disk = (str "/token", record { content = str "t0k3n\n"; mode = 0o600 }) ∷ []

ensure_checkout-known_example :
    AllKnown
      (str "https://git.example/a")
      (str "main")
      (str "/s/repo")
      (ensure_checkout
        (recording host)
        client
        (str "https://git.example/a")
        (str "main")
        (str "/s/repo")
        (disk, [])).1.1
ensure_checkout-known_example =
    ensure_checkout-known (str "https://git.example/a") (str "main") (str "/s/repo") host client
      disk

-- The clone gets the token in its environment, and the commit is answered without its line end.
checked_out :
    (ensure_checkout
      (recording host)
      client
      (str "https://git.example/a")
      (str "main")
      (str "/s/repo")
      (disk, [])).0
    ≡ ok (str "c0ffee")
unfolding ensure_checkout update_repo run_with_auth configure_auth insert_git_flags checkout_ref
    reset_ref head_commit trim_space trim_left read_file open_source lookup path_code text_code
    text_eq nat_eq
checked_out = refl
