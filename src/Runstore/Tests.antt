-- ===== src/Runstore/Tests.antt =====
-- A run that is created and read again, on a concrete disk.
use quadsyncd.Base.{
  ℕ, ◌≡◌, refl, ap, ◌↔◌, true, false, none, some, [], ok, length, text_eq, nat_eq, arith,
}
use quadsyncd.Base.Text.{Text, str, text_code}
use quadsyncd.Base.Dict.{lookup, insert, erase}
use quadsyncd.FilePath.{path_code}
use quadsyncd.Os.{Env, remove_file, rename_file}
use quadsyncd.Runstore.{RunMeta, sync_run, running, cli, is_single_element, safe_run_dir}
use quadsyncd.Runstore.Names.{IsPlain, is_single_element_iff}
use quadsyncd.Runstore.Store.{
  Tree, Codec, make_dir, write_through_temp, write_meta_atomic, create_at, create, get,
}
use quadsyncd.Runstore.Store.RoundTrip.{IsReadable, get-create}

abbrev base_dir : Text
base_dir = str "/s/runs"

abbrev run_dir : Text
run_dir = str "/s/runs/r1"

abbrev calm : Env
calm = record {
  fails = λ call path. false;
  temp_name = λ disk directory. str "/s/runs/r1/.meta.json.1";
  sha256 = λ content. content;
}

abbrev started : RunMeta
started = record {
  id = str "r1";
  kind = sync_run;
  trigger = cli;
  started_at = 5;
  ended_at = none;
  status = running;
  dry_run = false;
  revisions = [];
  conflicts = [];
  summary = [];
  error = [];
}

-- One set of metadata and its encoding.
abbrev codec : Codec
codec = record {
  LogRecord = Text;
  marshal_meta = λ m. some (str "{}");
  unmarshal_meta = λ text. some started;
  marshal_plan = λ p. none;
  unmarshal_plan = λ text. none;
  unmarshal_record = λ text. some text;
  parse_time = λ text. none;
  mod_time = λ path. none;
  generate_run_id = some (str "r1");
}

abbrev nothing : Tree
nothing = record { dirs = []; disk = [] }

is_readable : IsReadable calm codec base_dir run_dir
unfolding path_code text_code text_eq nat_eq
is_readable = (refl, refl, λ disk h. let e : ◌≡◌ {A = ℕ} 20 23 = ap length h in omega (arith, e))

created : (create calm codec base_dir (record started { id = [] }) nothing).0 ≡ ok started
unfolding create create_at make_dir write_meta_atomic write_through_temp rename_file remove_file
    safe_run_dir is_single_element lookup insert erase path_code text_code text_eq nat_eq
created = refl

safe : safe_run_dir base_dir (str "r1") ≡ ok run_dir
unfolding safe_run_dir is_single_element path_code text_code text_eq nat_eq
safe = refl

get-create_example :
    get calm codec base_dir
      (str "r1")
      (create calm codec base_dir (record started { id = [] }) nothing).1
    ≡ ok started
get-create_example =
    get-create calm codec base_dir (record started { id = [] }) started run_dir nothing
      (λ text h. refl) is_readable safe created

is_single_element_iff_example : (is_single_element (str "..") ≡ true) ↔ IsPlain (str "..")
is_single_element_iff_example = is_single_element_iff (str "..")

-- The parent directory passes as an identifier, and its run directory is above the runs.
parent_runs : safe_run_dir base_dir (str "..") ≡ ok (str "/s")
unfolding safe_run_dir is_single_element path_code text_code text_eq nat_eq
parent_runs = refl
