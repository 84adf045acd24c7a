-- ===== src/FilePath.antt =====
-- What the source uses of Go's package `path/filepath` on Unix, by the rules that it documents.
pub mod Clean
pub mod Under
use mathlib.Core.List.{reverse}
use quadsyncd.Base.{
  ℕ, ◌≡◌, refl, Bool, true, false, Option, none, some, List, [], ◌∷◌, ◌++◌, map, ◌==◌, nat_eq,
  text_eq, contains, if◌then◌else◌,
}
use quadsyncd.Base.Text.{Text, str, split}

abbrev pub slash : ℕ
slash = b'/'

abbrev pub dot : Text
dot = b'.' ∷ []

abbrev pub dot_dot : Text
dot_dot = b'.' ∷ b'.' ∷ []

-- `filepath.IsAbs`
unfoldable pub is_abs : Text → Bool
is_abs [] = false
is_abs (x ∷ xs) = x == slash

-- `strings.Join(parts, "/")`
unfoldable pub join_parts : List Text → Text
join_parts [] = []
join_parts (p ∷ []) = p
join_parts (p ∷ q ∷ ps) = p ++ slash ∷ join_parts (q ∷ ps)

-- `..` takes back the element before it, if that is a name. At the root it is dropped.
unfoldable pub back : Bool → List Text → List Text
back true [] = []
back false [] = dot_dot ∷ []
back rooted (t ∷ ts) = if t == dot_dot then dot_dot ∷ t ∷ ts else ts

-- One element of a path, on the reversed list of the elements kept so far.
unfoldable pub clean_step : Bool → List Text → Text → List Text
clean_step rooted stack p =
    if p == []
    then stack
    else if p == dot
    then stack
    else if p == dot_dot
    then back rooted stack
    else p ∷ stack

unfoldable pub clean_loop : Bool → List Text → List Text → List Text
clean_loop rooted stack [] = stack
clean_loop rooted stack (p ∷ ps) = clean_loop rooted (clean_step rooted stack p) ps

unfoldable pub clean_parts : Text → List Text
clean_parts s = reverse (clean_loop (is_abs s) [] (split slash s))

-- `.` for the path with no elements
abbrev pub or_dot : Text → Text
or_dot [] = dot
or_dot (x ∷ xs) = x ∷ xs

-- `filepath.Clean`
unfoldable pub clean : Text → Text
clean s = let body = join_parts (clean_parts s) in if is_abs s then slash ∷ body else or_dot body

-- `filepath.Join` of two elements
unfoldable pub join : Text → Text → Text
join [] [] = []
join [] (y ∷ ys) = clean (y ∷ ys)
join (x ∷ xs) [] = clean (x ∷ xs)
join (x ∷ xs) (y ∷ ys) = clean ((x ∷ xs) ++ slash ∷ y ∷ ys)

-- What stands behind the last slash, or all of it.
unfoldable pub last_element : Text → Text
last_element [] = []
last_element (x ∷ xs) =
    let rest = last_element xs in
    if contains xs slash then rest else if x == slash then xs else x ∷ xs

-- The text without its trailing slashes.
unfoldable pub strip_slashes : Text → Text
strip_slashes [] = []
strip_slashes (x ∷ xs) =
    let rest = strip_slashes xs in
    elim rest [ [] ↦ if x == slash then [] else x ∷ [] | y ∷ ys ↦ x ∷ y ∷ ys ]

abbrev pub or_slash : Text → Text
or_slash [] = slash ∷ []
or_slash (x ∷ xs) = x ∷ xs

-- `filepath.Base`
unfoldable pub base : Text → Text
base [] = dot
base (x ∷ xs) = or_slash (last_element (strip_slashes (x ∷ xs)))

-- `filepath.Ext`: from the last dot behind the last slash.
unfoldable pub ext : Text → Text
ext [] = []
ext (x ∷ xs) =
    let rest = ext xs in
    elim rest [
      | [] ↦ if contains xs slash then [] else if x == b'.' then x ∷ xs else []
      | y ∷ ys ↦ y ∷ ys
    ]

-- What is left of two lists of elements behind those that they share.
unfoldable pub strip_common : List Text → List Text → List Text × List Text
strip_common [] ts = ([], ts)
strip_common (b ∷ bs) [] = (b ∷ bs, [])
strip_common (b ∷ bs) (t ∷ ts) =
    let rest = strip_common bs ts in if b == t then rest else (b ∷ bs, t ∷ ts)

unfoldable pub climb : List Text → List Text → Option Text
climb [] ts = some (or_dot (join_parts ts))
climb (b ∷ bs) ts =
    if b == dot_dot then none else some (join_parts (map (λ _. dot_dot) (b ∷ bs) ++ ts))

unfoldable pub to_last_slash : Text → Text
to_last_slash [] = []
to_last_slash (c ∷ path) =
    let rest = to_last_slash path in if contains (c ∷ path) slash then c ∷ rest else []

-- `filepath.Dir`
unfoldable pub dir_of : Text → Text
dir_of path = clean (to_last_slash path)

-- `filepath.Rel`, with `none` for its error
unfoldable pub rel : Text → Text → Option Text
rel b t =
    let (bs, ts) = strip_common (clean_parts b) (clean_parts t) in
    if is_abs b
    then (if is_abs t then climb bs ts else none)
    else (if is_abs t then none else climb bs ts)

-- What a run of the functions above computes with.
unfoldable pub path_code : Unit {0}
unfolding is_abs join_parts back clean_step clean_loop clean_parts clean join last_element
    strip_slashes base ext strip_common climb rel split nat_eq text_eq
path_code = tt

clean_runs :
    (clean (str "a//b/./../c/") ≡ str "a/c")
    × (clean (str "/../x") ≡ str "/x")
    × (clean (str "../../x/..") ≡ str "../..")
    × (clean (str "a/..") ≡ str ".")
unfolding path_code
clean_runs = (refl, refl, refl, refl)

names_run :
    (base (str "/q/app.container") ≡ str "app.container")
    × (base (str "a/b//") ≡ str "b")
    × (base (str "..") ≡ str "..")
    × (ext (str "x.d/app.tar.gz") ≡ str ".gz")
    × (ext (str "x.d/app") ≡ [])
unfolding path_code
names_run = (refl, refl, refl, refl, refl)

rel_runs :
    (rel (str "/q/d") (str "/q/d/a/b.pod") ≡ some (str "a/b.pod"))
    × (rel (str "/q/d") (str "/q/x") ≡ some (str "../x"))
    × (rel (str "/q") (str "q") ≡ none)
unfolding path_code
rel_runs = (refl, refl, refl)
