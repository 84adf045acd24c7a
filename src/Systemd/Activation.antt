-- ===== src/Systemd/Activation.antt =====
-- internal/activation/activation.go: the sockets that systemd passes.
use mathlib.Core.Path.{subst}
use quadsyncd.Base.{
  ℕ, zero, suc, ◌≤◌, ◌≡◌, ◌⊎◌, refl, sym, ap, ◌∙◌, Bool, true, false, not, Bool-cases, inl, inr,
  Option, none, some, List, [], ◌∷◌, Result, ok, err, ltb, ◌==◌, nat_eq, if◌then◌else◌, text_eq,
  length, arith,
}
use quadsyncd.Base.Text.{Text, str}
use quadsyncd.Base.Decimal.{ℤ, pos, negsuc, atoi}
use quadsyncd.Base.Dict.{Dict, lookup, erase}

pub data ActivationError : Type 0 where
  invalid_pid invalid_fds : ActivationError
  no_file no_listener : ℕ → ActivationError

-- The environment of the process.
abbrev pub Environment : Type 0
Environment = Dict Text Text

abbrev pub or_empty : Option Text → Text
or_empty none = []
or_empty (some t) = t

-- `os.Getenv`
abbrev pub getenv : Text → Environment → Text
getenv name vars = or_empty (lookup name vars)

abbrev pub unset_all : Environment → Environment
unset_all vars =
    erase (str "LISTEN_FDNAMES") (erase (str "LISTEN_FDS") (erase (str "LISTEN_PID") vars))

-- The process, and what `os.NewFile` and `net.FileListener` answer for a descriptor.
module _ {L : Type 0} (pid : ℕ) (new_file : ℕ → Bool) (file_listener : ℕ → Option L) where
  abbrev pub is_own : ℤ → Bool
  is_own (pos n) = n == pid
  is_own (negsuc n) = false

  -- `numFDs` where it is not less than 1
  abbrev pub count_of : ℤ → ℕ
  count_of (pos n) = n
  count_of (negsuc n) = 0

  abbrev pub cons_listener :
      ℕ → Option L → Result ActivationError (List L) → Result ActivationError (List L)
  cons_listener fd none rest = err (no_listener fd)
  cons_listener fd (some l) (err x) = err x
  cons_listener fd (some l) (ok ls) = ok (l ∷ ls)

  -- The loop, from a descriptor on.
  unfoldable pub open_from : ℕ → ℕ → Result ActivationError (List L)
  open_from fd zero = ok []
  open_from fd (suc n) =
      let rest = open_from (suc fd) n in
      if new_file fd then cons_listener fd (file_listener fd) rest else err (no_file fd)

  -- The variables are unset when every listener could be made.
  abbrev pub opened :
      Result ActivationError (List L) → Environment → Result ActivationError (List L) × Environment
  opened (err x) vars = (err x, vars)
  opened (ok ls) vars = (ok ls, unset_all vars)

  abbrev pub with_fds : Option ℤ → Environment → Result ActivationError (List L) × Environment
  with_fds none vars = (err invalid_fds, vars)
  with_fds (some i) vars =
      if ltb (count_of i) 1 then (ok [], vars) else opened (open_from 3 (count_of i)) vars

  abbrev pub with_pid : Option ℤ → Environment → Result ActivationError (List L) × Environment
  with_pid none vars = (err invalid_pid, vars)
  with_pid (some i) vars =
      if not (is_own i)
      then (ok [], vars)
      else if getenv (str "LISTEN_FDS") vars == []
      then (ok [], vars)
      else with_fds (atoi (getenv (str "LISTEN_FDS") vars)) vars

  unfoldable pub listeners : Environment → Result ActivationError (List L) × Environment
  listeners vars =
      if getenv (str "LISTEN_PID") vars == []
      then (ok [], vars)
      else with_pid (atoi (getenv (str "LISTEN_PID") vars)) vars

  -- systemd passed `n` sockets to this process.
  pub record Passed (vars : Environment) (n : ℕ) : Type 0 where
    pub own : atoi (getenv (str "LISTEN_PID") vars) ≡ some (pos pid)
    pub count : atoi (getenv (str "LISTEN_FDS") vars) ≡ some (pos n)
    pub some_passed : 1 ≤ n

  -- The sockets are those of the descriptors from `fd` on, in order.
  abbrev pub AreSockets : ℕ → List L → Type 0
  AreSockets fd [] = Unit
  AreSockets fd (l ∷ ls) =
      (new_file fd ≡ true) × (file_listener fd ≡ some l) × AreSockets (suc fd) ls

  open_from-sockets :
      (fd n : ℕ) (ls : List L) → open_from fd n ≡ ok ls → (length ls ≡ n) × AreSockets fd ls
  unfolding open_from
  open_from-sockets fd zero [] h = (refl, tt)
  open_from-sockets fd zero (l ∷ ls) h = cc
  open_from-sockets fd (suc n) ls h = elim (Bool-cases (new_file fd)) [
    | inr e ↦ absurd (
        let no : ◌≡◌ {A = Result ActivationError (List L)} (err (no_file fd)) (ok ls) =
          sym (rw (open_from, e) refl) ∙ h in
        cc)
    | inl e ↦
        let at : cons_listener fd (file_listener fd) (open_from (suc fd) n) ≡ ok ls =
          sym (rw (open_from, e) refl) ∙ h in
        opened_one fd n e (file_listener fd) refl (open_from (suc fd) n) refl ls at
          (open_from-sockets (suc fd) n)
  ]
    where
      opened_one :
          (fd n : ℕ)
          → new_file fd ≡ true
          → (o : Option L) → file_listener fd ≡ o
          → (r : Result ActivationError (List L)) → open_from (suc fd) n ≡ r
          → (ls : List L) → cons_listener fd o r ≡ ok ls
          → ((ks : List L)
              → open_from (suc fd) n ≡ ok ks
              → (length ks ≡ n) × AreSockets (suc fd) ks)
          → (length ls ≡ suc n) × AreSockets fd ls
      opened_one fd n e none f r g ls h deeper = cc
      opened_one fd n e (some l) f (err x) g ls h deeper = cc
      opened_one fd n e (some l) f (ok ks) g [] h deeper = cc
      opened_one fd n e (some l) f (ok ks) g (k ∷ ls) h deeper =
          let same : l ≡ k = cc in
          let rest : ks ≡ ls = cc in
          let (count, sockets) = deeper ls (g ∙ ap ok rest) in
          (ap suc count, (e, f ∙ ap some same, sockets))

  -- What `Listeners` may answer without an error.
  abbrev pub NothingOrSockets : Environment → List L → Environment → Type 0
  NothingOrSockets vars ls after =
      ((ls ≡ []) × (after ≡ vars))
      ⊎ (Passed vars (length ls) × AreSockets 3 ls × (after ≡ unset_all vars))

  module _ (vars : Environment) where
    abbrev Fine : Result ActivationError (List L) × Environment → Type 0
    Fine x = (ls : List L) → x.0 ≡ ok ls → NothingOrSockets vars ls x.1

    if-Fine :
        (b : Bool) (x y : Result ActivationError (List L) × Environment)
        → (b ≡ true → Fine x)
        → (b ≡ false → Fine y)
        → Fine (if b then x else y)
    if-Fine true x y f g = f refl
    if-Fine false x y f g = g refl

    nothing-Fine : Fine (ok [], vars)
    nothing-Fine ls h = inl (cc, refl)

    opened-Fine :
        (n : ℕ)
        → Passed vars n
        → (r : Result ActivationError (List L)) → open_from 3 n ≡ r
        → Fine (opened r vars)
    opened-Fine n p (err x) e ls h = cc
    opened-Fine n p (ok ks) e ls h =
        let same : ks ≡ ls = cc in
        let (count, sockets) = open_from-sockets 3 n ls (e ∙ ap ok same) in
        inr (subst (Passed vars) (sym count) p, sockets, refl)

    with_fds-Fine :
        atoi (getenv (str "LISTEN_PID") vars) ≡ some (pos pid)
        → (o : Option ℤ) → atoi (getenv (str "LISTEN_FDS") vars) ≡ o
        → Fine (with_fds o vars)
    with_fds-Fine own none e = λ ls h. cc
    with_fds-Fine own (some (negsuc n)) e = nothing-Fine
    with_fds-Fine own (some (pos n)) e =
        if-Fine (ltb n 1) (ok [], vars) (opened (open_from 3 n) vars) (λ t. nothing-Fine)
          (λ f.
            opened-Fine n (record { own = own; count = e; some_passed = ground arith })
              (open_from 3 n) refl)

    with_pid-Fine :
        (o : Option ℤ) → atoi (getenv (str "LISTEN_PID") vars) ≡ o → Fine (with_pid o vars)
    with_pid-Fine none e = λ ls h. cc
    with_pid-Fine (some (negsuc n)) e = nothing-Fine
    with_pid-Fine (some (pos n)) e =
        if-Fine (not (n == pid)) (ok [], vars) _ (λ t. nothing-Fine)
          (λ f.
            if-Fine (getenv (str "LISTEN_FDS") vars == []) (ok [], vars) _ (λ t. nothing-Fine)
              (λ g.
                let own : n ≡ pid = ground arith in
                with_fds-Fine (e ∙ ap (λ k. some (pos k)) own)
                  (atoi (getenv (str "LISTEN_FDS") vars)) refl))

    -- Without an error the answer is nothing, and the environment stays; or systemd passed sockets
    -- to this very process, the answer has the listener of every one of them, from descriptor 3 on
    -- and in order, and the variables are unset.
    pub listeners_lem :
        (ls : List L) → (listeners vars).0 ≡ ok ls → NothingOrSockets vars ls (listeners vars).1
    unfolding listeners
    listeners_lem =
        if-Fine (getenv (str "LISTEN_PID") vars == []) (ok [], vars) _ (λ t. nothing-Fine)
          (λ f. with_pid-Fine (atoi (getenv (str "LISTEN_PID") vars)) refl)
