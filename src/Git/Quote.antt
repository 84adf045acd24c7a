-- ===== src/Git/Quote.antt =====
-- The shell reads a quoted path as the path.
use mathlib.Core.List.{append_assoc}
use quadsyncd.Base.{
  ℕ, ◌≡◌, refl, ap, ◌∙◌, inl, inr, Bool, true, false, Bool-cases, Option, none, some, [], ◌∷◌, ◌++◌,
  ◌==◌, contains, drop, if◌then◌else◌, nat_eq, arith,
}
use quadsyncd.Base.Text.{Text, str, replace_from, replace_all, has_prefix, cut_prefix}
use quadsyncd.Git.{shell_quote, ssh_command, is_space}

-- The first word that a POSIX shell reads, and what follows it. `quoted` says whether a single
-- quote is open. Bytes that begin anything else in a shell are not read.
abbrev pub is_special : ℕ → Bool
is_special c = contains (str "\"$`|&;<>()*?[]#~=%!{}") c

abbrev pub one_more : ℕ → Option (Text × Text) → Option (Text × Text)
one_more c none = none
one_more c (some (word, rest)) = some (c ∷ word, rest)

unfoldable pub read_word : Bool → Text → Option (Text × Text)
read_word true [] = none
read_word false [] = some ([], [])
read_word true (c ∷ cs) =
    let closed = read_word false cs in
    let more = read_word true cs in if c == b'\'' then closed else one_more c more
read_word false (c ∷ []) =
    if c == b'\''
    then none
    else if is_space c
    then some ([], c ∷ [])
    else if c == b'\\'
    then none
    else if is_special c
    then none
    else some (c ∷ [], [])
read_word false (c ∷ d ∷ cs) =
    let opened = read_word true (d ∷ cs) in
    let escaped = read_word false cs in
    let more = read_word false (d ∷ cs) in
    if c == b'\''
    then opened
    else if is_space c
    then some ([], c ∷ d ∷ cs)
    else if c == b'\\'
    then one_more d escaped
    else if is_special c
    then none
    else one_more c more

-- What can follow a word.
abbrev pub IsEnd : Text → Type 0
IsEnd [] = Unit
IsEnd (c ∷ cs) = is_space c ≡ true

is_space-not_quote : (c : ℕ) → is_space c ≡ true → (c == b'\'') ≡ false
is_space-not_quote c h = ground arith

end_word : (rest : Text) → IsEnd rest → read_word false rest ≡ some ([], rest)
unfolding read_word
end_word [] h = refl
end_word (c ∷ []) h = rw (is_space-not_quote c h, h) refl
end_word (c ∷ d ∷ cs) h = rw (is_space-not_quote c h, h) refl

abbrev quoted : Text → Text
quoted s = replace_all s (str "'") (str "'\\''")

quoted_quote : (cs : Text) → quoted (b'\'' ∷ cs) ≡ str "'\\''" ++ quoted cs
unfolding replace_all replace_from has_prefix cut_prefix nat_eq
quoted_quote cs = refl

quoted_other : (c : ℕ) (cs : Text) → (c == b'\'') ≡ false → quoted (c ∷ cs) ≡ c ∷ quoted cs
unfolding replace_all replace_from has_prefix cut_prefix
quoted_other c cs h = rw (h, cut_prefix) refl

-- A quote opens in front of what is not empty.
open_quote :
    (xs rest : Text)
    → read_word false (b'\'' ∷ xs ++ b'\'' ∷ rest) ≡ read_word true (xs ++ b'\'' ∷ rest)
unfolding read_word nat_eq
open_quote [] rest = refl
open_quote (x ∷ xs) rest = refl

escaped_quote :
    (xs : Text) → read_word true (b'\'' ∷ b'\\' ∷ b'\'' ∷ xs) ≡ one_more b'\'' (read_word false xs)
unfolding read_word nat_eq
escaped_quote xs = refl

plain_byte :
    (c : ℕ) (xs : Text)
    → (c == b'\'') ≡ false
    → read_word true (c ∷ xs) ≡ one_more c (read_word true xs)
unfolding read_word
plain_byte c xs h = rw h refl

closing : (rest : Text) → read_word true (b'\'' ∷ rest) ≡ read_word false rest
unfolding read_word nat_eq
closing rest = refl

quoted_nil : quoted [] ≡ []
unfolding replace_all replace_from
quoted_nil = refl

read_quoted :
    (s rest : Text) → IsEnd rest → read_word true (quoted s ++ b'\'' ∷ rest) ≡ some (s, rest)
read_quoted [] rest h = rw quoted_nil (closing rest ∙ end_word rest h)
read_quoted (c ∷ cs) rest h = elim (Bool-cases (c == b'\'')) [
  | inl e ↦
      let same : c ≡ b'\'' = ground arith in
      rw (same, quoted_quote cs)
        (escaped_quote (b'\'' ∷ quoted cs ++ b'\'' ∷ rest)
          ∙ ap (one_more b'\'') (open_quote (quoted cs) rest ∙ read_quoted cs rest h))
  | inr e ↦
      rw (quoted_other c cs e)
        (plain_byte c (quoted cs ++ b'\'' ∷ rest) e ∙ ap (one_more c) (read_quoted cs rest h))
]

-- A shell reads a quoted text, whatever bytes it has, as one word that is the text, and nothing of
-- it as syntax: with the end of the command or a space behind it. So it reads the path of the key in
-- the command for `ssh`.
pub read_word-shell_quote :
    (s rest : Text)
    → IsEnd rest
    → (read_word false (shell_quote s ++ rest) ≡ some (s, rest))
      × (read_word false (drop 7 (ssh_command s))
          ≡ some (s, str " -o StrictHostKeyChecking=accept-new -F /dev/null"))
unfolding shell_quote ssh_command
read_word-shell_quote s rest h =
    (word rest h, word (str " -o StrictHostKeyChecking=accept-new -F /dev/null") space)
  where
    space : is_space b' ' ≡ true
    space = ground arith

    word : (rest : Text) → IsEnd rest → read_word false (shell_quote s ++ rest) ≡ some (s, rest)
    word rest h =
        ap (λ t. read_word false (b'\'' ∷ t)) (append_assoc (quoted s) (b'\'' ∷ []) rest)
        ∙ open_quote (quoted s) rest
        ∙ read_quoted s rest h
