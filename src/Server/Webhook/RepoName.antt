-- ===== src/Server/Webhook/RepoName.antt =====
-- The repository name of the URLs that git knows for one repository.
use quadsyncd.Base.{
  ℕ, suc, ◌+◌, ◌≡◌, refl, ap, ◌∙◌, false, Bool-cases, inl, inr, none, some, [], ◌∷◌, ◌++◌,
  All-append, length, drop, ◌==◌, text_eq, nat_eq, arith,
}
use quadsyncd.Base.Text.{
  Text, str, has_prefix, cut_prefix, cut_suffix, trim_suffix, index, text_code,
}
use quadsyncd.Base.Text.Bytes.{Lacks}
use quadsyncd.Server.Webhook.{repo_full_name_from_url, behind_host}

index_at : (c : ℕ) (xs ys : Text) → Lacks c xs → index (xs ++ c ∷ ys) (c ∷ []) ≡ some (length xs)
unfolding index has_prefix cut_prefix
index_at c [] ys h = ground arith
index_at c (x ∷ xs) ys h = ground (arith, index_at c xs ys h.1)

index_nowhere : (c : ℕ) (xs : Text) → Lacks c xs → index xs (c ∷ []) ≡ none
unfolding index has_prefix cut_prefix
index_nowhere c [] h = refl
index_nowhere c (x ∷ xs) h = ground (arith, index_nowhere c xs h.1)

drop-append : (xs ys : Text) → drop (length xs) (xs ++ ys) ≡ ys
drop-append [] ys = refl
drop-append (x ∷ xs) ys = drop-append xs ys

drop_behind : (c : ℕ) (xs ys : Text) → drop (length xs + 1) (xs ++ c ∷ ys) ≡ ys
drop_behind c [] ys = refl
drop_behind c (x ∷ xs) ys =
    let e : length (x ∷ xs) + 1 ≡ suc (length xs + 1) = omega arith in rw e (drop_behind c xs ys)

length-append : (xs ys : Text) → length (xs ++ ys) ≡ length xs + length ys
length-append [] ys = omega arith
length-append (x ∷ xs) ys = omega (arith, length-append xs ys)

longer : (x : ℕ) (xs t : Text) → ((x ∷ xs ++ t) == t) ≡ false
longer x xs t = elim (Bool-cases ((x ∷ xs ++ t) == t)) [
  | inr h ↦ h
  | inl h ↦
      let e : x ∷ xs ++ t ≡ t = ground arith in
      absurd (omega (arith, ap length e, length-append (x ∷ xs) t))
]

cut_suffix_self : (t : Text) → cut_suffix t t ≡ some []
unfolding cut_suffix
cut_suffix_self [] = ground arith
cut_suffix_self (x ∷ xs) = ground arith

cut_suffix-append : (xs t : Text) → cut_suffix (xs ++ t) t ≡ some xs
unfolding cut_suffix
cut_suffix-append [] t = cut_suffix_self t
cut_suffix-append (x ∷ xs) t = rw (longer x xs t, cut_suffix-append xs t) refl

trim_suffix-append : (xs t : Text) → trim_suffix (xs ++ t) t ≡ xs
unfolding trim_suffix
trim_suffix-append xs t = rw (cut_suffix-append xs t) refl

behind_host-append :
    (host name : Text) → Lacks b'/' host → behind_host (host ++ (b'/' ∷ name ++ str ".git")) ≡ name
behind_host-append host name h =
    rw
      (
        behind_host,
        index_at b'/' host (name ++ str ".git") h,
        drop_behind b'/' host (name ++ str ".git"),
        trim_suffix-append name (str ".git"),
      )
      refl

module _ (host name : Text) where
  abbrev pub https_url : Text
  https_url = str "https://" ++ (host ++ (b'/' ∷ name ++ str ".git"))

  abbrev pub ssh_url : Text
  ssh_url = str "ssh://git@" ++ (host ++ (b'/' ∷ name ++ str ".git"))

  abbrev pub short_url : Text
  short_url = str "git@" ++ (host ++ (b':' ∷ name ++ str ".git"))

  https_name :
      Lacks b'/' host
      → Lacks b'@' (host ++ (b'/' ∷ name ++ str ".git"))
      → repo_full_name_from_url https_url ≡ name
  unfolding repo_full_name_from_url text_code has_prefix cut_prefix nat_eq
  https_name h a = rw (index_nowhere b'@' _ a) (behind_host-append host name h)

  ssh_name : Lacks b'/' host → repo_full_name_from_url ssh_url ≡ name
  unfolding repo_full_name_from_url text_code has_prefix cut_prefix nat_eq
  ssh_name h = behind_host-append host name h

  short_name : Lacks b':' host → repo_full_name_from_url short_url ≡ name
  unfolding repo_full_name_from_url has_prefix cut_prefix nat_eq
  short_name h =
      let lacks : Lacks b':' (str "git@" ++ host) =
        (omega arith, (omega arith, (omega arith, (omega arith, h)))) in
      let colon : index short_url (str ":") ≡ some (length (str "git@" ++ host)) =
        index_at b':' (str "git@" ++ host) (name ++ str ".git") lacks in
      let rest : drop (length (str "git@" ++ host) + 1) short_url ≡ name ++ str ".git" =
        drop_behind b':' (str "git@" ++ host) (name ++ str ".git") in
      rw colon (ap (λ t. trim_suffix t (str ".git")) rest ∙ trim_suffix-append name (str ".git"))

  -- The three forms of URL that git knows for one repository have its name: `https`, `ssh` with a
  -- user, and the short form. The host holds none of `/`, `@` and `:`, and the name no `@`.
  pub repo_full_name_from_url_forms :
      Lacks b'/' host
      → Lacks b'@' host
      → Lacks b':' host
      → Lacks b'@' name
      → (repo_full_name_from_url https_url ≡ name)
        × (repo_full_name_from_url ssh_url ≡ name)
        × (repo_full_name_from_url short_url ≡ name)
  repo_full_name_from_url_forms slash at colon at_name = (
    https_name slash (
        All-append _ host (b'/' ∷ name ++ str ".git") at (
          omega arith,
          All-append _ name (str ".git") at_name
              (omega arith, (omega arith, (omega arith, (omega arith, tt)))),
        )),
    ssh_name slash,
    short_name colon,
  )
