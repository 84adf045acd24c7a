-- ===== src/Server/Middleware/Csrf.antt =====
-- Which requests the CSRF protection lets through.
use mathlib.Core.Path.{subst}
use quadsyncd.Base.{
  ◌≡◌, ◌≢◌, refl, sym, ◌∙◌, ◌⊎◌, inl, inr, true, false, Bool-cases, [], ◌∷◌, Option, Option-cases,
  ◌&&◌, ok, Result-cases, ◌==◌, ◌/=◌, if◌then◌else◌, text_eq, arith,
}
use quadsyncd.Base.Text.{Text, str}
use quadsyncd.Server.Http.{Request, Response, Handler, Writer, http_error}
use quadsyncd.Server.Middleware.{
  csrf_cookie_name, cookie_value, csrf_cookie, is_mutating, is_read, csrf_middleware,
}

abbrev pub Mutates : Text → Type 0
Mutates method =
    (method ≡ str "POST")
    ⊎ ((method ≡ str "PUT") ⊎ ((method ≡ str "PATCH") ⊎ (method ≡ str "DELETE")))

-- The request repeats the cookie's value in its header, and the value is not empty.
abbrev pub HasToken : Request → Type 0
HasToken r =
    (v : Text) × (r.cookie csrf_cookie_name ≡ ok v) × (v ≢ []) × (r.header (str "X-CSRF-Token") ≡ v)

eq_of_test : (a b : Text) → (a == b) ≡ true → a ≡ b
eq_of_test a b h = ground arith

literal_mutates :
    (m k : Text)
    → m ≡ k
    → is_mutating k ≡ true
    → is_read k ≡ false
    → (is_mutating m ≡ true) × (is_read m ≡ false)
literal_mutates m k e a b = rw e (a, b)

Mutates-is_mutating : (m : Text) → Mutates m → (is_mutating m ≡ true) × (is_read m ≡ false)
unfolding text_eq
Mutates-is_mutating m h = elim h [
  | inl e ↦ literal_mutates m _ e refl refl
  | inr h2 ↦ elim h2 [
    | inl e ↦ literal_mutates m _ e refl refl
    | inr h3 ↦ elim h3 [
      | inl e ↦ literal_mutates m _ e refl refl
      | inr e ↦ literal_mutates m _ e refl refl
    ]
  ]
]

literal_not_mutating : (m k : Text) → m ≡ k → is_mutating k ≡ false → is_mutating m ≡ false
literal_not_mutating m k e h = rw e h

is_mutating-not_read : (m : Text) → is_mutating m ≡ true → is_read m ≡ false
unfolding text_eq
is_mutating-not_read m h = elim (Bool-cases (m == str "GET")) [
  | inl e ↦
      let same_text : m ≡ str "GET" = eq_of_test m (str "GET") e in
      let no : is_mutating m ≡ false = literal_not_mutating m (str "GET") same_text refl in cc
  | inr a ↦ elim (Bool-cases (m == str "HEAD")) [
    | inl e ↦
        let same_text : m ≡ str "HEAD" = eq_of_test m (str "HEAD") e in
        let no : is_mutating m ≡ false = literal_not_mutating m (str "HEAD") same_text refl in cc
    | inr b ↦ rw (a, b) refl
  ]
]

differ : (r : Request) → HasToken r → (cookie_value r /= r.header (str "X-CSRF-Token")) ≡ true → ⊥
differ r (v, c, n, h) d =
    let value : cookie_value r ≡ v = rw (c, cookie_value) refl in
    let equal : cookie_value r ≡ r.header (str "X-CSRF-Token") = value ∙ sym h in ground arith

same :
    (r : Request)
    → (cookie_value r == []) ≡ false
    → (cookie_value r /= r.header (str "X-CSRF-Token")) ≡ false
    → HasToken r
same r e d = elim (Result-cases (r.cookie csrf_cookie_name)) [
  | inr (u, c) ↦
      absurd (let value : cookie_value r ≡ [] = rw (c, cookie_value) refl in ground arith)
  | inl (v, c) ↦
      let value : cookie_value r ≡ v = rw (c, cookie_value) refl in
      let equal : cookie_value r ≡ r.header (str "X-CSRF-Token") = ground arith in
      (
        v,
        c,
        λ n. (let none_left : cookie_value r ≡ [] = value ∙ n in ground arith),
        sym equal ∙ value,
      )
]

module _ {J S : Type 0} (token : Option Text) (next : Handler J S) (r : Request) (w : Writer)
    (s : S) where
  -- What is left of the middleware for a request that changes something.
  guarded_path :
      (r.path == str "/webhook") ≡ false
      → is_mutating r.method ≡ true
      → is_read r.method ≡ false
      → csrf_middleware token next r w s ≡ (
          if cookie_value r == []
          then (http_error w 403 (str "CSRF cookie missing"), s)
          else if cookie_value r /= r.header (str "X-CSRF-Token")
          then (http_error w 403 (str "CSRF token mismatch"), s)
          else next r w s)
  unfolding csrf_middleware text_eq
  guarded_path path m n = elim (Bool-cases (r.path == str "/")) [
    | inl root ↦ rw (csrf_middleware, path, root, n, m) refl
    | inr other ↦ rw (csrf_middleware, path, other, m) refl
  ]

  -- A request that changes something, other than to `/webhook`, reaches the handler behind the
  -- protection exactly when its header repeats a cookie that is not empty; otherwise the answer is
  -- 403 and the state stays.
  pub csrf_middleware_guards :
      r.path ≢ str "/webhook"
      → Mutates r.method
      → (HasToken r → csrf_middleware token next r w s ≡ next r w s)
        × (¬ HasToken r
            → ((csrf_middleware token next r w s).0.status ≡ 403)
              × ((csrf_middleware token next r w s).1 ≡ s))
  unfolding http_error
  csrf_middleware_guards p h =
      let (m, n) = Mutates-is_mutating r.method h in
      let path : (r.path == str "/webhook") ≡ false = ground arith in
      subst Guards (sym (guarded_path path m n)) decided
    where
      Guards : Response J × S → Type 0
      Guards x = (HasToken r → x ≡ next r w s) × (¬ HasToken r → (x.0.status ≡ 403) × (x.1 ≡ s))

      decided : Guards (
          if cookie_value r == []
          then (http_error w 403 (str "CSRF cookie missing"), s)
          else if cookie_value r /= r.header (str "X-CSRF-Token")
          then (http_error w 403 (str "CSRF token mismatch"), s)
          else next r w s)
      decided = elim (Bool-cases (cookie_value r == [])) [
        | inl e ↦ rw e (λ t. absurd (t.2 (ground arith)), λ n. (refl, refl))
        | inr e ↦ elim (Bool-cases (cookie_value r /= r.header (str "X-CSRF-Token"))) [
          | inl d ↦ rw (e, d) (λ t. absurd (differ r t d), λ n. (refl, refl))
          | inr d ↦ rw (e, d) (λ t. refl, λ n. absurd (n (same r e d)))
        ]
      ]

  -- The request is answered without the handler behind the protection, and the state stays; or it
  -- reaches the handler, and has the token if it changes something, other than to `/webhook`.
  abbrev pub StaysOrPasses : Response J × S → Type 0
  StaysOrPasses x =
      (x.1 ≡ s)
      ⊎ ((v : Writer) × (x ≡ next r v s)
          × (r.path ≢ str "/webhook" → Mutates r.method → HasToken r))

  passes_guarded :
      (r.path == str "/webhook") ≡ false
      → is_mutating r.method ≡ true
      → StaysOrPasses (csrf_middleware token next r w s)
  unfolding http_error
  passes_guarded p m =
      let path = guarded_path p m (is_mutating-not_read r.method m) in
      elim (Bool-cases (cookie_value r == [])) [
        | inl e ↦ subst StaysOrPasses (sym path) (inl (rw e refl))
        | inr e ↦ elim (Bool-cases (cookie_value r /= r.header (str "X-CSRF-Token"))) [
          | inl d ↦ subst StaysOrPasses (sym path) (inl (rw (e, d) refl))
          | inr d ↦ inr (w, path ∙ rw (e, d) refl, λ ne mu. same r e d)
        ]
      ]

  passes_unguarded :
      (r.path == str "/webhook") ≡ false
      → is_mutating r.method ≡ false
      → StaysOrPasses (csrf_middleware token next r w s)
  unfolding csrf_middleware
  passes_unguarded p m = elim (Bool-cases (r.path == str "/" && is_read r.method)) [
    | inr other ↦ passed w (rw (csrf_middleware, p, other, m) refl)
    | inl root ↦ elim (Bool-cases (cookie_value r == [])) [
      | inr e ↦ passed w (rw (csrf_middleware, p, root, e) refl)
      | inl e ↦ elim (Option-cases token) [
        | inl n ↦ inl (rw (csrf_middleware, p, root, e, n) refl)
        | inr (t, n) ↦
            passed (record w { cookies = csrf_cookie r t ∷ w.cookies })
              (rw (csrf_middleware, p, root, e, n) refl)
      ]
    ]
  ]
    where
      passed :
          (v : Writer)
          → csrf_middleware token next r w s ≡ next r v s
          → StaysOrPasses (csrf_middleware token next r w s)
      passed v path = inr (v, path, λ ne mu. (let (a, b) = Mutates-is_mutating r.method mu in cc))

  pub csrf_middleware_passes : StaysOrPasses (csrf_middleware token next r w s)
  unfolding csrf_middleware
  csrf_middleware_passes = elim (Bool-cases (r.path == str "/webhook")) [
    | inl at ↦
        let path : csrf_middleware token next r w s ≡ next r w s = rw (csrf_middleware, at) refl in
        let same_path : r.path ≡ str "/webhook" = ground arith in
        inr (w, path, λ ne. absurd (ne same_path))
    | inr p ↦ elim (Bool-cases (is_mutating r.method)) [
      | inl m ↦ passes_guarded p m
      | inr m ↦ passes_unguarded p m
    ]
  ]
