-- ===== src/Server/Middleware.antt =====
-- internal/server/middleware.go: the security headers and the double-submit CSRF token.
pub mod Csrf
use quadsyncd.Base.{
  ℕ, Bool, true, false, ◌&&◌, ◌||◌, List, [], ◌∷◌, map, Option, none, some, Result, ok, err, ◌+◌,
  contains, leb, ◌==◌, ◌/=◌, if◌then◌else◌, text_eq,
}
use quadsyncd.Base.Text.{Text, str}
use quadsyncd.Server.Http.{Request, Cookie, Handler, Writer, set_header, http_error}

abbrev pub csp_policy : Text
csp_policy =
    str
      "default-src 'none'; script-src 'self'; style-src 'self'; img-src 'self' data:; font-src 'self'; connect-src 'self'; frame-ancestors 'none'; base-uri 'self'; form-action 'self'"

abbrev pub csrf_cookie_name : Text
csrf_cookie_name = str "csrf_token"

abbrev pub secured : Writer → Writer
secured w = set_header (str "Content-Security-Policy") csp_policy (
    set_header (str "Permissions-Policy") (str "interest-cohort=()") (
      set_header (str "Referrer-Policy") (str "no-referrer")
        (set_header (str "X-Content-Type-Options") (str "nosniff") w)))

unfoldable pub security_headers_middleware : {J S : Type 0} → Handler J S → Handler J S
security_headers_middleware next r w s = next r (secured w) s

-- `strings.EqualFold` for ASCII
unfoldable pub lower_byte : ℕ → ℕ
lower_byte c = if leb b'A' c && leb c b'Z' then c + 32 else c

unfoldable pub equal_fold : Text → Text → Bool
equal_fold a b = map lower_byte a == map lower_byte b

-- The value of the cookie, empty where there is none.
abbrev pub cookie_value : Request → Text
cookie_value r = elim (r.cookie csrf_cookie_name) [ err u ↦ [] | ok v ↦ v ]

abbrev pub csrf_cookie : Request → Text → Cookie
csrf_cookie r token = record {
  name = csrf_cookie_name;
  value = token;
  path = str "/";
  http_only = false;
  secure = r.tls || equal_fold (r.header (str "X-Forwarded-Proto")) (str "https");
}

abbrev pub is_mutating : Text → Bool
is_mutating method = contains (str "POST" ∷ str "PUT" ∷ str "PATCH" ∷ str "DELETE" ∷ []) method

abbrev pub is_read : Text → Bool
is_read method = method == str "GET" || method == str "HEAD"

-- `generateCSRFToken` reads random bytes: its answer is the parameter `token`.
unfoldable pub csrf_middleware : {J S : Type 0} → Option Text → Handler J S → Handler J S
csrf_middleware token next r w s =
    if r.path == str "/webhook"
    then next r w s
    else if r.path == str "/" && is_read r.method
    then if cookie_value r == []
      then elim token [
        | none ↦ (http_error w 500 (str "Failed to generate CSRF token"), s)
        | some t ↦ next r (record w { cookies = csrf_cookie r t ∷ w.cookies }) s
      ]
      else next r w s
    else if is_mutating r.method
    then if cookie_value r == []
      then (http_error w 403 (str "CSRF cookie missing"), s)
      else if cookie_value r /= r.header (str "X-CSRF-Token")
      then (http_error w 403 (str "CSRF token mismatch"), s)
      else next r w s
    else next r w s
