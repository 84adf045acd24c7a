-- ===== src/Server/Http.antt =====
-- Requests, responses and handlers of the package `net/http`, and the helpers of
-- internal/server/util.go that write responses.
use quadsyncd.Base.{
  ℕ, Bool, List, [], ◌∷◌, ◌++◌, Result, ok, err, length, leb, if◌then◌else◌, text_eq,
}
use quadsyncd.Base.Text.{Text, str}
use quadsyncd.Base.Dict.{Dict, insert}
use quadsyncd.Server.Paging.{take}

-- A header or a query value that is not there is empty. A body that is `broken` ends in an error.
pub record Request : Type 0 where
  pub method : Text
  pub path : Text
  pub header : Text → Text
  pub cookie : Text → Result (Unit {0}) Text
  pub query : Text → Text
  pub body : Text
  pub broken : Bool
  pub tls : Bool

pub record Cookie : Type 0 where
  pub name : Text
  pub value : Text
  pub path : Text
  pub http_only : Bool
  pub secure : Bool

-- What a handler set before it wrote the status.
pub record Writer : Type 0 where
  pub headers : Dict Text Text
  pub cookies : List Cookie

-- A text, a value that is encoded as JSON, a file of the web interface, or a stream of events.
pub data Body (J : Type 0) : Type 0 where
  text : Text → Body J
  json : J → Body J
  asset : Text → Body J
  stream : Body J

pub record Response (J : Type 0) : Type 0 where
  pub status : ℕ
  pub writer : Writer
  pub body : Body J

-- A handler changes the state of the server.
abbrev pub Handler : Type 0 → Type 0 → Type 0
Handler J S = Request → Writer → S → Response J × S

abbrev pub fresh_writer : Writer
fresh_writer = record { headers = []; cookies = [] }

-- `w.Header().Set`
abbrev pub set_header : Text → Text → Writer → Writer
set_header k v w = record w { headers = insert k v w.headers }

-- `io.ReadAll(io.LimitReader(r.Body, limit))`
unfoldable pub read_limited : ℕ → Request → Result (Unit {0}) Text
read_limited limit r =
    if leb limit (length r.body)
    then ok (take limit r.body)
    else if r.broken
    then err tt
    else ok r.body

module _ {J : Type 0} where
  -- `http.Error`
  unfoldable pub http_error : Writer → ℕ → Text → Response J
  http_error w status message = record {
    status = status;
    writer =
        set_header (str "X-Content-Type-Options") (str "nosniff")
          (set_header (str "Content-Type") (str "text/plain; charset=utf-8") w);
    body = text (message ++ b'\n' ∷ []);
  }

  -- The status 200 and a text
  unfoldable pub accept : Writer → Text → Response J
  accept w message = record { status = 200; writer = w; body = text (message ++ b'\n' ∷ []) }

  unfoldable pub write_json : Writer → ℕ → J → Response J
  write_json w status v = record {
    status = status;
    writer = set_header (str "Content-Type") (str "application/json") w;
    body = json v;
  }
