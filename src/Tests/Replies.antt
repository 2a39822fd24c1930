-- ===== src/Tests/Replies.antt =====
-- The reply of an HTTP backend.
use apigw.Common.{String, ◌==◌, if◌then◌else◌, ◌&&◌, not, [], ◌∷◌, none, some, ◌≡◌, refl}
use apigw.Common.Int.{pos}
use apigw.Dict.{lookup, insert}
use apigw.Types.{ok, done}
use apigw.Lb.HttpBackend.{Header, Response, HttpContext, handle_http}
use apigw.Lb.HttpBackend.Headers.{over, handle_http_lem}

-- The state is the header of the reply.
abbrev client : HttpContext Header String
client = record {
  resp_header = λ w. w;
  set_resp_header = λ h w. h;
  stream = λ code content body w. (w, done);
  close_body = λ body w. w;
}

abbrev resp : Response String
resp = record {
  status_code = pos 200;
  header = ("Content-Type", "text/plain" ∷ []) ∷ ("Server", "b" ∷ []) ∷ [];
  body = "ok";
}

abbrev before : Header
before = ("Server", "gateway" ∷ []) ∷ ("Date", "today" ∷ []) ∷ []

handle_http_lem_example :
    (h : Header) × (handle_http (some client) "id" (ok resp) before ≡ (h, none, done))
    × ((j : String)
        → lookup j h ≡ (
            if not ("id" == "") && ("X-Server-Id" == j)
            then some ("id" ∷ [])
            else over (lookup j resp.header) (lookup j before)))
unfolding lookup
handle_http_lem_example = handle_http_lem client "id" resp before (refl, (refl, tt))

server_is_replaced : handle_http (some client) "" (ok resp) before ≡ (
  ("Server", "b" ∷ []) ∷ ("Date", "today" ∷ []) ∷ ("Content-Type", "text/plain" ∷ []) ∷ [],
  none,
  done,
)
unfolding handle_http insert
server_is_replaced = refl
