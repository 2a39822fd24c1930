-- ===== src/Lb/HttpBackend.antt =====
-- forward/lb/backend/http.go: the request to an HTTP backend and the reply to the client. The logging,
-- with the times that it measures, is left out.
pub mod Headers
use apigw.Common.{
  String, ◌==◌, if◌then◌else◌, Bool, true, false, List, [], ◌∷◌, Option, none, some, or_else,
}
use apigw.Common.Int.{ℤ}
use apigw.Dict.{Dict, lookup, insert}
use apigw.Types.{Reply, done, fail, Result, ok, err, Err, bad_gateway}

-- `http.Header`
abbrev pub Header : Type 0
Header = Dict (List String)

-- `header.Get(key)` for a key in its canonical form
abbrev pub get_header : String → Header → String
get_header key h = elim (or_else (lookup key h) []) [ [] ↦ "" | v ∷ vs ↦ v ]

pub record Response (B : Type 0) : Type 0 where
  pub status_code : ℤ
  pub header : Header
  pub body : B

-- What the handler uses of the context of a request, over its state `W`.
pub record HttpContext (W B : Type 0) : Type 0 where
  pub resp_header : W → Header
  pub set_resp_header : Header → W → W
  pub stream : ℤ → String → B → W → W × Reply
  pub close_body : B → W → W

-- `for k, vs := range resp.Header { respHeader[k] = vs }`
unfoldable pub copy_header : Header → Header → Header
copy_header [] h = h
copy_header ((k, vs) ∷ from) h = copy_header from (insert k vs h)

-- The header of the reply; `Set` replaces the values of a key by one.
unfoldable pub reply_header : String → Header → Header → Header
unfolding copy_header
reply_header svcid from h =
    if svcid == ""
    then copy_header from h
    else insert "X-Server-Id" (svcid ∷ []) (copy_header from h)

module _ {W B : Type 0} where
  -- The branch for a response. The body is closed when the function returns.
  unfoldable pub reply : HttpContext W B → String → Response B → W → W × Reply
  unfolding reply_header
  reply ctx svcid resp w =
      let w' = ctx.set_resp_header (reply_header svcid resp.header (ctx.resp_header w)) w in
      let (w'', e) =
        ctx.stream resp.status_code (get_header "Content-Type" resp.header) resp.body w' in
      (ctx.close_body resp.body w'', e)

  -- `handleHTTP`. The context is `none` where the request is not an `HTTPRequest`; the result of
  -- `c.Do(hr)` is `sent`, with the state after it. Only a request without a context gets the
  -- response itself.
  unfoldable pub handle_http :
      Option (HttpContext W B) → String → Result (Response B) → W → W × Option (Response B) × Reply
  unfolding reply
  handle_http none svcid (ok resp) w = (w, some resp, done)
  handle_http none svcid (err e) w = (w, none, fail e)
  handle_http (some ctx) svcid (err e) w = (w, none, fail (bad_gateway e))
  handle_http (some ctx) svcid (ok resp) w = let (w', e) = reply ctx svcid resp w in (w', none, e)

-- `HTTPBackendConfig`, with the fields that the code does not touch as `rest`.
pub record HttpBackendConfig (H X : Type 0) : Type 0 where
  pub handler : Option H
  pub rest : X

-- The configuration that `NewHTTPBackend` gives to `NewHTTPEndpoint`; `zero` are the zero values.
unfoldable pub with_handler :
    {H X : Type 0} → H → X → Option (HttpBackendConfig H X) → HttpBackendConfig H X
with_handler h zero none = record { handler = some h; rest = zero }
with_handler h zero (some conf) = record conf { handler = some (or_else conf.handler h) }

-- The end of `NewHTTPBackend` is the parameter `new_http_endpoint`; `handle` stands for
-- `handle_http`.
unfoldable pub new_http_backend :
    {H X B : Type 0}
    → (String → HttpBackendConfig H X → Result B)
    → H
    → X
    → String
    → Option (HttpBackendConfig H X)
    → Result B
unfolding with_handler
new_http_backend new_http_endpoint handle zero addr conf =
    new_http_endpoint addr (with_handler handle zero conf)
