-- ===== src/Lb/Request.antt =====
-- forward/lb/request.go: the requests that a forwarder gives to its load balancer, and the session
-- ids that they carry.
use apigw.Common.{String, Option, or_else, ◌≡◌, refl}

-- What a request reads of the context; a missing cookie is `none`, a missing header is empty.
pub record RequestContext (W : Type 0) : Type 0 where
  pub cookie : String → W → Option String
  pub req_header : String → W → String
  pub remote_addr : W → String

-- The four types of `HTTPRequest`, each with the context `W`.
pub data HttpRequest (W : Type 0) : Type 0 where
  simple_request : W → HttpRequest W
  sid_request : W → String → HttpRequest W
  header_request : W → String → HttpRequest W
  cookie_request : W → String → HttpRequest W

module _ {W : Type 0} where
  unfoldable pub new_request : W → HttpRequest W
  new_request w = simple_request w

  unfoldable pub new_request_with_session_id : W → String → HttpRequest W
  new_request_with_session_id w sid = sid_request w sid

  unfoldable pub new_request_with_header : W → String → HttpRequest W
  new_request_with_header w key = header_request w key

  unfoldable pub new_request_with_cookie : W → String → HttpRequest W
  new_request_with_cookie w name = cookie_request w name

  unfoldable pub context : HttpRequest W → W
  context (simple_request w) = w
  context (sid_request w sid) = w
  context (header_request w key) = w
  context (cookie_request w name) = w

module _ {W : Type 0} (c : RequestContext W) where
  unfoldable pub simple_session_id : W → String
  simple_session_id w = or_else (c.cookie "sessionid" w) ""

  unfoldable pub session_id : HttpRequest W → String
  unfolding simple_session_id
  session_id (simple_request w) = simple_session_id w
  session_id (sid_request w sid) = sid
  session_id (header_request w key) = c.req_header key w
  session_id (cookie_request w name) = or_else (c.cookie name w) ""

  unfoldable pub remote_addr_string : HttpRequest W → String
  unfolding context
  remote_addr_string r = c.remote_addr (context r)

  -- `NewRequest(c)` behaves as `NewRequestWithCookie(c, "sessionid")`, as its comment says.
  new_request-with_cookie :
      (w : W)
      → (session_id (new_request w) ≡ session_id (new_request_with_cookie w "sessionid"))
        × (remote_addr_string (new_request w)
            ≡ remote_addr_string (new_request_with_cookie w "sessionid"))
  unfolding session_id remote_addr_string new_request new_request_with_cookie
  new_request-with_cookie w = (refl, refl)
