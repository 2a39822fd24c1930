-- ===== src/Lb/HttpBackend/Headers.antt =====
-- The header of the reply to the client.
use apigw.Common.{
  String, ◌==◌, eq_iff, if◌then◌else◌, ◌&&◌, not, List, [], ◌∷◌, Option, none, some, ◌≡◌, refl,
  arith,
}
use apigw.Dict.{lookup, insert}
use apigw.Dict.Laws.{lookup-insert}
use apigw.Types.{ok}
use apigw.Lb.HttpBackend.{
  Header, get_header, Response, HttpContext, copy_header, reply_header, handle_http,
}

-- No key stands twice.
abbrev pub Distinct : Header → Type 0
Distinct [] = Unit
Distinct ((k, vs) ∷ h) = (lookup k h ≡ none) × Distinct h

-- The values of the first header, or of the second where the first has none.
abbrev pub over : Option (List String) → Option (List String) → Option (List String)
over none o = o
over (some vs) o = some vs

lookup-copy_header :
    (j : String) (from h : Header)
    → Distinct from
    → lookup j (copy_header from h) ≡ over (lookup j from) (lookup j h)
unfolding copy_header lookup
lookup-copy_header j [] h d = refl
lookup-copy_header j ((k, vs) ∷ from) h d =
    ground (
      arith,
      eq_iff k j,
      lookup-insert k j vs h,
      lookup-copy_header j from (insert k vs h) d.1,
      d.0,
    )

-- The reply of an HTTP backend is streamed once with the status, the content type and the body of
-- the response, and the body is closed after it. Where no key of the response's header stands
-- twice, the client's header then has the backend's id under `X-Server-Id` if the id is not empty,
-- and else for every key the values of the response if it has the key, and the values of before if
-- it has not.
pub handle_http_lem :
    {W B : Type 0} (ctx : HttpContext W B) (svcid : String) (resp : Response B) (w : W)
    → Distinct resp.header
    → (h : Header) × (handle_http (some ctx) svcid (ok resp) w ≡ (
        let sent =
          ctx.stream resp.status_code
            (get_header "Content-Type" resp.header)
            resp.body
            (ctx.set_resp_header h w) in
        (ctx.close_body resp.body sent.0, none, sent.1)))
      × ((j : String)
          → lookup j h ≡ (
              if not (svcid == "") && ("X-Server-Id" == j)
              then some (svcid ∷ [])
              else over (lookup j resp.header) (lookup j (ctx.resp_header w))))
unfolding handle_http reply_header
handle_http_lem ctx svcid resp w d =
    let copied = copy_header resp.header (ctx.resp_header w) in
    (
      reply_header svcid resp.header (ctx.resp_header w),
      refl,
      λ j. ground (
        arith,
        lookup-insert "X-Server-Id" j (svcid ∷ []) copied,
        lookup-copy_header j resp.header (ctx.resp_header w) d,
      ),
    )
