-- ===== src/Lb/NoopBackend.antt =====
-- forward/lb/backend/noop.go: a backend that does nothing.
use Prim.Native.String
use apigw.Common.{String, [], ◌∷◌}
use apigw.Dict.{Dict}
use apigw.Types.{Handler, done}

pub record NoopBackend : Type 0 where
  pub name : String

unfoldable pub new_noop_backend : String → NoopBackend
new_noop_backend name = record { name = name }

unfoldable pub to_string : NoopBackend → String
to_string b = String.◌++◌ "NoopBackend(name=" (String.◌++◌ b.name ")")

unfoldable pub id : NoopBackend → String
id b = b.name

unfoldable pub backend_type : NoopBackend → String
backend_type b = "noop"

-- `zero` is the zero value of `lb.BackendState`.
unfoldable pub state : {S : Type 0} → S → NoopBackend → S
state zero b = zero

unfoldable pub meta_data : NoopBackend → Dict String
meta_data b = ("name", b.name) ∷ []

unfoldable pub round_trip : {W Req : Type 0} → NoopBackend → Req → Handler W
round_trip b r w = (w, done)
