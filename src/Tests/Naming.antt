-- ===== src/Tests/Naming.antt =====
-- Names, keys and registries.
use apigw.Common.{
  String, ◌==◌, Bool, true, false, [], ◌∷◌, Option, none, some, ◌≡◌, ◌↔◌, arith, eq_iff,
}
use apigw.Dict.{Dict}
use apigw.Route.{route_key, route_equal}
use apigw.Route.Names.{NoAt, route_key_injective}
use apigw.Route.Equality.{route_equal_iff}
use apigw.Tests.Fixtures.{get-NoAt, site, matcher, route, built}

site-NoAt : NoAt site
site-NoAt = omega arith

route_key_injective_example :
    (route_key matcher ≡ route_key (record matcher { path = "/v2" }))
    ↔ ((matcher.method ≡ matcher.method) × (matcher.path ≡ "/v2"))
route_key_injective_example =
    route_key_injective matcher (record matcher { path = "/v2" }) get-NoAt get-NoAt

abbrev text_equal : Option String → Option String → Bool
text_equal none none = true
text_equal none (some b) = false
text_equal (some a) none = false
text_equal (some a) (some b) = a == b

text_equal_iff : (a b : Option String) → (text_equal a b ≡ true) ↔ (a ≡ b)
text_equal_iff none none = ground arith
text_equal_iff none (some b) = ground arith
text_equal_iff (some a) none = ground arith
text_equal_iff (some a) (some b) = ground (arith, eq_iff a b)

route_equal_iff_example :
    (route_equal text_equal route built ≡ true)
    ↔ ((route.matcher ≡ built.matcher) × (route.plugins ≡ built.plugins))
route_equal_iff_example = route_equal_iff text_equal text_equal_iff route built

abbrev itself : String → String
itself s = s

abbrev taken : Dict String
taken = ("b", "b") ∷ []
