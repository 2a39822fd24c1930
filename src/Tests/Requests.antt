-- ===== src/Tests/Requests.antt =====
-- Requests, middlewares, settings and metadata.
use apigw.Common.{String, if◌then◌else◌, [], ◌∷◌, ◌≡◌, refl, ◌≢◌, arith, eq_iff}
use apigw.Common.Int.{pos}
use apigw.Dict.{lookup}
use apigw.Types.{fail, request_entity_too_large, wrap}
use apigw.Gateway.{execute_route}
use apigw.Gateway.Executes.{FlagsAreRight, execute_route-wrap, is_too_large, request_mdws}
use apigw.Tests.Fixtures.{ctx, request, gateway}

gateway-FlagsAreRight : FlagsAreRight gateway
gateway-FlagsAreRight = record { globals = refl; hosts = λ e. cc }

execute_route-wrap_example : execute_route ctx gateway request ≡ (
    if is_too_large ctx gateway request
    then (request, fail request_entity_too_large)
    else wrap (request_mdws ctx gateway request) ctx.execute request)
execute_route-wrap_example = execute_route-wrap ctx gateway request gateway-FlagsAreRight

-- The middlewares of a host run twice for a request to a route of that very host.
host_middlewares_twice :
    (execute_route ctx gateway request).0.trace ≡ "router" ∷ "host" ∷ "host" ∷ "global" ∷ []
unfolding execute_route wrap lookup
host_middlewares_twice = refl

too_large :
    execute_route ctx gateway (record request { size = pos 101 })
    ≡ (record request { size = pos 101 }, fail request_entity_too_large)
unfolding execute_route
too_large = refl

k≢ε : ◌≢◌ {A = String} "k" ""
k≢ε = ground (arith, eq_iff "k" "")
