-- ===== src/Lb/Group/Interface.antt =====
-- forward/lb/backend.go: a group as a backend, and as the updater of its own checker.
use apigw.Common.{String, [], ◌∷◌}
use apigw.Dict.{Dict}
use apigw.Types.{Handler, panics}
use apigw.Lb.{Backend, backend_id, Balancer, HealthCheck, Balancers}
use apigw.Lb.Group.{GroupBackend, add_endpoint, del_endpoint}

module _ {E K D H : Type 0} where
  unfoldable pub name : GroupBackend E K D H → String
  name b = b.name

  unfoldable pub backend_type : GroupBackend E K D H → String
  backend_type b = "group"

  -- `zero` is the zero value of `BackendState`.
  unfoldable pub state : {S : Type 0} → S → GroupBackend E K D H → S
  state zero b = zero

  unfoldable pub meta_data : GroupBackend E K D H → Dict String
  meta_data b = ("name", b.name) ∷ []

  unfoldable pub round_trip : {W Req : Type 0} → GroupBackend E K D H → Req → Handler W
  round_trip b r w = (w, panics "GroupBackend.RoundTrip: not implemented")

-- The methods of `groupEndpointUpdater`, which the checker calls.
module _ {E K D H L : Type 0} (lb : Balancer E L) (hc : HealthCheck E K D H) where
  unfoldable pub updater_add_endpoint : Backend E → GroupBackend E K D H → Balancers L → Balancers L
  unfolding add_endpoint
  updater_add_endpoint ep b s = add_endpoint lb hc ep b s

  unfoldable pub updater_del_endpoint : Backend E → GroupBackend E K D H → Balancers L → Balancers L
  unfolding del_endpoint backend_id
  updater_del_endpoint ep b s = del_endpoint lb hc (backend_id ep) b s

  unfoldable pub updater_del_endpoint_by_id :
      String → GroupBackend E K D H → Balancers L → Balancers L
  unfolding del_endpoint
  updater_del_endpoint_by_id id b s = del_endpoint lb hc id b s
