-- ===== src/Lb/Gateway/Reach.antt =====
-- forward/lb/gateway.go: the calls on a gateway as a step relation, and what their order decides.
use apigw.Common.{String, eq_refl, true, false, Option, none, is_some, ◌≡◌, refl, subst}
use apigw.Dict.{lookup}
use apigw.Types.{Handler, returns, Err}
use apigw.Route.{Matcher, Route}
use apigw.Ship.{Ship, Context}
use apigw.Gateway.{Gateway}
use apigw.Gateway.Hosts
use apigw.Gateway.Hosts.{has_host}
use apigw.Gateway.Routes.{register_route, unregister_route}
use apigw.Gateway.Routes.Hosting.{
  SameHosts, LeavesHosts, register_route-SameHosts, unregister_route-LeavesHosts,
}
use apigw.Lb.{Balancer, HealthCheck}
use apigw.Lb.Gateway.{
  Store, LbGateway, new_lb_gateway, add_manager, add_host, del_host, get_backend_group_manager,
}
use apigw.Lb.Gateway.Managed.{
  IsManaged, LeavesManaged, LeavesUnknown, del_host-LeavesUnknown, add_host-IsManaged,
  del_host-LeavesManaged, regated, add_manager-adds, add_manager-gateway,
}

module _ {E K D H L W C R Q : Type 0} (ship : Ship W C R Q) (lb : Balancer E L)
    (hc : HealthCheck E K D H) (get : W → Store E K D H L) (set : Store E K D H L → W → W)
    (ctx : Context W C) where
  -- One whole call. `changes` is a call of the embedded gateway that leaves the routes alone, and
  -- `acts` is whatever handlers and forwarders do.
  pub data Step (g : LbGateway W C R) (w : W) : LbGateway W C R → W → Type 0 where
    adds_host :
        (host : String)
        → Step g w (add_host ship lb hc get set host g w).0 (add_host ship lb hc get set host g w).1
    dels_host :
        {g' : LbGateway W C R} {w' : W} {e : Option Err} (host : String)
        → del_host ship lb hc get set host g w ≡ returns (g', w', e)
        → Step g w g' w'
    registers_route :
        (route : Route W C)
        → Step g w (record g { gateway = (register_route ship ctx route g.gateway).0 }) w
    unregisters_route :
        {h : Gateway W C R} {w' : W} {r : Route W C} {e : Option Err} (m : Matcher)
        → unregister_route ship m g.gateway w ≡ returns (h, w', r, e)
        → Step g w (record g { gateway = h }) w'
    changes :
        (h : Gateway W C R) → h.routes ≡ g.gateway.routes → Step g w (record g { gateway = h }) w
    acts : (w' : W) → Step g w g w'

  pub data Reach (g : LbGateway W C R) (w : W) : LbGateway W C R → W → Type 0 where
    here : Reach g w g w
    next :
        {g' g'' : LbGateway W C R} {w' w'' : W}
        → Reach g w g' w'
        → Step g' w' g'' w''
        → Reach g w g'' w''

  regated-IsManaged :
      (g : LbGateway W C R) (h : Gateway W C R)
      → SameHosts g.gateway h
      → IsManaged g
      → IsManaged (record g { gateway = h })
  regated-IsManaged g h same v j = rw (regated ship lb hc get set j h g, same j) (v j)

  changed-SameHosts : (g h : Gateway W C R) → h.routes ≡ g.routes → SameHosts g h
  unfolding has_host
  changed-SameHosts g h same j = rw same refl

  Step-IsManaged :
      {g : LbGateway W C R} {w : W} {g' : LbGateway W C R} {w' : W}
      → Step g w g' w'
      → IsManaged g
      → IsManaged g'
  Step-IsManaged {g} {w = w} (adds_host host) v = add_host-IsManaged ship lb hc get set host g w v
  Step-IsManaged {g} {w = w} (dels_host host p) v =
      subst (LeavesManaged ship lb hc get set) p
        (del_host-LeavesManaged ship lb hc get set host g w v)
  Step-IsManaged {g} (registers_route route) v =
      regated-IsManaged g _ (register_route-SameHosts ship g.gateway ctx route) v
  Step-IsManaged {g} {w = w} (unregisters_route m p) v =
      regated-IsManaged g _
        (subst (LeavesHosts g.gateway) p (unregister_route-LeavesHosts ship g.gateway m w)) v
  Step-IsManaged {g} (changes h same) v =
      regated-IsManaged g h (changed-SameHosts g.gateway h same) v
  Step-IsManaged (acts w') v = v

  -- However whole calls follow each other, exactly the hosts of the gateway have a manager of
  -- groups.
  pub Reach-IsManaged :
      (not_found : Handler W) {w w' : W} {g : LbGateway W C R}
      → Reach (new_lb_gateway ship not_found) w g w'
      → IsManaged g
  unfolding new_lb_gateway get_backend_group_manager has_host lookup
  Reach-IsManaged not_found here = λ j. refl
  Reach-IsManaged not_found (next r st) = Step-IsManaged st (Reach-IsManaged not_found r)

  -- The bug: a deletion of a host between the two parts of `AddHost`, which each take another lock,
  -- leaves a manager of groups for a host that the gateway does not have. `AddHost` runs both parts
  -- and returns no error.
  pub add_manager_races :
      (host : String) (g : LbGateway W C R) (w : W) {h : Gateway W C R} {g' : LbGateway W C R}
      {w' : W} {e : Option Err}
      → Hosts.add_host ship host g.gateway ≡ (h, none)
      → del_host ship lb hc get set host (record g { gateway = h }) w ≡ returns (g', w', e)
      → (add_host ship lb hc get set host g w ≡ (
        (add_manager ship lb hc get set host (record g { gateway = h }) w).0,
        (add_manager ship lb hc get set host (record g { gateway = h }) w).1,
        none,
      ))
        × (is_some (get_backend_group_manager host (add_manager ship lb hc get set host g' w').0)
            ≡ true)
        × (has_host host (add_manager ship lb hc get set host g' w').0.gateway ≡ false)
  unfolding add_host
  add_manager_races host g w {h} {g'} {w'} added deleted = (
    rw added refl,
    rw (add_manager-adds ship lb hc get set host g' w' host, eq_refl host) refl,
    rw (add_manager-gateway ship lb hc get set host g' w') (
        subst (LeavesUnknown ship lb hc get set host) deleted
          (del_host-LeavesUnknown ship lb hc get set host (record g { gateway = h }) w)),
  )
