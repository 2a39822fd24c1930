-- ===== src/Lb/Gateway/Managed.antt =====
-- forward/lb/gateway.go: which hosts have a manager of groups.
use apigw.Common.{
  String, ◌==◌, eq_iff, if◌then◌else◌, true, false, Option, none, some, ◌≡◌, refl, arith, is_some,
  eq_refl, [], Bool-cases, Option-cases, inl, inr, if_intro,
}
use apigw.Dict.{Dict, lookup, has, values}
use apigw.Dict.Laws.{lookup-insert, lookup-delete}
use apigw.Types.{Outcome, returns, panic, ◌>>=◌, Err}
use apigw.Route.{Route}
use apigw.Ship.{Ship}
use apigw.Gateway.{Gateway}
use apigw.Gateway.Hosts
use apigw.Gateway.Hosts.{has_host, added_host, close_routes, forget_host}
use apigw.Lb.{Balancer, HealthCheck}
use apigw.Lb.Gateway.{
  Store, LbGateway, add_manager, after_add, add_host, del_manager, after_del, del_host,
  get_backend_group_manager,
}

module _ {W C R : Type 0} where
  -- Exactly the hosts of the gateway have a manager.
  abbrev pub IsManaged : LbGateway W C R → Type 0
  IsManaged g = (j : String) → is_some (get_backend_group_manager j g) ≡ has_host j g.gateway

-- What a call on the gateway does to its hosts: with no error it makes `host` one of them, and with
-- an error it leaves them as they are.
module _ {W C R Q : Type 0} (ship : Ship W C R Q) where
  abbrev pub AddsHost : String → Gateway W C R → Gateway W C R × Option Err → Type 0
  AddsHost host g (h, none) =
      (j : String) → has_host j h ≡ (if host == j then true else has_host j g)
  AddsHost host g (h, some e) = (j : String) → has_host j h ≡ has_host j g

  added_host-AddsHost :
      (host : String) (g : Gateway W C R) (res : R × Option Err)
      → AddsHost host g (added_host ship host g res)
  unfolding added_host has_host
  added_host-AddsHost host g (r, none) = λ j. ground (arith, lookup-insert host j [] g.routes)
  added_host-AddsHost host g (r, some e) = λ j. refl

  pub add_host-AddsHost :
      (host : String) (g : Gateway W C R) → AddsHost host g (Hosts.add_host ship host g)
  unfolding Hosts.add_host has_host
  add_host-AddsHost host g = elim (Bool-cases (has host g.routes)) [
    | inl known ↦ rw known (λ j. ground (arith, eq_iff host j))
    | inr new ↦ rw new (
        if_intro (AddsHost host g) (host == "")
          (λ j. ground (arith, lookup-insert host j [] g.routes)) (added_host-AddsHost host g _))
  ]

  abbrev pub DelsHost : String → Gateway W C R → Outcome (Gateway W C R × W × Option Err) → Type 0
  DelsHost host g (returns (h, w, e)) =
      ((j : String) → has_host j h ≡ (if host == j then false else has_host j g)) × (e ≡ none)
  DelsHost host g (panic s) = Unit

  pub del_host-DelsHost :
      (host : String) (g : Gateway W C R) (w : W) → DelsHost host g (Hosts.del_host ship host g w)
  unfolding Hosts.del_host has_host
  del_host-DelsHost host g w = at (lookup host g.routes) refl
    where
      closed :
          (o : Outcome W)
          → DelsHost host g (o >>= λ w'. returns (forget_host ship host g, w', none))
      closed (returns w') = (λ j. ground (arith, lookup-delete host j g.routes), refl)
      closed (panic s) = tt

      at :
          (rs : Option (Dict (Route W C)))
          → lookup host g.routes ≡ rs
          → DelsHost host g (elim rs [
            | none ↦ returns (g, w, none)
            | some rs ↦ do
              w' ← close_routes (values rs) w
              returns (forget_host ship host g, w', none)
          ])
      at none e = (λ j. ground (arith, eq_iff host j), refl)
      at (some rs) e = closed (close_routes (values rs) w)

module _ {E K D H L W C R Q : Type 0} (ship : Ship W C R Q) (lb : Balancer E L)
    (hc : HealthCheck E K D H) (get : W → Store E K D H L) (set : Store E K D H L → W → W) where
  pub regated :
      (j : String) (h : Gateway W C R) (g : LbGateway W C R)
      → is_some (get_backend_group_manager j (record g { gateway = h }))
        ≡ is_some (get_backend_group_manager j g)
  unfolding get_backend_group_manager
  regated j h g = refl

  pub add_manager-gateway :
      (host : String) (g : LbGateway W C R) (w : W)
      → (add_manager ship lb hc get set host g w).0.gateway ≡ g.gateway
  unfolding add_manager
  add_manager-gateway host g w = ground arith

  del_manager-gateway :
      (host : String) (g : LbGateway W C R) (w : W)
      → (del_manager ship lb hc get set host g w).0.gateway ≡ g.gateway
  unfolding del_manager
  del_manager-gateway host g w = ground arith

  pub add_manager-adds :
      (host : String) (g : LbGateway W C R) (w : W) (j : String)
      → is_some (get_backend_group_manager j (add_manager ship lb hc get set host g w).0)
        ≡ (if host == j then true else is_some (get_backend_group_manager j g))
  unfolding add_manager get_backend_group_manager
  add_manager-adds host g w j = elim (Bool-cases (has host g.bgms)) [
    | inl known ↦ rw known (ground (arith, eq_iff host j))
    | inr new ↦ rw new (ground (arith, lookup-insert host j (get w).next_manager g.bgms))
  ]

  del_manager-dels :
      (host : String) (g : LbGateway W C R) (w : W) (j : String)
      → is_some (get_backend_group_manager j (del_manager ship lb hc get set host g w).0)
        ≡ (if host == j then false else is_some (get_backend_group_manager j g))
  unfolding del_manager get_backend_group_manager
  del_manager-dels host g w j = elim (Option-cases (lookup host g.bgms)) [
    | inl missing ↦ rw (del_manager, missing) (ground (arith, eq_iff host j))
    | inr (a, found) ↦ rw (del_manager, found) (ground (arith, lookup-delete host j g.bgms))
  ]

  pub add_host-IsManaged :
      (host : String) (g : LbGateway W C R) (w : W)
      → IsManaged g
      → IsManaged (add_host ship lb hc get set host g w).0
  unfolding add_host
  add_host-IsManaged host g w v =
      added (Hosts.add_host ship host g.gateway) (add_host-AddsHost ship host g.gateway)
    where
      added :
          (res : Gateway W C R × Option Err)
          → AddsHost ship host g.gateway res
          → IsManaged (after_add ship lb hc get set host (record g { gateway = res.0 }) w res.1).0
      added (h, none) adds = λ j.
          let g' : LbGateway W C R = record g { gateway = h } in
          rw
            (
              add_manager-adds host g' w j,
              add_manager-gateway host g' w,
              adds j,
              regated j h g,
              v j,
            )
            refl
      added (h, some e) adds = λ j. rw (regated j h g, v j, adds j) refl

  abbrev pub LeavesManaged : Outcome (LbGateway W C R × W × Option Err) → Type 0
  LeavesManaged (returns t) = IsManaged t.0
  LeavesManaged (panic s) = Unit

  pub del_host-LeavesManaged :
      (host : String) (g : LbGateway W C R) (w : W)
      → IsManaged g
      → LeavesManaged (del_host ship lb hc get set host g w)
  unfolding del_host
  del_host-LeavesManaged host g w v =
      deleted (Hosts.del_host ship host g.gateway w) (del_host-DelsHost ship host g.gateway w)
    where
      deleted :
          (res : Outcome (Gateway W C R × W × Option Err))
          → DelsHost ship host g.gateway res
          → LeavesManaged (
              res >>= λ t.
              returns (after_del ship lb hc get set host (record g { gateway = t.0 }) t.1 t.2))
      deleted (returns (h, w', none)) dels = λ j.
          let g' : LbGateway W C R = record g { gateway = h } in
          rw
            (
              del_manager-dels host g' w' j,
              del_manager-gateway host g' w',
              dels.0 j,
              regated j h g,
              v j,
            )
            refl
      deleted (returns (h, w', some e)) dels = cc (dels.1)
      deleted (panic s) dels = tt

  abbrev pub LeavesUnknown : String → Outcome (LbGateway W C R × W × Option Err) → Type 0
  LeavesUnknown host (returns t) = has_host host t.0.gateway ≡ false
  LeavesUnknown host (panic s) = Unit

  pub del_host-LeavesUnknown :
      (host : String) (g : LbGateway W C R) (w : W)
      → LeavesUnknown host (del_host ship lb hc get set host g w)
  unfolding del_host
  del_host-LeavesUnknown host g w =
      deleted (Hosts.del_host ship host g.gateway w) (del_host-DelsHost ship host g.gateway w)
    where
      deleted :
          (res : Outcome (Gateway W C R × W × Option Err))
          → DelsHost ship host g.gateway res
          → LeavesUnknown host (
              res >>= λ t.
              returns (after_del ship lb hc get set host (record g { gateway = t.0 }) t.1 t.2))
      deleted (returns (h, w', none)) dels =
          rw (del_manager-gateway host (record g { gateway = h }) w', dels.0 host, eq_refl host)
            refl
      deleted (returns (h, w', some e)) dels = cc (dels.1)
      deleted (panic s) dels = tt
