-- ===== src/Gateway/Reach.antt =====
-- gateway.go and route.go: the calls on a gateway as a step relation, and what holds of every
-- gateway that calls can make.
use apigw.Common.{String, Bool, List, Option, ◌≡◌, refl, subst}
use apigw.Common.Int.{ℤ}
use apigw.Types.{Handler, Middleware, Err, returns}
use apigw.Plugin.{Plugin}
use apigw.Route.{Matcher, Route}
use apigw.Ship.{Ship, Context}
use apigw.Gateway.{Gateway, new_gateway}
use apigw.Gateway.Metadata.{set_metadata_force, set_metadata, del_metadata}
use apigw.Gateway.Settings.{
  set_body_max_len, set_host_not_found, set_default_not_found, set_name, set_default_host,
}
use apigw.Gateway.Middlewares.{
  reset_global_middlewares, register_global_middlewares, register_host_middlewares,
  reset_host_middlewares, reset_global_middlewares-FlagsAreRight,
  register_global_middlewares-FlagsAreRight, register_host_middlewares-FlagsAreRight,
  reset_host_middlewares-FlagsAreRight,
}
use apigw.Gateway.Registry.{register_plugin, unregister_plugin}
use apigw.Gateway.Hosts.{add_host, del_host}
use apigw.Gateway.Routes.{register_route, unregister_route}
use apigw.Gateway.Routes.Valid.{
  AreValid, LeavesValid, add_host-RoutesAreValid, register_route-RoutesAreValid,
  unregister_route-RoutesAreValid,
}
use apigw.Gateway.Routes.Frame.{
  LeavesSame, add_host-SameButRoutes, register_route-SameButRoutes, unregister_route-LeavesSame,
}
use apigw.Gateway.WellFormed.{
  IsWellFormed, SameCore-IsWellFormed, SameButRoutes-IsWellFormed, set_metadata_force-SameCore,
  set_metadata-SameCore, del_metadata-SameCore, set_default_not_found-SameCore,
  register_plugin-SameCore, set_host_not_found-SameCore, register_host_middlewares-routes,
  reset_host_middlewares-routes, set_default_host-SameCore, del_host-IsWellFormed,
}

module _ {W C R Q : Type 0} (ship : Ship W C R Q) (ctx : Context W C) where
  -- One call of a method that may change the gateway and that returns.
  pub data Step (g : Gateway W C R) : Gateway W C R → Type 0 where
    sets_metadata_force :
        {h : Gateway W C R} (key : String) (v : Option C)
        → set_metadata_force key v g ≡ returns h
        → Step g h
    sets_metadata :
        {h : Gateway W C R} (key : String) (v : Option C) (new : Bool)
        → set_metadata key v g ≡ returns (h, new)
        → Step g h
    dels_metadata :
        {h : Gateway W C R} (key : String) (v : Option C)
        → del_metadata key g ≡ returns (h, v)
        → Step g h
    sets_name : (name : String) → Step g (set_name ship name g)
    sets_body_max_len : (n : ℤ) → Step g (set_body_max_len n g)
    sets_default_host : (host : String) → Step g (set_default_host ship host g).0
    sets_host_not_found :
        (host : String) (h : Option (Handler W)) → Step g (set_host_not_found host h g)
    sets_default_not_found :
        {h : Gateway W C R} (handler : Option (Handler W))
        → set_default_not_found handler g ≡ returns h
        → Step g h
    registers_global : (mws : List (Middleware W)) → Step g (register_global_middlewares mws g)
    resets_global : (mws : List (Middleware W)) → Step g (reset_global_middlewares mws g)
    registers_host :
        (host : String) (mws : List (Middleware W)) → Step g (register_host_middlewares host mws g)
    resets_host :
        (host : String) (mws : List (Middleware W)) → Step g (reset_host_middlewares host mws g)
    registers_plugin : (p : Plugin W C) → Step g (register_plugin p g).0
    unregisters_plugin : (name : String) → Step g (unregister_plugin name g)
    adds_host : (host : String) → Step g (add_host ship host g).0
    dels_host :
        {h : Gateway W C R} (host : String) (w w' : W) (e : Option Err)
        → del_host ship host g w ≡ returns (h, w', e)
        → Step g h
    registers_route : (route : Route W C) → Step g (register_route ship ctx route g).0
    unregisters_route :
        {h : Gateway W C R} (m : Matcher) (w w' : W) (r : Route W C) (e : Option Err)
        → unregister_route ship m g w ≡ returns (h, w', r, e)
        → Step g h

  -- What calls make of a gateway.
  pub data Reach (g : Gateway W C R) : Gateway W C R → Type 0 where
    here : Reach g g
    next : {h k : Gateway W C R} → Reach g h → Step h k → Reach g k

  unregister_route-IsWellFormed :
      (m : Matcher) (g h : Gateway W C R) (w w' : W) (r : Route W C) (e : Option Err)
      → unregister_route ship m g w ≡ returns (h, w', r, e)
      → IsWellFormed g
      → IsWellFormed h
  unregister_route-IsWellFormed m g h w w' r e p v =
      SameButRoutes-IsWellFormed g h
        (subst (LeavesSame ship g) p (unregister_route-LeavesSame ship g m w))
        (subst LeavesValid p (unregister_route-RoutesAreValid ship m g w v.routes)) v

  -- Every call that returns leaves a well-formed gateway well formed: the two flags agree with the
  -- middlewares, and each route in the table stands under its own host and key and has a path, a
  -- forwarder and a handler.
  pub Step-IsWellFormed : {g h : Gateway W C R} → Step g h → IsWellFormed g → IsWellFormed h
  unfolding set_name set_body_max_len unregister_plugin
  Step-IsWellFormed {g} {h} (sets_metadata_force key v e) wf =
      SameCore-IsWellFormed g h (set_metadata_force-SameCore key v g h e) wf
  Step-IsWellFormed {g} {h} (sets_metadata key v new e) wf =
      SameCore-IsWellFormed g h (set_metadata-SameCore key v new g h e) wf
  Step-IsWellFormed {g} {h} (dels_metadata key v e) wf =
      SameCore-IsWellFormed g h (del_metadata-SameCore key v g h e) wf
  Step-IsWellFormed {g} (sets_name name) wf =
      SameCore-IsWellFormed g _ (refl, refl, refl, refl, refl) wf
  Step-IsWellFormed {g} (sets_body_max_len n) wf =
      SameCore-IsWellFormed g _ (refl, refl, refl, refl, refl) wf
  Step-IsWellFormed {g} (sets_default_host host) wf =
      SameCore-IsWellFormed g _ (set_default_host-SameCore ship host g) wf
  Step-IsWellFormed {g} (sets_host_not_found host h) wf =
      SameCore-IsWellFormed g _ (set_host_not_found-SameCore host h g) wf
  Step-IsWellFormed {g} {h} (sets_default_not_found handler e) wf =
      SameCore-IsWellFormed g h (set_default_not_found-SameCore handler g h e) wf
  Step-IsWellFormed {g} (registers_global mws) wf = record {
    flags = register_global_middlewares-FlagsAreRight mws g wf.flags;
    routes = unfold register_global_middlewares in wf.routes;
  }
  Step-IsWellFormed {g} (resets_global mws) wf = record {
    flags = reset_global_middlewares-FlagsAreRight mws g wf.flags;
    routes = unfold reset_global_middlewares in wf.routes;
  }
  Step-IsWellFormed {g} (registers_host host mws) wf = record {
    flags = register_host_middlewares-FlagsAreRight host mws g wf.flags;
    routes = subst AreValid (register_host_middlewares-routes host mws g) wf.routes;
  }
  Step-IsWellFormed {g} (resets_host host mws) wf = record {
    flags = reset_host_middlewares-FlagsAreRight host mws g wf.flags;
    routes = subst AreValid (reset_host_middlewares-routes host mws g) wf.routes;
  }
  Step-IsWellFormed {g} (registers_plugin p) wf =
      SameCore-IsWellFormed g _ (register_plugin-SameCore p g) wf
  Step-IsWellFormed {g} (unregisters_plugin name) wf =
      SameCore-IsWellFormed g _ (refl, refl, refl, refl, refl) wf
  Step-IsWellFormed {g} (adds_host host) wf =
      SameButRoutes-IsWellFormed g _ (add_host-SameButRoutes ship g host)
        (add_host-RoutesAreValid ship host g wf.routes) wf
  Step-IsWellFormed {g} {h} (dels_host host w w' e p) wf =
      del_host-IsWellFormed ship host g h w w' e p wf
  Step-IsWellFormed {g} (registers_route route) wf =
      SameButRoutes-IsWellFormed g _ (register_route-SameButRoutes ship g ctx route)
        (register_route-RoutesAreValid ship ctx route g wf.routes) wf
  Step-IsWellFormed {g} {h} (unregisters_route m w w' r e p) wf =
      unregister_route-IsWellFormed m g h w w' r e p wf

  -- Every gateway that calls make of a new one is well formed: the global flag is set exactly if
  -- there are global middlewares, the host flag is set at least while a host has an entry of
  -- middlewares, and each route in the table stands under its own host and key and has a path, a
  -- forwarder and a handler.
  pub Reach-IsWellFormed :
      (not_found : Handler W) {h : Gateway W C R}
      → Reach (new_gateway ship not_found) h
      → IsWellFormed h
  unfolding new_gateway
  Reach-IsWellFormed not_found here = record {
    flags = record { globals = refl; hosts = λ e. refl };
    routes = tt;
  }
  Reach-IsWellFormed not_found (next r st) = Step-IsWellFormed st (Reach-IsWellFormed not_found r)
