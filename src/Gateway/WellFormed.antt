-- ===== src/Gateway/WellFormed.antt =====
-- gateway.go: well-formed gateways, and the single calls that keep them so.
use apigw.Common.{String, Bool, List, Option, none, ◌≡◌, arith, inl, inr, Option-cases, subst}
use mathlib.Core.Path.{subst⁻¹}
use apigw.Dict.{lookup, delete, values}
use apigw.Dict.Laws.{Every-delete}
use apigw.Types.{Handler, Middleware, Err, Outcome, returns, panic, ◌>>=◌}
use apigw.Plugin.{Plugin}
use apigw.Ship.{Ship}
use apigw.Gateway.{Gateway}
use apigw.Gateway.Metadata.{set_metadata_force, set_metadata, del_metadata}
use apigw.Gateway.Settings.{set_host_not_found, set_default_not_found, set_default_host}
use apigw.Gateway.Executes.{FlagsAreRight}
use apigw.Gateway.Middlewares.{register_host_middlewares, reset_host_middlewares}
use apigw.Gateway.Registry.{register_plugin}
use apigw.Gateway.Hosts.{del_host, forget_host, close_routes}
use apigw.Gateway.Routes.Valid.{RoutesAreValid}
use apigw.Gateway.Routes.Frame.{SameButRoutes}

module _ {W C R : Type 0} where
  pub record IsWellFormed (g : Gateway W C R) : Type 0 where
    pub flags : FlagsAreRight g
    pub routes : RoutesAreValid g

  -- The routes, the middlewares and the flags are the same.
  abbrev pub SameCore : Gateway W C R → Gateway W C R → Type 0
  SameCore g h =
      (h.mdws ≡ g.mdws)
      × (h.hostmdws ≡ g.hostmdws)
      × (h.hasgmdw ≡ g.hasgmdw)
      × (h.hashmdw ≡ g.hashmdw)
      × (h.routes ≡ g.routes)

  pub SameCore-IsWellFormed : (g h : Gateway W C R) → SameCore g h → IsWellFormed g → IsWellFormed h
  SameCore-IsWellFormed g h (m, hm, fg, fh, r) v = record {
    flags = record { globals = rw (fg, m) v.flags.globals; hosts = rw (fh, hm) v.flags.hosts };
    routes = rw r v.routes;
  }

  pub SameButRoutes-IsWellFormed :
      (g h : Gateway W C R) → SameButRoutes g h → RoutesAreValid h → IsWellFormed g → IsWellFormed h
  SameButRoutes-IsWellFormed g h same routes v = record {
    flags =
        subst⁻¹ FlagsAreRight same (record { globals = v.flags.globals; hosts = v.flags.hosts });
    routes = routes;
  }

  pub set_metadata_force-SameCore :
      (key : String) (v : Option C) (g h : Gateway W C R)
      → set_metadata_force key v g ≡ returns h
      → SameCore g h
  unfolding set_metadata_force
  set_metadata_force-SameCore key v g h e = ground arith

  pub set_metadata-SameCore :
      (key : String) (v : Option C) (new : Bool) (g h : Gateway W C R)
      → set_metadata key v g ≡ returns (h, new)
      → SameCore g h
  unfolding set_metadata
  set_metadata-SameCore key v new g h e = ground arith

  pub del_metadata-SameCore :
      (key : String) (v : Option C) (g h : Gateway W C R)
      → del_metadata key g ≡ returns (h, v)
      → SameCore g h
  unfolding del_metadata
  del_metadata-SameCore key v g h e = ground arith

  pub set_default_not_found-SameCore :
      (handler : Option (Handler W)) (g h : Gateway W C R)
      → set_default_not_found handler g ≡ returns h
      → SameCore g h
  unfolding set_default_not_found
  set_default_not_found-SameCore handler g h e = ground arith

  pub register_plugin-SameCore :
      (p : Plugin W C) (g : Gateway W C R) → SameCore g (register_plugin p g).0
  unfolding register_plugin
  register_plugin-SameCore p g = ground arith

  pub set_host_not_found-SameCore :
      (host : String) (h : Option (Handler W)) (g : Gateway W C R)
      → SameCore g (set_host_not_found host h g)
  unfolding set_host_not_found
  set_host_not_found-SameCore host h g = ground arith

  pub register_host_middlewares-routes :
      (host : String) (mws : List (Middleware W)) (g : Gateway W C R)
      → g.routes ≡ (register_host_middlewares host mws g).routes
  unfolding register_host_middlewares
  register_host_middlewares-routes host mws g = ground arith

  pub reset_host_middlewares-routes :
      (host : String) (mws : List (Middleware W)) (g : Gateway W C R)
      → g.routes ≡ (reset_host_middlewares host mws g).routes
  unfolding reset_host_middlewares
  reset_host_middlewares-routes host mws g = ground arith

  pub set_default_host-SameCore :
      {Q : Type 0} (ship : Ship W C R Q) (host : String) (g : Gateway W C R)
      → SameCore g (set_default_host ship host g).0
  unfolding set_default_host
  set_default_host-SameCore ship host g = ground arith

  -- What `DelHost` makes of a well-formed gateway.
  forgotten-IsWellFormed :
      {Q : Type 0} (ship : Ship W C R Q) (host : String) (g : Gateway W C R)
      → IsWellFormed g
      → IsWellFormed (forget_host ship host g)
  unfolding forget_host delete
  forgotten-IsWellFormed ship host g v = record {
    flags = record { globals = v.flags.globals; hosts = λ e. rw (v.flags.hosts e) };
    routes = Every-delete _ host g.routes v.routes;
  }

  returned :
      (o : Outcome W) (g h : Gateway W C R) (w' : W) (e e' : Option Err)
      → ◌>>=◌ {B = Gateway W C R × W × Option Err} o (λ w''. returns (g, w'', e'))
        ≡ returns (h, w', e)
      → g ≡ h
  returned (returns a) g h w' e e' p = ground arith
  returned (panic s) g h w' e e' p = cc

  pub del_host-IsWellFormed :
      {Q : Type 0} (ship : Ship W C R Q) (host : String) (g h : Gateway W C R) (w w' : W)
      (e : Option Err)
      → del_host ship host g w ≡ returns (h, w', e)
      → IsWellFormed g
      → IsWellFormed h
  unfolding del_host
  del_host-IsWellFormed ship host g h w w' e p v = elim (Option-cases (lookup host g.routes)) [
    | inl missing ↦ let same : g ≡ h = ground arith in subst IsWellFormed same v
    | inr (rs, known) ↦
        subst IsWellFormed
          (returned (close_routes (values rs) w) (forget_host ship host g) h w' e none
            (ground arith))
          (forgotten-IsWellFormed ship host g v)
  ]
