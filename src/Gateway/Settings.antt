-- ===== src/Gateway/Settings.antt =====
-- gateway.go: the name, the limit on bodies, the default host and the NotFound handlers.
use apigw.Common.{
  String, ◌==◌, eq_iff, if◌then◌else◌, Option, none, some, or_else, ◌≡◌, refl, arith, inl, inr,
  Bool-cases, Option-cases,
}
use apigw.Common.Int.{ℤ}
use apigw.Dict.{Dict, lookup, insert, delete}
use apigw.Dict.Laws.{lookup-insert, lookup-delete}
use apigw.Types.{Handler, Err, Outcome, returns, panic, host_is_empty, unknown_host}
use apigw.Ship.{Ship, Context}
use apigw.Gateway.{Gateway, choose_not_found}

module _ {W C R : Type 0} where
  unfoldable pub set_body_max_len : ℤ → Gateway W C R → Gateway W C R
  set_body_max_len n g = record g { body_max_len = n }

  -- A nil handler unsets the entry.
  unfoldable pub set_host_not_found : String → Option (Handler W) → Gateway W C R → Gateway W C R
  set_host_not_found host none g = record g { notfounds = delete host g.notfounds }
  set_host_not_found host (some h) g = record g { notfounds = insert host h g.notfounds }

  unfoldable pub set_default_not_found :
      Option (Handler W) → Gateway W C R → Outcome (Gateway W C R)
  set_default_not_found none g = panic "the NotFound handler must not be nil"
  set_default_not_found (some h) g = returns (record g { notfound = h })

  unfoldable pub host_not_found : String → Gateway W C R → Option (Handler W)
  host_not_found host g = lookup host g.notfounds

  -- The copy that `HostNotFounds` makes.
  unfoldable pub host_not_founds : Gateway W C R → Dict (Handler W)
  host_not_founds g = g.notfounds

  -- The handler for a request that no route takes, after `SetHostNotFound` on any host: the one of
  -- the request's host comes first, then the one of the matched host, then the default. The call
  -- changes the choice only through the entry of its host, which a nil handler takes away.
  pub choose_not_found-set_host_not_found :
      (ctx : Context W C) (host : String) (h : Option (Handler W)) (g : Gateway W C R) (w : W)
      → choose_not_found ctx (set_host_not_found host h g) w
        ≡ or_else (if host == ctx.host w then h else host_not_found (ctx.host w) g) (
            or_else
              (if host == ctx.route_host w then h else host_not_found (ctx.route_host w) g)
              g.notfound)
  unfolding choose_not_found set_host_not_found host_not_found
  choose_not_found-set_host_not_found ctx host none g w = ground (
    arith,
    lookup-delete host (ctx.host w) g.notfounds,
    lookup-delete host (ctx.route_host w) g.notfounds,
  )
  choose_not_found-set_host_not_found ctx host (some h) g w = ground (
    arith,
    lookup-insert host (ctx.host w) h g.notfounds,
    lookup-insert host (ctx.route_host w) h g.notfounds,
  )

module _ {W C R Q : Type 0} (ship : Ship W C R Q) where
  unfoldable pub name : Gateway W C R → String
  name g = ship.name g.router

  unfoldable pub set_name : String → Gateway W C R → Gateway W C R
  set_name n g = record g { router = ship.set_name n g.router }

  unfoldable pub get_default_host : Gateway W C R → String
  get_default_host g = ship.get_default_host g.router

  unfoldable pub set_default_host : String → Gateway W C R → Gateway W C R × Option Err
  set_default_host host g =
      if host == ""
      then (g, some host_is_empty)
      else if ship.get_default_host g.router == host
      then (g, none)
      else elim (ship.router host g.router) [
        | none ↦ (g, some (unknown_host host))
        | some q ↦ (record g { router = ship.set_default_router host q g.router }, none)
      ]

  unfoldable pub router : Gateway W C R → R
  router g = g.router

  -- `serve` is the router's own `ServeHTTP`.
  unfoldable pub serve_http : {Req : Type 0} → (R → Req → W → W) → Gateway W C R → Req → W → W
  serve_http serve g r w = serve g.router r w

  -- What `SetDefaultHost` promises of its result: no error and the host is the default one, or an
  -- error and the gateway is as it was.
  abbrev pub SetsOrFails : String → Gateway W C R → Gateway W C R × Option Err → Type 0
  SetsOrFails host g (h, none) = get_default_host h ≡ host
  SetsOrFails host g (h, some e) = h ≡ g

  -- Where the router's `SetDefaultRouter` sets its default host, a `SetDefaultHost` with no error
  -- makes the host the default one, and one with an error leaves the gateway as it was.
  pub set_default_host-SetsOrFails :
      ((host : String) (q : Q) (r : R)
        → ship.get_default_host (ship.set_default_router host q r) ≡ host)
      → (host : String) (g : Gateway W C R) → SetsOrFails host g (set_default_host host g)
  unfolding set_default_host get_default_host
  set_default_host-SetsOrFails sets host g = elim (Bool-cases (host == "")) [
    | inl e ↦ rw e refl
    | inr ne ↦ elim (Bool-cases (ship.get_default_host g.router == host)) [
      | inl same ↦ rw (ne, same) ((eq_iff _ _).0 same)
      | inr other ↦ elim (Option-cases (ship.router host g.router)) [
        | inl missing ↦ rw (ne, other, missing) refl
        | inr (q, found) ↦ rw (ne, other, found) (sets host q g.router)
      ]
    ]
  ]
