-- ===== src/Lb/Group.antt =====
-- forward/lb/backend.go: a group of backends with its health checker, and the updaters (the
-- forwarders) that it keeps informed. A call holds the group's lock and is one step here.
pub mod Loops
pub mod Effects
pub mod Updaters
pub mod Kept
pub mod Contract
pub mod Interface
pub mod Accounts
pub mod Sync
pub mod Steps
use apigw.Common.{
  String, ◌==◌, if◌then◌else◌, Bool, true, false, ℕ, List, [], ◌∷◌, Option, none, some, or_else,
  is_some,
}
use apigw.Dict.{Dict, lookup, insert, delete, has, keys, values}
use apigw.Types.{Outcome, returns, panic}
use apigw.Lb.{
  Backend, backend_id, group, BackendInfo, Balancer, HealthCheck, Balancers, add_backend,
  del_backend_by_id, add_to_all, del_from_all, entries,
}

-- `none` is a nil map, which `Close` leaves.
pub record GroupBackend (E K D H : Type 0) : Type 0 where
  pub checker : H
  pub name : String
  pub backends : Option (Dict (BackendInfo E K D))
  pub updaters : Option (Dict ℕ)

module _ {E K D H : Type 0} (hc : HealthCheck E K D H) where
  -- Registering the group as the updater of its own checker is part of the model of the checker's
  -- events, `add_endpoint` and `del_endpoint` below.
  unfoldable pub new_group_backend : String → Outcome (GroupBackend E K D H)
  new_group_backend name =
      if name == ""
      then panic "the group name must not be empty"
      else returns
          (record { checker = hc.new; name = name; backends = some []; updaters = some [] })

  seen : H → BackendInfo E K D → BackendInfo E K D
  seen h info =
      if info.online
      then info
      else record info { online = hc.is_healthy (backend_id info.backend) h }

  unfoldable pub seen_all : H → Dict (BackendInfo E K D) → List (BackendInfo E K D)
  unfolding seen
  seen_all h [] = []
  seen_all h ((id, info) ∷ bs) = seen h info ∷ seen_all h bs

  unfoldable pub get_backends : GroupBackend E K D H → List (BackendInfo E K D)
  unfolding seen_all
  get_backends b = seen_all b.checker (entries b.backends)

module _ {E K D H : Type 0} where
  unfoldable pub get_updaters : GroupBackend E K D H → List ℕ
  get_updaters b = values (entries b.updaters)

  -- A nil updater is `none`.
  unfoldable pub get_updater_by_name : String → GroupBackend E K D H → Option ℕ
  get_updater_by_name name b = lookup name (entries b.updaters)

module _ {E K D H L : Type 0} (lb : Balancer E L) (hc : HealthCheck E K D H) where
  -- The last statement of `AddBackendWithChecker`, a write that panics on a nil map.
  store_backend :
      String
      → BackendInfo E K D
      → GroupBackend E K D H
      → Balancers L
      → Option (Dict (BackendInfo E K D))
      → Outcome (GroupBackend E K D H × Balancers L)
  store_backend id info b s none = panic "assignment to entry in nil map"
  store_backend id info b s (some bs) =
      returns (record b { backends = some (insert id info bs) }, s)

  add_new_backend :
      Backend E
      → Option K
      → D
      → GroupBackend E K D H
      → Balancers L
      → Outcome (GroupBackend E K D H × Balancers L)
  unfolding store_backend
  add_new_backend e none d b s =
      store_backend (backend_id e)
        (record { online = true; backend = e; checker = none; duration = d }) b
        (add_to_all lb e (entries b.updaters) s) b.backends
  add_new_backend e (some k) d b s =
      store_backend (backend_id e)
        (record { online = false; backend = e; checker = some k; duration = d })
        (record b { checker = hc.add_endpoint e k d b.checker }) s b.backends

  unfoldable pub add_backend_with_checker :
      Backend E
      → Option K
      → D
      → GroupBackend E K D H
      → Balancers L
      → Outcome (GroupBackend E K D H × Balancers L)
  unfolding add_new_backend
  add_backend_with_checker e k d b s =
      if has (backend_id e) (entries b.backends) then returns (b, s) else add_new_backend e k d b s

  -- `delBackendByID`, and then the call on the checker, which is made outside the lock.
  unfoldable pub drop_backend :
      String → GroupBackend E K D H → Balancers L → GroupBackend E K D H × Balancers L × Bool
  drop_backend id b s = elim (lookup id (entries b.backends)) [
    | none ↦ (b, s, false)
    | some info ↦ (
      record b { backends = some (delete id (entries b.backends)) },
      del_from_all lb id (entries b.updaters) s,
      is_some info.checker,
    )
  ]

  unfoldable pub uncheck : String → GroupBackend E K D H → GroupBackend E K D H
  uncheck id b = record b { checker = hc.del_endpoint_by_id id b.checker }

  unfoldable pub del_backend :
      String → GroupBackend E K D H → Balancers L → GroupBackend E K D H × Balancers L
  unfolding drop_backend uncheck
  del_backend id b s =
      let (b', s', checked) = drop_backend id b s in (if checked then uncheck id b' else b', s')

  -- The inner loop of `AddUpdater`.
  add_if_healthy : ℕ → Backend E → List (Backend E × Bool) → Balancers L → Balancers L
  add_if_healthy u e [] s = s
  add_if_healthy u e ((ep, healthy) ∷ eps) s =
      add_if_healthy u e eps (if healthy then add_backend lb u e s else s)

  -- The outer loop of `AddUpdater`.
  unfoldable pub inform : ℕ → H → Dict (BackendInfo E K D) → Balancers L → Balancers L
  unfolding add_if_healthy
  inform u h [] s = s
  inform u h ((id, info) ∷ bs) s = inform u h bs (
      if info.online
      then add_backend lb u info.backend s
      else add_if_healthy u info.backend (hc.get_endpoints h) s)

  add_new_updater :
      String
      → ℕ
      → GroupBackend E K D H
      → Balancers L
      → Option (Dict ℕ)
      → Outcome (GroupBackend E K D H × Balancers L)
  unfolding inform
  add_new_updater name u b s none = panic "assignment to entry in nil map"
  add_new_updater name u b s (some us) =
      returns
        (record b { updaters = some (insert name u us) }, inform u b.checker (entries b.backends) s)

  -- `name` is `u.Name()`.
  unfoldable pub add_updater :
      String → ℕ → GroupBackend E K D H → Balancers L → Outcome (GroupBackend E K D H × Balancers L)
  unfolding add_new_updater
  add_updater name u b s =
      if has name (entries b.updaters)
      then returns (b, s)
      else add_new_updater name u b s b.updaters

  -- `for _, backend := range b.backends { u.DelBackendByID(backend.Backend.ID()) }`
  unfoldable pub forget_backends : ℕ → Dict (BackendInfo E K D) → Balancers L → Balancers L
  forget_backends u [] s = s
  forget_backends u ((id, info) ∷ bs) s =
      forget_backends u bs (del_backend_by_id lb u (backend_id info.backend) s)

  unfoldable pub del_updater_by_name :
      String → GroupBackend E K D H → Balancers L → GroupBackend E K D H × Balancers L
  unfolding forget_backends
  del_updater_by_name name b s = elim (lookup name (entries b.updaters)) [
    | none ↦ (b, s)
    | some u ↦ (
      record b { updaters = some (delete name (entries b.updaters)) },
      forget_backends u (entries b.backends) s,
    )
  ]

  -- The loop of `Close`.
  unfoldable pub close_updaters :
      String → Dict (BackendInfo E K D) → Dict ℕ → Balancers L → Balancers L
  unfolding forget_backends
  close_updaters name bs [] s = s
  close_updaters name bs ((n, u) ∷ us) s =
      close_updaters name bs us (forget_backends u bs (del_backend_by_id lb u name s))

  unfoldable pub close : GroupBackend E K D H → Balancers L → GroupBackend E K D H × Balancers L
  unfolding close_updaters
  close b s = (
    record b { backends = none; updaters = none; checker = hc.stop b.checker },
    close_updaters b.name (entries b.backends) (entries b.updaters) s,
  )

  -- `addEndpoint` and `delEndpoint`, which the checker calls when the health of an endpoint
  -- changes.
  unfoldable pub add_endpoint : Backend E → GroupBackend E K D H → Balancers L → Balancers L
  add_endpoint e b s = add_to_all lb e (entries b.updaters) s

  unfoldable pub del_endpoint : String → GroupBackend E K D H → Balancers L → Balancers L
  del_endpoint id b s = del_from_all lb id (entries b.updaters) s
