-- ===== src/Lb/Forwarder.antt =====
-- forward/lb/forward.go: the forwarder of a route. A call holds the forwarder's lock and is one
-- step here, with the calls on groups and load balancers that it makes.
pub mod Effects
pub mod Closing
pub mod Joining
pub mod Members
pub mod Joins
pub mod Race
pub mod Endpoints
pub mod Policy
use apigw.Common.{
  String, ◌==◌, if◌then◌else◌, Bool, true, false, ℕ, List, [], ◌∷◌, Option, none, some, or_else,
  is_some,
}
use apigw.Common.Int.{ℤ, pos, ltb_ℤ}
use apigw.Dict.{Dict, lookup, insert, delete, has}
use apigw.Types.{
  Handler, Reply, done, fail, panics, Outcome, returns, panic, ◌>>=◌, Err, bad_gateway,
  no_available_endpoints, no_available_backends,
}
use apigw.Lb.{
  Backend, endpoint, group, backend_id, BackendInfo, Balancer, HealthCheck, Balancers, add_backend,
  del_backend_by_id, entries,
}
use apigw.Lb.Group.{GroupBackend, add_updater, del_updater_by_name, seen_all}
use apigw.Lb.Heap.{Forwarder, Heap, put}

module _ {E K D H : Type 0} (hc : HealthCheck E K D H) where
  -- The load balancer that `NewForwarder` makes is put at the address by the caller.
  unfoldable pub new_forwarder : String → Forwarder E K D H
  new_forwarder name = record { name = name; backends = some []; timeout = pos 0; checker = hc.new }

  unfoldable pub get_backends : Forwarder E K D H → List (BackendInfo E K D)
  unfolding seen_all
  get_backends f = seen_all hc f.checker (entries f.backends)

module _ {E K D H : Type 0} where
  unfoldable pub set_max_timeout : ℤ → Forwarder E K D H → Forwarder E K D H
  set_max_timeout t f = record f { timeout = t }

  unfoldable pub get_max_timeout : Forwarder E K D H → ℤ
  get_max_timeout f = f.timeout

-- `switch _, err = f.RoundTrip(c, req); err`: the reply to the router.
unfoldable pub forward_reply : Reply → Reply
forward_reply (fail no_available_endpoints) = fail (bad_gateway no_available_backends)
forward_reply (fail no_available_backends) = fail (bad_gateway no_available_backends)
forward_reply r = r

-- The call of the load balancer is a parameter over the deadline and the request. A deadline is set
-- for a positive timeout.
unfoldable pub forward :
    {E K D H W Req : Type 0}
    → (Option ℤ → Req → Handler W)
    → (W → Req)
    → Option (W → Req)
    → Forwarder E K D H
    → Handler W
unfolding get_max_timeout forward_reply
forward round_trip simple_request new_request f w =
    let timeout = get_max_timeout f in
    let deadline : Option ℤ = (if ltb_ℤ (pos 0) timeout then some timeout else none) in
    let (w', reply) = round_trip deadline (or_else new_request simple_request w) w in
    (w', forward_reply reply)

module _ {E K D H L : Type 0} (lb : Balancer E L) (hc : HealthCheck E K D H) where
  -- `f.backends[id] = info`, which panics on a nil map.
  store_info :
      ℕ
      → String
      → BackendInfo E K D
      → Heap E K D H L
      → Option (Dict (BackendInfo E K D))
      → Outcome (Heap E K D H L)
  store_info f id info hp none = panic "assignment to entry in nil map"
  store_info f id info hp (some bs) = returns (record hp {
    forwarders =
        put f (record (hp.forwarders f) { backends = some (insert id info bs) }) hp.forwarders;
  })

  -- The branches of `addBackend` for an id that is new: a group, a backend, a checked backend.
  add_new : ℕ → Backend E → Bool → Option K → D → Heap E K D H L → Outcome (Heap E K D H L)
  unfolding store_info
  add_new f e true k d hp =
      store_info f (backend_id e) (record { online = true; backend = e; checker = k; duration = d })
        hp (hp.forwarders f).backends
  add_new f e false none d hp =
      store_info f (backend_id e)
        (record { online = true; backend = e; checker = none; duration = d })
        (record hp { balancers = add_backend lb f e hp.balancers }) (hp.forwarders f).backends
  add_new f e false (some k) d hp =
      store_info f (backend_id e)
        (record { online = false; backend = e; checker = some k; duration = d })
        (record hp {
          forwarders =
              put f
                (record (hp.forwarders f) {
                  checker = hc.add_endpoint e k d (hp.forwarders f).checker;
                })
                hp.forwarders;
        })
        (hp.forwarders f).backends

  -- `addBackend`, with `group != nil` as a Boolean.
  unfoldable pub add_backend_info :
      ℕ → Backend E → Bool → Option K → D → Heap E K D H L → Outcome (Heap E K D H L × Bool)
  unfolding add_new
  add_backend_info f e is_group k d hp =
      if has (backend_id e) (entries (hp.forwarders f).backends)
      then returns (hp, false)
      else (do hp' ← add_new f e is_group k d hp; returns (hp', true))

  -- `group.AddUpdater(forwardUpdater{f})`
  unfoldable pub join_group : ℕ → ℕ → Heap E K D H L → Outcome (Heap E K D H L)
  unfolding add_updater
  join_group f g hp = do
    t ← add_updater lb hc (hp.forwarders f).name f (hp.groups g) hp.balancers
    returns (record hp { groups = put g t.0 hp.groups; balancers = t.1 })

  -- `group.DelUpdaterByName(f.Name())`
  unfoldable pub leave_group : ℕ → ℕ → Heap E K D H L → Heap E K D H L
  unfolding del_updater_by_name
  leave_group f g hp =
      let (b, s) = del_updater_by_name lb hc (hp.forwarders f).name (hp.groups g) hp.balancers in
      record hp { groups = put g b hp.groups; balancers = s }

  -- `zero` is `BackendCheckerDuration{}`.
  add_group_info : ℕ → String → ℕ → Option K → D → Heap E K D H L → Outcome (Heap E K D H L)
  unfolding add_backend_info join_group
  add_group_info f name g k zero hp = do
    t ← add_backend_info f (group name g) true k zero hp
    if t.1 then join_group f g t.0 else returns t.0

  unfoldable pub add_backend_group : ℕ → String → ℕ → D → Heap E K D H L → Outcome (Heap E K D H L)
  unfolding add_group_info
  add_backend_group f name g zero hp = add_group_info f name g none zero hp

  unfoldable pub add_backend_with_checker :
      ℕ → Backend E → Option K → D → D → Heap E K D H L → Outcome (Heap E K D H L)
  unfolding add_group_info add_backend_info
  add_backend_with_checker f (endpoint id e) k d zero hp = do
    t ← add_backend_info f (endpoint id e) false k d hp
    returns t.0
  add_backend_with_checker f (group name g) k d zero hp = add_group_info f name g k zero hp

  -- The part of `DelBackendByID` after the lock is released.
  part_with : ℕ → String → Backend E → Heap E K D H L → Heap E K D H L
  unfolding leave_group
  part_with f id (group name g) hp = leave_group f g hp
  part_with f id (endpoint i e) hp = record hp {
    balancers = del_backend_by_id lb f id hp.balancers;
  }

  -- `delete(f.backends, backendID)`, under the lock.
  abbrev pub drop_info : ℕ → String → Heap E K D H L → Heap E K D H L
  drop_info f id hp = record hp {
    forwarders =
        put f
          (record (hp.forwarders f) {
            backends = some (delete id (entries (hp.forwarders f).backends));
          })
          hp.forwarders;
  }

  unfoldable pub del_backend : ℕ → String → Heap E K D H L → Heap E K D H L
  unfolding part_with
  del_backend f id hp = elim (lookup id (entries (hp.forwarders f).backends)) [
    | none ↦ hp
    | some info ↦ part_with f id info.backend (drop_info f id hp)
  ]

  -- The loop of `Close`.
  unfoldable pub leave_backend : ℕ → Backend E → Heap E K D H L → Heap E K D H L
  unfolding leave_group
  leave_backend f (endpoint i e) hp = hp
  leave_backend f (group name g) hp = leave_group f g hp

  unfoldable pub leave_groups : ℕ → Dict (BackendInfo E K D) → Heap E K D H L → Heap E K D H L
  unfolding leave_backend
  leave_groups f [] hp = hp
  leave_groups f ((id, info) ∷ bs) hp = leave_groups f bs (leave_backend f info.backend hp)

  -- The load balancer and its session are closed by the parameter `close_balancer`.
  unfoldable pub close : (L → L × Option Err) → ℕ → Heap E K D H L → Heap E K D H L × Option Err
  unfolding leave_groups
  close close_balancer f hp =
      let bs = entries (hp.forwarders f).backends in
      let hp' = leave_groups f bs (record hp {
        forwarders = put f (record (hp.forwarders f) { backends = none }) hp.forwarders;
      }) in
      let (l, e) = close_balancer (hp'.balancers f) in
      (
        record hp' {
          forwarders =
              put f (record (hp'.forwarders f) { checker = hc.stop (hp'.forwarders f).checker })
                hp'.forwarders;
          balancers = put f l hp'.balancers;
        },
        e,
      )
