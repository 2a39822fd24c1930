-- ===== src/Lb/Forwarder/Effects.antt =====
-- What the calls on a forwarder mean for its load balancer and for the groups that it has joined.
use apigw.Common.{
  String, ◌==◌, eq_iff, if◌then◌else◌, true, false, ◌&&◌, ◌||◌, ℕ, Option, none, some, ◌≡◌, refl,
  ◌≢◌, arith, nat_eq, nat_eq_refl, not, is_some, ◌⊎◌, Option-cases, inl, inr, or_else,
}
use apigw.Common.Int.{ℤ, pos, ltb_ℤ}
use apigw.Lb.Group.Effects.{del_updater_by_name_lem}
use apigw.Dict.{Dict, lookup, insert, has}
use apigw.Dict.Laws.{lookup-insert, lookup-delete}
use apigw.Types.{
  Handler, Reply, fail, Outcome, returns, bad_gateway, no_available_endpoints,
  no_available_backends,
}
use apigw.Lb.{
  endpoint, group, backend_id, BackendInfo, Balancer, BalancerLaws, HealthCheck, entries,
  add_backend,
}
use apigw.Lb.Updates.{has-add_backend, has-del_backend_by_id}
use apigw.Lb.Group.Loops.{mentions}
use apigw.Lb.Heap.{Forwarder, Heap, put}
use apigw.Lb.Forwarder.{forward_reply, forward, add_backend_with_checker, part_with, del_backend}

module _ {E K D H L : Type 0} (lb : Balancer E L) (laws : BalancerLaws lb)
    (hc : HealthCheck E K D H) (hp : Heap E K D H L) (f : ℕ) where
  abbrev backends_of : Heap E K D H L → Dict (BackendInfo E K D)
  backends_of h = entries (h.forwarders f).backends

  -- The result of `AddBackendWithChecker` of a backend that is no group, on a forwarder that has
  -- the backends `bs`.
  abbrev pub Adds : String → Option K → Dict (BackendInfo E K D) → Outcome (Heap E K D H L) → Type 0
  Adds id k bs r =
      (h : Heap E K D H L) × (r ≡ returns h)
      × ((j : String) → has j (backends_of h) ≡ ((id == j) || has j bs))
      × ((v : ℕ) (j : String)
          → lb.has_endpoint j (h.balancers v) ≡ (
              if not (has id bs) && (not (is_some k) && (nat_eq f v && (id == j)))
              then true
              else lb.has_endpoint j (hp.balancers v)))
      × (h.groups ≡ hp.groups)

  -- `AddBackendWithChecker` of a backend that is no group, on a forwarder that is not closed,
  -- returns and adds the id to the forwarder's backends. Only for an id that is new, and only
  -- without a checker, the backend becomes an endpoint of the forwarder's load balancer; no other
  -- endpoint and no group changes.
  pub add_backend_with_checker-Adds :
      (id : String) (e : E) (k : Option K) (d zero : D) (bs : Dict (BackendInfo E K D))
      → (hp.forwarders f).backends ≡ some bs
      → Adds id k bs (add_backend_with_checker lb hc f (endpoint id e) k d zero hp)
  unfolding add_backend_with_checker backend_id
  add_backend_with_checker-Adds id e k d zero bs is_open = added k (Option-cases (lookup id bs))
    where
      info : Option K → BackendInfo E K D
      info k = record {
        online = not (is_some k);
        backend = endpoint id e;
        checker = k;
        duration = d;
      }

      checked : K → Forwarder E K D H
      checked k = record (hp.forwarders f) {
        checker = hc.add_endpoint (endpoint id e) k d (hp.forwarders f).checker;
      }

      added :
          (k : Option K)
          → ((lookup id bs ≡ none) ⊎ ((i : BackendInfo E K D) × (lookup id bs ≡ some i)))
          → Adds id k bs (add_backend_with_checker lb hc f (endpoint id e) k d zero hp)
      added k (inr (old, there)) =
          (hp, ground arith, λ j. ground (arith, eq_iff id j), λ v j. ground arith, refl)
      added none (inl new) = (
        record hp {
          forwarders =
              put f (record (hp.forwarders f) { backends = some (insert id (info none) bs) })
                hp.forwarders;
          balancers = add_backend lb f (endpoint id e) hp.balancers;
        },
        ground arith,
        λ j. rw (nat_eq_refl f) (ground (arith, lookup-insert id j (info none) bs)),
        λ v j. ground (arith, has-add_backend lb laws f v (endpoint id e) j hp.balancers),
        refl,
      )
      added (some k) (inl new) =
          let fs = put f (checked k) hp.forwarders in
          (
            record hp {
              forwarders =
                  put f (record (fs f) { backends = some (insert id (info (some k)) bs) }) fs;
            },
            ground arith,
            λ j. rw (nat_eq_refl f) (ground (arith, lookup-insert id j (info (some k)) bs)),
            λ v j. ground arith,
            refl,
          )

  -- `DelBackendByID` of a backend that is no group takes it out of the forwarder's backends and out
  -- of its load balancer; no other backend, endpoint or group changes.
  pub del_backend_of_endpoint :
      (id i : String) (e : E) (info : BackendInfo E K D)
      → lookup id (backends_of hp) ≡ some info
      → info.backend ≡ endpoint i e
      → ((j : String)
          → lookup j (backends_of (del_backend lb hc f id hp))
            ≡ (if id == j then none else lookup j (backends_of hp)))
        × ((v : ℕ) (j : String)
            → lb.has_endpoint j ((del_backend lb hc f id hp).balancers v)
              ≡ (if nat_eq f v && (id == j) then false else lb.has_endpoint j (hp.balancers v)))
        × ((del_backend lb hc f id hp).groups ≡ hp.groups)
  unfolding del_backend
  del_backend_of_endpoint id i e info there plain = (
    λ j.
        rw (there, del_backend, plain, part_with, nat_eq_refl f)
          (lookup-delete id j (backends_of hp)),
    λ v j.
        rw (there, del_backend, plain, part_with)
          (has-del_backend_by_id lb laws f v id j hp.balancers),
    rw (there, del_backend, plain, part_with),
  )

  -- `DelBackendByID` of a group that informs the forwarder under its name takes the forwarder off
  -- the group's updaters and all the group's backends out of the forwarder's load balancer; the
  -- other endpoints and the other forwarders' load balancers stay.
  pub del_backend_of_group :
      (id name : String) (g : ℕ) (info : BackendInfo E K D)
      → lookup id (backends_of hp) ≡ some info
      → info.backend ≡ group name g
      → lookup (hp.forwarders f).name (entries (hp.groups g).updaters) ≡ some f
      → let h = del_backend lb hc f id hp in
        (lookup (hp.forwarders f).name (entries (h.groups g).updaters) ≡ none)
        × ((v : ℕ) (j : String)
            → lb.has_endpoint j (h.balancers v) ≡ (
                if nat_eq f v && mentions j (entries (hp.groups g).backends)
                then false
                else lb.has_endpoint j (hp.balancers v)))
  unfolding del_backend
  del_backend_of_group id name g info there is_group joined =
      let left =
        del_updater_by_name_lem lb laws hc (hp.groups g) hp.balancers (hp.forwarders f).name in
      (
        rw (there, del_backend, is_group, part_with, nat_eq_refl f, nat_eq_refl g) (left 0 id).0,
        λ v j.
            rw (there, del_backend, is_group, part_with, nat_eq_refl f) (rw joined at (left v j).1),
      )

-- The reply that `Forward` gives for a reply of the load balancer.
abbrev pub Passes : Reply → Reply → Type 0
Passes inner reply =
    (inner ≡ fail no_available_endpoints → reply ≡ fail (bad_gateway no_available_backends))
    × (inner ≡ fail no_available_backends → reply ≡ fail (bad_gateway no_available_backends))
    × (inner ≢ fail no_available_endpoints → inner ≢ fail no_available_backends → reply ≡ inner)

forward_reply-Passes : (r : Reply) → Passes r (forward_reply r)
unfolding forward_reply
forward_reply-Passes (fail no_available_endpoints) = (λ e. refl, λ e. refl, λ h k. absurd (h refl))
forward_reply-Passes (fail no_available_backends) = (λ e. refl, λ e. refl, λ h k. absurd (k refl))
forward_reply-Passes (fail _) = (λ e. cc, λ e. cc, λ h k. refl)
forward_reply-Passes _ = (λ e. cc, λ e. cc, λ h k. refl)

-- `Forward` runs the load balancer once, with the request that `NewRequest` makes if there is one
-- and with a deadline exactly for a positive timeout. Where the load balancer fails because no
-- endpoint or no backend is available, it answers with the bad gateway error (502) that wraps
-- `ErrNoAvailableBackends`; it passes every other reply on.
pub forward_lem :
    {E K D H W Req : Type 0} (round_trip : Option ℤ → Req → Handler W) (simple : W → Req)
    (new_request : Option (W → Req)) (fwd : Forwarder E K D H) (w : W)
    → let inner =
        round_trip
          (if ltb_ℤ (pos 0) fwd.timeout then some fwd.timeout else none)
          (or_else new_request simple w)
          w in
      ((forward round_trip simple new_request fwd w).0 ≡ inner.0)
      × Passes inner.1 (forward round_trip simple new_request fwd w).1
unfolding forward
forward_lem round_trip simple new_request fwd w = (refl, forward_reply-Passes _)
