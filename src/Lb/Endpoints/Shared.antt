-- ===== src/Lb/Endpoints/Shared.antt =====
-- forward/lb: a backend that a forwarder has itself and through a group.
use apigw.Common.{
  String, true, false, ℕ, Option, some, ◌≡◌, refl, arith, inl, inr, eq_refl, Option-cases,
}
use apigw.Dict.{lookup, has}
use apigw.Types.{returns}
use apigw.Lb.{endpoint, backend_id, Balancer, BalancerLaws, HealthCheck, entries}
use apigw.Lb.Group
use apigw.Lb.Group.{GroupBackend, get_updater_by_name}
use apigw.Lb.Group.Effects.{del_backend_lem}
use apigw.Lb.Group.Loops.{listed_of_lookup}
use apigw.Lb.Forwarder.{add_backend_with_checker, add_backend_info}
use apigw.Lb.Heap.{Heap}
use apigw.Lb.Membership.Reach.{with_group}
use apigw.Lb.Endpoints.{is_single}

module _ {E K D H L : Type 0} (lb : Balancer E L) (laws : BalancerLaws lb)
    (hc : HealthCheck E K D H) where
  -- The bug: where the load balancers keep their endpoints by id, and a group that informs a
  -- forwarder has a backend with the id of one of the forwarder's own single backends,
  -- `DelBackendByID` of the group takes the endpoint out of the forwarder's load balancer, while
  -- the forwarder keeps the backend, and adding it again to the forwarder does nothing.
  pub del_backend_takes_shared :
      (f g : ℕ) (n id : String) (e : E) (k : Option K) (d zero : D) (hp : Heap E K D H L)
      → get_updater_by_name n (hp.groups g) ≡ some f
      → has id (entries (hp.groups g).backends) ≡ true
      → is_single (lookup id (entries (hp.forwarders f).backends)) ≡ true
      → let h = with_group lb hc g (Group.del_backend lb hc id (hp.groups g) hp.balancers) hp in
        (lb.has_endpoint id (h.balancers f) ≡ false)
        × (is_single (lookup id (entries (h.forwarders f).backends)) ≡ true)
        × (add_backend_with_checker lb hc f (endpoint id e) k d zero h ≡ returns h)
  unfolding get_updater_by_name add_backend_with_checker add_backend_info backend_id
  del_backend_takes_shared f g n id e k d zero hp known member own =
      let told = (del_backend_lem lb laws hc (hp.groups g) hp.balancers id).1 f id in
      let l = listed_of_lookup n f (entries (hp.groups g).updaters) known in
      let h = with_group lb hc g (Group.del_backend lb hc id (hp.groups g) hp.balancers) hp in
      (
        ground (arith, told, l, member, eq_refl id),
        own,
        elim (Option-cases (lookup id (entries (hp.forwarders f).backends))) [
          | inl missing ↦ (let no : false ≡ true = rw missing at own in cc (no))
          | inr (info, found) ↦ rw (add_backend_info, found) refl
        ],
      )
