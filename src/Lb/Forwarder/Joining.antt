-- ===== src/Lb/Forwarder/Joining.antt =====
-- forward/lb/forward.go: what `AddBackendGroup` makes of the forwarder, the group and the load
-- balancers.
use apigw.Common.{
  String, ◌==◌, if◌then◌else◌, true, false, ◌&&◌, ℕ, none, some, ◌≡◌, refl, arith, nat_eq,
  nat_eq_refl, Bool-cases, inl, inr,
}
use apigw.Dict.{Dict, lookup, insert}
use apigw.Dict.Laws.{lookup-insert, Every}
use apigw.Types.{returns}
use apigw.Lb.{group, BackendInfo, Balancer, BalancerLaws, HealthCheck, entries, backend_id}
use apigw.Lb.Group.{GroupBackend, get_updater_by_name, inform}
use apigw.Lb.Group.Loops.{mentions, any_healthy, informs-mentions, has-inform}
use apigw.Lb.Heap.{Heap, put}
use apigw.Lb.Forwarder.{add_new, add_backend_group}

module _ {E K D H L : Type 0} (lb : Balancer E L) (laws : BalancerLaws lb)
    (hc : HealthCheck E K D H) where
  -- The group has the name, it and the forwarder are open, and neither knows the other under its
  -- name.
  pub record AreApart (f : ℕ) (name : String) (g : ℕ) (bs : Dict (BackendInfo E K D)) (us : Dict ℕ)
      (hp : Heap E K D H L) : Type 0 where
    pub named : (hp.groups g).name ≡ name
    pub backends : (hp.forwarders f).backends ≡ some bs
    pub updaters : (hp.groups g).updaters ≡ some us
    pub no_backend : lookup name bs ≡ none
    pub no_updater : lookup (hp.forwarders f).name us ≡ none

  -- Where the load balancers keep their endpoints by id: `AddBackendGroup` of a group whose backends
  -- are all online, where the forwarder and the group are open and do not know each other, returns.
  -- The forwarder then has that very group under the group's name, online and without a checker, and
  -- at every other id the backend that it had; the forwarder is an updater of the group under its own
  -- name, and the endpoints of its load balancer are those of before and the backends of the group.
  -- No other forwarder, updater or load balancer changes, and every group keeps its name, its backends
  -- and its checker.
  pub add_backend_group_lem :
      (f : ℕ) (name : String) (g : ℕ) (zero : D) (bs : Dict (BackendInfo E K D)) (us : Dict ℕ)
      (hp : Heap E K D H L)
      → AreApart f name g bs us hp
      → Every (λ id info. info.online ≡ true) (entries (hp.groups g).backends)
      → (h : Heap E K D H L) × (add_backend_group lb hc f name g zero hp ≡ returns h)
        × ((j : String)
            → lookup j (entries (h.forwarders f).backends) ≡ (
                if name == j
                then some (record {
                  online = true;
                  backend = group (hp.groups g).name g;
                  checker = none;
                  duration = zero;
                })
                else lookup j bs))
        × ((v : ℕ) → nat_eq f v ≡ false → h.forwarders v ≡ hp.forwarders v)
        × ((a : ℕ) (j : String)
            → get_updater_by_name j (h.groups a) ≡ (
                if nat_eq g a && ((hp.forwarders f).name == j)
                then some f
                else get_updater_by_name j (hp.groups a)))
        × ((v : ℕ) (j : String)
            → lb.has_endpoint j (h.balancers v) ≡ (
                if nat_eq f v && mentions j (entries (hp.groups g).backends)
                then true
                else lb.has_endpoint j (hp.balancers v)))
        × ((a : ℕ)
            → ((h.groups a).name ≡ (hp.groups a).name)
              × ((h.groups a).backends ≡ (hp.groups a).backends)
              × ((h.groups a).checker ≡ (hp.groups a).checker))
  unfolding add_backend_group add_new get_updater_by_name backend_id
  add_backend_group_lem f name g zero bs us hp v on =
      let b = hp.groups g in
      let info : BackendInfo E K D = record {
        online = true;
        backend = group name g;
        checker = none;
        duration = zero;
      } in
      let joined : GroupBackend E K D H = record b {
        updaters = some (insert (hp.forwarders f).name f us);
      } in
      let h : Heap E K D H L = record hp {
        forwarders =
            put f (record (hp.forwarders f) { backends = some (insert name info bs) })
              hp.forwarders;
        groups = put g joined hp.groups;
        balancers = inform lb hc f b.checker (entries b.backends) hp.balancers;
      } in
      (
        h,
        rw (v.backends, v.no_backend, nat_eq_refl f, v.updaters, v.no_updater) refl,
        λ j. rw (nat_eq_refl f, v.named) (lookup-insert name j info bs),
        λ w other. rw other refl,
        λ a j. elim (Bool-cases (nat_eq g a)) [
          | inl same ↦
              let e : g ≡ a = ground arith in
              rw same (rw (← e, v.updaters) (lookup-insert (hp.forwarders f).name j f us))
          | inr other ↦ rw other refl
        ],
        λ w j. ground (
          arith,
          has-inform lb laws hc f b.checker (entries b.backends) hp.balancers w j,
          informs-mentions j (any_healthy (hc.get_endpoints b.checker)) (entries b.backends) on,
        ),
        λ a. elim (Bool-cases (nat_eq g a)) [
          | inl same ↦ let e : g ≡ a = ground arith in rw same (rw (← e) (refl, refl, refl))
          | inr other ↦ rw other (refl, refl, refl)
        ],
      )
