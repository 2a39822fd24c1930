-- ===== src/Lb/Gateway/Deletion.antt =====
-- forward/lb/gateway.go: what `DelHost` leaves of the host's groups.
use apigw.Common.{
  String, ◌==◌, if◌then◌else◌, false, ℕ, [], none, some, ◌≡◌, refl, nat_eq, nat_eq_refl, subst, sym,
}
use apigw.Dict.{delete}
use apigw.Dict.Laws.{lookup-delete}
use apigw.Types.{returns}
use apigw.Ship.{Ship}
use apigw.Gateway.{Gateway}
use apigw.Gateway.Hosts
use apigw.Lb.{Balancer, BalancerLaws, HealthCheck, entries}
use apigw.Lb.Updates.{listed}
use apigw.Lb.Heap.{put}
use apigw.Lb.GroupManager
use apigw.Lb.GroupManager.{BackendGroupManager, get_backend_groups}
use apigw.Lb.GroupManager.Closing.{Left, taken, close_manager_lem}
use apigw.Lb.Gateway.{
  Store, LbGateway, close_manager, del_manager, after_del, del_host, get_backend_group_manager,
}

module _ {E K D H L W C R Q : Type 0} (ship : Ship W C R Q) (lb : Balancer E L)
    (laws : BalancerLaws lb) (hc : HealthCheck E K D H) (get : W → Store E K D H L)
    (set : Store E K D H L → W → W) where
  -- What the manager at an address leaves when it is closed.
  abbrev pub LeavesClosed : ℕ → Store E K D H L → Store E K D H L → Type 0
  LeavesClosed a st st' =
      let gs = entries (st.managers a).groups in
      (get_backend_groups (st'.managers a) ≡ [])
      × ((b : ℕ) → Left (listed b gs) (st.heap.groups b) (st'.heap.groups b))
      × ((v : ℕ) (j : String)
          → lb.has_endpoint j (st'.heap.balancers v)
            ≡ (if taken v j gs st.heap then false else lb.has_endpoint j (st.heap.balancers v)))
      × ((b : ℕ) → nat_eq a b ≡ false → st'.managers b ≡ st.managers b)

  close_manager-LeavesClosed :
      ((st : Store E K D H L) (w : W) → get (set st w) ≡ st)
      → (a : ℕ) (w : W) → LeavesClosed a (get w) (get (close_manager ship lb hc get set a w))
  unfolding close_manager
  close_manager-LeavesClosed kept a w =
      let t = GroupManager.close lb hc ((get w).managers a) (get w).heap in
      let st : Store E K D H L = record (get w) {
        heap = t.1;
        managers = put a t.0 (get w).managers;
      } in
      let (empty, groups, endpoints, absent, panics) =
        close_manager_lem lb laws hc ((get w).managers a) (get w).heap in
      subst (LeavesClosed a (get w)) (sym (kept st w))
        (rw (nat_eq_refl a) empty, groups, endpoints, λ b other. rw other refl)

  -- Where the load balancers keep their endpoints by id, and the state of the handlers keeps the
  -- store that is set, `DelHost` of a host that has a manager, and that the embedded gateway
  -- deletes without an error, returns with no error. The manager of the host is then unknown to the
  -- gateway, which keeps those of the other hosts; it has no groups, each group that it had has
  -- neither backends nor updaters, and every other group is as it was. The load balancer of each
  -- forwarder loses exactly the ids of those groups that informed it and of their backends.
  pub del_host_closes_groups :
      ((st : Store E K D H L) (w : W) → get (set st w) ≡ st)
      → (host : String) (g : LbGateway W C R) (w w₁ : W) (h : Gateway W C R) (a : ℕ)
      → Hosts.del_host ship host g.gateway w ≡ returns (h, w₁, none)
      → get_backend_group_manager host g ≡ some a
      → (g' : LbGateway W C R) × (w' : W) × (del_host ship lb hc get set host g w
          ≡ returns (g', w', none))
        × (g'.gateway ≡ h)
        × ((j : String)
            → get_backend_group_manager j g'
              ≡ (if host == j then none else get_backend_group_manager j g))
        × LeavesClosed a (get w₁) (get w')
  unfolding del_host after_del del_manager get_backend_group_manager
  del_host_closes_groups kept host g w w₁ h a deleted has_it = (
    record g { gateway = h; bgms = delete host g.bgms },
    close_manager ship lb hc get set a w₁,
    rw (deleted, del_manager, has_it) refl,
    refl,
    λ j. lookup-delete host j g.bgms,
    close_manager-LeavesClosed kept a w₁,
  )
