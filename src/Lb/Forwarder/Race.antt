-- ===== src/Lb/Forwarder/Race.antt =====
-- forward/lb/forward.go: AddBackendGroup holds the forwarder's lock and then the group's, and another
-- call can come between.
use apigw.Common.{String, ℕ, none, some, ◌≡◌, refl, true, false, nat_eq_refl}
use apigw.Dict.{Dict, lookup, insert, delete}
use apigw.Dict.Laws.{lookup-insert_self, lookup-delete_self}
use apigw.Types.{returns}
use apigw.Lb.{BackendInfo, group, Balancer, BalancerLaws, HealthCheck, entries, backend_id}
use apigw.Lb.Group
use apigw.Lb.Group.{inform, GroupBackend, get_updater_by_name}
use apigw.Lb.Forwarder.Members.{with_backends}
use apigw.Lb.Forwarder.{
  drop_info, add_backend_group, add_new, leave_group, add_backend_info, join_group, del_backend,
}
use apigw.Lb.Forwarder.Joining.{AreApart}
use apigw.Lb.Heap.{Heap, put}
use apigw.Lb.Membership.{is_member}

module _ {E K D H L : Type 0} (lb : Balancer E L) (laws : BalancerLaws lb)
    (hc : HealthCheck E K D H) where
  -- The forwarder with a group that it has taken, and after it has dropped it again.
  abbrev info_of_group : String → ℕ → D → BackendInfo E K D
  info_of_group name g zero = record {
    online = true;
    backend = group name g;
    checker = none;
    duration = zero;
  }

  abbrev taken : ℕ → ℕ → D → Dict (BackendInfo E K D) → Heap E K D H L → Heap E K D H L
  taken f g zero bs hp =
      let name = (hp.groups g).name in
      with_backends f (some (insert name (info_of_group name g zero) bs)) hp

  abbrev dropped : ℕ → ℕ → D → Dict (BackendInfo E K D) → Heap E K D H L → Heap E K D H L
  dropped f g zero bs hp =
      let name = (hp.groups g).name in
      let k =
        with_backends f (some (delete name (insert name (info_of_group name g zero) bs)))
          (taken f g zero bs hp) in
      record k { groups = put g (hp.groups g) k.groups }

  del_backend-taken :
      (f g : ℕ) (zero : D) (bs : Dict (BackendInfo E K D)) (us : Dict ℕ) (hp : Heap E K D H L)
      → AreApart lb laws hc f (hp.groups g).name g bs us hp
      → del_backend lb hc f (hp.groups g).name (taken f g zero bs hp) ≡ dropped f g zero bs hp
  unfolding del_backend leave_group
  del_backend-taken f g zero bs us hp v =
      let name = (hp.groups g).name in
      let absent : lookup (hp.forwarders f).name (entries (hp.groups g).updaters) ≡ none =
        rw v.updaters v.no_updater in
      rw
        (
          del_backend,
          nat_eq_refl f,
          lookup-insert_self name (info_of_group name g zero) bs,
          Group.del_updater_by_name,
          nat_eq_refl f,
          absent,
        )
        refl

  -- The bug: where `DelBackendByID` of a group's name comes between the two locks of
  -- `AddBackendGroup` of a forwarder, both open and apart, both calls succeed, and the group
  -- informs a forwarder that has no such backend; `DelBackendByID` then changes nothing any more.
  pub add_backend_group_races :
      (f g : ℕ) (zero : D) (bs : Dict (BackendInfo E K D)) (us : Dict ℕ) (hp : Heap E K D H L)
      → let name = (hp.groups g).name in
        AreApart lb laws hc f name g bs us hp
        → (h : Heap E K D H L) × (h' : Heap E K D H L) × (add_backend_info lb hc f
              (group name g)
              true
              none
              zero
              hp
            ≡ returns (h, true))
          × (join_group lb hc f g (del_backend lb hc f name h) ≡ returns h')
          × (get_updater_by_name (hp.forwarders f).name (h'.groups g) ≡ some f)
          × (is_member h' g f ≡ false)
          × (del_backend lb hc f name h' ≡ h')
  unfolding get_updater_by_name add_backend_info add_new join_group del_backend backend_id
  add_backend_group_races f g zero bs us hp v =
      let name = (hp.groups g).name in
      let b = hp.groups g in
      let k = dropped f g zero bs hp in
      let h' : Heap E K D H L = record k {
        groups = put g (record b { updaters = some (insert (hp.forwarders f).name f us) }) k.groups;
        balancers = inform lb hc f b.checker (entries b.backends) hp.balancers;
      } in
      let absent : lookup (hp.forwarders f).name (entries b.updaters) ≡ none =
        rw v.updaters v.no_updater in
      let free : lookup name (entries (hp.forwarders f).backends) ≡ none =
        rw v.backends v.no_backend in
      let gone : lookup name (entries (h'.forwarders f).backends) ≡ none =
        rw (nat_eq_refl f) (lookup-delete_self name (insert name (info_of_group name g zero) bs)) in
      (
        taken f g zero bs hp,
        h',
        rw (add_backend_info, backend_id, free, add_new, v.backends) refl,
        rw
            (
              del_backend-taken f g zero bs us hp v,
              join_group,
              nat_eq_refl f,
              nat_eq_refl g,
              Group.add_updater,
              absent,
              v.updaters,
            )
            refl,
        rw (nat_eq_refl g) (lookup-insert_self (hp.forwarders f).name f us),
        rw (nat_eq_refl g, gone) refl,
        rw (del_backend, gone) refl,
      )

  leave_group-known :
      (f g u : ℕ) (h : Heap E K D H L)
      → lookup (h.forwarders f).name (entries (h.groups g).updaters) ≡ some u
      → leave_group lb hc f g h ≡ record h {
        groups =
            put g
              (record (h.groups g) {
                updaters = some (delete (h.forwarders f).name (entries (h.groups g).updaters));
              })
              h.groups;
        balancers = Group.forget_backends lb hc u (entries (h.groups g).backends) h.balancers;
      }
  unfolding leave_group
  leave_group-known f g u h there = rw (leave_group, Group.del_updater_by_name, there) refl

  -- The bug: where `AddBackendGroup` of a group that the forwarder has comes between the two locks
  -- of its `DelBackendByID`, both calls succeed, and the forwarder has the group among its backends
  -- while the group does not inform it; `AddBackendGroup` then changes nothing any more.
  pub del_backend_races :
      (f g : ℕ) (zero : D) (bs : Dict (BackendInfo E K D)) (us : Dict ℕ) (hp : Heap E K D H L)
      → (hp.forwarders f).backends ≡ some bs
      → (hp.groups g).updaters ≡ some us
      → lookup (hp.forwarders f).name us ≡ some f
      → let name = (hp.groups g).name in
        (h : Heap E K D H L) × (add_backend_group lb hc f name g zero (drop_info lb hc f name hp)
          ≡ returns h)
        × (let h' = leave_group lb hc f g h in
            (is_member h' g f ≡ true)
            × (get_updater_by_name (hp.forwarders f).name (h'.groups g) ≡ none)
            × (add_backend_group lb hc f name g zero h' ≡ returns h'))
  unfolding get_updater_by_name add_backend_group add_backend_info add_new join_group backend_id
  del_backend_races f g zero bs us hp opened known informs =
      let name = (hp.groups g).name in
      let b = hp.groups g in
      let back = insert name (info_of_group name g zero) (delete name bs) in
      let k = with_backends f (some back) (drop_info lb hc f name hp) in
      let h : Heap E K D H L = record k { groups = put g b k.groups } in
      let named : (h.forwarders f).name ≡ (hp.forwarders f).name = rw (nat_eq_refl f) refl in
      let there : lookup (h.forwarders f).name (entries (h.groups g).updaters) ≡ some f =
        rw (named, nat_eq_refl g, known) informs in
      let same : lookup (hp.forwarders f).name (entries b.updaters) ≡ some f = rw known informs in
      let was : entries (hp.forwarders f).backends ≡ bs = rw opened refl in
      let leaves = leave_group-known f g f h there in
      let mine : lookup name (entries (h.forwarders f).backends)
          ≡ some (info_of_group name g zero) =
        rw (nat_eq_refl f) (lookup-insert_self name (info_of_group name g zero) (delete name bs)) in
      (
        h,
        rw
            (
              add_backend_group,
              add_backend_info,
              nat_eq_refl f,
              was,
              lookup-delete_self name bs,
              add_new,
              join_group,
              nat_eq_refl f,
              Group.add_updater,
              same,
            )
            refl,
        (
          rw (leaves, nat_eq_refl g, mine) (nat_eq_refl g),
          rw (leaves, nat_eq_refl g, nat_eq_refl f)
              (lookup-delete_self (hp.forwarders f).name (entries b.updaters)),
          rw (leaves, add_backend_group, add_backend_info, mine) refl,
        ),
      )
