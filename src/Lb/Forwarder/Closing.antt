-- ===== src/Lb/Forwarder/Closing.antt =====
-- forward/lb/forward.go: what `Close` of a forwarder leaves.
use apigw.Common.{
  String, ◌==◌, if◌then◌else◌, Bool, false, ◌&&◌, ◌||◌, ℕ, [], ◌∷◌, Option, none, some, ◌≡◌, refl,
  arith, ap, ◌∙◌, nat_eq, nat_eq_refl, Bool-cases, inl, inr,
}
use apigw.Dict.{Dict, lookup}
use apigw.Types.{Err, panic}
use apigw.Lb.{Backend, endpoint, group, BackendInfo, Balancer, HealthCheck, entries}
use apigw.Lb.Group.{get_updater_by_name}
use apigw.Lb.Group.Updaters.{updater-del_updater_by_name}
use apigw.Lb.Heap.{Heap, Forwarder, put}
use apigw.Lb.Membership.{is_group_at}
use apigw.Lb.Forwarder.{
  add_new, leave_group, leave_backend, leave_groups, close, get_backends, add_backend_with_checker,
}

-- The group at the address is one of the backends.
abbrev pub has_joined : {E K D : Type 0} → ℕ → Dict (BackendInfo E K D) → Bool
has_joined a [] = false
has_joined a ((id, info) ∷ bs) = is_group_at a info.backend || has_joined a bs

module _ {E K D H L : Type 0} (lb : Balancer E L) (hc : HealthCheck E K D H) where
  leave_backend-forwarders :
      (f : ℕ) (e : Backend E) (hp : Heap E K D H L)
      → (leave_backend lb hc f e hp).forwarders ≡ hp.forwarders
  unfolding leave_backend
  leave_backend-forwarders f (endpoint i e) hp = refl
  leave_backend-forwarders f (group name g) hp = refl

  pub updater-leave_backend :
      (j : String) (f a : ℕ) (e : Backend E) (hp : Heap E K D H L)
      → get_updater_by_name j ((leave_backend lb hc f e hp).groups a) ≡ (
          if is_group_at a e && ((hp.forwarders f).name == j)
          then none
          else get_updater_by_name j (hp.groups a))
  unfolding leave_backend leave_group
  updater-leave_backend j f a (endpoint i e) hp = refl
  updater-leave_backend j f a (group name g) hp = elim (Bool-cases (nat_eq g a)) [
    | inl same ↦
        let e : g ≡ a = ground arith in
        rw same (
          rw (← e)
            (updater-del_updater_by_name lb hc j (hp.forwarders f).name (hp.groups g) hp.balancers))
    | inr other ↦ rw other refl
  ]

  pub leave_groups-forwarders :
      (f : ℕ) (bs : Dict (BackendInfo E K D)) (hp : Heap E K D H L)
      → (leave_groups lb hc f bs hp).forwarders ≡ hp.forwarders
  unfolding leave_groups
  leave_groups-forwarders f [] hp = refl
  leave_groups-forwarders f ((id, info) ∷ bs) hp =
      leave_groups-forwarders f bs (leave_backend lb hc f info.backend hp)
      ∙ leave_backend-forwarders f info.backend hp

  pub updater-leave_groups :
      (j : String) (f a : ℕ) (bs : Dict (BackendInfo E K D)) (hp : Heap E K D H L)
      → get_updater_by_name j ((leave_groups lb hc f bs hp).groups a) ≡ (
          if has_joined a bs && ((hp.forwarders f).name == j)
          then none
          else get_updater_by_name j (hp.groups a))
  unfolding leave_groups
  updater-leave_groups j f a [] hp = refl
  updater-leave_groups j f a ((id, info) ∷ bs) hp =
      let hp' = leave_backend lb hc f info.backend hp in
      let same : (hp'.forwarders f).name ≡ (hp.forwarders f).name =
        ap (λ (fs : ℕ → Forwarder E K D H). (fs f).name)
          (leave_backend-forwarders f info.backend hp) in
      ground (
        arith,
        updater-leave_backend j f a info.backend hp,
        same,
        updater-leave_groups j f a bs hp',
      )

  add_backend_with_checker-closed :
      (f : ℕ) (id : String) (e : E) (k : Option K) (d zero : D) (h : Heap E K D H L)
      → (h.forwarders f).backends ≡ none
      → add_backend_with_checker lb hc f (endpoint id e) k d zero h
        ≡ panic "assignment to entry in nil map"
  unfolding add_backend_with_checker add_new lookup
  add_backend_with_checker-closed f id e none d zero h closed = rw closed refl
  add_backend_with_checker-closed f id e (some k) d zero h closed = rw closed refl

  -- After `Close` a forwarder has no backends, and no group that was one of its backends informs an
  -- updater of the forwarder's name; such groups keep their other updaters, every other group keeps
  -- all, and the other forwarders stay as they are. Adding a backend after it panics.
  pub updater-close :
      (close_balancer : L → L × Option Err) (f : ℕ) (hp : Heap E K D H L)
      → let h = (close lb hc close_balancer f hp).0 in
        ((j : String) (a : ℕ)
          → get_updater_by_name j (h.groups a) ≡ (
              if has_joined a (entries (hp.forwarders f).backends) && ((hp.forwarders f).name == j)
              then none
              else get_updater_by_name j (hp.groups a)))
        × (get_backends hc (h.forwarders f) ≡ [])
        × ((v : ℕ) → nat_eq f v ≡ false → h.forwarders v ≡ hp.forwarders v)
        × ((id : String) (e : E) (k : Option K) (d zero : D)
            → add_backend_with_checker lb hc f (endpoint id e) k d zero h
              ≡ panic "assignment to entry in nil map")
  unfolding close get_backends
  updater-close close_balancer f hp =
      let bs = entries (hp.forwarders f).backends in
      let hp' : Heap E K D H L = record hp {
        forwarders = put f (record (hp.forwarders f) { backends = none }) hp.forwarders;
      } in
      let left = leave_groups-forwarders f bs hp' in
      let shut : ((close lb hc close_balancer f hp).0.forwarders f).backends ≡ none =
        rw (left, nat_eq_refl f) refl in
      (
        λ j a. rw (updater-leave_groups j f a bs hp', nat_eq_refl f) refl,
        rw shut refl,
        λ v other. rw (left, other) refl,
        λ id e k d zero.
            add_backend_with_checker-closed f id e k d zero (close lb hc close_balancer f hp).0
              shut,
      )
