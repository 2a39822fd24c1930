-- ===== src/Lb/Group/Effects.antt =====
-- What each call on a group means for its backends and for the forwarders that it informs.
use apigw.Common.{
  String, ◌==◌, eq_iff, if◌then◌else◌, true, false, ◌&&◌, ◌||◌, ℕ, Option, none, some, ◌≡◌, refl,
  arith, nat_eq, not, is_some, Option-cases, inl, inr,
}
use apigw.Dict.{Dict, lookup, insert, has}
use apigw.Dict.Laws.{Every, lookup-insert, lookup-delete}
use apigw.Types.{Outcome, returns, panic}
use apigw.Lb.{
  Backend, backend_id, BackendInfo, Balancer, BalancerLaws, HealthCheck, Balancers, entries,
  add_to_all,
}
use apigw.Lb.Updates.{listed, has-add_to_all, has-del_from_all}
use apigw.Lb.Group.{
  GroupBackend, add_new_backend, add_backend_with_checker, del_backend, inform, add_updater,
  del_updater_by_name, close,
}
use apigw.Lb.Group.Loops.{
  Keyed, mentions, any_healthy, informs_of_lookup, informs-mentions, has-forget_backends,
  has-inform, has-close_updaters,
}

module _ {E K D H L : Type 0} (lb : Balancer E L) (hc : HealthCheck E K D H) where
  add_new_backend-closed :
      (e : Backend E) (k : Option K) (d : D) (b : GroupBackend E K D H) (s : Balancers L)
      → b.backends ≡ none
      → add_new_backend lb hc e k d b s ≡ panic "assignment to entry in nil map"
  unfolding add_new_backend
  add_new_backend-closed e none d b s closed = rw closed refl
  add_new_backend-closed e (some k) d b s closed = rw closed refl

  pub add_backend_with_checker-closed :
      (e : Backend E) (k : Option K) (d : D) (b : GroupBackend E K D H) (s : Balancers L)
      → b.backends ≡ none
      → add_backend_with_checker lb hc e k d b s ≡ panic "assignment to entry in nil map"
  unfolding add_backend_with_checker lookup
  add_backend_with_checker-closed e k d b s closed =
      let absent : has (backend_id e) (entries b.backends) ≡ false = rw closed refl in
      rw absent (add_new_backend-closed e k d b s closed)

module _ {E K D H L : Type 0} (lb : Balancer E L) (laws : BalancerLaws lb)
    (hc : HealthCheck E K D H) (b : GroupBackend E K D H) (s : Balancers L) where
  -- The result of a call that adds a backend with a new id.
  abbrev Added :
      Backend E
      → Option K
      → Dict (BackendInfo E K D)
      → Outcome (GroupBackend E K D H × Balancers L)
      → Type 0
  Added e k bs r =
      (b' : GroupBackend E K D H) × (s' : Balancers L) × (r ≡ returns (b', s'))
      × ((j : String) → has j (entries b'.backends) ≡ ((backend_id e == j) || has j bs))
      × ((v : ℕ) (j : String)
          → lb.has_endpoint j (s' v) ≡ (
              if not (is_some k) && (listed v (entries b.updaters) && (backend_id e == j))
              then true
              else lb.has_endpoint j (s v)))

  add_new_backend-Added :
      (e : Backend E) (k : Option K) (d : D) (bs : Dict (BackendInfo E K D))
      → b.backends ≡ some bs
      → Added e k bs (add_new_backend lb hc e k d b s)
  unfolding add_new_backend
  add_new_backend-Added e none d bs is_open =
      let info : BackendInfo E K D = record {
        online = true;
        backend = e;
        checker = none;
        duration = d;
      } in
      (
        record b { backends = some (insert (backend_id e) info bs) },
        add_to_all lb e (entries b.updaters) s,
        ground arith,
        λ j. ground (arith, lookup-insert (backend_id e) j info bs),
        λ v j. has-add_to_all lb laws e (entries b.updaters) s v j,
      )
  add_new_backend-Added e (some k) d bs is_open =
      let info : BackendInfo E K D = record {
        online = false;
        backend = e;
        checker = some k;
        duration = d;
      } in
      (
        record b {
          backends = some (insert (backend_id e) info bs);
          checker = hc.add_endpoint e k d b.checker;
        },
        s,
        ground arith,
        λ j. ground (arith, lookup-insert (backend_id e) j info bs),
        λ v j. refl,
      )

  -- `AddBackendWithChecker` on a group that is not closed returns, and adds the backend's id to the
  -- group. Only for an id that is new, and only without a checker, the backend becomes an endpoint
  -- of each forwarder that the group informs; no other endpoint of any forwarder changes.
  pub add_backend_with_checker_lem :
      (e : Backend E) (k : Option K) (d : D) (bs : Dict (BackendInfo E K D))
      → b.backends ≡ some bs
      → (b' : GroupBackend E K D H) × (s' : Balancers L) × (add_backend_with_checker lb hc e k d b s
          ≡ returns (b', s'))
        × ((j : String) → has j (entries b'.backends) ≡ ((backend_id e == j) || has j bs))
        × ((v : ℕ) (j : String)
            → lb.has_endpoint j (s' v) ≡ (
                if not (has (backend_id e) bs)
                  && (not (is_some k) && (listed v (entries b.updaters) && (backend_id e == j)))
                then true
                else lb.has_endpoint j (s v)))
  unfolding add_backend_with_checker
  add_backend_with_checker_lem e k d bs is_open = elim (Option-cases (lookup (backend_id e) bs)) [
    | inr (old, there) ↦ (
      b,
      s,
      rw (is_open, there) refl,
      λ j. ground (arith, eq_iff (backend_id e) j),
      λ v j. ground arith,
    )
    | inl new ↦
        let (b', s', r, ids, eps) = add_new_backend-Added e k d bs is_open in
        (b', s', ground (arith, r), ids, λ v j. ground (arith, eps v j))
  ]

  -- `DelBackendByID` takes the id out of the group, and out of each forwarder that the group
  -- informs if it was in the group; no other endpoint of any forwarder changes.
  pub del_backend_lem :
      (id : String)
      → ((j : String)
          → has j (entries (del_backend lb hc id b s).0.backends)
            ≡ (not (id == j) && has j (entries b.backends)))
        × ((v : ℕ) (j : String)
            → lb.has_endpoint j ((del_backend lb hc id b s).1 v) ≡ (
                if has id (entries b.backends) && (listed v (entries b.updaters) && (id == j))
                then false
                else lb.has_endpoint j (s v)))
  unfolding del_backend
  del_backend_lem id = (
    λ j. ground (arith, eq_iff id j, lookup-delete id j (entries b.backends)),
    λ v j. ground (arith, has-del_from_all lb laws id (entries b.updaters) s v j),
  )

  -- An updater that is new to a group whose backends are all online gets exactly the backends of
  -- the group as additional endpoints; no other forwarder changes.
  pub add_updater_lem :
      (name : String) (u : ℕ) (us : Dict ℕ)
      → b.updaters ≡ some us
      → lookup name us ≡ none
      → Every (λ id info. info.online ≡ true) (entries b.backends)
      → (b' : GroupBackend E K D H) × (s' : Balancers L) × (add_updater lb hc name u b s
          ≡ returns (b', s'))
        × (lookup name (entries b'.updaters) ≡ some u)
        × ((v : ℕ) (j : String)
            → lb.has_endpoint j (s' v) ≡ (
                if nat_eq u v && mentions j (entries b.backends)
                then true
                else lb.has_endpoint j (s v)))
  unfolding add_updater
  add_updater_lem name u us is_open new on = (
    record b { updaters = some (insert name u us) },
    inform lb hc u b.checker (entries b.backends) s,
    rw (is_open, new) refl,
    ground (arith, eq_iff name name, lookup-insert name name u us),
    λ v j. ground (
      arith,
      has-inform lb laws hc u b.checker (entries b.backends) s v j,
      informs-mentions j (any_healthy (hc.get_endpoints b.checker)) (entries b.backends) on,
    ),
  )

  -- The bug: a new updater gets a checked backend as an endpoint as soon as any endpoint of the
  -- group's checker is healthy, whether or not the backend itself is.
  pub add_updater_ignores_health :
      (name : String) (u : ℕ) (us : Dict ℕ) (id : String) (info : BackendInfo E K D)
      → b.updaters ≡ some us
      → lookup name us ≡ none
      → Every Keyed (entries b.backends)
      → lookup id (entries b.backends) ≡ some info
      → any_healthy (hc.get_endpoints b.checker) ≡ true
      → (b' : GroupBackend E K D H) × (s' : Balancers L) × (add_updater lb hc name u b s
          ≡ returns (b', s'))
        × (lb.has_endpoint id (s' u) ≡ true)
  unfolding add_updater
  add_updater_ignores_health name u us id info is_open new keyed there healthy = (
    record b { updaters = some (insert name u us) },
    inform lb hc u b.checker (entries b.backends) s,
    rw (is_open, new) refl,
    ground (
      arith,
      has-inform lb laws hc u b.checker (entries b.backends) s u id,
      informs_of_lookup id true info (entries b.backends) keyed there,
    ),
  )

  -- `DelUpdaterByName` takes the updater off the group and all the group's backends out of its
  -- forwarder; no other endpoint and no other forwarder changes, and nothing at all changes for a
  -- name that the group does not know.
  pub del_updater_by_name_lem :
      (name : String) (v : ℕ) (j : String)
      → (lookup name (entries (del_updater_by_name lb hc name b s).0.updaters) ≡ none)
        × (lb.has_endpoint j ((del_updater_by_name lb hc name b s).1 v)
            ≡ elim (lookup name (entries b.updaters)) [
              | none ↦ lb.has_endpoint j (s v)
              | some u ↦
                  if nat_eq u v && mentions j (entries b.backends)
                  then false
                  else lb.has_endpoint j (s v)
            ])
  unfolding del_updater_by_name
  del_updater_by_name_lem name v j = elim (Option-cases (lookup name (entries b.updaters))) [
    | inl unknown ↦ ground arith
    | inr (u, known) ↦ ground (
      arith,
      eq_iff name name,
      lookup-delete name name (entries b.updaters),
      has-forget_backends lb laws hc u (entries b.backends) s v j,
    )
  ]

  -- `Close` takes the group and its backends out of each forwarder that the group informs, and no
  -- other endpoint; after it, a call that would add a backend panics.
  pub close_lem :
      (v : ℕ) (j : String)
      → (lb.has_endpoint j ((close lb hc b s).1 v) ≡ (
          if listed v (entries b.updaters) && ((b.name == j) || mentions j (entries b.backends))
          then false
          else lb.has_endpoint j (s v)))
        × ((e : Backend E) (k : Option K) (d : D)
            → add_backend_with_checker lb hc e k d (close lb hc b s).0 (close lb hc b s).1
              ≡ panic "assignment to entry in nil map")
  unfolding close add_backend_with_checker lookup
  close_lem v j = (
    has-close_updaters lb laws hc b.name (entries b.backends) (entries b.updaters) s v j,
    λ e k d. add_new_backend-closed lb hc e k d _ _ refl,
  )
