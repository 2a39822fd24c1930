-- ===== src/Lb/Group/Steps.antt =====
-- The calls on a group and the events of its checker as a step relation, with its invariant.
use apigw.Common.{
  String, ◌==◌, eq_iff, false, ℕ, [], Option, none, some, ◌≡◌, refl, arith, Bool-cases, inl, inr,
  subst, if_intro, ap,
}
use apigw.Dict.{Dict, lookup, delete, has}
use apigw.Dict.Laws.{Every, Every-lookup, Every-insert, Every-delete, lookup-insert, lookup-delete}
use apigw.Types.{returns}
use apigw.Lb.{Backend, BackendInfo, Balancer, BalancerLaws, HealthCheck, Balancers, entries}
use apigw.Lb.Updates.{has-del_from_all}
use apigw.Lb.Group.{
  GroupBackend, add_backend_with_checker, drop_backend, uncheck, add_new_updater, add_updater,
  forget_backends, del_updater_by_name, close, add_endpoint, del_endpoint, new_group_backend,
}
use apigw.Lb.Group.Loops.{any_healthy, informs_of_lookup, has-forget_backends, has-inform}
use apigw.Lb.Group.Sync.{
  IsInSync, LeavesInSync, grow-IsInSync, add_to_all_grows, add_backend_with_checker-LeavesInSync,
  drop_backend-IsInSync, uncheck-IsInSync,
}

module _ {E K D H L : Type 0} (lb : Balancer E L) (laws : BalancerLaws lb)
    (hc : HealthCheck E K D H) (name_of : ℕ → String) where
  abbrev InSync : GroupBackend E K D H → Balancers L → Type 0
  InSync = IsInSync lb laws hc name_of

  add_new_updater-LeavesInSync :
      (name : String) (u : ℕ) (b : GroupBackend E K D H) (s : Balancers L) (us : Option (Dict ℕ))
      → name_of u ≡ name
      → b.updaters ≡ us
      → InSync b s
      → LeavesInSync lb laws hc name_of (add_new_updater lb hc name u b s us)
  unfolding add_new_updater
  add_new_updater-LeavesInSync name u b s none its_name is_open v = tt
  add_new_updater-LeavesInSync name u b s (some us) its_name is_open v =
      let same : entries b.updaters ≡ us = ground arith in
      record {
        keyed = v.keyed;
        named =
            Every-insert (λ name u. name_of u ≡ name) name u us its_name
              (subst (Every (λ name u. name_of u ≡ name)) same v.named);
        told = λ j i n w there on known.
            let healthy = any_healthy (hc.get_endpoints b.checker) in
            ground (
              arith,
              has-inform lb laws hc u b.checker (entries b.backends) s w j,
              informs_of_lookup j healthy i (entries b.backends) v.keyed there,
              lookup-insert name n u us,
              v.told j i n w there on,
            );
      }

  add_updater-LeavesInSync :
      (name : String) (u : ℕ) (b : GroupBackend E K D H) (s : Balancers L)
      → name_of u ≡ name
      → InSync b s
      → LeavesInSync lb laws hc name_of (add_updater lb hc name u b s)
  unfolding add_updater
  add_updater-LeavesInSync name u b s its_name v =
      if_intro (LeavesInSync lb laws hc name_of) (has name (entries b.updaters)) v
        (add_new_updater-LeavesInSync name u b s b.updaters its_name refl v)

  del_updater_by_name-IsInSync :
      (name : String) (b : GroupBackend E K D H) (s : Balancers L)
      → InSync b s
      → InSync (del_updater_by_name lb hc name b s).0 (del_updater_by_name lb hc name b s).1
  unfolding del_updater_by_name
  del_updater_by_name-IsInSync name b s v = found (lookup name (entries b.updaters)) refl
    where
      P : GroupBackend E K D H × Balancers L → Type 0
      P t = InSync t.0 t.1

      found :
          (o : Option ℕ)
          → lookup name (entries b.updaters) ≡ o
          → P (elim o [
            | none ↦ (b, s)
            | some u ↦ (
              record b { updaters = some (delete name (entries b.updaters)) },
              forget_backends lb hc u (entries b.backends) s,
            )
          ])
      found none e = v
      found (some u) e = record {
        keyed = v.keyed;
        named = Every-delete (λ name u. name_of u ≡ name) name (entries b.updaters) v.named;
        told = λ j i n w there on known. ground (
          arith,
          has-forget_backends lb laws hc u (entries b.backends) s w j,
          lookup-delete name n (entries b.updaters),
          eq_iff name n,
          Every-lookup (λ name u. name_of u ≡ name) name (entries b.updaters) v.named e,
          Every-lookup (λ name u. name_of u ≡ name) n (entries b.updaters) {v = w} v.named,
          λ (p : u ≡ w). ap name_of p,
          v.told j i n w there on,
        );
      }

  -- One call on the group, or one event of its checker; `DelBackendByID` is two steps, `drops` and,
  -- for a checked backend, `unchecks`, since it calls the checker outside the lock. An event tells
  -- of the end of an endpoint only if the group has it with a checker or has it no longer: left out
  -- is the event for a backend that was dropped and, before it was unchecked, added again without a
  -- checker.
  pub data Step (b : GroupBackend E K D H) (s : Balancers L)
      : GroupBackend E K D H → Balancers L → Type 0 where
    adds :
        {b' : GroupBackend E K D H} {s' : Balancers L} (e : Backend E) (k : Option K) (d : D)
        → add_backend_with_checker lb hc e k d b s ≡ returns (b', s')
        → Step b s b' s'
    drops : (id : String) → Step b s (drop_backend lb hc id b s).0 (drop_backend lb hc id b s).1
    unchecks : (id : String) → Step b s (uncheck lb hc id b) s
    adds_updater :
        {b' : GroupBackend E K D H} {s' : Balancers L} (u : ℕ)
        → add_updater lb hc (name_of u) u b s ≡ returns (b', s')
        → Step b s b' s'
    dels_updater :
        (name : String)
        → Step b s (del_updater_by_name lb hc name b s).0 (del_updater_by_name lb hc name b s).1
    closes : Step b s (close lb hc b s).0 (close lb hc b s).1
    is_up : (e : Backend E) → Step b s b (add_endpoint lb hc e b s)
    is_down :
        (id : String)
        → ((info : BackendInfo E K D)
            → lookup id (entries b.backends) ≡ some info
            → info.online ≡ false)
        → Step b s b (del_endpoint lb hc id b s)

  pub data Reach (b : GroupBackend E K D H) (s : Balancers L)
      : GroupBackend E K D H → Balancers L → Type 0 where
    here : Reach b s b s
    next :
        {b' b'' : GroupBackend E K D H} {s' s'' : Balancers L}
        → Reach b s b' s'
        → Step b' s' b'' s''
        → Reach b s b'' s''

  del_endpoint-IsInSync :
      (id : String) (b : GroupBackend E K D H) (s : Balancers L)
      → ((info : BackendInfo E K D)
          → lookup id (entries b.backends) ≡ some info
          → info.online ≡ false)
      → InSync b s
      → InSync b (del_endpoint lb hc id b s)
  unfolding del_endpoint
  del_endpoint-IsInSync id b s off v = record {
    keyed = v.keyed;
    named = v.named;
    told = λ j i n w there on known. elim (Bool-cases (id == j)) [
      | inl hit ↦
          let e : id ≡ j = (eq_iff id j).0 hit in
          let o : i.online ≡ false = off i (rw e there) in cc (on, o)
      | inr miss ↦ ground (
        arith,
        has-del_from_all lb laws id (entries b.updaters) s w j,
        v.told j i n w there on known,
      )
    ];
  }

  close-IsInSync :
      (b : GroupBackend E K D H) (s : Balancers L) → InSync (close lb hc b s).0 (close lb hc b s).1
  unfolding close lookup
  close-IsInSync b s = record { keyed = tt; named = tt; told = λ j i n w there on known. cc }

  -- Every call and every event keeps the group in step with its forwarders: each backend without a
  -- checker is an endpoint of each forwarder that the group informs.
  pub Step-IsInSync :
      {b : GroupBackend E K D H} {s : Balancers L} {b' : GroupBackend E K D H} {s' : Balancers L}
      → Step b s b' s'
      → InSync b s
      → InSync b' s'
  unfolding add_endpoint
  Step-IsInSync {b} {s} (adds e k d p) v =
      subst (LeavesInSync lb laws hc name_of) p
        (add_backend_with_checker-LeavesInSync lb laws hc name_of e k d b s v)
  Step-IsInSync {b} {s} (drops id) v = drop_backend-IsInSync lb laws hc name_of id b s v
  Step-IsInSync {b} {s} (unchecks id) v = uncheck-IsInSync lb laws hc name_of id b s v
  Step-IsInSync {b} {s} (adds_updater u p) v =
      subst (LeavesInSync lb laws hc name_of) p (add_updater-LeavesInSync (name_of u) u b s refl v)
  Step-IsInSync {b} {s} (dels_updater name) v = del_updater_by_name-IsInSync name b s v
  Step-IsInSync {b} {s} closes v = close-IsInSync b s
  Step-IsInSync {b} {s} (is_up e) v =
      grow-IsInSync lb laws hc name_of b s _
        (add_to_all_grows lb laws hc name_of e (entries b.updaters) s) v
  Step-IsInSync {b} {s} (is_down id off) v = del_endpoint-IsInSync id b s off v

  new_group_backend-IsInSync :
      (name : String) (b : GroupBackend E K D H) (s : Balancers L)
      → new_group_backend hc name ≡ returns b
      → InSync b s
  unfolding new_group_backend lookup
  new_group_backend-IsInSync name b s new =
      let bs : b.backends ≡ some [] = ground arith in
      let us : b.updaters ≡ some [] = ground arith in
      record {
        keyed = rw bs tt;
        named = rw us tt;
        told = λ j i n w there on known. let there' = rw bs at there in cc (there');
      }

  -- Where the load balancers keep their endpoints by id, every history of a new group's calls, in
  -- which `DelBackendByID` has its two parts, and of the events of its checker, where none reports
  -- the end of a backend that the group then has without a checker, leaves each backend without a
  -- checker an endpoint of each forwarder that the group informs, each backend under its own id, and
  -- each updater under its own name. The forwarders may have had other endpoints before.
  pub Reach-IsInSync :
      (name : String) (b : GroupBackend E K D H) (s : Balancers L) {b' : GroupBackend E K D H}
      {s' : Balancers L}
      → new_group_backend hc name ≡ returns b
      → Reach b s b' s'
      → InSync b' s'
  Reach-IsInSync name b s new here = new_group_backend-IsInSync name b s new
  Reach-IsInSync name b s new (next r st) = Step-IsInSync st (Reach-IsInSync name b s new r)
