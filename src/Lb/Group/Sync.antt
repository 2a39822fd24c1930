-- ===== src/Lb/Group/Sync.antt =====
-- A group and the forwarders that it informs stay in step: the calls and the checker's events as a
-- step relation, and its invariant.
use apigw.Common.{
  String, ◌==◌, eq_iff, Bool, true, false, ℕ, Option, none, some, ◌≡◌, refl, arith, not, is_some,
  Bool-cases, inl, inr, subst, if_intro,
}
use apigw.Dict.{Dict, lookup, insert, delete, has}
use apigw.Dict.Laws.{Every, Every-insert, Every-delete, lookup-insert, lookup-delete}
use apigw.Types.{Outcome, returns, panic}
use apigw.Lb.{
  Backend, backend_id, BackendInfo, Balancer, BalancerLaws, HealthCheck, Balancers, entries,
  add_to_all, del_from_all,
}
use apigw.Lb.Updates.{has-add_to_all, has-del_from_all}
use apigw.Lb.Group.{GroupBackend, add_new_backend, add_backend_with_checker, uncheck, drop_backend}
use apigw.Lb.Group.Loops.{Keyed, listed_of_lookup}

module _ {E K D H L : Type 0} (lb : Balancer E L) (laws : BalancerLaws lb)
    (hc : HealthCheck E K D H) (name_of : ℕ → String) where
  -- Each backend stands under its own id and each updater under its own name, and every backend
  -- that is not checked is an endpoint of every forwarder that the group informs.
  pub record IsInSync (b : GroupBackend E K D H) (s : Balancers L) : Type 0 where
    pub keyed : Every Keyed (entries b.backends)
    pub named : Every (λ name u. name_of u ≡ name) (entries b.updaters)
    pub told :
        (id : String) (info : BackendInfo E K D) (name : String) (u : ℕ)
        → lookup id (entries b.backends) ≡ some info
        → info.online ≡ true
        → lookup name (entries b.updaters) ≡ some u
        → lb.has_endpoint id (s u) ≡ true

  store-IsInSync :
      (info : BackendInfo E K D) (b : GroupBackend E K D H) (s s' : Balancers L)
      (bs : Dict (BackendInfo E K D))
      → b.backends ≡ some bs
      → info.online ≡ not (is_some info.checker)
      → ((v : ℕ) (j : String) → lb.has_endpoint j (s v) ≡ true → lb.has_endpoint j (s' v) ≡ true)
      → (info.online ≡ true
          → (name : String) (u : ℕ) → lookup name (entries b.updaters) ≡ some u
          → lb.has_endpoint (backend_id info.backend) (s' u) ≡ true)
      → IsInSync b s
      → IsInSync (record b { backends = some (insert (backend_id info.backend) info bs) }) s'
  store-IsInSync info b s s' bs is_open marked grows tells v =
      let id = backend_id info.backend in
      let same : entries b.backends ≡ bs = ground arith in
      record {
        keyed = Every-insert Keyed id info bs (refl, marked) (subst (Every Keyed) same v.keyed);
        named = v.named;
        told = λ j i name u there on known. elim (Bool-cases (id == j)) [
          | inl hit ↦
              let e : info ≡ i = ground (arith, lookup-insert id j info bs) in
              let f : id ≡ j = (eq_iff id j).0 hit in
              subst (λ k. lb.has_endpoint k (s' u) ≡ true) f (tells (rw e on) name u known)
          | inr miss ↦
              let old : lookup j (entries b.backends) ≡ some i =
                ground (arith, lookup-insert id j info bs) in
              grows u j (v.told j i name u old on known)
        ];
      }

  -- More endpoints do no harm.
  pub grow-IsInSync :
      (b : GroupBackend E K D H) (s s' : Balancers L)
      → ((v : ℕ) (j : String) → lb.has_endpoint j (s v) ≡ true → lb.has_endpoint j (s' v) ≡ true)
      → IsInSync b s
      → IsInSync b s'
  grow-IsInSync b s s' grows v = record {
    keyed = v.keyed;
    named = v.named;
    told = λ j i name u there on known. grows u j (v.told j i name u there on known);
  }

  pub add_to_all_grows :
      (e : Backend E) (us : Dict ℕ) (s : Balancers L) (v : ℕ) (j : String)
      → lb.has_endpoint j (s v) ≡ true
      → lb.has_endpoint j (add_to_all lb e us s v) ≡ true
  add_to_all_grows e us s v j h = ground (arith, has-add_to_all lb laws e us s v j)

  -- If the call returns, it leaves the group and the forwarders in step.
  abbrev pub LeavesInSync : Outcome (GroupBackend E K D H × Balancers L) → Type 0
  LeavesInSync (returns t) = IsInSync t.0 t.1
  LeavesInSync (panic m) = Unit

  add_new_backend-LeavesInSync :
      (e : Backend E) (k : Option K) (d : D) (b : GroupBackend E K D H) (s : Balancers L)
      (bs : Option (Dict (BackendInfo E K D)))
      → b.backends ≡ bs
      → IsInSync b s
      → LeavesInSync (add_new_backend lb hc e k d (record b { backends = bs }) s)
  unfolding add_new_backend
  add_new_backend-LeavesInSync e none d b s none is_open v = tt
  add_new_backend-LeavesInSync e (some k) d b s none is_open v = tt
  add_new_backend-LeavesInSync e none d b s (some bs) is_open v =
      store-IsInSync (record { online = true; backend = e; checker = none; duration = d }) b s _ bs
        is_open refl (add_to_all_grows e (entries b.updaters) s)
        (λ on name u known. ground (
          arith,
          has-add_to_all lb laws e (entries b.updaters) s u (backend_id e),
          listed_of_lookup name u (entries b.updaters) known,
          eq_iff (backend_id e) (backend_id e),
        ))
        v
  add_new_backend-LeavesInSync e (some k) d b s (some bs) is_open v =
      store-IsInSync (record { online = false; backend = e; checker = some k; duration = d })
        (record b { checker = hc.add_endpoint e k d b.checker }) s s bs is_open refl (λ u j h. h)
        (λ on name u known. cc) (record { keyed = v.keyed; named = v.named; told = v.told })

  pub add_backend_with_checker-LeavesInSync :
      (e : Backend E) (k : Option K) (d : D) (b : GroupBackend E K D H) (s : Balancers L)
      → IsInSync b s
      → LeavesInSync (add_backend_with_checker lb hc e k d b s)
  unfolding add_backend_with_checker
  add_backend_with_checker-LeavesInSync e k d b s v =
      if_intro LeavesInSync (has (backend_id e) (entries b.backends)) v
        (add_new_backend-LeavesInSync e k d b s b.backends refl v)

  -- Taking an id out of the group and out of all its forwarders.
  drop-IsInSync :
      (id : String) (b : GroupBackend E K D H) (s : Balancers L) (h : H)
      → IsInSync b s
      → IsInSync
          (record b { backends = some (delete id (entries b.backends)); checker = h })
          (del_from_all lb id (entries b.updaters) s)
  drop-IsInSync id b s h v = record {
    keyed = Every-delete Keyed id (entries b.backends) v.keyed;
    named = v.named;
    told = λ j i name u there on known. ground (
      arith,
      has-del_from_all lb laws id (entries b.updaters) s u j,
      lookup-delete id j (entries b.backends),
      v.told j i name u,
    );
  }

  pub drop_backend-IsInSync :
      (id : String) (b : GroupBackend E K D H) (s : Balancers L)
      → IsInSync b s
      → IsInSync (drop_backend lb hc id b s).0 (drop_backend lb hc id b s).1
  unfolding drop_backend
  drop_backend-IsInSync id b s v = dropped (lookup id (entries b.backends))
    where
      P : GroupBackend E K D H × Balancers L × Bool → Type 0
      P (b', s', checked) = IsInSync b' s'

      dropped :
          (o : Option (BackendInfo E K D))
          → P (elim o [
            | none ↦ (b, s, false)
            | some info ↦ (
              record b { backends = some (delete id (entries b.backends)) },
              del_from_all lb id (entries b.updaters) s,
              is_some info.checker,
            )
          ])
      dropped none = v
      dropped (some info) = drop-IsInSync id b s _ v

  pub uncheck-IsInSync :
      (id : String) (b : GroupBackend E K D H) (s : Balancers L)
      → IsInSync b s
      → IsInSync (uncheck lb hc id b) s
  unfolding uncheck
  uncheck-IsInSync id b s v = record { keyed = v.keyed; named = v.named; told = v.told }
