-- ===== src/Lb/Group/Accounts/Adding.antt =====
-- The calls and events by which a group or a forwarder gains backends.
use apigw.Common.{
  String, ◌==◌, eq_iff, if◌then◌else◌, true, false, ◌&&◌, ℕ, Option, none, some, ◌≡◌, refl, arith,
  nat_eq, is_some, Bool-cases, ◌⊎◌, inl, inr, if_intro, subst,
}
use apigw.Dict.{Dict, lookup, has}
use apigw.Dict.Laws.{Every, Every-insert, lookup-insert, lookup-insert_self}
use apigw.Dict.Distinct.{Distinct, Distinct-insert}
use apigw.Types.{returns}
use apigw.Lb.{
  Backend, backend_id, BackendInfo, Balancer, BalancerLaws, HealthCheck, Balancers, entries,
  add_to_all,
}
use apigw.Lb.Updates.{listed, has-add_to_all}
use apigw.Lb.Group
use apigw.Lb.Group.{GroupBackend, get_updater_by_name, inform}
use apigw.Lb.Group.Loops.{informs, any_healthy, has-inform}
use apigw.Lb.Group.Accounts.{
  name_of_listed, OwnId, informs-has, IsTidy, StaysTidy, StaysTidy-same, LeavesTidy,
}

module _ {E K D H L : Type 0} (lb : Balancer E L) (laws : BalancerLaws lb)
    (hc : HealthCheck E K D H) where
  add_new_updater-LeavesTidy :
      (n : String) (u : ℕ) (b : GroupBackend E K D H) (s : Balancers L) (us : Option (Dict ℕ))
      → b.updaters ≡ us
      → lookup n (entries us) ≡ none
      → IsTidy b
      → LeavesTidy lb b s (Group.add_new_updater lb hc n u b s us)
  unfolding Group.add_new_updater get_updater_by_name
  add_new_updater-LeavesTidy n u b s none e new tidy = tt
  add_new_updater-LeavesTidy n u b s (some us) e new tidy =
      let same : entries b.updaters ≡ us = rw e refl in
      (
        record {
          own = tidy.own;
          distinct = Distinct-insert n u us (subst Distinct same tidy.distinct);
        },
        λ v j there.
            let healthy = any_healthy (hc.get_endpoints b.checker) in
            let told = has-inform lb laws hc u b.checker (entries b.backends) s v j in
            elim (Bool-cases (nat_eq u v && informs j healthy (entries b.backends))) [
              | inl new_one ↦
                  let it : u ≡ v = ground arith in
                  let told_of : informs j healthy (entries b.backends) ≡ true = ground arith in
                  inr (
                    n,
                    rw (lookup-insert_self n u us, it) refl,
                    informs-has j healthy (entries b.backends) tidy.own told_of,
                  )
              | inr old ↦ inl (
                ground (arith, told),
                λ given.
                    let (k, known, member) = given in
                    let i = lookup-insert n k u us in
                    let known' : lookup k us ≡ some v = rw same at known in
                    (k, ground (arith, i, eq_iff n k, new, known'), member),
              )
            ],
      )

  pub add_updater-StaysTidy :
      (n : String) (u : ℕ) (b b' : GroupBackend E K D H) (s s' : Balancers L)
      → Group.add_updater lb hc n u b s ≡ returns (b', s')
      → IsTidy b
      → StaysTidy lb b s (b', s')
  unfolding Group.add_updater
  add_updater-StaysTidy n u b b' s s' r tidy =
      subst (LeavesTidy lb b s) r (at (lookup n (entries b.updaters)) refl)
    where
      at :
          (o : Option ℕ)
          → lookup n (entries b.updaters) ≡ o
          → LeavesTidy lb b s
              (if is_some o then returns (b, s) else Group.add_new_updater lb hc n u b s b.updaters)
      at none e = add_new_updater-LeavesTidy n u b s b.updaters refl e tidy
      at (some w) e = StaysTidy-same lb b s tidy

  store_backend-LeavesTidy :
      (info : BackendInfo E K D) (b b' : GroupBackend E K D H) (s s' : Balancers L)
      (bs : Option (Dict (BackendInfo E K D)))
      → b'.updaters ≡ b.updaters
      → b.backends ≡ bs
      → ((v : ℕ) (j : String)
          → lb.has_endpoint j (s' v) ≡ true
          → (lb.has_endpoint j (s v) ≡ true)
            ⊎ ((listed v (entries b.updaters) ≡ true) × ((backend_id info.backend == j) ≡ true)))
      → IsTidy b
      → LeavesTidy lb b s (Group.store_backend lb hc (backend_id info.backend) info b' s' bs)
  unfolding Group.store_backend get_updater_by_name
  store_backend-LeavesTidy info b b' s s' none same e told tidy = tt
  store_backend-LeavesTidy info b b' s s' (some bs) same e told tidy =
      let id = backend_id info.backend in
      let was : entries b.backends ≡ bs = rw e refl in
      let us : entries b'.updaters ≡ entries b.updaters = rw same refl in
      (
        record {
          own = Every-insert OwnId id info bs refl (subst (Every OwnId) was tidy.own);
          distinct = rw same tidy.distinct;
        },
        λ v j there. elim (told v j there) [
          | inl before ↦ inl (
            before,
            λ given.
                let (k, known, member) = given in
                let i = lookup-insert id j info bs in
                let member' : has j bs ≡ true = rw was at member in
                (k, rw us known, ground (arith, i, member')),
          )
          | inr (informed, it) ↦
              let (k, known) = name_of_listed v (entries b.updaters) tidy.distinct informed in
              let i = lookup-insert id j info bs in inr (k, rw us known, ground (arith, i, it))
        ],
      )

  add_new_backend-LeavesTidy :
      (e : Backend E) (k : Option K) (d : D) (b : GroupBackend E K D H) (s : Balancers L)
      → IsTidy b
      → LeavesTidy lb b s (Group.add_new_backend lb hc e k d b s)
  unfolding Group.add_new_backend
  add_new_backend-LeavesTidy e none d b s tidy =
      store_backend-LeavesTidy (record { online = true; backend = e; checker = none; duration = d })
        b b s (add_to_all lb e (entries b.updaters) s) b.backends refl refl
        (λ v j there.
          let told = has-add_to_all lb laws e (entries b.updaters) s v j in
          elim (Bool-cases (listed v (entries b.updaters) && (backend_id e == j))) [
            | inl new ↦ inr (ground arith, ground arith)
            | inr old ↦ inl (ground (arith, told))
          ])
        tidy
  add_new_backend-LeavesTidy e (some k) d b s tidy =
      store_backend-LeavesTidy
        (record { online = false; backend = e; checker = some k; duration = d }) b
        (record b { checker = hc.add_endpoint e k d b.checker }) s s b.backends refl refl
        (λ v j there. inl there) tidy

  pub add_backend_with_checker-StaysTidy :
      (e : Backend E) (k : Option K) (d : D) (b b' : GroupBackend E K D H) (s s' : Balancers L)
      → Group.add_backend_with_checker lb hc e k d b s ≡ returns (b', s')
      → IsTidy b
      → StaysTidy lb b s (b', s')
  unfolding Group.add_backend_with_checker
  add_backend_with_checker-StaysTidy e k d b b' s s' r tidy = subst (LeavesTidy lb b s) r (
      if_intro (LeavesTidy lb b s) (has (backend_id e) (entries b.backends))
        (StaysTidy-same lb b s tidy) (add_new_backend-LeavesTidy e k d b s tidy))

  -- The checker finds a backend of the group healthy.
  pub add_endpoint-StaysTidy :
      (e : Backend E) (b : GroupBackend E K D H) (s : Balancers L)
      → has (backend_id e) (entries b.backends) ≡ true
      → IsTidy b
      → StaysTidy lb b s (b, Group.add_endpoint lb hc e b s)
  unfolding Group.add_endpoint get_updater_by_name
  add_endpoint-StaysTidy e b s member tidy = (
    tidy,
    λ v j there.
        let told = has-add_to_all lb laws e (entries b.updaters) s v j in
        elim (Bool-cases (listed v (entries b.updaters) && (backend_id e == j))) [
          | inl new ↦
              let informed : listed v (entries b.updaters) ≡ true = ground arith in
              let (k, known) = name_of_listed v (entries b.updaters) tidy.distinct informed in
              let it : backend_id e ≡ j = ground (arith, eq_iff (backend_id e) j) in
              inr (k, known, rw (← it) member)
          | inr old ↦ inl (ground (arith, told), λ given. given)
        ],
  )
