-- ===== src/Lb/Group/Accounts/Removing.antt =====
-- The calls by which a group loses backends or updaters.
use apigw.Common.{
  String, eq_iff, if◌then◌else◌, Bool, true, false, ℕ, Option, none, some, ◌≡◌, refl, arith,
  is_some, inl,
}
use apigw.Dict.{lookup, delete}
use apigw.Dict.Laws.{Every-delete, lookup-delete}
use apigw.Dict.Distinct.{Distinct-delete}
use apigw.Lb.{BackendInfo, Balancer, BalancerLaws, HealthCheck, Balancers, entries, del_from_all}
use apigw.Lb.Updates.{has-del_from_all}
use apigw.Lb.Group
use apigw.Lb.Group.{GroupBackend, get_updater_by_name, inform}
use apigw.Lb.Group.Loops.{listed_of_lookup, has-forget_backends, has-close_updaters}
use apigw.Lb.Group.Accounts.{OwnId, mentions-has, IsTidy, StaysTidy, StaysTidy-same}

module _ {E K D H L : Type 0} (lb : Balancer E L) (laws : BalancerLaws lb)
    (hc : HealthCheck E K D H) where
  pub del_updater_by_name-StaysTidy :
      (n : String) (b : GroupBackend E K D H) (s : Balancers L)
      → IsTidy b
      → StaysTidy lb b s (Group.del_updater_by_name lb hc n b s)
  unfolding Group.del_updater_by_name get_updater_by_name
  del_updater_by_name-StaysTidy n b s tidy = at (lookup n (entries b.updaters)) refl
    where
      at :
          (o : Option ℕ)
          → lookup n (entries b.updaters) ≡ o
          → StaysTidy lb b s (elim o [
            | none ↦ (b, s)
            | some u ↦ (
              record b { updaters = some (delete n (entries b.updaters)) },
              Group.forget_backends lb hc u (entries b.backends) s,
            )
          ])
      at none e = StaysTidy-same lb b s tidy
      at (some u) e = (
        record { own = tidy.own; distinct = Distinct-delete n (entries b.updaters) tidy.distinct },
        λ v j there.
            let told = has-forget_backends lb laws hc u (entries b.backends) s v j in
            let own = mentions-has j (entries b.backends) tidy.own in
            inl (
              ground (arith, told),
              λ given.
                  let (k, known, member) = given in
                  let d = lookup-delete n k (entries b.updaters) in
                  (k, ground (arith, told, own, d, eq_iff n k, e, known, member), member),
            ),
      )

  pub close-StaysTidy :
      (b : GroupBackend E K D H) (s : Balancers L)
      → IsTidy b
      → StaysTidy lb b s (Group.close lb hc b s)
  unfolding Group.close get_updater_by_name
  close-StaysTidy b s tidy = (
    record { own = tt; distinct = tt },
    λ v j there.
        let told =
          has-close_updaters lb laws hc b.name (entries b.backends) (entries b.updaters) s v j in
        let own = mentions-has j (entries b.backends) tidy.own in
        inl (
          ground (arith, told),
          λ given.
              let (k, known, member) = given in
              let l = listed_of_lookup k v (entries b.updaters) known in
              let no : false ≡ true = ground (arith, told, own, l, member) in cc (no),
        ),
  )

  pub del_backend-StaysTidy :
      (id : String) (b : GroupBackend E K D H) (s : Balancers L)
      → IsTidy b
      → StaysTidy lb b s (Group.del_backend lb hc id b s)
  unfolding Group.del_backend Group.uncheck get_updater_by_name
  del_backend-StaysTidy id b s tidy = dropped (lookup id (entries b.backends)) refl
    where
      unchecked :
          (b' : GroupBackend E K D H) (s' : Balancers L) (checked : Bool)
          → StaysTidy lb b s (b', s')
          → StaysTidy lb b s (if checked then Group.uncheck lb hc id b' else b', s')
      unchecked b' s' true v = (record { own = v.0.own; distinct = v.0.distinct }, v.1)
      unchecked b' s' false v = v

      gone :
          (info : BackendInfo E K D)
          → lookup id (entries b.backends) ≡ some info
          → StaysTidy lb b s (
            record b { backends = some (delete id (entries b.backends)) },
            del_from_all lb id (entries b.updaters) s,
          )
      gone info e = (
        record {
          own = Every-delete OwnId id (entries b.backends) tidy.own;
          distinct = tidy.distinct;
        },
        λ v j there.
            let told = has-del_from_all lb laws id (entries b.updaters) s v j in
            inl (
              ground (arith, told),
              λ given.
                  let (k, known, member) = given in
                  let l = listed_of_lookup k v (entries b.updaters) known in
                  let d = lookup-delete id j (entries b.backends) in
                  (k, known, ground (arith, told, l, d, member)),
            ),
      )

      dropped :
          (o : Option (BackendInfo E K D))
          → lookup id (entries b.backends) ≡ o
          → StaysTidy lb b s (Group.del_backend lb hc id b s)
      dropped none e = rw (Group.drop_backend, e) (StaysTidy-same lb b s tidy)
      dropped (some info) e =
          rw (Group.drop_backend, e)
            (unchecked (record b { backends = some (delete id (entries b.backends)) })
              (del_from_all lb id (entries b.updaters) s) (is_some info.checker) (gone info e))

  pub del_endpoint-StaysTidy :
      (id : String) (b : GroupBackend E K D H) (s : Balancers L)
      → IsTidy b
      → StaysTidy lb b s (b, Group.del_endpoint lb hc id b s)
  unfolding Group.del_endpoint
  del_endpoint-StaysTidy id b s tidy = (
    tidy,
    λ v j there.
        let told = has-del_from_all lb laws id (entries b.updaters) s v j in
        inl (ground (arith, told), λ given. given),
  )
