-- ===== src/Lb/Group/Contract.antt =====
-- forward/lb/backend.go: `GroupBackend` keeps the contract of the interface `BackendGroup`.
use apigw.Common.{
  String, ◌==◌, true, false, not, ◌&&◌, ◌||◌, ℕ, [], ◌∷◌, Option, none, some, ◌≡◌, refl, ◌∙◌, sym,
  nat_eq_refl, subst, if_intro,
}
use apigw.Dict.{Dict, has}
use apigw.Dict.Laws.{lookup-insert_self}
use apigw.Types.{Outcome, returns, panic}
use apigw.Lb.{
  Backend, backend_id, BackendInfo, Balancer, BalancerLaws, HealthCheck, Balancers, entries,
  add_backend, del_backend_by_id,
}
use apigw.Lb.BackendGroup.{BackendGroup, BackendUpdater, names, Contract}
use apigw.Lb.Group
use apigw.Lb.Group.{GroupBackend, seen, seen_all, get_updater_by_name}
use apigw.Lb.Group.Accounts.{IsTidy, mentions-has}
use apigw.Lb.Group.Accounts.Adding.{add_backend_with_checker-StaysTidy, add_updater-StaysTidy}
use apigw.Lb.Group.Accounts.Removing.{del_backend-StaysTidy, del_updater_by_name-StaysTidy}
use apigw.Lb.Group.Effects.{
  add_backend_with_checker-closed, add_backend_with_checker_lem, del_backend_lem,
  del_updater_by_name_lem,
}
use apigw.Lb.Group.Loops.{mentions}

module _ {E L : Type 0} (lb : Balancer E L) where
  -- `forwardUpdater`, of the forwarder at an address.
  unfoldable pub forward_updater : String → ℕ → BackendUpdater E L
  unfolding add_backend del_backend_by_id
  forward_updater name f = record {
    name = name;
    add_backend = λ e. add_backend lb f e;
    del_backend_by_id = λ id. del_backend_by_id lb f id;
  }

module _ {E K D H L : Type 0} (lb : Balancer E L) (hc : HealthCheck E K D H) where
  abbrev pub group_backend : BackendGroup E K D L (GroupBackend E K D H)
  group_backend = record {
    name = λ b. b.name;
    add_backend_with_checker = Group.add_backend_with_checker lb hc;
    del_backend_by_id = Group.del_backend lb hc;
    get_backends = Group.get_backends hc;
    get_updaters = Group.get_updaters;
    get_updater_by_name = get_updater_by_name;
    del_updater_by_name = Group.del_updater_by_name lb hc;
    add_updater = Group.add_updater lb hc;
    close = Group.close lb hc;
  }

module _ {E K D H : Type 0} (hc : HealthCheck E K D H) where
  seen-backend : (h : H) (info : BackendInfo E K D) → (seen hc h info).backend ≡ info.backend
  unfolding seen
  seen-backend h info =
      if_intro (λ (i : BackendInfo E K D). i.backend ≡ info.backend) info.online refl refl

  names-seen_all :
      (j : String) (h : H) (bs : Dict (BackendInfo E K D))
      → names j (seen_all hc h bs) ≡ mentions j bs
  unfolding seen_all
  names-seen_all j h [] = refl
  names-seen_all j h ((id, info) ∷ bs) = rw (seen-backend h info, names-seen_all j h bs) refl

  names-get_backends :
      (j : String) (b : GroupBackend E K D H)
      → IsTidy b
      → names j (Group.get_backends hc b) ≡ has j (entries b.backends)
  unfolding Group.get_backends
  names-get_backends j b tidy =
      names-seen_all j b.checker (entries b.backends) ∙ mentions-has j (entries b.backends) tidy.own

module _ {E K D H L : Type 0} (lb : Balancer E L) (laws : BalancerLaws lb)
    (hc : HealthCheck E K D H) where
  abbrev Named :
      Backend E → GroupBackend E K D H → Outcome (GroupBackend E K D H × Balancers L) → Type 0
  Named e b (panic m) = Unit
  Named e b (returns t) =
      (j : String)
      → has j (entries t.0.backends) ≡ ((backend_id e == j) || has j (entries b.backends))

  add_backend_with_checker-Named :
      (e : Backend E) (k : Option K) (d : D) (b : GroupBackend E K D H) (s : Balancers L)
      → Named e b (Group.add_backend_with_checker lb hc e k d b s)
  add_backend_with_checker-Named e k d b s = at b.backends refl
    where
      at :
          (bs : Option (Dict (BackendInfo E K D)))
          → b.backends ≡ bs
          → Named e b (Group.add_backend_with_checker lb hc e k d b s)
      at none closed =
          subst (Named e b) (sym (add_backend_with_checker-closed lb hc e k d b s closed)) tt
      at (some bs) opened =
          let (b', s', r, ids, eps) = add_backend_with_checker_lem lb laws hc b s e k d bs opened in
          subst (Named e b) (sym r) (
            subst
              (λ (o : Option (Dict (BackendInfo E K D))).
                (j : String)
                → has j (entries b'.backends) ≡ ((backend_id e == j) || has j (entries o)))
              (sym opened) ids)

  add_again :
      (e : Backend E) (k : Option K) (d : D) (b : GroupBackend E K D H) (s : Balancers L)
      → IsTidy b
      → names (backend_id e) (Group.get_backends hc b) ≡ true
      → Group.add_backend_with_checker lb hc e k d b s ≡ returns (b, s)
  unfolding Group.add_backend_with_checker
  add_again e k d b s tidy member =
      let there : has (backend_id e) (entries b.backends) ≡ true =
        sym (names-get_backends hc (backend_id e) b tidy) ∙ member in
      rw (Group.add_backend_with_checker, there) refl

  add_adds :
      (e : Backend E) (k : Option K) (d : D) (b b' : GroupBackend E K D H) (s s' : Balancers L)
      → IsTidy b
      → Group.add_backend_with_checker lb hc e k d b s ≡ returns (b', s')
      → IsTidy b'
        × ((j : String)
            → names j (Group.get_backends hc b')
              ≡ ((backend_id e == j) || names j (Group.get_backends hc b)))
  add_adds e k d b b' s s' tidy r =
      let tidy' = (add_backend_with_checker-StaysTidy lb laws hc e k d b b' s s' r tidy).0 in
      let ids = subst (Named e b) r (add_backend_with_checker-Named e k d b s) in
      (tidy', λ j. rw (names-get_backends hc j b' tidy', names-get_backends hc j b tidy) (ids j))

  del_dels :
      (id : String) (b : GroupBackend E K D H) (s : Balancers L)
      → IsTidy b
      → let t = Group.del_backend lb hc id b s in
        IsTidy t.0
        × ((j : String)
            → names j (Group.get_backends hc t.0)
              ≡ (not (id == j) && names j (Group.get_backends hc b)))
  del_dels id b s tidy =
      let t = Group.del_backend lb hc id b s in
      let tidy' = (del_backend-StaysTidy lb laws hc id b s tidy).0 in
      (
        tidy',
        λ j.
            rw (names-get_backends hc j t.0 tidy', names-get_backends hc j b tidy)
              ((del_backend_lem lb laws hc b s id).0 j),
      )

  del_updater :
      (n : String) (u : ℕ) (b : GroupBackend E K D H) (s : Balancers L)
      → IsTidy b
      → get_updater_by_name n b ≡ some u
      → let t = Group.del_updater_by_name lb hc n b s in
        IsTidy t.0
        × (get_updater_by_name n t.0 ≡ none)
        × ((j : String)
            → names j (Group.get_backends hc b) ≡ true
            → lb.has_endpoint j (t.1 u) ≡ false)
  unfolding get_updater_by_name
  del_updater n u b s tidy known = (
    (del_updater_by_name-StaysTidy lb laws hc n b s tidy).0,
    (del_updater_by_name_lem lb laws hc b s n u "").0,
    λ j member.
        let there : mentions j (entries b.backends) ≡ true =
          mentions-has j (entries b.backends) tidy.own
          ∙ (sym (names-get_backends hc j b tidy) ∙ member) in
        let told = (del_updater_by_name_lem lb laws hc b s n u j).1 in
        let gone : lb.has_endpoint j ((Group.del_updater_by_name lb hc n b s).1 u) ≡ false =
          rw (known, nat_eq_refl u, there) at told in
        gone,
  )

  abbrev Knows : String → ℕ → Outcome (GroupBackend E K D H × Balancers L) → Type 0
  Knows n u (panic m) = Unit
  Knows n u (returns t) = get_updater_by_name n t.0 ≡ some u

  add_updater-Knows :
      (n : String) (u : ℕ) (b : GroupBackend E K D H) (s : Balancers L)
      → get_updater_by_name n b ≡ none
      → Knows n u (Group.add_updater lb hc n u b s)
  unfolding get_updater_by_name Group.add_updater Group.add_new_updater
  add_updater-Knows n u b s new = rw new (at b.updaters)
    where
      at : (us : Option (Dict ℕ)) → Knows n u (Group.add_new_updater lb hc n u b s us)
      at none = tt
      at (some us) = lookup-insert_self n u us

  pub group_backend-Contract : Contract lb (group_backend lb hc)
  unfolding get_updater_by_name Group.del_updater_by_name Group.add_updater
  group_backend-Contract = record {
    valid = IsTidy;
    add_again = add_again;
    add_adds = add_adds;
    del_dels = del_dels;
    no_updater = λ n b s missing. rw (Group.del_updater_by_name, missing) refl;
    del_updater = del_updater;
    updater_again = λ n u v b s known. rw (Group.add_updater, known) refl;
    updater_added = λ n u b b' s s' tidy new r. (
      (add_updater-StaysTidy lb laws hc n u b b' s s' r tidy).0,
      subst (Knows n u) r (add_updater-Knows n u b s new),
    );
  }
