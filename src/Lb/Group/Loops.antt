-- ===== src/Lb/Group/Loops.antt =====
-- What the loops of a group over its backends do to the load balancers.
use apigw.Common.{
  String, ◌==◌, eq_iff, if◌then◌else◌, Bool, true, false, ◌&&◌, ◌||◌, ℕ, List, [], ◌∷◌, some, ◌≡◌,
  refl, arith, nat_eq, not, is_some, Bool-cases, inl, inr,
}
use apigw.Dict.{Dict, lookup}
use apigw.Dict.Laws.{Every}
use apigw.Lb.{
  Backend, backend_id, BackendInfo, Balancer, BalancerLaws, HealthCheck, Balancers, add_backend,
  del_backend_by_id,
}
use apigw.Lb.Updates.{listed, has-add_backend, has-del_backend_by_id}
use apigw.Lb.Group.{add_if_healthy, inform, forget_backends, close_updaters}

pub listed_of_lookup :
    (name : String) (u : ℕ) (us : Dict ℕ) → lookup name us ≡ some u → listed u us ≡ true
unfolding lookup
listed_of_lookup name u [] e = cc
listed_of_lookup name u ((n, v) ∷ us) e = ground (arith, listed_of_lookup name u us)

-- Some endpoint of the checker is healthy.
abbrev pub any_healthy : {E : Type 0} → List (Backend E × Bool) → Bool
any_healthy [] = false
any_healthy ((ep, healthy) ∷ eps) = healthy || any_healthy eps

module _ {E K D : Type 0} where
  -- What holds of each entry: it stands under its own id, and it is online unless it is checked.
  abbrev pub Keyed : String → BackendInfo E K D → Type 0
  Keyed id info = (backend_id info.backend ≡ id) × (info.online ≡ not (is_some info.checker))

  -- A backend with the id is in the map.
  abbrev pub mentions : String → Dict (BackendInfo E K D) → Bool
  mentions j [] = false
  mentions j ((id, info) ∷ bs) = (backend_id info.backend == j) || mentions j bs

  -- A backend with the id is in the map, and it is online or some endpoint of the checker is
  -- healthy.
  abbrev pub informs : String → Bool → Dict (BackendInfo E K D) → Bool
  informs j healthy [] = false
  informs j healthy ((id, info) ∷ bs) =
      ((info.online || healthy) && (backend_id info.backend == j)) || informs j healthy bs

  pub informs_of_lookup :
      (j : String) (healthy : Bool) (info : BackendInfo E K D) (bs : Dict (BackendInfo E K D))
      → Every Keyed bs
      → lookup j bs ≡ some info
      → (info.online || healthy) ≡ true
      → informs j healthy bs ≡ true
  unfolding lookup
  informs_of_lookup j healthy info [] keyed e on = cc
  informs_of_lookup j healthy info ((id, i) ∷ bs) keyed e on = ground (
    arith,
    eq_iff id j,
    eq_iff (backend_id i.backend) j,
    informs_of_lookup j healthy info bs keyed.1,
  )

  -- Where every backend is online, exactly the backends of the map are told.
  pub informs-mentions :
      (j : String) (healthy : Bool) (bs : Dict (BackendInfo E K D))
      → Every (λ id info. info.online ≡ true) bs
      → informs j healthy bs ≡ mentions j bs
  informs-mentions j healthy [] on = refl
  informs-mentions j healthy ((id, info) ∷ bs) on =
      ground (arith, informs-mentions j healthy bs on.1)

module _ {E K D H L : Type 0} (lb : Balancer E L) (laws : BalancerLaws lb)
    (hc : HealthCheck E K D H) where
  pub has-forget_backends :
      (u : ℕ) (bs : Dict (BackendInfo E K D)) (s : Balancers L) (v : ℕ) (j : String)
      → lb.has_endpoint j (forget_backends lb hc u bs s v)
        ≡ (if nat_eq u v && mentions j bs then false else lb.has_endpoint j (s v))
  unfolding forget_backends
  has-forget_backends u [] s v j = ground arith
  has-forget_backends u ((id, info) ∷ bs) s v j = ground (
    arith,
    has-forget_backends u bs (del_backend_by_id lb u (backend_id info.backend) s) v j,
    has-del_backend_by_id lb laws u v (backend_id info.backend) j s,
  )

  has-add_if_healthy :
      (u : ℕ) (e : Backend E) (eps : List (Backend E × Bool)) (s : Balancers L) (v : ℕ) (j : String)
      → lb.has_endpoint j (add_if_healthy lb hc u e eps s v) ≡ (
          if any_healthy eps && (nat_eq u v && (backend_id e == j))
          then true
          else lb.has_endpoint j (s v))
  unfolding add_if_healthy
  has-add_if_healthy u e [] s v j = ground arith
  has-add_if_healthy u e ((ep, true) ∷ eps) s v j = ground (
    arith,
    has-add_if_healthy u e eps (add_backend lb u e s) v j,
    has-add_backend lb laws u v e j s,
  )
  has-add_if_healthy u e ((ep, false) ∷ eps) s v j = has-add_if_healthy u e eps s v j

  pub has-inform :
      (u : ℕ) (h : H) (bs : Dict (BackendInfo E K D)) (s : Balancers L) (v : ℕ) (j : String)
      → lb.has_endpoint j (inform lb hc u h bs s v) ≡ (
          if nat_eq u v && informs j (any_healthy (hc.get_endpoints h)) bs
          then true
          else lb.has_endpoint j (s v))
  unfolding inform
  has-inform u h [] s v j = ground arith
  has-inform u h ((id, info) ∷ bs) s v j = elim (Bool-cases info.online) [
    | inl on ↦ ground (
      arith,
      has-inform u h bs (add_backend lb u info.backend s) v j,
      has-add_backend lb laws u v info.backend j s,
    )
    | inr off ↦ ground (
      arith,
      has-inform u h bs (add_if_healthy lb hc u info.backend (hc.get_endpoints h) s) v j,
      has-add_if_healthy u info.backend (hc.get_endpoints h) s v j,
    )
  ]

  pub has-close_updaters :
      (name : String) (bs : Dict (BackendInfo E K D)) (us : Dict ℕ) (s : Balancers L) (v : ℕ)
      (j : String)
      → lb.has_endpoint j (close_updaters lb hc name bs us s v)
        ≡ (if listed v us && ((name == j) || mentions j bs) then false else lb.has_endpoint j (s v))
  unfolding close_updaters
  has-close_updaters name bs [] s v j = refl
  has-close_updaters name bs ((n, u) ∷ us) s v j =
      let s' = del_backend_by_id lb u name s in
      ground (
        arith,
        has-close_updaters name bs us (forget_backends lb hc u bs s') v j,
        has-forget_backends u bs s' v j,
        has-del_backend_by_id lb laws u v name j s,
      )
