-- ===== src/Lb/Updates.antt =====
-- Which endpoints the load balancers have after updates.
use apigw.Common.{
  String, ◌==◌, if◌then◌else◌, Bool, true, false, ◌&&◌, ◌||◌, ℕ, [], ◌∷◌, ◌≡◌, refl, arith, nat_eq,
  Bool-cases, inl, inr,
}
use apigw.Dict.{Dict}
use apigw.Lb.{
  Backend, backend_id, Balancer, BalancerLaws, Balancers, add_backend, del_backend_by_id,
  add_to_all, del_from_all,
}

-- The updater is one of those in the map.
abbrev pub listed : ℕ → Dict ℕ → Bool
listed v [] = false
listed v ((name, u) ∷ us) = nat_eq u v || listed v us

module _ {E L : Type 0} (lb : Balancer E L) (laws : BalancerLaws lb) where
  pub has-add_backend :
      (u v : ℕ) (e : Backend E) (id : String) (s : Balancers L)
      → lb.has_endpoint id (add_backend lb u e s v)
        ≡ (if nat_eq u v && (backend_id e == id) then true else lb.has_endpoint id (s v))
  unfolding add_backend
  has-add_backend u v e id s = elim (Bool-cases (nat_eq u v)) [
    | inl same ↦ rw same (laws.has-add e id (s v))
    | inr other ↦ rw other refl
  ]

  pub has-del_backend_by_id :
      (u v : ℕ) (k id : String) (s : Balancers L)
      → lb.has_endpoint id (del_backend_by_id lb u k s v)
        ≡ (if nat_eq u v && (k == id) then false else lb.has_endpoint id (s v))
  unfolding del_backend_by_id
  has-del_backend_by_id u v k id s = elim (Bool-cases (nat_eq u v)) [
    | inl same ↦ rw same (laws.has-del k id (s v))
    | inr other ↦ rw other refl
  ]

  pub has-add_to_all :
      (e : Backend E) (us : Dict ℕ) (s : Balancers L) (v : ℕ) (id : String)
      → lb.has_endpoint id (add_to_all lb e us s v)
        ≡ (if listed v us && (backend_id e == id) then true else lb.has_endpoint id (s v))
  unfolding add_to_all
  has-add_to_all e [] s v id = refl
  has-add_to_all e ((name, u) ∷ us) s v id =
      ground (arith, has-add_to_all e us (add_backend lb u e s) v id, has-add_backend u v e id s)

  pub has-del_from_all :
      (k : String) (us : Dict ℕ) (s : Balancers L) (v : ℕ) (id : String)
      → lb.has_endpoint id (del_from_all lb k us s v)
        ≡ (if listed v us && (k == id) then false else lb.has_endpoint id (s v))
  unfolding del_from_all
  has-del_from_all k [] s v id = refl
  has-del_from_all k ((name, u) ∷ us) s v id = ground (
    arith,
    has-del_from_all k us (del_backend_by_id lb u k s) v id,
    has-del_backend_by_id u v k id s,
  )
