-- ===== src/Lb/GroupManager/Closing.antt =====
-- What `Close` of a manager leaves of its groups and of the load balancers.
use apigw.Common.{
  String, ◌==◌, if◌then◌else◌, ℕ, Bool, true, false, ◌&&◌, ◌||◌, [], ◌∷◌, none, ◌≡◌, ◌≢◌, refl,
  nat_eq, arith, Bool-cases, inl, inr, subst, ==-false_of_ne,
}
use apigw.Dict.{Dict, lookup}
use apigw.Types.{panic}
use apigw.Lb.{Balancer, BalancerLaws, HealthCheck, entries}
use apigw.Lb.Updates.{listed}
use apigw.Lb.Group
use apigw.Lb.Group.{GroupBackend}
use apigw.Lb.Group.Loops.{mentions}
use apigw.Lb.Group.Effects.{close_lem}
use apigw.Lb.Heap.{Heap, put}
use apigw.Lb.GroupManager.{
  BackendGroupManager, close_groups, close, get_backend_groups, get_backend_group_by_name,
  add_or_new_backend_group, new_group, put_group,
}

module _ {E K D H : Type 0} where
  -- The group takes the id out of the forwarder when it is closed.
  abbrev takes : ℕ → String → GroupBackend E K D H → Bool
  takes v j b = listed v (entries b.updaters) && ((b.name == j) || mentions j (entries b.backends))

  -- One of the groups does.
  abbrev pub taken : {L : Type 0} → ℕ → String → Dict ℕ → Heap E K D H L → Bool
  taken v j [] hp = false
  taken v j ((n, g) ∷ gs) hp = takes v j (hp.groups g) || taken v j gs hp

  -- The group informs nobody and has no backend.
  abbrev pub IsClosed : GroupBackend E K D H → Type 0
  IsClosed b = (b.updaters ≡ none) × (b.backends ≡ none)

  -- What is left of the group at an address, by whether the manager had it.
  abbrev pub Left : Bool → GroupBackend E K D H → GroupBackend E K D H → Type 0
  Left true b b' = IsClosed b'
  Left false b b' = b' ≡ b

module _ {E K D H L : Type 0} (lb : Balancer E L) (hc : HealthCheck E K D H) where
  abbrev close_one : ℕ → Heap E K D H L → Heap E K D H L
  close_one g hp =
      let t = Group.close lb hc (hp.groups g) hp.balancers in
      record hp { groups = put g t.0 hp.groups; balancers = t.1 }

  -- A group that is closed already takes nothing any more.
  taken-close_one :
      (v : ℕ) (j : String) (g : ℕ) (gs : Dict ℕ) (hp : Heap E K D H L)
      → (takes v j (hp.groups g) || taken v j gs (close_one g hp))
        ≡ (takes v j (hp.groups g) || taken v j gs hp)
  unfolding Group.close
  taken-close_one v j g [] hp = refl
  taken-close_one v j g ((n, a) ∷ gs) hp = elim (Bool-cases (nat_eq g a)) [
    | inl same ↦
        let e : g ≡ a = ground arith in
        let rest = taken-close_one v j g gs hp in rw (same, ← e) (ground (arith, rest))
    | inr other ↦ let rest = taken-close_one v j g gs hp in rw other (ground (arith, rest))
  ]

  IsClosed-close_one :
      (g a : ℕ) (hp : Heap E K D H L)
      → IsClosed (hp.groups a)
      → IsClosed ((close_one g hp).groups a)
  unfolding Group.close
  IsClosed-close_one g a hp v = elim (Bool-cases (nat_eq g a)) [
    | inl same ↦ rw same (refl, refl)
    | inr other ↦ rw other v
  ]

  IsClosed-close_groups :
      (a : ℕ) (gs : Dict ℕ) (hp : Heap E K D H L)
      → IsClosed (hp.groups a)
      → IsClosed ((close_groups lb hc gs hp).groups a)
  unfolding close_groups
  IsClosed-close_groups a [] hp v = v
  IsClosed-close_groups a ((n, g) ∷ gs) hp v =
      IsClosed-close_groups a gs (close_one g hp) (IsClosed-close_one g a hp v)

  Left-close_groups :
      (a : ℕ) (gs : Dict ℕ) (hp : Heap E K D H L)
      → Left (listed a gs) (hp.groups a) ((close_groups lb hc gs hp).groups a)
  unfolding close_groups Group.close
  Left-close_groups a [] hp = refl
  Left-close_groups a ((n, g) ∷ gs) hp = elim (Bool-cases (nat_eq g a)) [
    | inl same ↦
        let shut : IsClosed ((close_one g hp).groups a) = rw same (refl, refl) in
        rw same (IsClosed-close_groups a gs (close_one g hp) shut)
    | inr other ↦
        let untouched : (close_one g hp).groups a ≡ hp.groups a = rw other refl in
        rw other (
          subst (λ b. Left (listed a gs) b ((close_groups lb hc gs (close_one g hp)).groups a))
            untouched (Left-close_groups a gs (close_one g hp)))
  ]

module _ {E K D H L : Type 0} (lb : Balancer E L) (laws : BalancerLaws lb)
    (hc : HealthCheck E K D H) where
  has-close_groups :
      (v : ℕ) (j : String) (gs : Dict ℕ) (hp : Heap E K D H L)
      → lb.has_endpoint j ((close_groups lb hc gs hp).balancers v)
        ≡ (if taken v j gs hp then false else lb.has_endpoint j (hp.balancers v))
  unfolding close_groups
  has-close_groups v j [] hp = refl
  has-close_groups v j ((n, g) ∷ gs) hp =
      let rest = has-close_groups v j gs (close_one lb hc g hp) in
      let one = (close_lem lb laws hc (hp.groups g) hp.balancers v j).0 in
      let same = taken-close_one lb hc v j g gs hp in ground (arith, rest, one, same)

  -- Where the load balancers keep their endpoints by id: after `Close` of a manager it has no
  -- groups, and each group that it had has neither backends nor updaters, while every other group
  -- stays as it was. The load balancer of each forwarder loses exactly the ids of those groups that
  -- informed it and of their backends. `GetBackendGroupByname` of the manager then finds no group
  -- under any name, and `AddOrNewBackendGroup` panics for every name that is not empty.
  pub close_manager_lem :
      (m : BackendGroupManager) (hp : Heap E K D H L)
      → let (m', h) = close lb hc m hp in
        (get_backend_groups m' ≡ [])
        × ((a : ℕ) → Left (listed a (entries m.groups)) (hp.groups a) (h.groups a))
        × ((v : ℕ) (j : String)
            → lb.has_endpoint j (h.balancers v) ≡ (
                if taken v j (entries m.groups) hp
                then false
                else lb.has_endpoint j (hp.balancers v)))
        × ((name : String) → get_backend_group_by_name name m' ≡ none)
        × ((name : String)
            → name ≢ ""
            → add_or_new_backend_group hc name m' h ≡ panic "assignment to entry in nil map")
  unfolding close get_backend_groups get_backend_group_by_name add_or_new_backend_group new_group
      put_group lookup Group.new_group_backend
  close_manager_lem m hp = (
    refl,
    λ a. Left-close_groups lb hc a (entries m.groups) hp,
    λ v j. has-close_groups v j (entries m.groups) hp,
    λ name. refl,
    λ name ne. rw (==-false_of_ne name "" ne) refl,
  )
