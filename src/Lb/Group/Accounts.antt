-- ===== src/Lb/Group/Accounts.antt =====
-- Every endpoint that a forwarder gets from a call on a group is a backend of the group, and the
-- group informs the forwarder.
pub mod Removing
pub mod Adding
use apigw.Common.{
  String, ◌==◌, eq_iff, if◌then◌else◌, Bool, true, false, ◌&&◌, ◌||◌, ℕ, [], ◌∷◌, Option, none,
  some, ◌≡◌, refl, arith, nat_eq, is_some, Bool-cases, Option-cases, ◌⊎◌, inl, inr, if_intro, subst,
}
use apigw.Dict.{Dict, lookup, insert, delete, has}
use apigw.Dict.Laws.{
  Every, Every-lookup, Every-insert, Every-delete, lookup-insert, lookup-delete, lookup-insert_self,
}
use apigw.Dict.Distinct.{Distinct, Distinct-insert, Distinct-delete}
use apigw.Types.{Outcome, returns, panic}
use apigw.Lb.{
  Backend, backend_id, BackendInfo, Balancer, BalancerLaws, HealthCheck, Balancers, entries,
  add_to_all, del_from_all,
}
use apigw.Lb.Updates.{listed, has-add_to_all, has-del_from_all}
use apigw.Lb.Group
use apigw.Lb.Group.{GroupBackend, get_updater_by_name, inform}
use apigw.Lb.Group.Loops.{
  mentions, informs, any_healthy, listed_of_lookup, has-forget_backends, has-inform,
  has-close_updaters,
}

-- An updater that is in the map stands under some name.
name_of_listed :
    (v : ℕ) (us : Dict ℕ) → Distinct us → listed v us ≡ true → (n : String) × (lookup n us ≡ some v)
unfolding lookup
name_of_listed v [] d there = cc (there)
name_of_listed v ((n, u) ∷ us) d there = elim (Bool-cases (nat_eq u v)) [
  | inl same ↦ (n, ground (arith, eq_iff n n))
  | inr other ↦
      let (j, found) = name_of_listed v us d.1 (ground arith) in
      (
        j,
        elim (Bool-cases (n == j)) [
          | inl hit ↦
              let e : n ≡ j = (eq_iff n j).0 hit in
              let no : none ≡ some v = rw (← d.0, e) found in cc (no)
          | inr miss ↦ rw miss found
        ],
      )
]

module _ {E K D : Type 0} where
  -- Every backend stands under its own id.
  abbrev pub OwnId : String → BackendInfo E K D → Type 0
  OwnId id info = backend_id info.backend ≡ id

  pub mentions-has :
      (j : String) (bs : Dict (BackendInfo E K D)) → Every OwnId bs → mentions j bs ≡ has j bs
  unfolding lookup
  mentions-has j [] own = refl
  mentions-has j ((id, info) ∷ bs) own = ground (arith, mentions-has j bs own.1, own.0)

  informs-has :
      (j : String) (healthy : Bool) (bs : Dict (BackendInfo E K D))
      → Every OwnId bs
      → informs j healthy bs ≡ true
      → has j bs ≡ true
  unfolding lookup
  informs-has j healthy [] own there = there
  informs-has j healthy ((id, info) ∷ bs) own there =
      ground (arith, informs-has j healthy bs own.1, own.0)

module _ {E K D H : Type 0} where
  -- The maps of a group are as the code makes them.
  pub record IsTidy (b : GroupBackend E K D H) : Type 0 where
    pub own : Every OwnId (entries b.backends)
    pub distinct : Distinct (entries b.updaters)

  -- The group informs the forwarder and has a backend with the id.
  abbrev pub Gives : GroupBackend E K D H → ℕ → String → Type 0
  Gives b v j =
      (n : String) × (get_updater_by_name n b ≡ some v) × (has j (entries b.backends) ≡ true)

module _ {E K D H L : Type 0} (lb : Balancer E L) where
  -- Each endpoint of a forwarder after a call on a group was one before, and what the group gives
  -- of it is still given, or the group gives it now.
  abbrev pub Accounts :
      GroupBackend E K D H → Balancers L → GroupBackend E K D H × Balancers L → Type 0
  Accounts b s t =
      (v : ℕ) (j : String)
      → lb.has_endpoint j (t.1 v) ≡ true
      → ((lb.has_endpoint j (s v) ≡ true) × (Gives b v j → Gives t.0 v j)) ⊎ Gives t.0 v j

  abbrev pub StaysTidy :
      GroupBackend E K D H → Balancers L → GroupBackend E K D H × Balancers L → Type 0
  StaysTidy b s t = IsTidy t.0 × Accounts b s t

  StaysTidy-same : (b : GroupBackend E K D H) (s : Balancers L) → IsTidy b → StaysTidy b s (b, s)
  StaysTidy-same b s tidy = (tidy, λ v j there. inl (there, λ given. given))

  abbrev LeavesTidy :
      GroupBackend E K D H → Balancers L → Outcome (GroupBackend E K D H × Balancers L) → Type 0
  LeavesTidy b s (panic m) = Unit
  LeavesTidy b s (returns t) = StaysTidy b s t
