-- ===== src/Lb/GroupManager/Members.antt =====
-- The calls on a manager of groups give no group an updater.
use apigw.Common.{
  String, ◌==◌, if◌then◌else◌, ℕ, ◌+◌, Bool, true, false, [], ◌∷◌, Option, none, some, ◌≡◌, refl,
  nat_eq, subst, if_intro,
}
use apigw.Dict.{Dict, lookup}
use apigw.Types.{Outcome, returns, panic}
use apigw.Lb.{Balancer, HealthCheck, entries}
use apigw.Lb.Group
use apigw.Lb.Group.{GroupBackend, get_updater_by_name}
use apigw.Lb.Group.Kept.{del_updater_by_name-HasNoMore, close-HasNoMore}
use apigw.Lb.Heap.{Heap, put}
use apigw.Lb.Membership.{InformsNoMore, InformsNoMore-refl, InformsNoMore-trans, InformsNoMore-put}
use apigw.Lb.GroupManager.{
  BackendGroupManager, leave, leave_all, close_groups, close, del_updater_by_name, put_group,
  new_group, add_or_new_backend_group,
}

module _ {E K D H L : Type 0} (lb : Balancer E L) (hc : HealthCheck E K D H) where
  pub leave-InformsNoMore :
      (n : String) (g : ℕ) (hp : Heap E K D H L) → InformsNoMore hp (leave lb hc n g hp)
  leave-InformsNoMore n g hp =
      let t = Group.del_updater_by_name lb hc n (hp.groups g) hp.balancers in
      InformsNoMore-put g t.0 t.1 hp
        (del_updater_by_name-HasNoMore lb hc n (hp.groups g) hp.balancers)

  leave_all-InformsNoMore :
      (n : String) (gs : Dict ℕ) (hp : Heap E K D H L) → InformsNoMore hp (leave_all lb hc n gs hp)
  unfolding leave_all
  leave_all-InformsNoMore n [] hp = InformsNoMore-refl hp
  leave_all-InformsNoMore n ((m, g) ∷ gs) hp =
      InformsNoMore-trans hp (leave lb hc n g hp) (leave_all lb hc n gs (leave lb hc n g hp))
        (leave-InformsNoMore n g hp) (leave_all-InformsNoMore n gs (leave lb hc n g hp))

  pub del_updater_by_name-InformsNoMore :
      (n : String) (m : BackendGroupManager) (hp : Heap E K D H L)
      → InformsNoMore hp (del_updater_by_name lb hc n m hp)
  unfolding del_updater_by_name
  del_updater_by_name-InformsNoMore n m hp = leave_all-InformsNoMore n (entries m.groups) hp

  abbrev close_group : ℕ → Heap E K D H L → Heap E K D H L
  close_group g hp =
      let (b, s) = Group.close lb hc (hp.groups g) hp.balancers in
      record hp { groups = put g b hp.groups; balancers = s }

  close_group-InformsNoMore : (g : ℕ) (hp : Heap E K D H L) → InformsNoMore hp (close_group g hp)
  close_group-InformsNoMore g hp =
      let t = Group.close lb hc (hp.groups g) hp.balancers in
      InformsNoMore-put g t.0 t.1 hp (close-HasNoMore lb hc (hp.groups g) hp.balancers)

  close_groups-InformsNoMore :
      (gs : Dict ℕ) (hp : Heap E K D H L) → InformsNoMore hp (close_groups lb hc gs hp)
  unfolding close_groups
  close_groups-InformsNoMore [] hp = InformsNoMore-refl hp
  close_groups-InformsNoMore ((n, g) ∷ gs) hp =
      InformsNoMore-trans hp (close_group g hp) (close_groups lb hc gs (close_group g hp))
        (close_group-InformsNoMore g hp) (close_groups-InformsNoMore gs (close_group g hp))

  pub close-InformsNoMore :
      (m : BackendGroupManager) (hp : Heap E K D H L) → InformsNoMore hp (close lb hc m hp).1
  unfolding close
  close-InformsNoMore m hp = close_groups-InformsNoMore (entries m.groups) hp

module _ {E K D H : Type 0} (hc : HealthCheck E K D H) where
  -- A group that is made has no updater.
  abbrev InformsNobody : Outcome (GroupBackend E K D H) → Type 0
  InformsNobody (panic s) = Unit
  InformsNobody (returns b) = b.updaters ≡ some []

  new_group_backend-InformsNobody :
      (name : String) → InformsNobody (Group.new_group_backend hc name)
  unfolding Group.new_group_backend
  new_group_backend-InformsNobody name = if_intro InformsNobody (name == "") tt refl

module _ {E K D H L : Type 0} (hc : HealthCheck E K D H) where
  -- What a call that may panic leaves.
  abbrev LeavesNoMore : Heap E K D H L → Outcome (BackendGroupManager × Heap E K D H L × ℕ) → Type 0
  LeavesNoMore hp (panic s) = Unit
  LeavesNoMore hp (returns t) = InformsNoMore hp t.1

  put_group-LeavesNoMore :
      (name : String) (g : ℕ) (m : BackendGroupManager) (hp h : Heap E K D H L)
      (gs : Option (Dict ℕ))
      → InformsNoMore hp h
      → LeavesNoMore hp (put_group name g m h gs)
  unfolding put_group
  put_group-LeavesNoMore name g m hp h none v = tt
  put_group-LeavesNoMore name g m hp h (some gs) v = v

  -- A new group informs nobody.
  with_new : (b : GroupBackend E K D H) (hp : Heap E K D H L) → Heap E K D H L
  with_new b hp = record hp {
    groups = put hp.next_group b hp.groups;
    next_group = hp.next_group + 1;
  }

  with_new-InformsNoMore :
      (b : GroupBackend E K D H) (hp : Heap E K D H L)
      → b.updaters ≡ some []
      → InformsNoMore hp (with_new b hp)
  unfolding with_new get_updater_by_name lookup
  with_new-InformsNoMore b hp nobody = record {
    forwarders = refl;
    updaters = λ n a u. at n a u (nat_eq hp.next_group a) refl;
  }
    where
      at :
          (n : String) (a u : ℕ) (hit : Bool)
          → nat_eq hp.next_group a ≡ hit
          → get_updater_by_name n (if hit then b else hp.groups a) ≡ some u
          → (get_updater_by_name n (hp.groups a) ≡ some u)
            × ((if hit then b else hp.groups a).name ≡ (hp.groups a).name)
      at n a u true hit e = let no : none ≡ some u = rw nobody at e in cc (no)
      at n a u false miss e = (e, refl)

  pub add_or_new_backend_group-InformsNoMore :
      (name : String) (m m' : BackendGroupManager) (hp h : Heap E K D H L) (g : ℕ)
      → add_or_new_backend_group hc name m hp ≡ returns (m', h, g)
      → InformsNoMore hp h
  unfolding add_or_new_backend_group new_group with_new
  add_or_new_backend_group-InformsNoMore name m m' hp h g r =
      subst (LeavesNoMore hp) r
        (if_intro (LeavesNoMore hp) (name == "") tt (found (lookup name (entries m.groups))))
    where
      made :
          (o : Outcome (GroupBackend E K D H))
          → InformsNobody hc o
          → LeavesNoMore hp (new_group hc name m hp o)
      made (panic s) e = tt
      made (returns b) e =
          put_group-LeavesNoMore name hp.next_group m hp (with_new b hp) m.groups
            (with_new-InformsNoMore b hp e)

      found :
          (o : Option ℕ)
          → LeavesNoMore hp (elim o [
            | some g ↦ returns (m, hp, g)
            | none ↦ new_group hc name m hp (Group.new_group_backend hc name)
          ])
      found none = made (Group.new_group_backend hc name) (new_group_backend-InformsNobody hc name)
      found (some g) = InformsNoMore-refl hp
