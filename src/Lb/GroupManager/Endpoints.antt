-- ===== src/Lb/GroupManager/Endpoints.antt =====
-- The calls on a manager of groups and the endpoints of the load balancers.
use apigw.Common.{
  inl, inr, String, ◌==◌, if◌then◌else◌, ℕ, ◌+◌, Bool, true, false, [], ◌∷◌, Option, none, some,
  ◌≡◌, refl, nat_eq, arith, subst, if_intro,
}
use apigw.Dict.{Dict, lookup}
use apigw.Types.{Outcome, returns, panic}
use apigw.Lb.{Balancer, BalancerLaws, HealthCheck, entries}
use apigw.Lb.Group
use apigw.Lb.Group.{GroupBackend, get_updater_by_name}
use apigw.Lb.Group.Accounts.{IsTidy, Gives}
use apigw.Lb.Group.Accounts.Removing.{del_updater_by_name-StaysTidy, close-StaysTidy}
use apigw.Lb.Heap.{Heap, put}
use apigw.Lb.Endpoints.{IsAccounted, IsAccounted-put}
use apigw.Lb.GroupManager.{
  BackendGroupManager, leave, leave_all, close_groups, close, del_updater_by_name, put_group,
  new_group, add_or_new_backend_group,
}

module _ {E K D H L : Type 0} (lb : Balancer E L) (laws : BalancerLaws lb)
    (hc : HealthCheck E K D H) where
  pub leave-IsAccounted :
      (n : String) (g : ℕ) (hp : Heap E K D H L)
      → IsAccounted lb hp
      → IsAccounted lb (leave lb hc n g hp)
  leave-IsAccounted n g hp v =
      IsAccounted-put lb g (Group.del_updater_by_name lb hc n (hp.groups g) hp.balancers) hp
        (del_updater_by_name-StaysTidy lb laws hc n (hp.groups g) hp.balancers (v.tidy g)) v

  leave_all-IsAccounted :
      (n : String) (gs : Dict ℕ) (hp : Heap E K D H L)
      → IsAccounted lb hp
      → IsAccounted lb (leave_all lb hc n gs hp)
  unfolding leave_all
  leave_all-IsAccounted n [] hp v = v
  leave_all-IsAccounted n ((m, g) ∷ gs) hp v =
      leave_all-IsAccounted n gs (leave lb hc n g hp) (leave-IsAccounted n g hp v)

  pub del_updater_by_name-IsAccounted :
      (n : String) (m : BackendGroupManager) (hp : Heap E K D H L)
      → IsAccounted lb hp
      → IsAccounted lb (del_updater_by_name lb hc n m hp)
  unfolding del_updater_by_name
  del_updater_by_name-IsAccounted n m hp = leave_all-IsAccounted n (entries m.groups) hp

  close_groups-IsAccounted :
      (gs : Dict ℕ) (hp : Heap E K D H L)
      → IsAccounted lb hp
      → IsAccounted lb (close_groups lb hc gs hp)
  unfolding close_groups
  close_groups-IsAccounted [] hp v = v
  close_groups-IsAccounted ((n, g) ∷ gs) hp v =
      let t = Group.close lb hc (hp.groups g) hp.balancers in
      close_groups-IsAccounted gs (record hp { groups = put g t.0 hp.groups; balancers = t.1 })
        (IsAccounted-put lb g t hp
          (close-StaysTidy lb laws hc (hp.groups g) hp.balancers (v.tidy g)) v)

  pub close-IsAccounted :
      (m : BackendGroupManager) (hp : Heap E K D H L)
      → IsAccounted lb hp
      → IsAccounted lb (close lb hc m hp).1
  unfolding close
  close-IsAccounted m hp = close_groups-IsAccounted (entries m.groups) hp

module _ {E K D H : Type 0} (hc : HealthCheck E K D H) where
  -- A group that is made is empty.
  abbrev MakesTidy : Outcome (GroupBackend E K D H) → Type 0
  MakesTidy (panic s) = Unit
  MakesTidy (returns b) = IsTidy b

  new_group_backend-MakesTidy : (name : String) → MakesTidy (Group.new_group_backend hc name)
  unfolding Group.new_group_backend
  new_group_backend-MakesTidy name =
      if_intro MakesTidy (name == "") tt (record { own = tt; distinct = tt })

module _ {E K D H L : Type 0} (lb : Balancer E L) (hc : HealthCheck E K D H) where
  -- What a call that may panic leaves.
  abbrev LeavesAccounted : Outcome (BackendGroupManager × Heap E K D H L × ℕ) → Type 0
  LeavesAccounted (panic s) = Unit
  LeavesAccounted (returns t) = IsAccounted lb t.1

  put_group-LeavesAccounted :
      (name : String) (g : ℕ) (m : BackendGroupManager) (hp : Heap E K D H L) (gs : Option (Dict ℕ))
      → IsAccounted lb hp
      → LeavesAccounted (put_group name g m hp gs)
  unfolding put_group
  put_group-LeavesAccounted name g m hp none v = tt
  put_group-LeavesAccounted name g m hp (some gs) v = v

  made-IsAccounted :
      (b : GroupBackend E K D H) (hp : Heap E K D H L)
      → ((n : String) → get_updater_by_name n (hp.groups hp.next_group) ≡ none)
      → IsTidy b
      → IsAccounted lb hp
      → IsAccounted lb
          (record hp { groups = put hp.next_group b hp.groups; next_group = hp.next_group + 1 })
  made-IsAccounted b hp free clean v = record {
    tidy = λ a. tidied a (nat_eq hp.next_group a);
    founded = λ f j opened there. elim (v.founded f j opened there) [
      | inl own ↦ inl own
      | inr (a, given) ↦ inr (a, carried f j a (nat_eq hp.next_group a) refl given)
    ];
  }
    where
      tidied : (a : ℕ) (hit : Bool) → IsTidy (if hit then b else hp.groups a)
      tidied a true = clean
      tidied a false = v.tidy a

      carried :
          (f : ℕ) (j : String) (a : ℕ) (hit : Bool)
          → nat_eq hp.next_group a ≡ hit
          → Gives (hp.groups a) f j
          → Gives (if hit then b else hp.groups a) f j
      carried f j a true e (n, known, member) =
          let same : hp.next_group ≡ a = ground arith in
          let no : none ≡ some f = rw (← same, free n) at known in cc (no)
      carried f j a false e given = given

  pub add_or_new_backend_group-IsAccounted :
      (name : String) (m m' : BackendGroupManager) (hp h : Heap E K D H L) (g : ℕ)
      → ((n : String) → get_updater_by_name n (hp.groups hp.next_group) ≡ none)
      → add_or_new_backend_group hc name m hp ≡ returns (m', h, g)
      → IsAccounted lb hp
      → IsAccounted lb h
  unfolding add_or_new_backend_group new_group
  add_or_new_backend_group-IsAccounted name m m' hp h g free r v =
      subst LeavesAccounted r
        (if_intro LeavesAccounted (name == "") tt (found (lookup name (entries m.groups))))
    where
      made :
          (o : Outcome (GroupBackend E K D H))
          → MakesTidy hc o
          → LeavesAccounted (new_group hc name m hp o)
      made (panic s) e = tt
      made (returns b) e =
          put_group-LeavesAccounted name hp.next_group m
            (record hp { groups = put hp.next_group b hp.groups; next_group = hp.next_group + 1 })
            m.groups (made-IsAccounted b hp free e v)

      found :
          (o : Option ℕ)
          → LeavesAccounted (elim o [
            | some g ↦ returns (m, hp, g)
            | none ↦ new_group hc name m hp (Group.new_group_backend hc name)
          ])
      found none = made (Group.new_group_backend hc name) (new_group_backend-MakesTidy hc name)
      found (some g) = v
