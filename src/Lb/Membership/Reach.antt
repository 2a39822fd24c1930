-- ===== src/Lb/Membership/Reach.antt =====
-- The calls on forwarders, groups and managers of groups as a step relation over the objects that
-- they share, with its invariant.
use apigw.Common.{String, ℕ, Option, none, some, ◌≡◌, refl, true}
use apigw.Types.{returns, Err}
use apigw.Lb.{
  Backend, Balancer, HealthCheck, Balancers, backend_id, entries, add_backend, del_backend_by_id,
}
use apigw.Dict.{lookup, has}
use apigw.Lb.Endpoints.{is_single}
use apigw.Lb.Group
use apigw.Lb.Group.{GroupBackend, get_updater_by_name}
use apigw.Lb.Group.Kept.{
  HasNoMore, HasNoMore-same, add_backend_with_checker-HasNoMore, del_backend-HasNoMore,
  close-HasNoMore,
}
use apigw.Lb.GroupManager
use apigw.Lb.GroupManager.{BackendGroupManager, leave}
use apigw.Lb.GroupManager.Members.{
  leave-InformsNoMore, del_updater_by_name-InformsNoMore, close-InformsNoMore,
  add_or_new_backend_group-InformsNoMore,
}
use apigw.Lb.Forwarder
use apigw.Lb.Forwarder.Joins.{add_backend_group-IsMutual, add_backend_with_checker-IsMutual}
use apigw.Lb.Forwarder.Members.{del_backend-IsMutual, close-IsMutual}
use apigw.Lb.Heap.{Heap, put}
use apigw.Lb.Membership.{
  IsNamed, is_member, IsMutual, InformsNoMore-put, IsMutual-InformsNoMore, IsMutual-SameMembers,
}

module _ {E K D H L : Type 0} (lb : Balancer E L) (hc : HealthCheck E K D H) where
  -- The objects after a call on one group.
  abbrev pub with_group : ℕ → GroupBackend E K D H × Balancers L → Heap E K D H L → Heap E K D H L
  with_group g t hp = record hp { groups = put g t.0 hp.groups; balancers = t.1 }

  -- One whole call that returns. Updaters are added to groups by forwarders alone.
  pub data Step (hp : Heap E K D H L) : Heap E K D H L → Type 0 where
    adds_backend_group :
        {h : Heap E K D H L} (f g : ℕ) (zero : D)
        → Forwarder.add_backend_group lb hc f (hp.groups g).name g zero hp ≡ returns h
        → Step hp h
    adds_backend :
        {h : Heap E K D H L} (f : ℕ) (e : Backend E) (k : Option K) (d zero : D)
        → IsNamed e hp
        → Forwarder.add_backend_with_checker lb hc f e k d zero hp ≡ returns h
        → Step hp h
    dels_backend : (f : ℕ) (id : String) → Step hp (Forwarder.del_backend lb hc f id hp)
    closes :
        (close_balancer : L → L × Option Err) (f : ℕ)
        → Step hp (Forwarder.close lb hc close_balancer f hp).0
    adds_to_group :
        {b : GroupBackend E K D H} {s : Balancers L} (g : ℕ) (e : Backend E) (k : Option K) (d : D)
        → Group.add_backend_with_checker lb hc e k d (hp.groups g) hp.balancers ≡ returns (b, s)
        → Step hp (with_group g (b, s) hp)
    dels_from_group :
        (g : ℕ) (id : String)
        → Step hp (with_group g (Group.del_backend lb hc id (hp.groups g) hp.balancers) hp)
    dels_updater : (n : String) (g : ℕ) → Step hp (leave lb hc n g hp)
    closes_group :
        (g : ℕ) → Step hp (with_group g (Group.close lb hc (hp.groups g) hp.balancers) hp)
    -- The address of a new group is not in use.
    makes_group :
        {m' : BackendGroupManager} {h : Heap E K D H L} {g : ℕ} (n : String)
        (m : BackendGroupManager)
        → ((j : String) → get_updater_by_name j (hp.groups hp.next_group) ≡ none)
        → GroupManager.add_or_new_backend_group hc n m hp ≡ returns (m', h, g)
        → Step hp h
    dels_updater_of_all :
        (n : String) (m : BackendGroupManager)
        → Step hp (GroupManager.del_updater_by_name lb hc n m hp)
    closes_manager : (m : BackendGroupManager) → Step hp (GroupManager.close lb hc m hp).1
    -- The events of the checkers, for backends that are still there: a deleted backend of a
    -- forwarder stays in its checker, whose events are left out.
    finds_healthy :
        (f : ℕ) (e : Backend E)
        → is_single (lookup (backend_id e) (entries (hp.forwarders f).backends)) ≡ true
        → Step hp (record hp { balancers = add_backend lb f e hp.balancers })
    finds_ill :
        (f : ℕ) (id : String)
        → Step hp (record hp { balancers = del_backend_by_id lb f id hp.balancers })
    finds_healthy_in_group :
        (g : ℕ) (e : Backend E)
        → has (backend_id e) (entries (hp.groups g).backends) ≡ true
        → Step hp
            (with_group g (hp.groups g, Group.add_endpoint lb hc e (hp.groups g) hp.balancers) hp)
    finds_ill_in_group :
        (g : ℕ) (id : String)
        → Step hp
            (with_group g (hp.groups g, Group.del_endpoint lb hc id (hp.groups g) hp.balancers) hp)

  pub data Reach (hp : Heap E K D H L) : Heap E K D H L → Type 0 where
    here : Reach hp hp
    next : {h k : Heap E K D H L} → Reach hp h → Step h k → Reach hp k

  with_group-IsMutual :
      (g : ℕ) (t : GroupBackend E K D H × Balancers L) (hp : Heap E K D H L)
      → HasNoMore (hp.groups g) t.0
      → IsMutual hp
      → IsMutual (with_group g t hp)
  with_group-IsMutual g t hp v =
      IsMutual-InformsNoMore hp (with_group g t hp) (InformsNoMore-put g t.0 t.1 hp v)

  Step-IsMutual : {hp h : Heap E K D H L} → Step hp h → IsMutual hp → IsMutual h
  Step-IsMutual {hp} {h} (adds_backend_group f g zero r) =
      add_backend_group-IsMutual lb hc f g zero hp h r
  Step-IsMutual {hp} {h} (adds_backend f e k d zero named r) =
      add_backend_with_checker-IsMutual lb hc f e k d zero hp h named r
  Step-IsMutual {hp} (dels_backend f id) = del_backend-IsMutual lb hc f id hp
  Step-IsMutual {hp} (closes close_balancer f) = close-IsMutual lb hc close_balancer f hp
  Step-IsMutual {hp} (adds_to_group {b} {s} g e k d r) =
      with_group-IsMutual g (b, s) hp
        (add_backend_with_checker-HasNoMore lb hc e k d (hp.groups g) b hp.balancers s r)
  Step-IsMutual {hp} (dels_from_group g id) =
      with_group-IsMutual g (Group.del_backend lb hc id (hp.groups g) hp.balancers) hp
        (del_backend-HasNoMore lb hc id (hp.groups g) hp.balancers)
  Step-IsMutual {hp} (dels_updater n g) =
      IsMutual-InformsNoMore hp (leave lb hc n g hp) (leave-InformsNoMore lb hc n g hp)
  Step-IsMutual {hp} (closes_group g) =
      with_group-IsMutual g (Group.close lb hc (hp.groups g) hp.balancers) hp
        (close-HasNoMore lb hc (hp.groups g) hp.balancers)
  Step-IsMutual {hp} {h} (makes_group {m'} {g = g} n m free r) =
      IsMutual-InformsNoMore hp h (add_or_new_backend_group-InformsNoMore hc n m m' hp h g r)
  Step-IsMutual {hp} {h} (dels_updater_of_all n m) =
      IsMutual-InformsNoMore hp h (del_updater_by_name-InformsNoMore lb hc n m hp)
  Step-IsMutual {hp} {h} (closes_manager m) =
      IsMutual-InformsNoMore hp h (close-InformsNoMore lb hc m hp)
  Step-IsMutual {hp} {h} (finds_healthy f e there) =
      IsMutual-SameMembers hp h (record { groups = refl; forwarders = λ u. (refl, refl) })
  Step-IsMutual {hp} {h} (finds_ill f id) =
      IsMutual-SameMembers hp h (record { groups = refl; forwarders = λ u. (refl, refl) })
  Step-IsMutual {hp} (finds_healthy_in_group g e there) =
      with_group-IsMutual g (hp.groups g, Group.add_endpoint lb hc e (hp.groups g) hp.balancers) hp
        (HasNoMore-same (hp.groups g) (hp.groups g) refl refl)
  Step-IsMutual {hp} (finds_ill_in_group g id) =
      with_group-IsMutual g (hp.groups g, Group.del_endpoint lb hc id (hp.groups g) hp.balancers) hp
        (HasNoMore-same (hp.groups g) (hp.groups g) refl refl)

  -- From objects of which no group has an updater, whatever whole calls are made on forwarders,
  -- groups and managers of groups, where only forwarders add updaters and the address of a new
  -- group is not in use: every updater of a group stands under the name of its forwarder, and the
  -- forwarder has that very group among its backends, under the group's name.
  pub Reach-IsMutual :
      {hp h : Heap E K D H L}
      → ((n : String) (a : ℕ) → get_updater_by_name n (hp.groups a) ≡ none)
      → Reach hp h
      → (n : String) (a u : ℕ) → get_updater_by_name n (h.groups a) ≡ some u
      → (n ≡ (h.forwarders u).name) × (is_member h a u ≡ true)
  Reach-IsMutual {hp} apart here n a u e = let no : none ≡ some u = rw (apart n a) at e in cc (no)
  Reach-IsMutual apart (next r s) n a u e = Step-IsMutual s (Reach-IsMutual apart r) n a u e
