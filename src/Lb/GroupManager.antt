-- ===== src/Lb/GroupManager.antt =====
-- forward/lb/backend_group_manager.go: the groups of a host, by their names. A group is its address;
-- a call holds the manager's lock and is one step here.
pub mod Effects
pub mod Closing
pub mod Members
pub mod Endpoints
use apigw.Common.{
  String, ◌==◌, if◌then◌else◌, Bool, ℕ, ◌+◌, List, [], ◌∷◌, Option, none, some, is_some,
}
use apigw.Dict.{Dict, lookup, insert, delete, has, values}
use apigw.Types.{Outcome, returns, panic, ◌>>=◌}
use apigw.Lb.{Balancer, HealthCheck, entries}
use apigw.Lb.Group.{GroupBackend, new_group_backend, get_updater_by_name}
use apigw.Lb.Group
use apigw.Lb.Heap.{Heap, put}

-- The groups are nil after `Close`.
pub record BackendGroupManager : Type 0 where
  pub name : String
  pub groups : Option (Dict ℕ)

unfoldable pub new_backend_group_manager : String → BackendGroupManager
new_backend_group_manager name = record { name = name; groups = some [] }

unfoldable pub name : BackendGroupManager → String
name m = m.name

unfoldable pub get_backend_group_by_name : String → BackendGroupManager → Option ℕ
get_backend_group_by_name name m = lookup name (entries m.groups)

unfoldable pub get_backend_groups : BackendGroupManager → List ℕ
get_backend_groups m = values (entries m.groups)

unfoldable pub del_backend_group_by_name :
    String → BackendGroupManager → BackendGroupManager × Option ℕ
del_backend_group_by_name name m = elim (lookup name (entries m.groups)) [
  | none ↦ (m, none)
  | some g ↦ (record m { groups = some (delete name (entries m.groups)) }, some g)
]

module _ {E K D H L : Type 0} where
  -- `m.groups[name] = group`, which panics on a nil map.
  put_group :
      String
      → ℕ
      → BackendGroupManager
      → Heap E K D H L
      → Option (Dict ℕ)
      → Outcome (BackendGroupManager × Heap E K D H L × ℕ)
  put_group name g m hp none = panic "assignment to entry in nil map"
  put_group name g m hp (some gs) = returns (record m { groups = some (insert name g gs) }, hp, g)

  -- `name` is `bg.Name()`.
  unfoldable pub add_backend_group :
      ℕ → BackendGroupManager → Heap E K D H L → Outcome (BackendGroupManager × Heap E K D H L × ℕ)
  unfolding put_group
  add_backend_group bg m hp = elim (lookup (hp.groups bg).name (entries m.groups)) [
    | some g ↦ returns (m, hp, g)
    | none ↦ put_group (hp.groups bg).name bg m hp m.groups
  ]

  -- The loop of `GetBackendGroupsByUpdaterName`.
  informing : String → Dict ℕ → Heap E K D H L → List ℕ
  unfolding get_updater_by_name
  informing name [] hp = []
  informing name ((n, g) ∷ gs) hp =
      let rest = informing name gs hp in
      if is_some (get_updater_by_name name (hp.groups g)) then g ∷ rest else rest

  unfoldable pub get_backend_groups_by_updater_name :
      String → BackendGroupManager → Heap E K D H L → List ℕ
  unfolding informing
  get_backend_groups_by_updater_name name m hp = informing name (entries m.groups) hp

module _ {E K D H L : Type 0} (hc : HealthCheck E K D H) where
  -- The branch of `AddOrNewBackendGroup` that makes a group.
  new_group :
      String
      → BackendGroupManager
      → Heap E K D H L
      → Outcome (GroupBackend E K D H)
      → Outcome (BackendGroupManager × Heap E K D H L × ℕ)
  unfolding put_group
  new_group name m hp (panic s) = panic s
  new_group name m hp (returns b) =
      put_group name hp.next_group m
        (record hp { groups = put hp.next_group b hp.groups; next_group = hp.next_group + 1 })
        m.groups

  unfoldable pub add_or_new_backend_group :
      String
      → BackendGroupManager
      → Heap E K D H L
      → Outcome (BackendGroupManager × Heap E K D H L × ℕ)
  unfolding new_group new_group_backend
  add_or_new_backend_group name m hp =
      if name == ""
      then panic "BackendGroupManager: the backend group name is empty"
      else elim (lookup name (entries m.groups)) [
        | some g ↦ returns (m, hp, g)
        | none ↦ new_group name m hp (new_group_backend hc name)
      ]

module _ {E K D H L : Type 0} (lb : Balancer E L) (hc : HealthCheck E K D H) where
  -- A call on the group at an address.
  abbrev pub leave : String → ℕ → Heap E K D H L → Heap E K D H L
  leave name g hp =
      let (b, s) = Group.del_updater_by_name lb hc name (hp.groups g) hp.balancers in
      record hp { groups = put g b hp.groups; balancers = s }

  leave_all : String → Dict ℕ → Heap E K D H L → Heap E K D H L
  unfolding Group.del_updater_by_name
  leave_all name [] hp = hp
  leave_all name ((n, g) ∷ gs) hp = leave_all name gs (leave name g hp)

  unfoldable pub del_updater_by_name :
      String → BackendGroupManager → Heap E K D H L → Heap E K D H L
  unfolding leave_all
  del_updater_by_name name m hp = leave_all name (entries m.groups) hp

  -- The loop of `Close`.
  close_groups : Dict ℕ → Heap E K D H L → Heap E K D H L
  unfolding Group.close
  close_groups [] hp = hp
  close_groups ((n, g) ∷ gs) hp =
      let (b, s) = Group.close lb hc (hp.groups g) hp.balancers in
      close_groups gs (record hp { groups = put g b hp.groups; balancers = s })

  unfoldable pub close : BackendGroupManager → Heap E K D H L → BackendGroupManager × Heap E K D H L
  unfolding close_groups
  close m hp = (record m { groups = none }, close_groups (entries m.groups) hp)
