-- ===== src/Lb/GroupManager/Effects.antt =====
-- What the calls on a manager do to its groups and to what it finds by name.
use apigw.Common.{
  String, ◌==◌, if◌then◌else◌, true, ◌&&◌, ℕ, ◌+◌, [], ◌∷◌, none, some, ◌≡◌, refl, ◌≢◌, arith,
  nat_eq, nat_eq_refl, Bool-cases, Option-cases, ◌⊎◌, inl, inr, ==-false_of_ne,
}
use apigw.Dict.{Dict, lookup, insert}
use apigw.Dict.Laws.{lookup-insert, lookup-insert_self}
use apigw.Types.{returns}
use apigw.Lb.{Balancer, HealthCheck, entries}
use apigw.Lb.Updates.{listed}
use apigw.Lb.Group
use apigw.Lb.Group.{GroupBackend, get_updater_by_name}
use apigw.Lb.Group.Updaters.{updater-del_updater_by_name}
use apigw.Lb.Heap.{Heap, put}
use apigw.Lb.GroupManager.{
  BackendGroupManager, informing, get_backend_groups_by_updater_name, leave, leave_all,
  del_updater_by_name, get_backend_group_by_name, add_or_new_backend_group, new_group, put_group,
}

module _ {E K D H L : Type 0} (lb : Balancer E L) (hc : HealthCheck E K D H) where
  updater-leave :
      (j n : String) (g a : ℕ) (hp : Heap E K D H L)
      → get_updater_by_name j ((leave lb hc n g hp).groups a)
        ≡ (if nat_eq g a && (n == j) then none else get_updater_by_name j (hp.groups a))
  updater-leave j n g a hp = elim (Bool-cases (nat_eq g a)) [
    | inl same ↦
        let e : g ≡ a = ground arith in
        rw same (rw (← e) (updater-del_updater_by_name lb hc j n (hp.groups g) hp.balancers))
    | inr other ↦ rw other refl
  ]

  updater-leave_all :
      (j n : String) (gs : Dict ℕ) (a : ℕ) (hp : Heap E K D H L)
      → get_updater_by_name j ((leave_all lb hc n gs hp).groups a)
        ≡ (if listed a gs && (n == j) then none else get_updater_by_name j (hp.groups a))
  unfolding leave_all
  updater-leave_all j n [] a hp = refl
  updater-leave_all j n ((m, g) ∷ gs) a hp =
      ground (arith, updater-leave j n g a hp, updater-leave_all j n gs a (leave lb hc n g hp))

module _ {E K D H L : Type 0} where
  informing_nobody :
      (j : String) (gs : Dict ℕ) (hp : Heap E K D H L)
      → ((a : ℕ) → listed a gs ≡ true → get_updater_by_name j (hp.groups a) ≡ none)
      → informing j gs hp ≡ []
  unfolding informing
  informing_nobody j [] hp out = refl
  informing_nobody j ((n, g) ∷ gs) hp out =
      rw (out g (ground arith)) (informing_nobody j gs hp (λ a there. out a (ground arith)))

  informing_same :
      (j : String) (gs : Dict ℕ) (hp hp' : Heap E K D H L)
      → ((a : ℕ) → get_updater_by_name j (hp'.groups a) ≡ get_updater_by_name j (hp.groups a))
      → informing j gs hp' ≡ informing j gs hp
  unfolding informing
  informing_same j [] hp hp' same = refl
  informing_same j ((n, g) ∷ gs) hp hp' same = rw (same g, informing_same j gs hp hp' same) refl

module _ {E K D H L : Type 0} (lb : Balancer E L) (hc : HealthCheck E K D H) where
  -- After `DelUpdaterByName` of the manager no group of the manager informs an updater of the name;
  -- the groups that inform an updater of another name are those that did before.
  pub groups_by_updater-del_updater_by_name :
      (n j : String) (m : BackendGroupManager) (hp : Heap E K D H L)
      → get_backend_groups_by_updater_name j m (del_updater_by_name lb hc n m hp)
        ≡ (if n == j then [] else get_backend_groups_by_updater_name j m hp)
  unfolding get_backend_groups_by_updater_name del_updater_by_name
  groups_by_updater-del_updater_by_name n j m hp =
      let gs = entries m.groups in
      let after = updater-leave_all lb hc j n gs in
      elim (Bool-cases (n == j)) [
        | inl same ↦ rw same (
            informing_nobody j gs (leave_all lb hc n gs hp) (λ a there. ground (arith, after a hp)))
        | inr other ↦
            rw other
              (informing_same j gs hp (leave_all lb hc n gs hp) (λ a. ground (arith, after a hp)))
      ]

  -- On a manager that is not closed, `AddOrNewBackendGroup` of a name returns a group that the
  -- manager then finds under the name: the one that it had, with nothing changed, or a new, empty
  -- one of that name at an address that no group had, in which case other names and other groups
  -- stay. Called again it returns the same group and changes nothing.
  pub add_or_new_backend_group_lem :
      (name : String) (m : BackendGroupManager) (hp : Heap E K D H L) (gs : Dict ℕ)
      → name ≢ ""
      → m.groups ≡ some gs
      → (m' : BackendGroupManager) × (hp' : Heap E K D H L) × (g : ℕ) × (add_or_new_backend_group hc
            name m hp
          ≡ returns (m', hp', g))
        × (add_or_new_backend_group hc name m' hp' ≡ returns (m', hp', g))
        × (get_backend_group_by_name name m' ≡ some g)
        × (((m' ≡ m) × (hp' ≡ hp))
            ⊎ ((g ≡ hp.next_group)
                × ((hp'.groups g).name ≡ name)
                × ((hp'.groups g).backends ≡ some [])
                × ((j : String)
                    → get_backend_group_by_name j m'
                      ≡ (if name == j then some g else get_backend_group_by_name j m))
                × ((a : ℕ) → hp'.groups a ≡ (if nat_eq g a then hp'.groups g else hp.groups a))))
  unfolding add_or_new_backend_group new_group put_group get_backend_group_by_name
  add_or_new_backend_group_lem name m hp gs ne opened = elim (Option-cases (lookup name gs)) [
    | inl missing ↦
        let filled = ==-false_of_ne name "" ne in
        let b : GroupBackend E K D H = record {
          checker = hc.new;
          name = name;
          backends = some [];
          updaters = some [];
        } in
        let a = hp.next_group in
        let hp' : Heap E K D H L = record hp { groups = put a b hp.groups; next_group = a + 1 } in
        let m' : BackendGroupManager = record m { groups = some (insert name a gs) } in
        let same = nat_eq_refl hp.next_group in
        (
          m',
          hp',
          a,
          rw
              (
                filled, opened, missing, new_group, Group.new_group_backend, filled, opened,
                put_group,
              )
              refl,
          rw (filled, lookup-insert_self name a gs) refl,
          lookup-insert_self name a gs,
          inr (
            refl,
            rw same refl,
            rw same refl,
            λ j. rw opened (lookup-insert name j a gs),
            λ c. rw same refl,
          ),
        )
    | inr (g, found) ↦
        let there : lookup name (entries m.groups) ≡ some g = rw opened found in
        let again : add_or_new_backend_group hc name m hp ≡ returns (m, hp, g) =
          rw (==-false_of_ne name "" ne, there) refl in
        (m, hp, g, again, again, there, inl (refl, refl))
  ]
