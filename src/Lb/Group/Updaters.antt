-- ===== src/Lb/Group/Updaters.antt =====
-- The updaters of a group after `DelUpdaterByName`.
use apigw.Common.{String, ◌==◌, eq_iff, if◌then◌else◌, none, ◌≡◌, arith, Option-cases, inl, inr}
use apigw.Dict.{lookup}
use apigw.Dict.Laws.{lookup-delete}
use apigw.Lb.{Balancer, HealthCheck, Balancers, entries}
use apigw.Lb.Group
use apigw.Lb.Group.{GroupBackend, get_updater_by_name}

module _ {E K D H L : Type 0} (lb : Balancer E L) (hc : HealthCheck E K D H) where
  pub updater-del_updater_by_name :
      (j n : String) (b : GroupBackend E K D H) (s : Balancers L)
      → get_updater_by_name j (Group.del_updater_by_name lb hc n b s).0
        ≡ (if n == j then none else get_updater_by_name j b)
  unfolding Group.del_updater_by_name get_updater_by_name
  updater-del_updater_by_name j n b s = elim (Option-cases (lookup n (entries b.updaters))) [
    | inl missing ↦ rw (Group.del_updater_by_name, missing) (ground (arith, eq_iff n j))
    | inr (u, found) ↦
        rw (Group.del_updater_by_name, found) (lookup-delete n j (entries b.updaters))
  ]
