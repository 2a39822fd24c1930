-- ===== src/Lb/Group/Kept.antt =====
-- The calls on a group that give it no updater.
use apigw.Common.{
  ◌⊎◌, eq_iff, if_intro, Bool, String, ◌==◌, if◌then◌else◌, true, false, ℕ, Option, none, some, ◌≡◌,
  refl, arith, Bool-cases, Option-cases, inl, inr, is_some, subst,
}
use apigw.Dict.Laws.{lookup-insert}
use apigw.Dict.{Dict, lookup, insert, delete, has}
use apigw.Types.{Outcome, returns, panic}
use apigw.Lb.{
  Backend, BackendInfo, backend_id, Balancer, HealthCheck, Balancers, entries, add_to_all,
}
use apigw.Lb.Group
use apigw.Lb.Group.{GroupBackend, get_updater_by_name}
use apigw.Lb.Group.Updaters.{updater-del_updater_by_name}

module _ {E K D H : Type 0} where
  -- The second group has the name of the first and no updater that the first has not.
  pub record HasNoMore (b b' : GroupBackend E K D H) : Type 0 where
    pub same_name : b'.name ≡ b.name
    pub updaters :
        (n : String) (u : ℕ) → get_updater_by_name n b' ≡ some u → get_updater_by_name n b ≡ some u

  pub HasNoMore-same :
      (b b' : GroupBackend E K D H) → b'.name ≡ b.name → b'.updaters ≡ b.updaters → HasNoMore b b'
  unfolding get_updater_by_name
  HasNoMore-same b b' same us = record {
    same_name = same;
    updaters = λ n u e. subst (λ (us : Option (Dict ℕ)). lookup n (entries us) ≡ some u) us e;
  }

  -- The second group has the updaters of the first and perhaps one more, and the same name.
  pub record HasOneMore (n : String) (u : ℕ) (b b' : GroupBackend E K D H) : Type 0 where
    pub same_name : b'.name ≡ b.name
    pub updaters :
        (j : String) (v : ℕ)
        → get_updater_by_name j b' ≡ some v
        → (get_updater_by_name j b ≡ some v) ⊎ ((n ≡ j) × (u ≡ v))

module _ {E K D H L : Type 0} (lb : Balancer E L) (hc : HealthCheck E K D H) where
  pub del_updater_by_name-HasNoMore :
      (n : String) (b : GroupBackend E K D H) (s : Balancers L)
      → HasNoMore b (Group.del_updater_by_name lb hc n b s).0
  unfolding Group.del_updater_by_name
  del_updater_by_name-HasNoMore n b s = record {
    same_name = elim (Option-cases (lookup n (entries b.updaters))) [
      | inl missing ↦ rw (Group.del_updater_by_name, missing) refl
      | inr (u, found) ↦ rw (Group.del_updater_by_name, found) refl
    ];
    updaters = λ j u e. ground (arith, updater-del_updater_by_name lb hc j n b s);
  }

  pub close-HasNoMore :
      (b : GroupBackend E K D H) (s : Balancers L) → HasNoMore b (Group.close lb hc b s).0
  unfolding Group.close get_updater_by_name lookup
  close-HasNoMore b s = record { same_name = refl; updaters = λ n u e. cc (e) }

  pub del_backend-HasNoMore :
      (id : String) (b : GroupBackend E K D H) (s : Balancers L)
      → HasNoMore b (Group.del_backend lb hc id b s).0
  unfolding Group.del_backend Group.uncheck get_updater_by_name
  del_backend-HasNoMore id b s = dropped (lookup id (entries b.backends)) refl
    where
      unchecked :
          (b' : GroupBackend E K D H) (checked : Bool)
          → HasNoMore b b'
          → HasNoMore b (if checked then Group.uncheck lb hc id b' else b')
      unchecked b' true v = record { same_name = v.same_name; updaters = v.updaters }
      unchecked b' false v = v

      dropped :
          (o : Option (BackendInfo E K D))
          → lookup id (entries b.backends) ≡ o
          → HasNoMore b (Group.del_backend lb hc id b s).0
      dropped none e = rw (Group.drop_backend, e) (HasNoMore-same b b refl refl)
      dropped (some info) e =
          rw (Group.drop_backend, e)
            (unchecked (record b { backends = some (delete id (entries b.backends)) })
              (is_some info.checker)
              (HasNoMore-same b (record b { backends = some (delete id (entries b.backends)) }) refl
                refl))

  -- What a call that may panic leaves.
  abbrev LeavesNoMore : GroupBackend E K D H → Outcome (GroupBackend E K D H × Balancers L) → Type 0
  LeavesNoMore b (panic s) = Unit
  LeavesNoMore b (returns t) = HasNoMore b t.0

  store_backend-LeavesNoMore :
      (id : String) (info : BackendInfo E K D) (b b' : GroupBackend E K D H) (s : Balancers L)
      (bs : Option (Dict (BackendInfo E K D)))
      → b'.name ≡ b.name
      → b'.updaters ≡ b.updaters
      → LeavesNoMore b (Group.store_backend lb hc id info b' s bs)
  unfolding Group.store_backend
  store_backend-LeavesNoMore id info b b' s none same us = tt
  store_backend-LeavesNoMore id info b b' s (some bs) same us =
      HasNoMore-same b (record b' { backends = some (insert id info bs) }) same us

  add_new_backend-LeavesNoMore :
      (e : Backend E) (k : Option K) (d : D) (b : GroupBackend E K D H) (s : Balancers L)
      → LeavesNoMore b (Group.add_new_backend lb hc e k d b s)
  unfolding Group.add_new_backend
  add_new_backend-LeavesNoMore e none d b s =
      store_backend-LeavesNoMore (backend_id e)
        (record { online = true; backend = e; checker = none; duration = d }) b b
        (add_to_all lb e (entries b.updaters) s) b.backends refl refl
  add_new_backend-LeavesNoMore e (some k) d b s =
      store_backend-LeavesNoMore (backend_id e)
        (record { online = false; backend = e; checker = some k; duration = d }) b
        (record b { checker = hc.add_endpoint e k d b.checker }) s b.backends refl refl

  pub add_backend_with_checker-HasNoMore :
      (e : Backend E) (k : Option K) (d : D) (b b' : GroupBackend E K D H) (s s' : Balancers L)
      → Group.add_backend_with_checker lb hc e k d b s ≡ returns (b', s')
      → HasNoMore b b'
  unfolding Group.add_backend_with_checker
  add_backend_with_checker-HasNoMore e k d b b' s s' r = subst (LeavesNoMore b) r (
      if_intro (LeavesNoMore b) (has (backend_id e) (entries b.backends))
        (HasNoMore-same b b refl refl) (add_new_backend-LeavesNoMore e k d b s))

  abbrev LeavesOneMore :
      String → ℕ → GroupBackend E K D H → Outcome (GroupBackend E K D H × Balancers L) → Type 0
  LeavesOneMore n u b (panic s) = Unit
  LeavesOneMore n u b (returns t) = HasOneMore n u b t.0

  add_new_updater-LeavesOneMore :
      (n : String) (u : ℕ) (b : GroupBackend E K D H) (s : Balancers L) (us : Option (Dict ℕ))
      → b.updaters ≡ us
      → LeavesOneMore n u b (Group.add_new_updater lb hc n u b s us)
  unfolding Group.add_new_updater get_updater_by_name
  add_new_updater-LeavesOneMore n u b s none e = tt
  add_new_updater-LeavesOneMore n u b s (some us) e = record {
    same_name = refl;
    updaters = λ j v there. elim (Bool-cases (n == j)) [
      | inl hit ↦
          let that : some u ≡ some v = rw (lookup-insert n j u us, hit) at there in
          inr ((eq_iff n j).0 hit, cc (that))
      | inr miss ↦ inl (rw e (rw (lookup-insert n j u us, miss) at there))
    ];
  }

  pub add_updater-HasOneMore :
      (n : String) (u : ℕ) (b b' : GroupBackend E K D H) (s s' : Balancers L)
      → Group.add_updater lb hc n u b s ≡ returns (b', s')
      → HasOneMore n u b b'
  unfolding Group.add_updater
  add_updater-HasOneMore n u b b' s s' r = subst (LeavesOneMore n u b) r (
      if_intro (LeavesOneMore n u b) (has n (entries b.updaters))
        (record { same_name = refl; updaters = λ j v e. inl e })
        (add_new_updater-LeavesOneMore n u b s b.updaters refl))
