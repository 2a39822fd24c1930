-- ===== src/Lb/Forwarder/Members.antt =====
-- A forwarder that leaves groups keeps its groups and their updaters in agreement.
use apigw.Common.{
  String, ◌==◌, eq_iff, eq_refl, if◌then◌else◌, ℕ, Bool, true, false, [], ◌∷◌, Option, none, some,
  ◌≡◌, refl, nat_eq, nat_eq_refl, arith, subst, ap, sym, ◌∙◌, Bool-cases, inl, inr, ◌&&◌,
}
use apigw.Dict.{Dict, lookup, delete}
use apigw.Dict.Laws.{lookup-delete}
use apigw.Types.{Err}
use apigw.Lb.{Backend, endpoint, group, BackendInfo, Balancer, HealthCheck, entries}
use apigw.Lb.Group
use apigw.Lb.Group.{GroupBackend, get_updater_by_name}
use apigw.Lb.Group.Kept.{del_updater_by_name-HasNoMore}
use apigw.Lb.Heap.{Heap, Forwarder, put}
use apigw.Lb.Membership.{
  is_group_at, holds_group, IsMutual, IsMutual-SameMembers, put-same, InformsNoMore,
  InformsNoMore-refl, InformsNoMore-trans, InformsNoMore-put,
}
use apigw.Lb.Forwarder.{leave_group, leave_backend, leave_groups, part_with, del_backend, close}
use apigw.Lb.Forwarder.Closing.{has_joined, updater-leave_groups, updater-leave_backend}

module _ {E K D H L : Type 0} where
  -- The heap after the backends of the forwarder at `f` have been replaced.
  abbrev pub with_backends : ℕ → Option (Dict (BackendInfo E K D)) → Heap E K D H L → Heap E K D H L
  with_backends f bs hp = record hp {
    forwarders = put f (record (hp.forwarders f) { backends = bs }) hp.forwarders;
  }

  -- The groups that still inform `f` after its backends have been replaced are among the new ones.
  abbrev pub Keeps : ℕ → Dict (BackendInfo E K D) → Heap E K D H L → Heap E K D H L → Type 0
  Keeps f bs hp h =
      (a : ℕ)
      → get_updater_by_name (hp.forwarders f).name (h.groups a) ≡ some f
      → holds_group a (lookup (hp.groups a).name (entries (hp.forwarders f).backends)) ≡ true
      → holds_group a (lookup (hp.groups a).name bs) ≡ true

  pub IsMutual-with_backends :
      (f : ℕ) (bs : Option (Dict (BackendInfo E K D))) (hp h : Heap E K D H L)
      → IsMutual hp
      → InformsNoMore (with_backends f bs hp) h
      → Keeps f (entries bs) hp h
      → IsMutual h
  IsMutual-with_backends f bs hp h each v keeps n a u e =
      let (e', same) = v.updaters n a u e in
      let (named, there) = each n a u e' in
      let forwarder : (with_backends f bs hp).forwarders u ≡ h.forwarders u =
        ap (λ (fs : ℕ → Forwarder E K D H). fs u) (sym v.forwarders) in
      let held : (n ≡ ((with_backends f bs hp).forwarders u).name)
          × (holds_group a (
                lookup (hp.groups a).name (entries ((with_backends f bs hp).forwarders u).backends))
              ≡ true) =
        at (nat_eq f u) refl e named there in
      subst
        (λ (w : Forwarder E K D H).
          (n ≡ w.name) × (holds_group a (lookup (h.groups a).name (entries w.backends)) ≡ true))
        forwarder
        (
          held.0,
          subst
              (λ name.
                holds_group a
                  (lookup name (entries ((with_backends f bs hp).forwarders u).backends))
                ≡ true)
              (sym same) held.1,
        )
    where
      at :
          (hit : Bool)
          → nat_eq f u ≡ hit
          → get_updater_by_name n (h.groups a) ≡ some u
          → n ≡ (hp.forwarders u).name
          → holds_group a (lookup (hp.groups a).name (entries (hp.forwarders u).backends)) ≡ true
          → let w : Forwarder E K D H =
              if hit then record (hp.forwarders f) { backends = bs } else hp.forwarders u in
            (n ≡ w.name) × (holds_group a (lookup (hp.groups a).name (entries w.backends)) ≡ true)
      at true hit e named there =
          let same : f ≡ u = ground arith in
          let who : n ≡ (hp.forwarders f).name =
            subst (λ u. n ≡ (hp.forwarders u).name) (sym same) named in
          (
            who,
            keeps a
                (subst (λ n. get_updater_by_name n (h.groups a) ≡ some f) who
                  (subst (λ u. get_updater_by_name n (h.groups a) ≡ some u) (sym same) e))
                (subst
                  (λ u.
                    holds_group a (lookup (hp.groups a).name (entries (hp.forwarders u).backends))
                    ≡ true)
                  (sym same) there),
          )
      at false miss e named there = (named, there)

module _ {E K D H L : Type 0} (lb : Balancer E L) (hc : HealthCheck E K D H) where
  leave_group-InformsNoMore :
      (f g : ℕ) (hp : Heap E K D H L) → InformsNoMore hp (leave_group lb hc f g hp)
  unfolding leave_group
  leave_group-InformsNoMore f g hp =
      let name = (hp.forwarders f).name in
      let t = Group.del_updater_by_name lb hc name (hp.groups g) hp.balancers in
      InformsNoMore-put g t.0 t.1 hp
        (del_updater_by_name-HasNoMore lb hc name (hp.groups g) hp.balancers)

  leave_backend-InformsNoMore :
      (f : ℕ) (e : Backend E) (hp : Heap E K D H L) → InformsNoMore hp (leave_backend lb hc f e hp)
  unfolding leave_backend
  leave_backend-InformsNoMore f (endpoint i e) hp = InformsNoMore-refl hp
  leave_backend-InformsNoMore f (group name g) hp = leave_group-InformsNoMore f g hp

  leave_groups-InformsNoMore :
      (f : ℕ) (bs : Dict (BackendInfo E K D)) (hp : Heap E K D H L)
      → InformsNoMore hp (leave_groups lb hc f bs hp)
  unfolding leave_groups
  leave_groups-InformsNoMore f [] hp = InformsNoMore-refl hp
  leave_groups-InformsNoMore f ((id, info) ∷ bs) hp =
      let hp' = leave_backend lb hc f info.backend hp in
      InformsNoMore-trans hp hp' (leave_groups lb hc f bs hp')
        (leave_backend-InformsNoMore f info.backend hp) (leave_groups-InformsNoMore f bs hp')

  updater-leave_group :
      (j : String) (f g a : ℕ) (hp : Heap E K D H L)
      → get_updater_by_name j ((leave_group lb hc f g hp).groups a) ≡ (
          if nat_eq g a && ((hp.forwarders f).name == j)
          then none
          else get_updater_by_name j (hp.groups a))
  unfolding leave_backend
  updater-leave_group j f g a hp = updater-leave_backend lb hc j f a (group "" g) hp

  part_with-InformsNoMore :
      (f : ℕ) (id : String) (e : Backend E) (hp : Heap E K D H L)
      → InformsNoMore hp (part_with lb hc f id e hp)
  unfolding part_with
  part_with-InformsNoMore f id (group name g) hp = leave_group-InformsNoMore f g hp
  part_with-InformsNoMore f id (endpoint i e) hp = record {
    forwarders = refl;
    updaters = λ n a u e. (e, refl);
  }

  abbrev left : (f : ℕ) (id : String) (hp : Heap E K D H L) → Dict (BackendInfo E K D)
  left f id hp = delete id (entries (hp.forwarders f).backends)

  -- A group that is under the id informs the forwarder no longer.
  part_with-gone :
      (f a : ℕ) (id : String) (e : Backend E) (hp : Heap E K D H L)
      → let h = part_with lb hc f id e (with_backends f (some (left f id hp)) hp) in
        get_updater_by_name (hp.forwarders f).name (h.groups a) ≡ some f
        → is_group_at a e ≡ true
        → ⊥
  unfolding part_with
  part_with-gone f a id (endpoint i e) hp informed is_it = cc (is_it)
  part_with-gone f a id (group name g) hp informed is_it =
      let gone =
        updater-leave_group (hp.forwarders f).name f g a
          (with_backends f (some (left f id hp)) hp) in
      let no : none ≡ some f =
        rw (is_it, nat_eq_refl f, eq_refl (hp.forwarders f).name) at (sym gone ∙ informed) in
      cc (no)

  part_with-Keeps :
      (f : ℕ) (id : String) (info : BackendInfo E K D) (hp : Heap E K D H L)
      → lookup id (entries (hp.forwarders f).backends) ≡ some info
      → Keeps f
          (left f id hp)
          hp
          (part_with lb hc f id info.backend (with_backends f (some (left f id hp)) hp))
  part_with-Keeps f id info hp found a informed there =
      elim (Bool-cases (id == (hp.groups a).name)) [
        | inl hit ↦
            let same = (eq_iff id (hp.groups a).name).0 hit in
            let is_it : is_group_at a info.backend ≡ true = rw (← same, found) at there in
            absurd (part_with-gone f a id info.backend hp informed is_it)
        | inr miss ↦
            rw (lookup-delete id (hp.groups a).name (entries (hp.forwarders f).backends), miss)
              there
      ]

  pub del_backend-IsMutual :
      (f : ℕ) (id : String) (hp : Heap E K D H L)
      → IsMutual hp
      → IsMutual (del_backend lb hc f id hp)
  unfolding del_backend
  del_backend-IsMutual f id hp each = at (lookup id (entries (hp.forwarders f).backends)) refl
    where
      at :
          (o : Option (BackendInfo E K D))
          → lookup id (entries (hp.forwarders f).backends) ≡ o
          → IsMutual (del_backend lb hc f id hp)
      at none missing =
          let same : del_backend lb hc f id hp ≡ hp = rw (del_backend, missing) refl in
          subst IsMutual (sym same) each
      at (some info) found =
          let h = part_with lb hc f id info.backend (with_backends f (some (left f id hp)) hp) in
          let parted : del_backend lb hc f id hp ≡ h = rw (del_backend, found) refl in
          subst IsMutual (sym parted) (
            IsMutual-with_backends f (some (left f id hp)) hp h each
              (part_with-InformsNoMore f id info.backend (with_backends f (some (left f id hp)) hp))
              (part_with-Keeps f id info hp found))

  holds_group-has_joined :
      (a : ℕ) (name : String) (bs : Dict (BackendInfo E K D))
      → holds_group a (lookup name bs) ≡ true
      → has_joined a bs ≡ true
  unfolding lookup
  holds_group-has_joined a name [] there = there
  holds_group-has_joined a name ((id, info) ∷ bs) there =
      ground (arith, holds_group-has_joined a name bs)

  close-Keeps :
      (f : ℕ) (hp : Heap E K D H L)
      → let bs = entries (hp.forwarders f).backends in
        Keeps f [] hp (leave_groups lb hc f bs (with_backends f none hp))
  close-Keeps f hp a informed there =
      let bs = entries (hp.forwarders f).backends in
      let gone =
        updater-leave_groups lb hc (hp.forwarders f).name f a bs (with_backends f none hp) in
      let joined = holds_group-has_joined a (hp.groups a).name bs there in
      let no : none ≡ some f =
        rw (joined, nat_eq_refl f, eq_refl (hp.forwarders f).name) at (sym gone ∙ informed) in
      cc (no)

  pub close-IsMutual :
      (close_balancer : L → L × Option Err) (f : ℕ) (hp : Heap E K D H L)
      → IsMutual hp
      → IsMutual (close lb hc close_balancer f hp).0
  unfolding close
  close-IsMutual close_balancer f hp each =
      let bs = entries (hp.forwarders f).backends in
      let hp' = leave_groups lb hc f bs (with_backends f none hp) in
      IsMutual-SameMembers hp' (close lb hc close_balancer f hp).0
        (record {
          groups = refl;
          forwarders =
              put-same f
                (record (hp'.forwarders f) { checker = hc.stop (hp'.forwarders f).checker })
                hp'.forwarders refl refl;
        })
        (IsMutual-with_backends f none hp hp' each
          (leave_groups-InformsNoMore f bs (with_backends f none hp)) (close-Keeps f hp))
