-- ===== src/Lb/Forwarder/Endpoints.antt =====
-- The calls on a forwarder and the endpoints of the load balancers.
pub mod Adding
use apigw.Common.{
  String, ◌==◌, eq_iff, if◌then◌else◌, ℕ, Bool, true, false, [], ◌∷◌, Option, none, some, is_some,
  ◌≡◌, refl, nat_eq, nat_eq_refl, arith, subst, ap, sym, ◌∙◌, Bool-cases, Option-cases, ◌⊎◌, inl,
  inr, ◌&&◌,
}
use apigw.Dict.{Dict, lookup, insert, delete}
use apigw.Dict.Laws.{lookup-insert, lookup-delete, lookup-insert_self}
use apigw.Types.{Outcome, returns, panic, ◌>>=◌, Err}
use apigw.Lb.{
  Backend, endpoint, group, backend_id, BackendInfo, Balancer, BalancerLaws, HealthCheck, Balancers,
  entries, add_backend, del_backend_by_id,
}
use apigw.Lb.Updates.{has-add_backend, has-del_backend_by_id}
use apigw.Lb.Group
use apigw.Lb.Group.{GroupBackend, get_updater_by_name}
use apigw.Lb.Group.Accounts.{Gives}
use apigw.Lb.Group.Accounts.Adding.{add_updater-StaysTidy}
use apigw.Lb.Group.Accounts.Removing.{del_updater_by_name-StaysTidy}
use apigw.Lb.Heap.{Heap, Forwarder, put}
use apigw.Lb.Endpoints.{is_single, IsFounded, IsAccounted, IsAccounted-put, IsAccounted-forwarder}
use apigw.Lb.Forwarder.{
  leave_group, leave_backend, leave_groups, part_with, del_backend, close, store_info, add_new,
  add_backend_info, join_group, add_group_info, add_backend_group, add_backend_with_checker,
}
use apigw.Lb.Forwarder.Closing.{leave_groups-forwarders}
use apigw.Lb.Forwarder.Members.{with_backends}

module _ {E K D H L : Type 0} (lb : Balancer E L) (laws : BalancerLaws lb)
    (hc : HealthCheck E K D H) where
  leave_group-IsAccounted :
      (f g : ℕ) (hp : Heap E K D H L)
      → IsAccounted lb hp
      → IsAccounted lb (leave_group lb hc f g hp)
  unfolding leave_group
  leave_group-IsAccounted f g hp v =
      let name = (hp.forwarders f).name in
      IsAccounted-put lb g (Group.del_updater_by_name lb hc name (hp.groups g) hp.balancers) hp
        (del_updater_by_name-StaysTidy lb laws hc name (hp.groups g) hp.balancers (v.tidy g)) v

  leave_backend-IsAccounted :
      (f : ℕ) (e : Backend E) (hp : Heap E K D H L)
      → IsAccounted lb hp
      → IsAccounted lb (leave_backend lb hc f e hp)
  unfolding leave_backend
  leave_backend-IsAccounted f (endpoint i e) hp v = v
  leave_backend-IsAccounted f (group name g) hp v = leave_group-IsAccounted f g hp v

  leave_groups-IsAccounted :
      (f : ℕ) (bs : Dict (BackendInfo E K D)) (hp : Heap E K D H L)
      → IsAccounted lb hp
      → IsAccounted lb (leave_groups lb hc f bs hp)
  unfolding leave_groups
  leave_groups-IsAccounted f [] hp v = v
  leave_groups-IsAccounted f ((id, info) ∷ bs) hp v =
      leave_groups-IsAccounted f bs (leave_backend lb hc f info.backend hp)
        (leave_backend-IsAccounted f info.backend hp v)

  -- The load balancer of a closed forwarder may keep endpoints.
  pub close-IsAccounted :
      (close_balancer : L → L × Option Err) (f : ℕ) (hp : Heap E K D H L)
      → IsAccounted lb hp
      → IsAccounted lb (close lb hc close_balancer f hp).0
  unfolding close
  close-IsAccounted close_balancer f hp v =
      let bs = entries (hp.forwarders f).backends in
      let hp' = leave_groups lb hc f bs (with_backends f none hp) in
      let shut : is_some (hp'.forwarders f).backends ≡ false =
        rw (leave_groups-forwarders lb hc f bs (with_backends f none hp), nat_eq_refl f) refl in
      IsAccounted-forwarder lb f
        (record (hp'.forwarders f) { checker = hc.stop (hp'.forwarders f).checker })
        (put f (close_balancer (hp'.balancers f)).0 hp'.balancers) hp'
        (λ u j other there. rw other at there)
        (λ j is_open there. (let no : false ≡ true = rw shut at is_open in cc (no)))
        (leave_groups-IsAccounted f bs (with_backends f none hp) (
          IsAccounted-forwarder lb f (record (hp.forwarders f) { backends = none }) hp.balancers hp
            (λ u j other there. there) (λ j is_open there. cc (is_open)) v))

  -- The backends of a forwarder after one of them is deleted.
  abbrev left : ℕ → String → Heap E K D H L → Forwarder E K D H
  left f id hp = record (hp.forwarders f) {
    backends = some (delete id (entries (hp.forwarders f).backends));
  }

  part_with-IsAccounted :
      (f : ℕ) (id : String) (e : Backend E) (info : BackendInfo E K D) (hp : Heap E K D H L)
      → lookup id (entries (hp.forwarders f).backends) ≡ some info
      → info.backend ≡ e
      → is_some (hp.forwarders f).backends ≡ true
      → IsAccounted lb hp
      → IsAccounted lb
          (part_with lb hc f id e (record hp { forwarders = put f (left f id hp) hp.forwarders }))
  unfolding part_with
  part_with-IsAccounted f id (endpoint i e) info hp found its opened v =
      IsAccounted-forwarder lb f (left f id hp) (del_backend_by_id lb f id hp.balancers) hp
        (λ u j other there. ground (arith, has-del_backend_by_id lb laws f u id j hp.balancers))
        (λ j is_open there.
          let told = has-del_backend_by_id lb laws f f id j hp.balancers in
          let differs : (id == j) ≡ false = ground (arith, told, nat_eq_refl f) in
          let before : lb.has_endpoint j (hp.balancers f) ≡ true = ground (arith, told) in
          elim (v.founded f j opened before) [
            | inl own ↦
                inl (rw (lookup-delete id j (entries (hp.forwarders f).backends), differs) own)
            | inr given ↦ inr given
          ])
        v
  part_with-IsAccounted f id (group name g) info hp found its opened v =
      leave_group-IsAccounted f g (record hp { forwarders = put f (left f id hp) hp.forwarders })
        (IsAccounted-forwarder lb f (left f id hp) hp.balancers hp (λ u j other there. there)
          (λ j is_open there. elim (v.founded f j opened there) [
            | inr given ↦ inr given
            | inl own ↦ inl (
                rw (lookup-delete id j (entries (hp.forwarders f).backends))
                  (kept j own (id == j) refl))
          ])
          v)
    where
      kept :
          (j : String)
          → is_single (lookup j (entries (hp.forwarders f).backends)) ≡ true
          → (hit : Bool) → (id == j) ≡ hit
          → is_single (if hit then none else lookup j (entries (hp.forwarders f).backends)) ≡ true
      kept j own false miss = own
      kept j own true hit =
          let same : id ≡ j = (eq_iff id j).0 hit in
          let no : false ≡ true = rw (← same, found, its) at own in cc (no)

  pub del_backend-IsAccounted :
      (f : ℕ) (id : String) (hp : Heap E K D H L)
      → IsAccounted lb hp
      → IsAccounted lb (del_backend lb hc f id hp)
  unfolding del_backend lookup
  del_backend-IsAccounted f id hp v = at (lookup id (entries (hp.forwarders f).backends)) refl
    where
      opened :
          (o : Option (Dict (BackendInfo E K D))) (info : BackendInfo E K D)
          → lookup id (entries o) ≡ some info
          → is_some o ≡ true
      opened none info found = cc (found)
      opened (some bs) info found = refl

      at :
          (o : Option (BackendInfo E K D))
          → lookup id (entries (hp.forwarders f).backends) ≡ o
          → IsAccounted lb (del_backend lb hc f id hp)
      at none missing =
          let same : del_backend lb hc f id hp ≡ hp = rw (del_backend, missing) refl in
          subst (IsAccounted lb) (sym same) v
      at (some info) found =
          let h =
            part_with lb hc f id info.backend
              (record hp { forwarders = put f (left f id hp) hp.forwarders }) in
          let parted : del_backend lb hc f id hp ≡ h = rw (del_backend, found) refl in
          subst (IsAccounted lb) (sym parted) (
            part_with-IsAccounted f id info.backend info hp found refl
              (opened (hp.forwarders f).backends info found) v)
