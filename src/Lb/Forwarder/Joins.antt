-- ===== src/Lb/Forwarder/Joins.antt =====
-- A forwarder that takes a backend or joins a group keeps its groups and their updaters in agreement.
use apigw.Common.{
  String, ◌==◌, eq_iff, if◌then◌else◌, ℕ, Bool, true, false, Option, none, some, ◌≡◌, refl, nat_eq,
  nat_eq_refl, arith, subst, sym, ◌∙◌, Bool-cases, Option-cases, inl, inr,
}
use apigw.Dict.{Dict, lookup, insert}
use apigw.Dict.Laws.{lookup-insert, lookup-insert_self}
use apigw.Types.{◌>>=◌, Outcome, returns, panic}
use apigw.Lb.{
  add_backend, Backend, endpoint, group, backend_id, BackendInfo, Balancer, HealthCheck, Balancers,
  entries,
}
use apigw.Lb.Group
use apigw.Lb.Group.{GroupBackend, get_updater_by_name}
use apigw.Lb.Group.Kept.{HasOneMore, add_updater-HasOneMore}
use apigw.Lb.Heap.{Heap, Forwarder, put}
use apigw.Lb.Membership.{
  holds_group, is_member, IsNamed, IsMutual, SameMembers, IsMutual-SameMembers, put-same,
  InformsNoMore-refl,
}
use apigw.Lb.Forwarder.{
  store_info, add_new, add_backend_info, join_group, add_group_info, add_backend_group,
  add_backend_with_checker,
}
use apigw.Lb.Forwarder.Members.{with_backends, Keeps, IsMutual-with_backends}

module _ {E K D H L : Type 0} (lb : Balancer E L) (hc : HealthCheck E K D H) where
  new_id-Keeps :
      (f : ℕ) (id : String) (info : BackendInfo E K D) (bs : Dict (BackendInfo E K D))
      (hp h : Heap E K D H L)
      → (hp.forwarders f).backends ≡ some bs
      → lookup id bs ≡ none
      → Keeps f (insert id info bs) hp h
  new_id-Keeps f id info bs hp h opened missing a informed there =
      elim (Bool-cases (id == (hp.groups a).name)) [
        | inl hit ↦
            let same = (eq_iff id (hp.groups a).name).0 hit in
            let no : false ≡ true = rw (opened, ← same, missing) at there in cc (no)
        | inr miss ↦ rw (lookup-insert id (hp.groups a).name info bs, miss) (rw opened at there)
      ]

  with_new-IsMutual :
      (f : ℕ) (id : String) (info : BackendInfo E K D) (bs : Dict (BackendInfo E K D))
      (hp : Heap E K D H L)
      → (hp.forwarders f).backends ≡ some bs
      → lookup id bs ≡ none
      → IsMutual hp
      → IsMutual (with_backends f (some (insert id info bs)) hp)
  with_new-IsMutual f id info bs hp opened missing each =
      let h = with_backends f (some (insert id info bs)) hp in
      IsMutual-with_backends f (some (insert id info bs)) hp h each (InformsNoMore-refl h)
        (new_id-Keeps f id info bs hp h opened missing)

  -- What a call that may panic leaves.
  abbrev LeavesMutual : Outcome (Heap E K D H L) → Type 0
  LeavesMutual (panic s) = Unit
  LeavesMutual (returns h) = IsMutual h

  -- A forwarder joins a group that it has under the group's name.
  joined-IsMutual :
      (f g : ℕ) (b : GroupBackend E K D H) (s : Balancers L) (hp : Heap E K D H L)
      → is_member hp g f ≡ true
      → HasOneMore (hp.forwarders f).name f (hp.groups g) b
      → IsMutual hp
      → IsMutual (record hp { groups = put g b hp.groups; balancers = s })
  joined-IsMutual f g b s hp member v each n a u = at (nat_eq g a) refl
    where
      at :
          (hit : Bool)
          → nat_eq g a ≡ hit
          → get_updater_by_name n (if hit then b else hp.groups a) ≡ some u
          → (n ≡ (hp.forwarders u).name)
            × (holds_group a (
                  lookup (if hit then b else hp.groups a).name (entries (hp.forwarders u).backends))
                ≡ true)
      at false miss e = each n a u e
      at true hit e =
          let same : g ≡ a = ground arith in
          elim (v.updaters n u e) [
            | inl before ↦ rw (v.same_name, ← same) (each n g u before)
            | inr (named, self) ↦ rw (v.same_name, ← same, ← self) (sym named, member)
          ]

  join_group-LeavesMutual :
      (f g : ℕ) (hp : Heap E K D H L)
      → is_member hp g f ≡ true
      → IsMutual hp
      → LeavesMutual (join_group lb hc f g hp)
  unfolding join_group
  join_group-LeavesMutual f g hp member each =
      at (Group.add_updater lb hc (hp.forwarders f).name f (hp.groups g) hp.balancers) refl
    where
      at :
          (o : Outcome (GroupBackend E K D H × Balancers L))
          → Group.add_updater lb hc (hp.forwarders f).name f (hp.groups g) hp.balancers ≡ o
          → LeavesMutual
              (do t ← o; returns (record hp { groups = put g t.0 hp.groups; balancers = t.1 }))
      at (panic s) e = tt
      at (returns (b, s)) e =
          joined-IsMutual f g b s hp member
            (add_updater-HasOneMore lb hc (hp.forwarders f).name f (hp.groups g) b hp.balancers s e)
            each

  -- What adding a backend leaves; the flag tells whether it is new.
  abbrev Added : ℕ → Backend E → Heap E K D H L → Outcome (Heap E K D H L × Bool) → Type 0
  Added f e hp (panic s) = Unit
  Added f e hp (returns (h, false)) = IsMutual h
  Added f e hp (returns (h, true)) =
      IsMutual h
      × (h.groups ≡ hp.groups)
      × ((h.forwarders f).name ≡ (hp.forwarders f).name)
      × ((info : BackendInfo E K D) × (lookup (backend_id e) (entries (h.forwarders f).backends)
            ≡ some info)
          × (info.backend ≡ e))

  store_info-Added :
      (f : ℕ) (e : Backend E) (info : BackendInfo E K D) (hp h : Heap E K D H L)
      (bs : Option (Dict (BackendInfo E K D)))
      → info.backend ≡ e
      → SameMembers hp h
      → lookup (backend_id e) (entries (hp.forwarders f).backends) ≡ none
      → (h.forwarders f).backends ≡ bs
      → IsMutual hp
      → Added f e hp (do hp' ← store_info lb hc f (backend_id e) info h bs; returns (hp', true))
  unfolding store_info
  store_info-Added f e info hp h none its same missing opened each = tt
  store_info-Added f e info hp h (some bs) its same missing opened each =
      let free : lookup (backend_id e) bs ≡ none =
        rw (sym (same.forwarders f).1 ∙ opened) at missing in
      (
        with_new-IsMutual f (backend_id e) info bs h opened free
            (IsMutual-SameMembers hp h same each),
        same.groups,
        rw (nat_eq_refl f) (same.forwarders f).0,
        (info, rw (nat_eq_refl f) (lookup-insert_self (backend_id e) info bs), its),
      )

  add_new-Added :
      (f : ℕ) (e : Backend E) (is_group : Bool) (k : Option K) (d : D) (hp : Heap E K D H L)
      → lookup (backend_id e) (entries (hp.forwarders f).backends) ≡ none
      → IsMutual hp
      → Added f e hp (do hp' ← add_new lb hc f e is_group k d hp; returns (hp', true))
  unfolding add_new
  add_new-Added f e true k d hp missing each =
      store_info-Added f e (record { online = true; backend = e; checker = k; duration = d }) hp hp
        (hp.forwarders f).backends refl (record { groups = refl; forwarders = λ u. (refl, refl) })
        missing refl each
  add_new-Added f e false none d hp missing each =
      store_info-Added f e (record { online = true; backend = e; checker = none; duration = d }) hp
        (record hp { balancers = add_backend lb f e hp.balancers }) (hp.forwarders f).backends refl
        (record { groups = refl; forwarders = λ u. (refl, refl) }) missing refl each
  add_new-Added f e false (some k) d hp missing each =
      let checking : Forwarder E K D H = record (hp.forwarders f) {
        checker = hc.add_endpoint e k d (hp.forwarders f).checker;
      } in
      store_info-Added f e (record { online = false; backend = e; checker = some k; duration = d })
        hp (record hp { forwarders = put f checking hp.forwarders }) (hp.forwarders f).backends refl
        (record { groups = refl; forwarders = put-same f checking hp.forwarders refl refl }) missing
        (put-same f checking hp.forwarders refl refl f).1 each

  add_backend_info-Added :
      (f : ℕ) (e : Backend E) (is_group : Bool) (k : Option K) (d : D) (hp : Heap E K D H L)
      → IsMutual hp
      → Added f e hp (add_backend_info lb hc f e is_group k d hp)
  unfolding add_backend_info
  add_backend_info-Added f e is_group k d hp each =
      elim (Option-cases (lookup (backend_id e) (entries (hp.forwarders f).backends))) [
        | inl missing ↦
            rw (add_backend_info, missing) (add_new-Added f e is_group k d hp missing each)
        | inr (info, found) ↦ rw (add_backend_info, found) each
      ]

  add_group_info-LeavesMutual :
      (f g : ℕ) (k : Option K) (zero : D) (hp : Heap E K D H L)
      → IsMutual hp
      → LeavesMutual (add_group_info lb hc f (hp.groups g).name g k zero hp)
  unfolding add_group_info backend_id
  add_group_info-LeavesMutual f g k zero hp each =
      at (add_backend_info lb hc f (group (hp.groups g).name g) true k zero hp)
        (add_backend_info-Added f (group (hp.groups g).name g) true k zero hp each)
    where
      at :
          (o : Outcome (Heap E K D H L × Bool))
          → Added f (group (hp.groups g).name g) hp o
          → LeavesMutual (do t ← o; if t.1 then join_group lb hc f g t.0 else returns t.0)
      at (panic s) v = tt
      at (returns (h, false)) v = v
      at (returns (h, true)) (v, same, named, (info, there, its)) =
          join_group-LeavesMutual f g h (rw (same, there, its) (nat_eq_refl g)) v

  pub add_backend_group-IsMutual :
      (f g : ℕ) (zero : D) (hp h : Heap E K D H L)
      → add_backend_group lb hc f (hp.groups g).name g zero hp ≡ returns h
      → IsMutual hp
      → IsMutual h
  unfolding add_backend_group
  add_backend_group-IsMutual f g zero hp h r each =
      subst LeavesMutual r (add_group_info-LeavesMutual f g none zero hp each)

  add_backend_with_checker-LeavesMutual :
      (f : ℕ) (e : Backend E) (k : Option K) (d zero : D) (hp : Heap E K D H L)
      → IsNamed e hp
      → IsMutual hp
      → LeavesMutual (add_backend_with_checker lb hc f e k d zero hp)
  unfolding add_backend_with_checker
  add_backend_with_checker-LeavesMutual f (group name g) k d zero hp named each =
      subst (λ name. LeavesMutual (add_group_info lb hc f name g k zero hp)) (sym named)
        (add_group_info-LeavesMutual f g k zero hp each)
  add_backend_with_checker-LeavesMutual f (endpoint id e) k d zero hp named each =
      at (add_backend_info lb hc f (endpoint id e) false k d hp)
        (add_backend_info-Added f (endpoint id e) false k d hp each)
    where
      at :
          (o : Outcome (Heap E K D H L × Bool))
          → Added f (endpoint id e) hp o
          → LeavesMutual (do t ← o; returns t.0)
      at (panic s) v = tt
      at (returns (h, false)) v = v
      at (returns (h, true)) v = v.0

  pub add_backend_with_checker-IsMutual :
      (f : ℕ) (e : Backend E) (k : Option K) (d zero : D) (hp h : Heap E K D H L)
      → IsNamed e hp
      → add_backend_with_checker lb hc f e k d zero hp ≡ returns h
      → IsMutual hp
      → IsMutual h
  add_backend_with_checker-IsMutual f e k d zero hp h named r each =
      subst LeavesMutual r (add_backend_with_checker-LeavesMutual f e k d zero hp named each)
