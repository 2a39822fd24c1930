-- ===== src/Lb/Forwarder/Endpoints/Adding.antt =====
-- The calls by which a forwarder takes a backend or joins a group, and the endpoints.
use apigw.Common.{
  String, ◌==◌, eq_iff, if◌then◌else◌, ℕ, Bool, true, false, Option, none, some, ◌≡◌, refl, nat_eq,
  arith, subst, Bool-cases, Option-cases, ◌⊎◌, inl, inr, ◌&&◌,
}
use apigw.Dict.{Dict, lookup, insert}
use apigw.Dict.Laws.{lookup-insert, lookup-insert_self}
use apigw.Types.{Outcome, returns, panic, ◌>>=◌}
use apigw.Lb.{
  Backend, endpoint, group, backend_id, BackendInfo, Balancer, BalancerLaws, HealthCheck, Balancers,
  entries, add_backend,
}
use apigw.Lb.Updates.{has-add_backend}
use apigw.Lb.Group
use apigw.Lb.Group.{GroupBackend, get_updater_by_name}
use apigw.Lb.Group.Accounts.Adding.{add_updater-StaysTidy}
use apigw.Lb.Heap.{Heap, Forwarder, put}
use apigw.Lb.Endpoints.{is_single, IsAccounted, IsAccounted-put, IsAccounted-forwarder}
use apigw.Lb.Forwarder.{
  store_info, add_new, add_backend_info, join_group, add_group_info, add_backend_group,
  add_backend_with_checker,
}
use apigw.Lb.Membership.{put-same}

module _ {E K D H L : Type 0} (lb : Balancer E L) (laws : BalancerLaws lb)
    (hc : HealthCheck E K D H) where
  -- What a call that may panic leaves.
  abbrev LeavesAccounted : Outcome (Heap E K D H L) → Type 0
  LeavesAccounted (panic s) = Unit
  LeavesAccounted (returns h) = IsAccounted lb h

  -- `s` are the load balancers before the backend was added to that of `f`.
  store_info-LeavesAccounted :
      (f : ℕ) (id : String) (info : BackendInfo E K D) (s : Balancers L) (h : Heap E K D H L)
      (bs : Option (Dict (BackendInfo E K D)))
      → (h.forwarders f).backends ≡ bs
      → lookup id (entries bs) ≡ none
      → ((v : ℕ) (j : String)
          → lb.has_endpoint j (h.balancers v) ≡ true
          → (lb.has_endpoint j (s v) ≡ true)
            ⊎ ((nat_eq f v ≡ true) × (id ≡ j) × (is_single (some info) ≡ true)))
      → IsAccounted lb (record h { balancers = s })
      → LeavesAccounted (store_info lb hc f id info h bs)
  unfolding store_info
  store_info-LeavesAccounted f id info s h none e free told v = tt
  store_info-LeavesAccounted f id info s h (some bs) e free told v =
      IsAccounted-forwarder lb f (record (h.forwarders f) { backends = some (insert id info bs) })
        h.balancers (record h { balancers = s })
        (λ u j other there. elim (told u j there) [
          | inl before ↦ before
          | inr (same, it, single) ↦ (let no : false ≡ true = rw other at same in cc (no))
        ])
        (λ j is_open there. elim (told f j there) [
          | inr (same, it, single) ↦ inl (rw (← it, lookup-insert_self id info bs) single)
          | inl before ↦ elim (v.founded f j (rw e refl) before) [
            | inr given ↦ inr given
            | inl own ↦ inl (rw (lookup-insert id j info bs) (kept j own (id == j) refl))
          ]
        ])
        v
    where
      kept :
          (j : String)
          → is_single (lookup j (entries (h.forwarders f).backends)) ≡ true
          → (hit : Bool) → (id == j) ≡ hit
          → is_single (if hit then some info else lookup j bs) ≡ true
      kept j own false miss = rw e at own
      kept j own true hit =
          let same : id ≡ j = (eq_iff id j).0 hit in
          let no : false ≡ true = rw (e, ← same, free) at own in cc (no)

  add_new-LeavesAccounted :
      (f : ℕ) (id : String) (e : E) (k : Option K) (d : D) (hp : Heap E K D H L)
      → lookup id (entries (hp.forwarders f).backends) ≡ none
      → IsAccounted lb hp
      → LeavesAccounted (add_new lb hc f (endpoint id e) false k d hp)
  unfolding add_new backend_id
  add_new-LeavesAccounted f id e none d hp free v =
      store_info-LeavesAccounted f id
        (record { online = true; backend = endpoint id e; checker = none; duration = d })
        hp.balancers (record hp { balancers = add_backend lb f (endpoint id e) hp.balancers })
        (hp.forwarders f).backends refl free
        (λ u j there.
          let told = has-add_backend lb laws f u (endpoint id e) j hp.balancers in
          elim (Bool-cases (nat_eq f u && (id == j))) [
            | inl new ↦ inr (ground arith, ground (arith, eq_iff id j), refl)
            | inr old ↦ inl (ground (arith, told))
          ])
        v
  add_new-LeavesAccounted f id e (some k) d hp free v =
      let checking : Forwarder E K D H = record (hp.forwarders f) {
        checker = hc.add_endpoint (endpoint id e) k d (hp.forwarders f).checker;
      } in
      store_info-LeavesAccounted f id
        (record { online = false; backend = endpoint id e; checker = some k; duration = d })
        hp.balancers (record hp { forwarders = put f checking hp.forwarders })
        (hp.forwarders f).backends (put-same f checking hp.forwarders refl refl f).1 free
        (λ u j there. inl there)
        (IsAccounted-forwarder lb f checking hp.balancers hp (λ u j other there. there)
          (λ j is_open there. v.founded f j is_open there) v)

  add_new_group-LeavesAccounted :
      (f g : ℕ) (name : String) (k : Option K) (d : D) (hp : Heap E K D H L)
      → lookup name (entries (hp.forwarders f).backends) ≡ none
      → IsAccounted lb hp
      → LeavesAccounted (add_new lb hc f (group name g) true k d hp)
  unfolding add_new backend_id
  add_new_group-LeavesAccounted f g name k d hp free v =
      store_info-LeavesAccounted f name
        (record { online = true; backend = group name g; checker = k; duration = d }) hp.balancers
        hp (hp.forwarders f).backends refl free (λ u j there. inl there) v

  join_group-LeavesAccounted :
      (f g : ℕ) (hp : Heap E K D H L)
      → IsAccounted lb hp
      → LeavesAccounted (join_group lb hc f g hp)
  unfolding join_group
  join_group-LeavesAccounted f g hp v =
      at (Group.add_updater lb hc (hp.forwarders f).name f (hp.groups g) hp.balancers) refl
    where
      at :
          (o : Outcome (GroupBackend E K D H × Balancers L))
          → Group.add_updater lb hc (hp.forwarders f).name f (hp.groups g) hp.balancers ≡ o
          → LeavesAccounted
              (do t ← o; returns (record hp { groups = put g t.0 hp.groups; balancers = t.1 }))
      at (panic m) e = tt
      at (returns (b, s)) e =
          IsAccounted-put lb g (b, s) hp
            (add_updater-StaysTidy lb laws hc (hp.forwarders f).name f (hp.groups g) b hp.balancers
              s e (v.tidy g))
            v

  -- What `addBackend` leaves, with the flag that it returns.
  abbrev AddsAccounted : Outcome (Heap E K D H L × Bool) → Type 0
  AddsAccounted (panic s) = Unit
  AddsAccounted (returns t) = IsAccounted lb t.0

  flagged-AddsAccounted :
      (o : Outcome (Heap E K D H L))
      → LeavesAccounted o
      → AddsAccounted (do h ← o; returns (h, true))
  flagged-AddsAccounted (panic s) v = v
  flagged-AddsAccounted (returns h) v = v

  add_backend_info-AddsAccounted :
      (f : ℕ) (e : Backend E) (is_group : Bool) (k : Option K) (d : D) (hp : Heap E K D H L)
      → (lookup (backend_id e) (entries (hp.forwarders f).backends) ≡ none
          → LeavesAccounted (add_new lb hc f e is_group k d hp))
      → IsAccounted lb hp
      → AddsAccounted (add_backend_info lb hc f e is_group k d hp)
  unfolding add_backend_info
  add_backend_info-AddsAccounted f e is_group k d hp adds v =
      elim (Option-cases (lookup (backend_id e) (entries (hp.forwarders f).backends))) [
        | inl free ↦
            rw (add_backend_info, free)
              (flagged-AddsAccounted (add_new lb hc f e is_group k d hp) (adds free))
        | inr (info, found) ↦ rw (add_backend_info, found) v
      ]

  add_group_info-LeavesAccounted :
      (f g : ℕ) (name : String) (k : Option K) (zero : D) (hp : Heap E K D H L)
      → IsAccounted lb hp
      → LeavesAccounted (add_group_info lb hc f name g k zero hp)
  unfolding add_group_info backend_id
  add_group_info-LeavesAccounted f g name k zero hp v =
      at (add_backend_info lb hc f (group name g) true k zero hp) (
        add_backend_info-AddsAccounted f (group name g) true k zero hp
          (λ free. add_new_group-LeavesAccounted f g name k zero hp free v) v)
    where
      at :
          (o : Outcome (Heap E K D H L × Bool))
          → AddsAccounted o
          → LeavesAccounted (do t ← o; if t.1 then join_group lb hc f g t.0 else returns t.0)
      at (panic s) w = tt
      at (returns (h, false)) w = w
      at (returns (h, true)) w = join_group-LeavesAccounted f g h w

  pub add_backend_group-IsAccounted :
      (f g : ℕ) (name : String) (zero : D) (hp h : Heap E K D H L)
      → add_backend_group lb hc f name g zero hp ≡ returns h
      → IsAccounted lb hp
      → IsAccounted lb h
  unfolding add_backend_group
  add_backend_group-IsAccounted f g name zero hp h r v =
      subst LeavesAccounted r (add_group_info-LeavesAccounted f g name none zero hp v)

  add_backend_with_checker-LeavesAccounted :
      (f : ℕ) (e : Backend E) (k : Option K) (d zero : D) (hp : Heap E K D H L)
      → IsAccounted lb hp
      → LeavesAccounted (add_backend_with_checker lb hc f e k d zero hp)
  unfolding add_backend_with_checker backend_id
  add_backend_with_checker-LeavesAccounted f (group name g) k d zero hp v =
      add_group_info-LeavesAccounted f g name k zero hp v
  add_backend_with_checker-LeavesAccounted f (endpoint id e) k d zero hp v =
      at (add_backend_info lb hc f (endpoint id e) false k d hp) (
        add_backend_info-AddsAccounted f (endpoint id e) false k d hp
          (λ free. add_new-LeavesAccounted f id e k d hp free v) v)
    where
      at :
          (o : Outcome (Heap E K D H L × Bool))
          → AddsAccounted o
          → LeavesAccounted (do t ← o; returns t.0)
      at (panic s) w = tt
      at (returns t) w = w

  pub add_backend_with_checker-IsAccounted :
      (f : ℕ) (e : Backend E) (k : Option K) (d zero : D) (hp h : Heap E K D H L)
      → add_backend_with_checker lb hc f e k d zero hp ≡ returns h
      → IsAccounted lb hp
      → IsAccounted lb h
  add_backend_with_checker-IsAccounted f e k d zero hp h r v =
      subst LeavesAccounted r (add_backend_with_checker-LeavesAccounted f e k d zero hp v)
