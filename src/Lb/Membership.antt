-- ===== src/Lb/Membership.antt =====
-- forward/lb/forward.go and forward/lb/backend.go: the groups that a forwarder has among its
-- backends, and the forwarders that a group informs.
pub mod Reach
use apigw.Common.{
  String, Bool, true, false, ℕ, Option, none, some, ◌≡◌, refl, nat_eq, nat_eq_refl, arith,
  if◌then◌else◌, Bool-cases, inl, inr, ap, subst, sym, ◌∙◌,
}
use apigw.Dict.{Dict, lookup}
use apigw.Lb.{Backend, endpoint, group, BackendInfo, Balancer, HealthCheck, Balancers, entries}
use apigw.Lb.Group.{GroupBackend, get_updater_by_name}
use apigw.Lb.Group.Kept.{HasNoMore}
use apigw.Lb.Heap.{Heap, Forwarder, put}

-- The backend is the group at the address.
abbrev pub is_group_at : {E : Type 0} → ℕ → Backend E → Bool
is_group_at a (endpoint id e) = false
is_group_at a (group name g) = nat_eq g a

-- There is a backend, and it is that group.
abbrev pub holds_group : {E K D : Type 0} → ℕ → Option (BackendInfo E K D) → Bool
holds_group a none = false
holds_group a (some info) = is_group_at a info.backend

module _ {E K D H : Type 0} where
  pub put-same :
      (f : ℕ) (w : Forwarder E K D H) (fs : ℕ → Forwarder E K D H)
      → w.name ≡ (fs f).name
      → w.backends ≡ (fs f).backends
      → (u : ℕ) → ((put f w fs u).name ≡ (fs u).name) × ((put f w fs u).backends ≡ (fs u).backends)
  put-same f w fs name backends u = elim (Bool-cases (nat_eq f u)) [
    | inl hit ↦
        let same : f ≡ u = ground arith in
        rw hit (
          subst (λ u. (w.name ≡ (fs u).name) × (w.backends ≡ (fs u).backends)) same
            (name, backends))
    | inr miss ↦ rw miss (refl, refl)
  ]

module _ {E K D H L : Type 0} where
  -- The forwarder at `u` has the group at `a` among its backends, under the group's name.
  abbrev pub is_member : Heap E K D H L → ℕ → ℕ → Bool
  is_member hp a u = holds_group a (lookup (hp.groups a).name (entries (hp.forwarders u).backends))

  -- A backend that is a group has the group's name.
  abbrev pub IsNamed : Backend E → Heap E K D H L → Type 0
  IsNamed (endpoint id e) hp = Unit
  IsNamed (group name g) hp = name ≡ (hp.groups g).name

  -- Every updater of a group stands under its own name and has the group among its backends.
  abbrev pub IsMutual : Heap E K D H L → Type 0
  IsMutual hp =
      (n : String) (a u : ℕ)
      → get_updater_by_name n (hp.groups a) ≡ some u
      → (n ≡ (hp.forwarders u).name) × (is_member hp a u ≡ true)

  -- No group of the second heap has an updater that it has not in the first, and the forwarders are
  -- the same.
  pub record InformsNoMore (hp h : Heap E K D H L) : Type 0 where
    pub forwarders : h.forwarders ≡ hp.forwarders
    pub updaters :
        (n : String) (a u : ℕ)
        → get_updater_by_name n (h.groups a) ≡ some u
        → (get_updater_by_name n (hp.groups a) ≡ some u) × ((h.groups a).name ≡ (hp.groups a).name)

  pub InformsNoMore-refl : (hp : Heap E K D H L) → InformsNoMore hp hp
  InformsNoMore-refl hp = record { forwarders = refl; updaters = λ n a u e. (e, refl) }

  pub InformsNoMore-trans :
      (hp h k : Heap E K D H L) → InformsNoMore hp h → InformsNoMore h k → InformsNoMore hp k
  InformsNoMore-trans hp h k v w = record {
    forwarders = w.forwarders ∙ v.forwarders;
    updaters = λ n a u e.
        let (e', same') = w.updaters n a u e in
        let (e'', same'') = v.updaters n a u e' in (e'', same' ∙ same'');
  }

  pub InformsNoMore-put :
      (g : ℕ) (b : GroupBackend E K D H) (s : Balancers L) (hp : Heap E K D H L)
      → HasNoMore (hp.groups g) b
      → InformsNoMore hp (record hp { groups = put g b hp.groups; balancers = s })
  InformsNoMore-put g b s hp v = record {
    forwarders = refl;
    updaters = λ n a u. at n a u (nat_eq g a) refl;
  }
    where
      at :
          (n : String) (a u : ℕ) (hit : Bool)
          → nat_eq g a ≡ hit
          → get_updater_by_name n (if hit then b else hp.groups a) ≡ some u
          → (get_updater_by_name n (hp.groups a) ≡ some u)
            × ((if hit then b else hp.groups a).name ≡ (hp.groups a).name)
      at n a u true hit e =
          let same : g ≡ a = ground arith in
          subst
            (λ a. (get_updater_by_name n (hp.groups a) ≡ some u) × (b.name ≡ (hp.groups a).name))
            same (v.updaters n u e, v.same_name)
      at n a u false miss e = (e, refl)

  pub IsMutual-InformsNoMore :
      (hp h : Heap E K D H L) → InformsNoMore hp h → IsMutual hp → IsMutual h
  IsMutual-InformsNoMore hp h v each n a u e =
      let (e', same) = v.updaters n a u e in
      let (named, there) = each n a u e' in
      let forwarder : hp.forwarders u ≡ h.forwarders u =
        ap (λ (fs : ℕ → Forwarder E K D H). fs u) (sym v.forwarders) in
      (
        named ∙ ap (λ (f : Forwarder E K D H). f.name) forwarder,
        subst
            (λ (f : Forwarder E K D H).
              holds_group a (lookup (h.groups a).name (entries f.backends)) ≡ true)
            forwarder
            (subst (λ name. holds_group a (lookup name (entries (hp.forwarders u).backends)) ≡ true)
              (sym same) there),
      )

  -- The second heap has the groups of the first, and forwarders of the same names and backends.
  pub record SameMembers (hp h : Heap E K D H L) : Type 0 where
    pub groups : h.groups ≡ hp.groups
    pub forwarders :
        (u : ℕ)
        → ((h.forwarders u).name ≡ (hp.forwarders u).name)
          × ((h.forwarders u).backends ≡ (hp.forwarders u).backends)

  pub IsMutual-SameMembers : (hp h : Heap E K D H L) → SameMembers hp h → IsMutual hp → IsMutual h
  IsMutual-SameMembers hp h v each n a u e =
      let at : h.groups a ≡ hp.groups a = ap (λ (gs : ℕ → GroupBackend E K D H). gs a) v.groups in
      let (name, backends) = v.forwarders u in
      let (named, there) = each n a u (rw (← at) e) in (named ∙ sym name, rw (at, backends) there)
