-- ===== src/Lb/Endpoints.antt =====
-- forward/lb: where the endpoints of a forwarder's load balancer come from.
pub mod Reach
pub mod Shared
use apigw.Common.{
  [], String, Bool, true, false, ℕ, Option, none, some, ◌≡◌, refl, nat_eq, nat_eq_refl, arith,
  if◌then◌else◌, ◌⊎◌, inl, inr, is_some, ap, subst, sym, Bool-cases,
}
use apigw.Dict.{Dict, lookup, has}
use apigw.Lb.{endpoint, group, BackendInfo, Balancer, BalancerLaws, HealthCheck, Balancers, entries}
use apigw.Lb.Group.{GroupBackend, get_updater_by_name}
use apigw.Lb.Group.Accounts.{IsTidy, Gives, Accounts, StaysTidy}
use apigw.Lb.Heap.{Heap, Forwarder, put}
use apigw.Lb.Membership.{SameMembers}

-- There is a backend, and it is a single one.
abbrev pub is_single : {E K D : Type 0} → Option (BackendInfo E K D) → Bool
is_single none = false
is_single (some info) = elim info.backend [ endpoint id e ↦ true | group name g ↦ false ]

module _ {E K D H L : Type 0} where
  -- The id is that of a single backend of the forwarder, or of a backend of a group that informs
  -- it.
  abbrev pub IsFounded : Heap E K D H L → ℕ → String → Type 0
  IsFounded hp f j =
      (is_single (lookup j (entries (hp.forwarders f).backends)) ≡ true)
      ⊎ ((a : ℕ) × Gives (hp.groups a) f j)

module _ {E K D H L : Type 0} (lb : Balancer E L) where
  -- Every endpoint of a forwarder that is not closed is founded.
  pub record IsAccounted (hp : Heap E K D H L) : Type 0 where
    pub tidy : (a : ℕ) → IsTidy (hp.groups a)
    pub founded :
        (f : ℕ) (j : String)
        → is_some (hp.forwarders f).backends ≡ true
        → lb.has_endpoint j (hp.balancers f) ≡ true
        → IsFounded hp f j

  -- A call on the group at `g`.
  pub IsAccounted-put :
      (g : ℕ) (t : GroupBackend E K D H × Balancers L) (hp : Heap E K D H L)
      → StaysTidy lb (hp.groups g) hp.balancers t
      → IsAccounted hp
      → IsAccounted (record hp { groups = put g t.0 hp.groups; balancers = t.1 })
  IsAccounted-put g t hp (clean, accounts) v = record {
    tidy = λ a. tidied a (nat_eq g a);
    founded = λ f j opened there. elim (accounts f j there) [
      | inr given ↦ inr (g, subst (λ b. Gives b f j) (sym at_g) given)
      | inl (before, kept) ↦ elim (v.founded f j opened before) [
        | inl own ↦ inl own
        | inr (a, given) ↦ inr (a, carried f j a kept (nat_eq g a) refl given)
      ]
    ];
  }
    where
      at_g : put g t.0 hp.groups g ≡ t.0
      at_g = rw (nat_eq_refl g) refl

      tidied : (a : ℕ) (hit : Bool) → IsTidy (if hit then t.0 else hp.groups a)
      tidied a true = clean
      tidied a false = v.tidy a

      carried :
          (f : ℕ) (j : String) (a : ℕ)
          → (Gives (hp.groups g) f j → Gives t.0 f j)
          → (hit : Bool) → nat_eq g a ≡ hit
          → Gives (hp.groups a) f j
          → Gives (if hit then t.0 else hp.groups a) f j
      carried f j a kept true e given =
          let same : g ≡ a = ground arith in
          kept (subst (λ a. Gives (hp.groups a) f j) (sym same) given)
      carried f j a kept false e given = given

  -- A change of load balancers that adds only what the forwarder or a group of it has.
  pub IsAccounted-balancers :
      (s : Balancers L) (hp : Heap E K D H L)
      → ((f : ℕ) (j : String)
          → lb.has_endpoint j (s f) ≡ true
          → (lb.has_endpoint j (hp.balancers f) ≡ true) ⊎ IsFounded hp f j)
      → IsAccounted hp
      → IsAccounted (record hp { balancers = s })
  IsAccounted-balancers s hp told v = record {
    tidy = v.tidy;
    founded = λ f j opened there. elim (told f j there) [
      | inl before ↦ v.founded f j opened before
      | inr new ↦ new
    ];
  }

  -- New backends of the forwarder at `f`, with its new load balancer.
  pub IsAccounted-forwarder :
      (f : ℕ) (w : Forwarder E K D H) (s : Balancers L) (hp : Heap E K D H L)
      → ((v : ℕ) (j : String)
          → nat_eq f v ≡ false
          → lb.has_endpoint j (s v) ≡ true
          → lb.has_endpoint j (hp.balancers v) ≡ true)
      → ((j : String)
          → is_some w.backends ≡ true
          → lb.has_endpoint j (s f) ≡ true
          → (is_single (lookup j (entries w.backends)) ≡ true)
            ⊎ ((a : ℕ) × Gives (hp.groups a) f j))
      → IsAccounted hp
      → IsAccounted (record hp { forwarders = put f w hp.forwarders; balancers = s })
  IsAccounted-forwarder f w s hp others own v = record {
    tidy = v.tidy;
    founded = λ u j. at u j (nat_eq f u) refl;
  }
    where
      at :
          (u : ℕ) (j : String) (hit : Bool)
          → nat_eq f u ≡ hit
          → is_some (if hit then w else hp.forwarders u).backends ≡ true
          → lb.has_endpoint j (s u) ≡ true
          → (is_single (lookup j (entries (if hit then w else hp.forwarders u).backends)) ≡ true)
            ⊎ ((a : ℕ) × Gives (hp.groups a) u j)
      at u j true e opened there =
          let same : f ≡ u = ground arith in
          subst
            (λ u.
              (is_single (lookup j (entries w.backends)) ≡ true)
              ⊎ ((a : ℕ) × Gives (hp.groups a) u j))
            same (own j opened (subst (λ u. lb.has_endpoint j (s u) ≡ true) (sym same) there))
      at u j false e opened there = v.founded u j opened (others u j e there)

  -- The groups have neither backends nor updaters, and the load balancers no endpoints.
  pub record StartsEmpty (hp : Heap E K D H L) : Type 0 where
    pub backends : (a : ℕ) → entries (hp.groups a).backends ≡ []
    pub updaters : (a : ℕ) → entries (hp.groups a).updaters ≡ []
    pub endpoints : (f : ℕ) (j : String) → lb.has_endpoint j (hp.balancers f) ≡ false

  pub StartsEmpty-IsAccounted : (hp : Heap E K D H L) → StartsEmpty hp → IsAccounted hp
  StartsEmpty-IsAccounted hp v = record {
    tidy = λ a. record { own = rw (v.backends a) tt; distinct = rw (v.updaters a) tt };
    founded =
        λ f j opened there. (let no : false ≡ true = rw (v.endpoints f j) at there in cc (no));
  }

  pub StartsEmpty-apart :
      (hp : Heap E K D H L)
      → StartsEmpty hp
      → (n : String) (a : ℕ) → get_updater_by_name n (hp.groups a) ≡ none
  unfolding get_updater_by_name lookup
  StartsEmpty-apart hp v n a = rw (v.updaters a) refl
