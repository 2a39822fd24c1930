-- ===== src/Lb/Gateway/Policies.antt =====
-- forward/lb/gateway.go: the session timeout and the policy selector of a route.
use apigw.Common.{String, false, ℕ, Option, none, some, ◌≡◌, refl, nat_eq, nat_eq_refl}
use apigw.Common.Int.{ℤ, pos}
use apigw.Types.{Outcome, returns, panic, ◌>>=◌, Result, ok, err, Err, no_selector}
use apigw.Route
use apigw.Lb.Heap.{Heap, put}
use apigw.Lb.Forwarder.Policy.{
  Policies, PolicyLaws, set_session_timeout, get_session_timeout, set_selector, get_selector,
  set_selector_by_name,
}
use apigw.Lb.Gateway.{LbGateway, get_route_forwarder, read_route, call_route}

module _ {E K D H L : Type 0} where
  -- A call on the load balancers of the heap.
  abbrev balance : Heap E K D H L → (ℕ → L) → Heap E K D H L
  balance hp s = record hp { balancers = s }

-- `forwarder.GetSelector()` of a convenient function; `none` is the nil selector of an error.
module _ {S : Type 0} where
  unfoldable pub select_route :
      (ℕ → Outcome S) → Outcome (Result ℕ) → Outcome (Option S × Option Err)
  select_route f (panic s) = panic s
  select_route f (returns (err e)) = returns (none, some e)
  select_route f (returns (ok a)) = do s ← f a; returns (some s, none)

module _ {E K D H L S W C R : Type 0} (p : Policies L S) (address : Route.Forwarder W → Option ℕ)
    (host path method : String) (g : LbGateway W C R) where
  unfoldable pub get_route_session_timeout : Heap E K D H L → Outcome (ℤ × Option Err)
  unfolding read_route get_route_forwarder get_session_timeout
  get_route_session_timeout hp =
      read_route (pos 0) (λ f. get_session_timeout p f hp.balancers)
        (get_route_forwarder address host path method g)

  unfoldable pub set_route_session_timeout :
      ℤ → Heap E K D H L → Outcome (Heap E K D H L × Option Err)
  unfolding call_route get_route_forwarder set_session_timeout
  set_route_session_timeout timeout hp =
      call_route (λ f hp. returns (balance hp (set_session_timeout p timeout f hp.balancers)))
        (get_route_forwarder address host path method g) hp

  unfoldable pub get_route_policy_selector : Heap E K D H L → Outcome (Option S × Option Err)
  unfolding select_route get_route_forwarder get_selector
  get_route_policy_selector hp =
      select_route (λ f. get_selector p f hp.balancers)
        (get_route_forwarder address host path method g)

  unfoldable pub set_route_policy_selector :
      S → Heap E K D H L → Outcome (Heap E K D H L × Option Err)
  unfolding call_route get_route_forwarder set_selector
  set_route_policy_selector s hp =
      call_route (λ f hp. do t ← set_selector p s f hp.balancers; returns (balance hp t))
        (get_route_forwarder address host path method g) hp

  -- The error of `SetSelectorByName` is dropped, as the code drops it.
  unfoldable pub set_route_policy_selector_by_name :
      String → Heap E K D H L → Outcome (Heap E K D H L × Option Err)
  unfolding call_route get_route_forwarder set_selector_by_name
  set_route_policy_selector_by_name name hp =
      call_route
        (λ f hp. do t ← set_selector_by_name p name f hp.balancers; returns (balance hp t.0))
        (get_route_forwarder address host path method g) hp

  -- What setting a selector by its name makes, by whether the name is registered.
  abbrev pub SelectsByName : ℕ → String → Heap E K D H L → Option S → Type 0
  SelectsByName f name hp none =
      (set_selector_by_name p name f hp.balancers ≡ returns (hp.balancers, some (no_selector name)))
      × (set_route_policy_selector_by_name name hp ≡ returns (hp, none))
  SelectsByName f name hp (some s) =
      (hp' : Heap E K D H L) × (set_route_policy_selector_by_name name hp ≡ returns (hp', none))
      × (set_route_policy_selector s hp ≡ returns (hp', none))
      × (get_route_policy_selector hp' ≡ returns (some s, none))
      × ((v : ℕ) → nat_eq f v ≡ false → hp'.balancers v ≡ hp.balancers v)
      × (hp'.forwarders ≡ hp.forwarders)
      × (hp'.groups ≡ hp.groups)

  -- On a route that has the forwarder `f`, and whose load balancer takes selectors and keeps the
  -- last, `SetRoutePolicySelectorByName` of a registered name does what `SetRoutePolicySelector` of
  -- the selector does, `GetRoutePolicySelector` then returns the selector, and no other load
  -- balancer, no forwarder and no group changes. The bug: of a name that is not registered it
  -- returns no error, where `SetSelectorByName` of the forwarder reports one, and changes nothing.
  pub set_route_policy_selector_by_name_lem :
      PolicyLaws p
      → (f : ℕ) (name : String) (hp : Heap E K D H L)
      → ((s : S) → (l : L) × (p.set_selector s (hp.balancers f) ≡ some l))
      → get_route_forwarder address host path method g ≡ returns (ok f)
      → SelectsByName f name hp (p.registered name)
  unfolding set_route_policy_selector_by_name set_route_policy_selector get_route_policy_selector
  set_route_policy_selector_by_name_lem laws f name hp takes there = at (p.registered name) refl
    where
      at : (r : Option S) → p.registered name ≡ r → SelectsByName f name hp r
      at none e = (rw e refl, rw (there, e) refl)
      at (some s) e =
          let (l, set) = takes s in
          (
            record hp { balancers = put f l hp.balancers },
            rw (there, e, set) refl,
            rw (there, set) refl,
            rw (there, nat_eq_refl f, laws.selector-set s (hp.balancers f) l set) refl,
            λ v other. rw other refl,
            refl,
            refl,
          )
