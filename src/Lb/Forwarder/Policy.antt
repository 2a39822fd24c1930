-- ===== src/Lb/Forwarder/Policy.antt =====
-- forward/lb/forward.go: the session timeout of a forwarder and the selector by which its load
-- balancer chooses an endpoint.
use apigw.Common.{String, ℕ, Option, none, some, ◌≡◌}
use apigw.Common.Int.{ℤ}
use apigw.Types.{Outcome, returns, panic, ◌>>=◌, Err, no_selector}
use apigw.Lb.{Balancers, update}
use apigw.Lb.Heap.{put}

-- What the package calls of go-loadbalancer for them. `S` is the type of selectors; the two calls
-- on the provider are `none` where it is no `SelectorGetSetter`; `registered` is `GetSelector`,
-- with `none` for nil.
pub record Policies (L S : Type 0) : Type 0 where
  pub session_timeout : L → ℤ
  pub set_session_timeout : ℤ → L → L
  pub selector : L → Option S
  pub set_selector : S → L → Option L
  pub registered : String → Option S

-- The documented effect of setting a selector: it is the one that the provider then has.
pub record PolicyLaws {L S : Type 0} (p : Policies L S) : Type 0 where
  pub selector-set : (s : S) (l l' : L) → p.set_selector s l ≡ some l' → p.selector l' ≡ some s

module _ {L S : Type 0} (p : Policies L S) where
  unfoldable pub set_session_timeout : ℤ → ℕ → Balancers L → Balancers L
  set_session_timeout timeout f = update f (p.set_session_timeout timeout)

  unfoldable pub get_session_timeout : ℕ → Balancers L → ℤ
  get_session_timeout f s = p.session_timeout (s f)

  put_selected : ℕ → Balancers L → Option L → Outcome (Balancers L)
  put_selected f s none = panic "interface conversion"
  put_selected f s (some l) = returns (put f l s)

  unfoldable pub set_selector : S → ℕ → Balancers L → Outcome (Balancers L)
  unfolding put_selected
  set_selector new f s = put_selected f s (p.set_selector new (s f))

  -- A selector that is nil is an error of `set_selector_by_name` alone.
  set_registered : String → ℕ → Balancers L → Option S → Outcome (Balancers L × Option Err)
  unfolding set_selector
  set_registered name f s (some new) = do s' ← set_selector new f s; returns (s', none)
  set_registered name f s none = returns (s, some (no_selector name))

  unfoldable pub set_selector_by_name :
      String → ℕ → Balancers L → Outcome (Balancers L × Option Err)
  unfolding set_registered
  set_selector_by_name name f s = set_registered name f s (p.registered name)

  selected : Option S → Outcome S
  selected none = panic "interface conversion"
  selected (some s) = returns s

  unfoldable pub get_selector : ℕ → Balancers L → Outcome S
  unfolding selected
  get_selector f s = selected (p.selector (s f))
