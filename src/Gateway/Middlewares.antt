-- ===== src/Gateway/Middlewares.antt =====
-- gateway.go: registering middlewares, and the two flags that let a request skip them.
use apigw.Common.{
  String, ◌==◌, eq_iff, if◌then◌else◌, Bool, true, false, List, [], ◌∷◌, ◌++◌, ◌≡◌, refl, arith,
  is_empty, not,
}
use mathlib.Core.List.{append-nil}
use apigw.Dict.{insert, delete}
use apigw.Dict.Laws.{lookup-insert, lookup-delete}
use apigw.Types.{Middleware}
use apigw.Gateway.{Gateway, host_mdws}
use apigw.Gateway.Executes.{FlagsAreRight}

flag-nil {ℓ} :
    {A : Type ℓ} (d : List A) (old : Bool)
    → (if is_empty d then false else old) ≡ false
    → (old ≡ false → d ≡ [])
    → d ≡ []
flag-nil [] old e h = refl
flag-nil (x ∷ d) old e h = h e

module _ {W C R : Type 0} where
  unfoldable pub reset_global_middlewares : List (Middleware W) → Gateway W C R → Gateway W C R
  reset_global_middlewares mws g = record g { mdws = mws; hasgmdw = not (is_empty mws) }

  unfoldable pub register_global_middlewares : List (Middleware W) → Gateway W C R → Gateway W C R
  register_global_middlewares mws g = record g {
    mdws = g.mdws ++ mws;
    hasgmdw = not (is_empty (g.mdws ++ mws));
  }

  unfoldable pub register_host_middlewares :
      String → List (Middleware W) → Gateway W C R → Gateway W C R
  register_host_middlewares host mws g =
      if is_empty mws
      then g
      else record g { hostmdws = insert host (host_mdws g host ++ mws) g.hostmdws; hashmdw = true }

  unfoldable pub reset_host_middlewares :
      String → List (Middleware W) → Gateway W C R → Gateway W C R
  reset_host_middlewares host mws g =
      if is_empty mws
      then record g {
        hostmdws = delete host g.hostmdws;
        hashmdw = if is_empty (delete host g.hostmdws) then false else g.hashmdw;
      }
      else record g { hostmdws = insert host mws g.hostmdws; hashmdw = true }

  pub reset_global_middlewares-FlagsAreRight :
      (mws : List (Middleware W)) (g : Gateway W C R)
      → FlagsAreRight g
      → FlagsAreRight (reset_global_middlewares mws g)
  unfolding reset_global_middlewares
  reset_global_middlewares-FlagsAreRight mws g v = record { globals = refl; hosts = v.hosts }

  pub register_global_middlewares-FlagsAreRight :
      (mws : List (Middleware W)) (g : Gateway W C R)
      → FlagsAreRight g
      → FlagsAreRight (register_global_middlewares mws g)
  unfolding register_global_middlewares
  register_global_middlewares-FlagsAreRight mws g v = record { globals = refl; hosts = v.hosts }

  pub register_host_middlewares-FlagsAreRight :
      (host : String) (mws : List (Middleware W)) (g : Gateway W C R)
      → FlagsAreRight g
      → FlagsAreRight (register_host_middlewares host mws g)
  unfolding register_host_middlewares
  register_host_middlewares-FlagsAreRight host [] g v = v
  register_host_middlewares-FlagsAreRight host (m ∷ ms) g v = record {
    globals = v.globals;
    hosts = λ e. cc;
  }

  pub reset_host_middlewares-FlagsAreRight :
      (host : String) (mws : List (Middleware W)) (g : Gateway W C R)
      → FlagsAreRight g
      → FlagsAreRight (reset_host_middlewares host mws g)
  unfolding reset_host_middlewares delete
  reset_host_middlewares-FlagsAreRight host [] g v = record {
    globals = v.globals;
    hosts = λ e. flag-nil (delete host g.hostmdws) g.hashmdw e (λ h. rw (v.hosts h));
  }
  reset_host_middlewares-FlagsAreRight host (m ∷ ms) g v = record {
    globals = v.globals;
    hosts = λ e. cc;
  }

  -- Registering adds to the middlewares of its host, at the end; resetting replaces them. The
  -- middlewares of any other host stay.
  pub host_mdws-register_host_middlewares :
      (host other : String) (mws : List (Middleware W)) (g : Gateway W C R)
      → (host_mdws (register_host_middlewares host mws g) other
          ≡ (if host == other then host_mdws g host ++ mws else host_mdws g other))
        × (host_mdws (reset_host_middlewares host mws g) other
            ≡ (if host == other then mws else host_mdws g other))
  unfolding register_host_middlewares reset_host_middlewares
  host_mdws-register_host_middlewares host other [] g = (
    ground (arith, eq_iff host other, append-nil (host_mdws g host)),
    ground (arith, lookup-delete host other g.hostmdws),
  )
  host_mdws-register_host_middlewares host other (m ∷ ms) g = (
    ground (arith, lookup-insert host other (host_mdws g host ++ m ∷ ms) g.hostmdws),
    ground (arith, lookup-insert host other (m ∷ ms) g.hostmdws),
  )
