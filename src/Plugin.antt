-- ===== src/Plugin.antt =====
-- plugin.go: plugins and the stable sort by priority.
pub mod Sorting
use apigw.Common.{String, Option, if◌then◌else◌, Bool, List, [], ◌∷◌}
use apigw.Common.Int.{ℤ, ltb_ℤ}
use apigw.Types.{Middleware, Result}
use Prim.Native.String

-- `C` is the type of the values that Go's `interface{}` holds; nil is `none`.
pub record Plugin (W C : Type 0) : Type 0 where
  pub prio : ℤ
  pub name : String
  pub newf : Option C → Result (Middleware W)

module _ {W C : Type 0} where
  unfoldable pub new_plugin : String → ℤ → (Option C → Result (Middleware W)) → Plugin W C
  new_plugin name prio newf = record { prio = prio; name = name; newf = newf }

  unfoldable pub to_string : Plugin W C → String
  to_string p = String.◌++◌ "Plugin(name=" (String.◌++◌ p.name ")")

  unfoldable pub priority : Plugin W C → ℤ
  priority p = p.prio

  -- `Plugin(config)`: the middleware that a plugin makes.
  unfoldable pub make : Plugin W C → Option C → Result (Middleware W)
  make p config = p.newf config

  -- `Less`, on the elements
  unfoldable pub less : Plugin W C → Plugin W C → Bool
  less p q = ltb_ℤ p.prio q.prio

  -- One round of a stable insertion: `p` goes before the first element that is not less than it.
  unfoldable pub insert_sorted : Plugin W C → List (Plugin W C) → List (Plugin W C)
  unfolding less
  insert_sorted p [] = p ∷ []
  insert_sorted p (q ∷ qs) = if less q p then q ∷ insert_sorted p qs else p ∷ q ∷ qs

  -- `sort.Stable(ps)`
  unfoldable pub sort : List (Plugin W C) → List (Plugin W C)
  unfolding insert_sorted
  sort [] = []
  sort (p ∷ ps) = insert_sorted p (sort ps)
