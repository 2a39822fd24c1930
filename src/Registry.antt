-- ===== src/Registry.antt =====
-- The shape that loader/*.go and forward/lb/backend/builder.go share: values that are registered
-- once under their own name.
use apigw.Common.{String, if◌then◌else◌}
use apigw.Dict.{Dict, insert, has}
use apigw.Types.{Outcome, returns, panic}

module _ {V : Type 0} (key : V → String) (message : String → String) where
  unfoldable pub register : V → Dict V → Outcome (Dict V)
  register v m = if has (key v) m then panic (message (key v)) else returns (insert (key v) v m)
