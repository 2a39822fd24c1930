-- ===== src/Manager.antt =====
-- gateway_manager.go: gateways registered under their names. `G` is the type of pointers to
-- gateways, and `name` reads the name of a gateway at the time of the call.
use apigw.Common.{
  String, ◌==◌, eq_iff, if◌then◌else◌, Bool, true, false, not, List, [], Option, none, some, ◌≡◌,
  refl, arith,
}
use apigw.Dict.{Dict, lookup, insert, delete, has, values}
use apigw.Dict.Laws.{lookup-insert, lookup-delete}

abbrev pub GatewayManager : Type 0 → Type 0
GatewayManager G = Dict G

module _ {G : Type 0} where
  unfoldable pub new_gateway_manager : GatewayManager G
  new_gateway_manager = []

  unfoldable pub register_gateway : (G → String) → G → GatewayManager G → GatewayManager G × Bool
  register_gateway name g m = if has (name g) m then (m, false) else (insert (name g) g m, true)

  unfoldable pub unregister_gateway : String → GatewayManager G → GatewayManager G × Option G
  unregister_gateway n m = (if has n m then delete n m else m, lookup n m)

  unfoldable pub get_gateway : String → GatewayManager G → Option G
  get_gateway n m = lookup n m

  unfoldable pub get_gateways : GatewayManager G → List G
  get_gateways m = values m

  -- Registering reports whether the name was free, and makes the name read as the gateway only
  -- then; unregistering returns what the name read as and makes it read as nil. Other names read as
  -- before.
  pub get_gateway-register_gateway :
      (name : G → String) (g : G) (n other : String) (m : GatewayManager G)
      → ((register_gateway name g m).1 ≡ not (has (name g) m))
        × (get_gateway other (register_gateway name g m).0 ≡ (
            if name g == other
            then (if has (name g) m then get_gateway other m else some g)
            else get_gateway other m))
        × ((unregister_gateway n m).1 ≡ get_gateway n m)
        × (get_gateway other (unregister_gateway n m).0
            ≡ (if n == other then none else get_gateway other m))
  unfolding register_gateway unregister_gateway get_gateway
  get_gateway-register_gateway name g n other m = (
    ground arith,
    ground (arith, lookup-insert (name g) other g m),
    refl,
    ground (arith, eq_iff n other, lookup-delete n other m),
  )
