-- ===== src/Gateway/Registry.antt =====
-- gateway.go: the plugins that a gateway knows.
use apigw.Common.{String, ◌==◌, eq_iff, if◌then◌else◌, List, Option, none, some, ◌≡◌, arith}
use apigw.Dict.{lookup, insert, delete, has, values}
use apigw.Dict.Laws.{lookup-insert, lookup-delete}
use apigw.Types.{Err, existed_plugin}
use apigw.Plugin.{Plugin}
use apigw.Gateway.{Gateway}

module _ {W C R : Type 0} where
  unfoldable pub register_plugin : Plugin W C → Gateway W C R → Gateway W C R × Option Err
  register_plugin p g =
      if has p.name g.plugins
      then (g, some (existed_plugin p.name))
      else (record g { plugins = insert p.name p g.plugins }, none)

  unfoldable pub unregister_plugin : String → Gateway W C R → Gateway W C R
  unregister_plugin name g = record g { plugins = delete name g.plugins }

  unfoldable pub plugin : String → Gateway W C R → Option (Plugin W C)
  plugin name g = lookup name g.plugins

  unfoldable pub plugins : Gateway W C R → List (Plugin W C)
  plugins g = values g.plugins

  -- Registering a plugin whose name is free makes it the plugin of its name; if the name is taken,
  -- the call reports it and the plugin stays that was there. Unregistering frees the name. Both
  -- leave the plugins of the other names alone.
  pub plugin-register_plugin :
      (p : Plugin W C) (name : String) (g : Gateway W C R)
      → (plugin name (register_plugin p g).0 ≡ (
          if p.name == name
          then (if has p.name g.plugins then plugin p.name g else some p)
          else plugin name g))
        × ((register_plugin p g).1
            ≡ (if has p.name g.plugins then some (existed_plugin p.name) else none))
        × (plugin name (unregister_plugin p.name g)
            ≡ (if p.name == name then none else plugin name g))
  unfolding register_plugin unregister_plugin plugin
  plugin-register_plugin p name g = (
    ground (arith, eq_iff p.name name, lookup-insert p.name name p g.plugins),
    ground arith,
    ground (arith, lookup-delete p.name name g.plugins),
  )
