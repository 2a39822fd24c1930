-- ===== src/Loader.antt =====
-- loader/plugin.go, loader/middleware.go and loader/sd.go: loaders registered under their names. A
-- load function is a value; the maps are package variables.
use Prim.Native.String
use apigw.Common.{String, List, Option}
use apigw.Dict.{Dict, lookup, delete, keys}
use apigw.Types.{Outcome, Result, Middleware}
use apigw.Plugin.{Plugin}
use apigw.Registry.{register}

abbrev quoted : String → String → String
quoted what name =
    String.◌++◌ "the "
      (String.◌++◌ what (String.◌++◌ " named '" (String.◌++◌ name "' has been registered")))

pub record PluginLoader (W C : Type 0) : Type 0 where
  pub plugin : Result (Plugin W C)
  pub name : String

pub record MiddlewareLoader (W : Type 0) : Type 0 where
  pub mw : Result (Middleware W)
  pub name : String

-- `S` is the type of service discoveries, functions that sd/sd.go names.
pub record ServiceDiscoveryLoader (S : Type 0) : Type 0 where
  pub sd : Result S
  pub name : String

module _ {W C : Type 0} where
  unfoldable pub new_plugin_loader : String → Result (Plugin W C) → PluginLoader W C
  new_plugin_loader name plugin = record { plugin = plugin; name = name }

  unfoldable pub load_plugin : PluginLoader W C → Result (Plugin W C)
  load_plugin l = l.plugin

  unfoldable pub register_plugin_loader :
      PluginLoader W C → Dict (PluginLoader W C) → Outcome (Dict (PluginLoader W C))
  unfolding register
  register_plugin_loader = register (λ l. l.name) (quoted "plugin loader")

  unfoldable pub unregister_plugin_loader :
      String → Dict (PluginLoader W C) → Dict (PluginLoader W C)
  unregister_plugin_loader = delete

  unfoldable pub get_plugin_loader : String → Dict (PluginLoader W C) → Option (PluginLoader W C)
  get_plugin_loader = lookup

  unfoldable pub get_plugin_loaders : Dict (PluginLoader W C) → List String
  get_plugin_loaders = keys

module _ {W : Type 0} where
  unfoldable pub new_middleware_loader : String → Result (Middleware W) → MiddlewareLoader W
  new_middleware_loader name mw = record { mw = mw; name = name }

  unfoldable pub load_middleware : MiddlewareLoader W → Result (Middleware W)
  load_middleware l = l.mw

  unfoldable pub register_middleware_loader :
      MiddlewareLoader W → Dict (MiddlewareLoader W) → Outcome (Dict (MiddlewareLoader W))
  unfolding register
  register_middleware_loader = register (λ l. l.name) (quoted "middleware loader")

  unfoldable pub unregister_middleware_loader :
      String → Dict (MiddlewareLoader W) → Dict (MiddlewareLoader W)
  unregister_middleware_loader = delete

  unfoldable pub get_middleware_loader :
      String → Dict (MiddlewareLoader W) → Option (MiddlewareLoader W)
  get_middleware_loader = lookup

  unfoldable pub get_middleware_loaders : Dict (MiddlewareLoader W) → List String
  get_middleware_loaders = keys

module _ {S : Type 0} where
  unfoldable pub new_service_discovery_loader : String → Result S → ServiceDiscoveryLoader S
  new_service_discovery_loader name sd = record { sd = sd; name = name }

  unfoldable pub load_service_discovery : ServiceDiscoveryLoader S → Result S
  load_service_discovery l = l.sd

  unfoldable pub register_service_discovery_loader :
      ServiceDiscoveryLoader S
      → Dict (ServiceDiscoveryLoader S)
      → Outcome (Dict (ServiceDiscoveryLoader S))
  unfolding register
  register_service_discovery_loader = register (λ l. l.name) (quoted "service discovery loader")

  unfoldable pub unregister_service_discovery_loader :
      String → Dict (ServiceDiscoveryLoader S) → Dict (ServiceDiscoveryLoader S)
  unregister_service_discovery_loader = delete

  unfoldable pub get_service_discovery_loader :
      String → Dict (ServiceDiscoveryLoader S) → Option (ServiceDiscoveryLoader S)
  get_service_discovery_loader = lookup

  unfoldable pub get_service_discovery_loaders : Dict (ServiceDiscoveryLoader S) → List String
  get_service_discovery_loaders = keys
