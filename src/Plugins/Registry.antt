-- ===== src/Plugins/Registry.antt =====
-- src/v2/application/plugins/runtime_plugin_registry.ts and runtime_plugin_system_manager.ts. A
-- plugin object is named by a number; `manifest_of` is what its `metadata()` answers, always the
-- same. What a plugin does in its own methods is not in these files: whether `validate` accepts and
-- `initialize` returns is an input. Health reports and events are left out.
mod Tests
pub mod Index
pub mod Serving
use local_first_se_platform.Base.{
  ℕ, String, Bool, true, false, not, Option, none, some, List, [], ◌∷◌, map, nat_eq, if◌then◌else◌,
  Dict, lookup, insert, remove,
}
use local_first_se_platform.Plugins.Capabilities.{
  plugins_of, set_add, set_delete, register_plugin_capabilities,
}
use local_first_se_platform.Plugins.Loader.{Manifest, load_plugin}

pub record PluginRecord : Type 0 where
  pub plugin : ℕ
  pub manifest : Manifest
  pub enabled : Bool

pub record Registry : Type 0 where
  pub plugins : Dict PluginRecord
  pub capability_map : Dict (List String)

abbrev pub empty_registry : Registry
empty_registry = record { plugins = []; capability_map = [] }

-- The loop of `register` over the manifest's capabilities is the one of `CapabilityRegistry`.
unfoldable pub register : ℕ → Manifest → Registry → Registry
unfolding register_plugin_capabilities
register plugin m r = record {
  plugins = insert m.id (record { plugin = plugin; manifest = m; enabled = true }) r.plugins;
  capability_map = register_plugin_capabilities m.id m.capabilities r.capability_map;
}

-- `capabilityMap.get(cap)?.delete(id)` for each capability of the manifest.
unfoldable pub delete_from : String → List String → Dict (List String) → Dict (List String)
unfolding set_delete
delete_from id [] map = map
delete_from id (c ∷ cs) map =
    delete_from id cs
      (elim (lookup c map) [ none ↦ map | some xs ↦ insert c (set_delete id xs) map ])

unfoldable pub unregister_found : String → Option PluginRecord → Registry → Registry × Bool
unfolding delete_from
unregister_found id none r = (r, false)
unregister_found id (some found) r = (
  record {
    plugins = remove id r.plugins;
    capability_map = delete_from id found.manifest.capabilities r.capability_map;
  },
  true,
)

-- `unregister`
unfoldable pub unregister : String → Registry → Registry × Bool
unfolding unregister_found
unregister id r = unregister_found id (lookup id r.plugins) r

unfoldable pub set_enabled_found : String → Bool → Option PluginRecord → Registry → Registry × Bool
set_enabled_found id on none r = (r, false)
set_enabled_found id on (some found) r =
    (record r { plugins = insert id (record found { enabled = on }) r.plugins }, true)

-- `enable` and `disable`
unfoldable pub set_enabled : String → Bool → Registry → Registry × Bool
unfolding set_enabled_found
set_enabled id on r = set_enabled_found id on (lookup id r.plugins) r

abbrev pub if_enabled : Option PluginRecord → Option ℕ
if_enabled none = none
if_enabled (some found) = if found.enabled then some found.plugin else none

-- `getPlugin`
unfoldable pub get_plugin : String → Registry → Option ℕ
get_plugin id r = if_enabled (lookup id r.plugins)

abbrev pub cons_some : Option ℕ → List ℕ → List ℕ
cons_some none xs = xs
cons_some (some x) xs = x ∷ xs

unfoldable pub enabled_of : List String → Registry → List ℕ
unfolding get_plugin
enabled_of [] r = []
enabled_of (id ∷ ids) r = cons_some (get_plugin id r) (enabled_of ids r)

-- `getPluginsByCapability`
unfoldable pub get_plugins_by_capability : String → Registry → List ℕ
unfolding enabled_of plugins_of
get_plugins_by_capability capability r = enabled_of (plugins_of capability r.capability_map) r

-- `existing && existing !== plugin`
abbrev pub is_other : ℕ → Option PluginRecord → Bool
is_other plugin none = false
is_other plugin (some found) = not (nat_eq found.plugin plugin)

-- `loadAndRegisterPlugin`. A plugin that is registered under the same id is shut down and
-- unregistered first.
unfoldable pub load_and_register :
    ℕ → Manifest → (validates initializes : Bool) → Registry → Registry × Bool
unfolding unregister register
load_and_register plugin m validates initializes r =
    let r' = if is_other plugin (lookup m.id r.plugins) then (unregister m.id r).0 else r in
    if not (load_plugin m validates)
    then (r', false)
    else if initializes
    then (register plugin m r', true)
    else (r', false)

pub data Operation : Type 0 where
  loads : ℕ → (validates initializes : Bool) → Operation
  enables disables unloads : String → Operation

module _ (manifest_of : ℕ → Manifest) where
  -- The operations of the manager; `unloadPlugin` shuts the plugin down and unregisters it.
  unfoldable pub operate : Operation → Registry → Registry
  unfolding load_and_register set_enabled unregister
  operate (loads plugin validates initializes) r =
      (load_and_register plugin (manifest_of plugin) validates initializes r).0
  operate (enables id) r = (set_enabled id true r).0
  operate (disables id) r = (set_enabled id false r).0
  operate (unloads id) r = (unregister id r).0

  unfoldable pub operate_all : List Operation → Registry → Registry
  unfolding operate
  operate_all [] r = r
  operate_all (o ∷ os) r = operate_all os (operate o r)
