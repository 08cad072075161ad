-- ===== src/Plugins/Registry/Tests.antt =====
-- A registry with two plugins under one id.
use local_first_se_platform.Base.{
  ℕ, String, ◌≡◌, refl, true, none, some, List, [], ◌∷◌, nat_eq, if◌then◌else◌, same_id, contains,
  lookup, insert, remove,
}
use local_first_se_platform.Base.Text.{is_space, is_blank, is_empty_text}
use local_first_se_platform.Plugins.Capabilities.{
  plugins_of, set_add, set_delete, register_plugin_capabilities,
}
use local_first_se_platform.Plugins.Loader.{
  Manifest, load_plugin, validate_manifest, is_compatible, parse_int, digits,
}
use local_first_se_platform.Plugins.Registry.{
  empty_registry, register, delete_from, unregister_found, unregister, set_enabled_found,
  set_enabled, get_plugin, enabled_of, get_plugins_by_capability, load_and_register, Operation,
  loads, disables, operate, operate_all,
}
use local_first_se_platform.Plugins.Registry.Serving.{listed, registry_serves_exactly}

abbrev manifest : ℕ → Manifest
manifest plugin = record {
  id = if nat_eq plugin 2 then "codex" else "claude";
  name = "provider";
  version = "1.0.0";
  capabilities = if nat_eq plugin 1 then "Reasoning" ∷ [] else "Coding" ∷ [];
  min_kernel_version = "2.0.0";
  max_kernel_version = "";
}

abbrev operations : List Operation
operations = loads 0 true true ∷ loads 1 true true ∷ loads 2 true true ∷ disables "codex" ∷ []

-- The second plugin has replaced the first under their id, and the third is disabled.
replaced :
    (get_plugins_by_capability "Reasoning" (operate_all manifest operations empty_registry)
      ≡ 1 ∷ [])
    × (get_plugins_by_capability "Coding" (operate_all manifest operations empty_registry) ≡ [])
    × (get_plugin "codex" (operate_all manifest operations empty_registry) ≡ none)
unfolding operate_all operate load_and_register load_plugin validate_manifest is_compatible
    parse_int digits is_space is_blank is_empty_text register unregister unregister_found
    delete_from set_enabled set_enabled_found get_plugin enabled_of get_plugins_by_capability
    plugins_of set_add set_delete register_plugin_capabilities lookup insert remove same_id
replaced = (refl, refl, refl)

registry_serves_exactly_example :
    let r = operate_all manifest operations empty_registry in
    (listed 1 (get_plugins_by_capability "Reasoning" r) ≡ true
      → (id : String) × (get_plugin id r ≡ some 1)
        × (contains "Reasoning" (manifest 1).capabilities ≡ true))
    × ((id : String)
        → get_plugin id r ≡ some 1
        → contains "Reasoning" (manifest 1).capabilities ≡ true
        → listed 1 (get_plugins_by_capability "Reasoning" r) ≡ true)
registry_serves_exactly_example = registry_serves_exactly manifest operations "Reasoning" 1
