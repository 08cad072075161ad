-- ===== src/Plugins/Capabilities.antt =====
-- src/v2/application/plugins/capability_registry.ts.
mod Tests
pub mod Membership
use local_first_se_platform.Base.{
  or_else, String, Bool, List, [], ◌∷◌, ◌++◌, if◌then◌else◌, ◌==◌, contains, Dict, lookup, insert,
}

-- The set of plugin ids that the map has for a capability.
unfoldable pub plugins_of : String → Dict (List String) → List String
plugins_of capability m = or_else (lookup capability m) []

-- `set.add(id)`, on a set in the order of its insertions.
unfoldable pub set_add : String → List String → List String
set_add id xs = if contains id xs then xs else xs ++ id ∷ []

unfoldable pub set_delete : String → List String → List String
set_delete id [] = []
set_delete id (x ∷ xs) = if x == id then set_delete id xs else x ∷ set_delete id xs

unfoldable pub register_plugin_capabilities :
    String → List String → Dict (List String) → Dict (List String)
unfolding set_add plugins_of
register_plugin_capabilities id [] m = m
register_plugin_capabilities id (c ∷ cs) m =
    register_plugin_capabilities id cs (insert c (set_add id (plugins_of c m)) m)

unfoldable pub unregister_plugin_capabilities : String → Dict (List String) → Dict (List String)
unfolding set_delete
unregister_plugin_capabilities id [] = []
unregister_plugin_capabilities id ((c, xs) ∷ m) =
    (c, set_delete id xs) ∷ unregister_plugin_capabilities id m

unfoldable pub find_plugins_for_capability : String → Dict (List String) → List String
unfolding plugins_of
find_plugins_for_capability capability m = plugins_of capability m

unfoldable pub has_capability : String → String → Dict (List String) → Bool
unfolding plugins_of
has_capability id capability m = contains id (plugins_of capability m)
