-- ===== src/Plugins/Capabilities/Membership.antt =====
-- Who has which capability after a registration.
use local_first_se_platform.Base.{
  or_else, String, ◌≡◌, refl, not, ◌&&◌, ◌||◌, List, [], ◌∷◌, ◌++◌, arith, ◌==◌, contains, Dict,
  lookup, insert, lookup-insert,
}
use local_first_se_platform.Plugins.Capabilities.{
  plugins_of, set_add, set_delete, register_plugin_capabilities, unregister_plugin_capabilities,
  has_capability,
}

contains-append_one :
    (v id : String) (xs : List String) → contains v (xs ++ id ∷ []) ≡ (contains v xs || id == v)
contains-append_one v id [] = ground arith
contains-append_one v id (x ∷ xs) = ground (arith, contains-append_one v id xs)

pub contains-set_add :
    (v id : String) (xs : List String) → contains v (set_add id xs) ≡ (contains v xs || id == v)
unfolding set_add
contains-set_add v id xs = ground (arith, contains-append_one v id xs)

pub contains-set_delete :
    (v id : String) (xs : List String)
    → contains v (set_delete id xs) ≡ (contains v xs && not (id == v))
unfolding set_delete
contains-set_delete v id [] = refl
contains-set_delete v id (x ∷ xs) = ground (arith, contains-set_delete v id xs)

pub registered_one :
    (v cap id c : String) (m : Dict (List String))
    → contains v (or_else (lookup cap (insert c (set_add id (or_else (lookup c m) [])) m)) [])
      ≡ (contains v (or_else (lookup cap m) []) || (id == v && c == cap))
registered_one v cap id c m = ground (
  arith,
  lookup-insert c cap (set_add id (or_else (lookup c m) [])) m,
  contains-set_add v id (or_else (lookup c m) []),
)

-- A registration gives the plugin the listed capabilities, and changes nothing else.
pub has_capability-register :
    (v cap id : String) (caps : List String) (m : Dict (List String))
    → has_capability v cap (register_plugin_capabilities id caps m)
      ≡ (has_capability v cap m || (id == v && contains cap caps))
unfolding has_capability plugins_of register_plugin_capabilities
has_capability-register v cap id [] m = ground arith
has_capability-register v cap id (c ∷ cs) m = ground (
  arith,
  has_capability-register v cap id cs (insert c (set_add id (or_else (lookup c m) [])) m),
  registered_one v cap id c m,
)

-- After it has been unregistered a plugin has no capability, and every other plugin has its own.
has_capability-unregister :
    (v cap id : String) (m : Dict (List String))
    → has_capability v cap (unregister_plugin_capabilities id m)
      ≡ (has_capability v cap m && not (id == v))
unfolding has_capability plugins_of unregister_plugin_capabilities lookup
has_capability-unregister v cap id [] = refl
has_capability-unregister v cap id ((c, xs) ∷ m) =
    ground (arith, has_capability-unregister v cap id m, contains-set_delete v id xs)

-- The registry is a relation between plugins and capabilities: a registration adds the pairs of the
-- plugin with the listed capabilities, and nothing else; an unregistration takes away all pairs of
-- the plugin, and nothing else.
pub registry_is_a_relation :
    (v cap id : String) (caps : List String) (m : Dict (List String))
    → (has_capability v cap (register_plugin_capabilities id caps m)
        ≡ (has_capability v cap m || (id == v && contains cap caps)))
      × (has_capability v cap (unregister_plugin_capabilities id m)
          ≡ (has_capability v cap m && not (id == v)))
registry_is_a_relation v cap id caps m =
    (has_capability-register v cap id caps m, has_capability-unregister v cap id m)
