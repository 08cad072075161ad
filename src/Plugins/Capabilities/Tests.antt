-- ===== src/Plugins/Capabilities/Tests.antt =====
-- Two plugins that share a capability.
use local_first_se_platform.Base.{
  String, ◌≡◌, refl, true, false, List, [], ◌∷◌, same_id, Dict, lookup,
}
use local_first_se_platform.Plugins.Capabilities.{
  unregister_plugin_capabilities, has_capability, set_delete,
}

abbrev shared : Dict (List String)
shared = ("CODE_REVIEW", "p" ∷ "q" ∷ []) ∷ []

other_keeps : has_capability "q" "CODE_REVIEW" (unregister_plugin_capabilities "p" shared) ≡ true
unfolding has_capability unregister_plugin_capabilities set_delete lookup same_id
other_keeps = refl

own_is_gone : has_capability "p" "CODE_REVIEW" (unregister_plugin_capabilities "p" shared) ≡ false
unfolding has_capability unregister_plugin_capabilities set_delete lookup same_id
own_is_gone = refl
