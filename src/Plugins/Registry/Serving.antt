-- ===== src/Plugins/Registry/Serving.antt =====
-- Whom the registry answers for a capability.
use local_first_se_platform.Base.{
  ℕ, String, ◌≡◌, ap, ◌∙◌, inl, inr, Bool, true, some, List, [], ◌∷◌, arith, nat_eq, Bool-cases,
  Option-cases, eq_self, any, contains, lookup,
}
use local_first_se_platform.Plugins.Capabilities.{plugins_of, has_capability}
use local_first_se_platform.Plugins.Loader.{Manifest}
use local_first_se_platform.Plugins.Registry.{
  Registry, empty_registry, get_plugin, enabled_of, get_plugins_by_capability, Operation,
  operate_all,
}
use local_first_se_platform.Plugins.Registry.Index.{
  IsRecordOf, Indexed, operate_all-Indexed, empty-Indexed,
}

abbrev pub listed : ℕ → List ℕ → Bool
listed p ps = any (λ q. nat_eq q p) ps

enabled_of-listed :
    (p : ℕ) (id : String) (ids : List String) (r : Registry)
    → contains id ids ≡ true
    → get_plugin id r ≡ some p
    → listed p (enabled_of ids r) ≡ true
unfolding enabled_of
enabled_of-listed p id [] r h e = cc
enabled_of-listed p id (x ∷ xs) r h e = ground (arith, enabled_of-listed p id xs r)

enabled_of-source :
    (p : ℕ) (ids : List String) (r : Registry)
    → listed p (enabled_of ids r) ≡ true
    → (id : String) × (contains id ids ≡ true) × (get_plugin id r ≡ some p)
unfolding enabled_of
enabled_of-source p [] r h = cc
enabled_of-source p (x ∷ xs) r h = elim (Option-cases (get_plugin x r)) [
  | inl e ↦
      let (id, there, found) = enabled_of-source p xs r (ground arith) in (id, ground arith, found)
  | inr (q, e) ↦ elim (Bool-cases (nat_eq q p)) [
    | inl same ↦ (x, ground (arith, eq_self x), ground arith)
    | inr other ↦
        let (id, there, found) = enabled_of-source p xs r (ground arith) in
        (id, ground arith, found)
  ]
]

listed_of :
    (manifest_of : ℕ → Manifest) (capability id : String) (p : ℕ) (r : Registry)
    → Indexed manifest_of r
    → get_plugin id r ≡ some p
    → (contains id (plugins_of capability r.capability_map) ≡ true
        → contains capability (manifest_of p).capabilities ≡ true)
      × (contains capability (manifest_of p).capabilities ≡ true
          → contains id (plugins_of capability r.capability_map) ≡ true)
unfolding get_plugin has_capability
listed_of manifest_of capability id p r h found = elim (Option-cases (lookup id r.plugins)) [
  | inl e ↦ absurd (ground arith)
  | inr (f, e) ↦
      let k : IsRecordOf manifest_of id (some f) = rw e at (h.records id) in
      let named : f.plugin ≡ p = ground arith in
      let same : f.manifest ≡ manifest_of p = k.0 ∙ ap manifest_of named in
      let indexed = h.index id capability in (λ there. cc, λ has. cc)
]

-- After any operations on an empty registry, `getPluginsByCapability` lists a plugin exactly when
-- it is registered under some id, enabled, and has the capability in its manifest.
pub registry_serves_exactly :
    (manifest_of : ℕ → Manifest) (os : List Operation) (capability : String) (p : ℕ)
    → let r = operate_all manifest_of os empty_registry in
      (listed p (get_plugins_by_capability capability r) ≡ true
        → (id : String) × (get_plugin id r ≡ some p)
          × (contains capability (manifest_of p).capabilities ≡ true))
      × ((id : String)
          → get_plugin id r ≡ some p
          → contains capability (manifest_of p).capabilities ≡ true
          → listed p (get_plugins_by_capability capability r) ≡ true)
unfolding get_plugins_by_capability has_capability
registry_serves_exactly manifest_of os capability p =
    let r = operate_all manifest_of os empty_registry in
    let h = operate_all-Indexed manifest_of os empty_registry (empty-Indexed manifest_of) in
    let ids = plugins_of capability r.capability_map in
    (
      λ there.
          let (id, indexed, found) = enabled_of-source p ids r there in
          (id, found, (listed_of manifest_of capability id p r h found).0 indexed),
      λ id found has.
          enabled_of-listed p id ids r ((listed_of manifest_of capability id p r h found).1 has)
            found,
    )
