-- ===== src/Plugins/Registry/Index.antt =====
-- The capability index of the plugin registry over any operations.
use local_first_se_platform.Base.{
  ℕ, String, ◌≡◌, refl, ap, ◌∙◌, ◌⊎◌, inl, inr, Bool, true, false, not, ◌&&◌, Option, none, some,
  List, [], ◌∷◌, map, arith, if◌then◌else◌, Bool-cases, Option-cases, same_id, is_yes, ◌==◌,
  eq_self, contains, Dict, lookup, insert, lookup-insert, lookup-remove,
}
use local_first_se_platform.Plugins.Capabilities.{plugins_of, set_delete, has_capability}
use local_first_se_platform.Plugins.Capabilities.Membership.{
  contains-set_delete, has_capability-register,
}
use local_first_se_platform.Plugins.Loader.{Manifest, load_plugin}
use local_first_se_platform.Plugins.Registry.{
  PluginRecord, Registry, empty_registry, register, delete_from, unregister_found, unregister,
  set_enabled_found, set_enabled, is_other, load_and_register, Operation, loads, enables, disables,
  unloads, operate, operate_all,
}

abbrev pub lists : String → Option PluginRecord → Bool
lists cap none = false
lists cap (some found) = contains cap found.manifest.capabilities

-- A record is the one of its plugin, under the id of its manifest.
abbrev pub IsRecordOf : (ℕ → Manifest) → String → Option PluginRecord → Type 0
IsRecordOf manifest_of id none = Unit
IsRecordOf manifest_of id (some found) =
    (found.manifest ≡ manifest_of found.plugin) × (found.manifest.id ≡ id)

pub record Indexed (manifest_of : ℕ → Manifest) (r : Registry) : Type 0 where
  pub index :
      (id cap : String) → has_capability id cap r.capability_map ≡ lists cap (lookup id r.plugins)
  pub records : (id : String) → IsRecordOf manifest_of id (lookup id r.plugins)

deleted_one :
    (v cap id c : String) (map : Dict (List String))
    → has_capability v cap
        (elim (lookup c map) [ none ↦ map | some xs ↦ insert c (set_delete id xs) map ])
      ≡ (has_capability v cap map && not (id == v && c == cap))
unfolding has_capability plugins_of
deleted_one v cap id c map = elim (Option-cases (lookup c map)) [
  | inl e ↦ rw e (ground arith)
  | inr (xs, e) ↦
      rw e (ground (arith, lookup-insert c cap (set_delete id xs) map, contains-set_delete v id xs))
]

has_capability-delete_from :
    (v cap id : String) (cs : List String) (map : Dict (List String))
    → has_capability v cap (delete_from id cs map)
      ≡ (has_capability v cap map && not (id == v && contains cap cs))
unfolding delete_from
has_capability-delete_from v cap id [] map = ground arith
has_capability-delete_from v cap id (c ∷ cs) map = ground (
  arith,
  has_capability-delete_from v cap id cs
      (elim (lookup c map) [ none ↦ map | some xs ↦ insert c (set_delete id xs) map ]),
  deleted_one v cap id c map,
)

if-IsRecordOf :
    (manifest_of : ℕ → Manifest) {id other : String} (d : Dec (id ≡ other))
    (x y : Option PluginRecord)
    → (id ≡ other → IsRecordOf manifest_of other x)
    → IsRecordOf manifest_of other y
    → IsRecordOf manifest_of other (if is_yes d then x else y)
if-IsRecordOf manifest_of (yes e) x y h k = h e
if-IsRecordOf manifest_of (no e) x y h k = k

register-Indexed :
    (manifest_of : ℕ → Manifest) (plugin : ℕ) (r : Registry)
    → lookup (manifest_of plugin).id r.plugins ≡ none
      ⊎ ((found : PluginRecord) × (lookup (manifest_of plugin).id r.plugins ≡ some found)
          × (found.manifest ≡ manifest_of plugin))
    → Indexed manifest_of r
    → Indexed manifest_of (register plugin (manifest_of plugin) r)
unfolding register
register-Indexed manifest_of plugin r before h = record { index = index before; records = records }
  where
    m : Manifest
    m = manifest_of plugin

    entry : PluginRecord
    entry = record { plugin = plugin; manifest = m; enabled = true }

    index :
        lookup m.id r.plugins ≡ none
          ⊎ ((found : PluginRecord) × (lookup m.id r.plugins ≡ some found) × (found.manifest ≡ m))
        → (id cap : String)
        → has_capability id cap (register plugin m r).capability_map
          ≡ lists cap (lookup id (insert m.id entry r.plugins))
    index (inl fresh) id cap = ground (
      arith,
      lookup-insert m.id id entry r.plugins,
      h.index id cap,
      has_capability-register id cap m.id m.capabilities r.capability_map,
    )
    index (inr (found, there, same)) id cap = ground (
      arith,
      lookup-insert m.id id entry r.plugins,
      h.index id cap,
      has_capability-register id cap m.id m.capabilities r.capability_map,
    )

    records : (id : String) → IsRecordOf manifest_of id (lookup id (insert m.id entry r.plugins))
    records id = rw (lookup-insert m.id id entry r.plugins) (
        if-IsRecordOf manifest_of (same_id m.id id) (some entry) (lookup id r.plugins)
          (λ e. (refl, e)) (h.records id))

unregister-Indexed :
    (manifest_of : ℕ → Manifest) (id : String) (r : Registry)
    → Indexed manifest_of r
    → Indexed manifest_of (unregister id r).0
unfolding unregister unregister_found
unregister-Indexed manifest_of id r h = elim (Option-cases (lookup id r.plugins)) [
  | inl e ↦ rw (e, unregister_found) h
  | inr (found, e) ↦
      rw (e, unregister_found)
        (record {
          index = λ other cap. ground (
            arith,
            lookup-remove id other r.plugins,
            h.index other cap,
            has_capability-delete_from other cap id found.manifest.capabilities r.capability_map,
          );
          records = λ other. rw (lookup-remove id other r.plugins) (
              if-IsRecordOf manifest_of (same_id id other) none (lookup other r.plugins)
                (λ same. tt) (h.records other));
        })
]

set_enabled-Indexed :
    (manifest_of : ℕ → Manifest) (id : String) (on : Bool) (r : Registry)
    → Indexed manifest_of r
    → Indexed manifest_of (set_enabled id on r).0
unfolding set_enabled set_enabled_found
set_enabled-Indexed manifest_of id on r h = elim (Option-cases (lookup id r.plugins)) [
  | inl e ↦ rw (e, set_enabled_found) h
  | inr (found, e) ↦
      rw (e, set_enabled_found)
        (record {
          index = λ other cap. ground (
            arith,
            lookup-insert id other (record found { enabled = on }) r.plugins,
            h.index other cap,
          );
          records = λ other. rw (lookup-insert id other (record found { enabled = on }) r.plugins) (
              if-IsRecordOf manifest_of (same_id id other) (some (record found { enabled = on }))
                (lookup other r.plugins)
                (λ same.
                  let k : IsRecordOf manifest_of id (some found) = rw e at (h.records id) in
                  (k.0, k.1 ∙ same))
                (h.records other));
        })
]

unregister-free : (id : String) (r : Registry) → lookup id (unregister id r).0.plugins ≡ none
unfolding unregister unregister_found
unregister-free id r = elim (Option-cases (lookup id r.plugins)) [
  | inl e ↦ rw (e, unregister_found) e
  | inr (found, e) ↦
      rw (e, unregister_found) (ground (arith, lookup-remove id id r.plugins, eq_self id))
]

same_plugin :
    (plugin : ℕ) (found : PluginRecord)
    → is_other plugin (some found) ≡ false
    → found.plugin ≡ plugin
same_plugin plugin found h = ground arith

-- After the old plugin has made way, the id is free or it is that of the plugin itself.
makes_way :
    (manifest_of : ℕ → Manifest) (plugin : ℕ) (r : Registry)
    → Indexed manifest_of r
    → let m = manifest_of plugin in
      let r' = if is_other plugin (lookup m.id r.plugins) then (unregister m.id r).0 else r in
      Indexed manifest_of r'
      × (lookup m.id r'.plugins ≡ none
          ⊎ ((found : PluginRecord) × (lookup m.id r'.plugins ≡ some found) × (found.manifest ≡ m)))
makes_way manifest_of plugin r h =
    let id = (manifest_of plugin).id in
    elim (Bool-cases (is_other plugin (lookup id r.plugins))) [
      | inl other ↦ rw other (unregister-Indexed manifest_of id r h, inl (unregister-free id r))
      | inr own ↦ rw own (
        h,
        elim (Option-cases (lookup id r.plugins)) [
          | inl e ↦ inl e
          | inr (found, e) ↦
              let k : IsRecordOf manifest_of id (some found) = rw e at (h.records id) in
              let same = same_plugin plugin found (rw e at own) in
              inr (found, e, k.0 ∙ ap manifest_of same)
        ],
      )
    ]

load_and_register-Indexed :
    (manifest_of : ℕ → Manifest) (plugin : ℕ) (validates initializes : Bool) (r : Registry)
    → Indexed manifest_of r
    → Indexed manifest_of (load_and_register plugin (manifest_of plugin) validates initializes r).0
unfolding load_and_register
load_and_register-Indexed manifest_of plugin validates initializes r h =
    let m = manifest_of plugin in
    let (kept, free) = makes_way manifest_of plugin r h in
    elim (Bool-cases (load_plugin m validates)) [
      | inr bad ↦ rw bad kept
      | inl good ↦ elim (Bool-cases initializes) [
        | inr fails ↦ rw (good, fails) kept
        | inl starts ↦
            rw (good, starts)
              (register-Indexed manifest_of plugin
                (if is_other plugin (lookup m.id r.plugins) then (unregister m.id r).0 else r) free
                kept)
      ]
    ]

operate-Indexed :
    (manifest_of : ℕ → Manifest) (o : Operation) (r : Registry)
    → Indexed manifest_of r
    → Indexed manifest_of (operate manifest_of o r)
unfolding operate
operate-Indexed manifest_of (loads plugin validates initializes) r h =
    load_and_register-Indexed manifest_of plugin validates initializes r h
operate-Indexed manifest_of (enables id) r h = set_enabled-Indexed manifest_of id true r h
operate-Indexed manifest_of (disables id) r h = set_enabled-Indexed manifest_of id false r h
operate-Indexed manifest_of (unloads id) r h = unregister-Indexed manifest_of id r h

pub operate_all-Indexed :
    (manifest_of : ℕ → Manifest) (os : List Operation) (r : Registry)
    → Indexed manifest_of r
    → Indexed manifest_of (operate_all manifest_of os r)
unfolding operate_all
operate_all-Indexed manifest_of [] r h = h
operate_all-Indexed manifest_of (o ∷ os) r h =
    operate_all-Indexed manifest_of os (operate manifest_of o r) (operate-Indexed manifest_of o r h)

pub empty-Indexed : (manifest_of : ℕ → Manifest) → Indexed manifest_of empty_registry
unfolding has_capability plugins_of lookup
empty-Indexed manifest_of = record { index = λ id cap. refl; records = λ id. tt }
