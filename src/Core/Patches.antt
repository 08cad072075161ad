-- ===== src/Core/Patches.antt =====
-- src/core/application/services/patch_generator.ts and workspace_updater.ts. Reading and writing a
-- file can throw: for which paths it does is an input.
use local_first_se_platform.Base.{
  String, ◌≡◌, refl, ◌∙◌, ◌≢◌, inl, inr, Bool, true, false, ◌||◌, Option, none, some, List, [], ◌∷◌,
  ◌++◌, arith, if◌then◌else◌, Bool-cases, Option-cases, ◌==◌, find, All, All-append,
}
use local_first_se_platform.Base.Text.{trim, is_empty_text, ends_with}
use local_first_se_platform.Core.Repository.{Files}

pub record ParsedBlock : Type 0 where
  pub file_name : Option String
  pub content : String
  pub language : Option String

pub record FilePatch : Type 0 where
  pub file_name : String
  pub new_content : String

-- The error texts of the program, by their cause.
pub data PatchError : Type 0 where
  no_file_name : PatchError
  not_allowed : String → PatchError

pub record PatchGenerationResult : Type 0 where
  pub success : Bool
  pub patches : List FilePatch
  pub error : Option PatchError

-- `!block.fileName`: an absent name, or an empty one.
abbrev pub given : Option String → Option String
given none = none
given (some name) = if is_empty_text name then none else some name

abbrev pub refuse : PatchError → PatchGenerationResult
refuse e = record { success = false; patches = []; error = some e }

unfoldable pub matched_file : String → List String → Option String
matched_file name workspace_files = find (λ f. f == name || ends_with f name) workspace_files

abbrev pub is_nonempty {ℓ} : {A : Type ℓ} → List A → Bool
is_nonempty [] = false
is_nonempty (x ∷ xs) = true

unfoldable pub generate : List ParsedBlock → List String → List FilePatch → PatchGenerationResult
unfolding matched_file
generate [] workspace_files patches = record {
  success = is_nonempty patches;
  patches = patches;
  error = none;
}
generate (block ∷ blocks) workspace_files patches = elim (given block.file_name) [
  | none ↦ refuse no_file_name
  | some name ↦ elim (matched_file name workspace_files) [
    | none ↦ refuse (not_allowed name)
    | some file ↦
        generate blocks workspace_files
          (patches ++ record { file_name = file; new_content = trim block.content } ∷ [])
  ]
]

-- `generatePatches`
unfoldable pub generate_patches : List ParsedBlock → List String → PatchGenerationResult
unfolding generate
generate_patches blocks workspace_files = generate blocks workspace_files []

-- Where the file system throws: in `mkdirSync` and `readFileSync`, or in `writeFileSync`.
pub record Faults : Type 0 where
  pub read_fails : String → Bool
  pub write_fails : String → Bool

pub record Update : Type 0 where
  pub files : Files
  pub modified_files : List String
  pub files_skipped : List String
  pub success : Bool

abbrev pub write_file : String → String → Files → Files
write_file path content files p = if p == path then some content else files p

-- `readFileSync(p).trim()`, or '' without a file.
abbrev pub current_content : Option String → String
current_content none = ""
current_content (some content) = trim content

-- One patch: the loop goes on unless something throws.
unfoldable pub apply_patch : Faults → FilePatch → Update → Update
apply_patch faults patch u =
    if faults.read_fails patch.file_name
    then record u { success = false }
    else if current_content (u.files patch.file_name) == patch.new_content
    then record u { files_skipped = u.files_skipped ++ patch.file_name ∷ [] }
    else if faults.write_fails patch.file_name
    then record u { success = false }
    else record u {
      files = write_file patch.file_name patch.new_content u.files;
      modified_files = u.modified_files ++ patch.file_name ∷ [];
    }

unfoldable pub apply_patches : Faults → List FilePatch → Update → Update
unfolding apply_patch
apply_patches faults [] u = u
apply_patches faults (patch ∷ patches) u =
    let u' = apply_patch faults patch u in
    let rest = apply_patches faults patches u' in if u'.success then rest else u'

-- `update`
unfoldable pub update : Faults → List FilePatch → Files → Update
unfolding apply_patches
update faults patches files =
    apply_patches faults patches
      (record { files = files; modified_files = []; files_skipped = []; success = true })

-- The patches all write the one file that a sub-task may change.
abbrev pub Targets : String → List FilePatch → Type 0
Targets target patches = All (λ (p : FilePatch). p.file_name ≡ target) patches

matched_file-only :
    (name target file : String) → matched_file name (target ∷ []) ≡ some file → file ≡ target
unfolding matched_file
matched_file-only name target file h = ground arith

generate-Targets :
    (target : String) (blocks : List ParsedBlock) (patches : List FilePatch)
    → Targets target patches
    → Targets target (generate blocks (target ∷ []) patches).patches
unfolding generate
generate-Targets target [] patches h = h
generate-Targets target (block ∷ blocks) patches h = elim (Option-cases (given block.file_name)) [
  | inl missing ↦ rw (missing, generate) tt
  | inr (name, named) ↦ elim (Option-cases (matched_file name (target ∷ []))) [
    | inl refused ↦ rw (named, refused, generate) tt
    | inr (file, allowed) ↦
        rw (named, allowed, generate)
          (generate-Targets target blocks
            (patches ++ record { file_name = file; new_content = trim block.content } ∷ [])
            (All-append _ patches _ h (matched_file-only name target file allowed, tt)))
  ]
]

pub generate_patches-Targets :
    (target : String) (blocks : List ParsedBlock)
    → Targets target (generate_patches blocks (target ∷ [])).patches
unfolding generate_patches
generate_patches-Targets target blocks = generate-Targets target blocks [] tt

apply_patch-elsewhere :
    (faults : Faults) (patch : FilePatch) (u : Update) (p : String)
    → p ≢ patch.file_name
    → (apply_patch faults patch u).files p ≡ u.files p
unfolding apply_patch
apply_patch-elsewhere faults patch u p other = ground arith

apply_patches-elsewhere :
    (target : String) (faults : Faults) (patches : List FilePatch) (u : Update) (p : String)
    → Targets target patches
    → p ≢ target
    → (apply_patches faults patches u).files p ≡ u.files p
unfolding apply_patches
apply_patches-elsewhere target faults [] u p only other = refl
apply_patches-elsewhere target faults (patch ∷ patches) u p only other =
    let here = apply_patch-elsewhere faults patch u p (λ e. other (e ∙ only.0)) in
    let rest =
      apply_patches-elsewhere target faults patches (apply_patch faults patch u) p only.1 other in
    elim (Bool-cases (apply_patch faults patch u).success) [
      | inl goes_on ↦ rw (goes_on, apply_patches) (rest ∙ here)
      | inr stops ↦ rw (stops, apply_patches) here
    ]

-- Updating a workspace by patches of one file leaves all other files as they are.
pub update-elsewhere :
    (target : String) (faults : Faults) (patches : List FilePatch) (files : Files) (p : String)
    → Targets target patches
    → p ≢ target
    → (update faults patches files).files p ≡ files p
unfolding update
update-elsewhere target faults patches files p only other =
    apply_patches-elsewhere target faults patches _ p only other
