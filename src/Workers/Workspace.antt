-- ===== src/Workers/Workspace.antt =====
-- src/v2/application/worker/workspace_execution_service.ts, and the paths of
-- execution_response_parser.ts: where a worker's files are written. `path.resolve` is the one of
-- POSIX systems. Writing a file can throw: for which paths it does is an input. Artifacts are kept
-- as their paths.
mod Tests
pub mod Containment
use local_first_se_platform.Base.{
  String, Bool, true, false, ◌&&◌, ◌||◌, Option, none, some, List, [], ◌∷◌, ◌++◌, nat_eq,
  if◌then◌else◌, ◌==◌,
}
use Prim.Native.Char.{Char, code}
use Prim.Native.String.{◌++◌ as join}
use local_first_se_platform.Base.Text.{trim, is_empty_text}

-- `s.startsWith(t)`
unfoldable pub starts_with : String → String → Bool
starts_with s String.[] = true
starts_with String.[] (String.◌∷◌ d t) = false
starts_with (String.◌∷◌ c s) (String.◌∷◌ d t) = nat_eq (code c) (code d) && starts_with s t

-- `s.includes(t)`, for a text that is not empty.
unfoldable pub includes_text : String → String → Bool
unfolding starts_with
includes_text String.[] t = false
includes_text (String.◌∷◌ c s) t = starts_with (String.◌∷◌ c s) t || includes_text s t

-- The first segment of a path, and the others.
unfoldable pub split_path : String → String × List String
split_path String.[] = ("", [])
split_path (String.◌∷◌ c s) =
    let (first, rest) = split_path s in
    if nat_eq (code c) 47 then ("", first ∷ rest) else (String.◌∷◌ c first, rest)

-- The segments of an absolute path, the last one first.
abbrev pub Place : Type 0
Place = List String

-- One segment of `path.resolve`.
unfoldable pub enter : String → Place → Place
enter segment place =
    if segment == "" || segment == "."
    then place
    else if segment == ".."
    then (elim place [ [] ↦ [] | up ∷ above ↦ above ])
    else segment ∷ place

unfoldable pub walk : List String → Place → Place
unfolding enter
walk [] place = place
walk (segment ∷ segments) place = walk segments (enter segment place)

abbrev pub segments_of : String → List String
segments_of s = let (first, rest) = split_path s in first ∷ rest

-- `path.resolve(workspace, relative)`
unfoldable pub resolve : Place → String → Place
unfolding walk split_path starts_with
resolve workspace relative =
    walk (segments_of relative) (if starts_with relative "/" then [] else workspace)

-- The text of an absolute path.
unfoldable pub path_text : Place → String
path_text [] = ""
path_text (segment ∷ above) = join (path_text above) (join "/" segment)

-- `fullPath.startsWith(resolvedWorkspace)`
unfoldable pub passes_check : Place → Place → Bool
unfolding path_text starts_with
passes_check workspace full = starts_with (path_text full) (path_text workspace)

pub record FileMutationSpec : Type 0 where
  pub relative_path : String
  pub content : String

pub record Mutation : Type 0 where
  pub written : List (Place × String)
  pub success : Bool
  pub error : Option String

abbrev pub violation : String → Place → String
violation relative workspace =
    join "Security Violation: Path '"
      (join relative (join "' escapes workspace boundary '" (join (path_text workspace) "'")))

-- `err.message || 'Workspace execution failed'`
abbrev pub stopped : List (Place × String) → String → Mutation
stopped written message = record {
  written = written;
  success = false;
  error = some (if is_empty_text message then "Workspace execution failed" else message);
}

-- The message of the exception that the write of one file throws, if it throws: `fails` has the
-- ones of the file system.
abbrev pub write_error : (Place → Option String) → Place → FileMutationSpec → Option String
write_error fails workspace item =
    if passes_check workspace (resolve workspace item.relative_path)
    then fails (resolve workspace item.relative_path)
    else some (violation item.relative_path workspace)

-- The loop over the files of a plan. An escaping path, or a write that fails, throws; what was
-- written before stays.
unfoldable pub write_all :
    (Place → Option String) → Place → List FileMutationSpec → List (Place × String) → Mutation
unfolding resolve passes_check path_text
write_all fails workspace [] written = record { written = written; success = true; error = none }
write_all fails workspace (item ∷ items) written =
    let full = resolve workspace item.relative_path in
    let rest = write_all fails workspace items (written ++ (full, item.content) ∷ []) in
    elim (write_error fails workspace item) [ none ↦ rest | some message ↦ stopped written message ]

-- `applyExecutionPlan`: the directory of the workspace is made, then the files to create, and then the files to modify.
unfoldable pub apply_execution_plan :
    (Place → Option String) → Place → List FileMutationSpec → List FileMutationSpec → Mutation
unfolding write_all
apply_execution_plan fails workspace to_create to_modify =
    let created = write_all fails workspace to_create [] in
    let modified = write_all fails workspace to_modify created.written in
    elim (fails workspace) [
      | none ↦ if created.success then modified else created
      | some message ↦ stopped [] message
    ]

-- `normalized.replace(/\\/g, '/')`
unfoldable pub slashes : String → String
slashes String.[] = ""
slashes (String.◌∷◌ c s) =
    if nat_eq (code c) 92 then join "/" (slashes s) else String.◌∷◌ c (slashes s)

-- `.replace(/^\.\//, '')`
unfoldable pub drop_dot_slash : String → String
unfolding starts_with
drop_dot_slash String.[] = ""
drop_dot_slash (String.◌∷◌ c String.[]) = String.◌∷◌ c ""
drop_dot_slash (String.◌∷◌ c (String.◌∷◌ d s)) =
    if nat_eq (code c) 46 && nat_eq (code d) 47 then s else String.◌∷◌ c (String.◌∷◌ d s)

-- `sanitizePath`
unfoldable pub sanitize_path : String → Option String
unfolding slashes drop_dot_slash starts_with includes_text
sanitize_path raw =
    let normalized = trim (drop_dot_slash (slashes raw)) in
    if is_empty_text normalized
    then none
    else if starts_with normalized "/" || includes_text normalized ".."
    then none
    else some normalized
