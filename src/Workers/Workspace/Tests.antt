-- ===== src/Workers/Workspace/Tests.antt =====
-- A workspace /ws/a beside a directory /ws/ab.
use local_first_se_platform.Base.{none, ◌≡◌, refl, ◌≢◌, true, some, List, [], ◌∷◌, ◌++◌, same_id}
use local_first_se_platform.Base.Text.{
  trim, trim_start, trim_end, is_space, is_blank, is_empty_text,
}
use local_first_se_platform.Workers.Workspace.{
  starts_with, includes_text, split_path, Place, enter, walk, resolve, path_text, passes_check,
  FileMutationSpec, write_all, apply_execution_plan, drop_dot_slash, slashes, sanitize_path,
}
use local_first_se_platform.Workers.Workspace.Containment.{
  parsed_path_stays_inside, prefix_check_admits_sibling,
}

abbrev workspace : Place
workspace = "a" ∷ "ws" ∷ []

kept : sanitize_path "./src\\x.ts " ≡ some "src/x.ts"
unfolding sanitize_path trim trim_start trim_end is_space is_blank is_empty_text slashes
    drop_dot_slash starts_with includes_text
kept = refl

parsed_path_stays_inside_example :
    ((inner : Place) × (resolve workspace "src/x.ts" ≡ inner ++ workspace))
    × (passes_check workspace (resolve workspace "src/x.ts") ≡ true)
parsed_path_stays_inside_example = parsed_path_stays_inside "./src\\x.ts " "src/x.ts" workspace kept

prefix_check_admits_sibling_example :
    (passes_check workspace ("x.ts" ∷ "ab" ∷ "ws" ∷ []) ≡ true)
    × ((inner : Place) → "x.ts" ∷ "ab" ∷ "ws" ∷ [] ≢ inner ++ workspace)
unfolding is_empty_text
prefix_check_admits_sibling_example = prefix_check_admits_sibling "a" "b" "x.ts" ("ws" ∷ []) refl

-- A plan that is applied, and that writes outside.
abbrev plan : List FileMutationSpec
plan = record { relative_path = "../ab/x.ts"; content = "x" } ∷ []

written_outside :
    apply_execution_plan (λ p. none) workspace plan []
    ≡ record { written = ("x.ts" ∷ "ab" ∷ "ws" ∷ [], "x") ∷ []; success = true; error = none }
unfolding apply_execution_plan write_all resolve passes_check path_text starts_with walk enter
    split_path same_id
written_outside = refl
