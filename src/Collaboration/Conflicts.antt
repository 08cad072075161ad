-- ===== src/Collaboration/Conflicts.antt =====
-- src/v2/application/collaboration/conflict_detector.ts. A warning's message is left out. No
-- worker's id is empty.
mod Tests
pub mod Parallel
use local_first_se_platform.Base.{
  or_else, String, Option, none, some, List, [], ◌∷◌, ◌++◌, ltb, if◌then◌else◌, length, contains,
  Dict, lookup, insert,
}

pub record ActiveTask : Type 0 where
  pub id : String
  pub target_files : List String
  pub assigned_worker_id : Option String

-- A warning of the type PARALLEL_FILE_EDIT, the only one that the detector makes.
pub record ConflictWarning : Type 0 where
  pub worker_ids : List String
  pub target_file : String

-- `if (!map.has(file)) map.set(file, []); map.get(file).push(worker)`
unfoldable pub push_worker : String → String → Dict (List String) → Dict (List String)
push_worker worker file m = insert file (or_else (lookup file m) [] ++ worker ∷ []) m

unfoldable pub push_files : String → List String → Dict (List String) → Dict (List String)
unfolding push_worker
push_files worker [] m = m
push_files worker (file ∷ files) m = push_files worker files (push_worker worker file m)

unfoldable pub push_task : Option String → List String → Dict (List String) → Dict (List String)
unfolding push_files
push_task none files m = m
push_task (some worker) files m = push_files worker files m

unfoldable pub file_to_workers : List ActiveTask → Dict (List String) → Dict (List String)
unfolding push_task
file_to_workers [] m = m
file_to_workers (t ∷ ts) m = file_to_workers ts (push_task t.assigned_worker_id t.target_files m)

-- `Array.from(new Set(workers))`, after the elements `seen`.
unfoldable pub distinct_after : List String → List String → List String
distinct_after seen [] = seen
distinct_after seen (x ∷ xs) = distinct_after (if contains x seen then seen else seen ++ x ∷ []) xs

unfoldable pub warnings_of : Dict (List String) → List ConflictWarning
unfolding distinct_after
warnings_of [] = []
warnings_of ((file, workers) ∷ m) =
    let rest = warnings_of m in
    if ltb 1 (length workers)
    then record { worker_ids = distinct_after [] workers; target_file = file } ∷ rest
    else rest

unfoldable pub detect_conflicts : List ActiveTask → List ConflictWarning
unfolding file_to_workers warnings_of
detect_conflicts tasks = warnings_of (file_to_workers tasks [])
