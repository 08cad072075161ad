-- ===== src/Collaboration/Conflicts/Tests.antt =====
-- Two tasks that name one file.
use local_first_se_platform.Base.{
  String, ◌≡◌, refl, true, some, List, [], ◌∷◌, ltb, same_id, one_if, count,
}
use local_first_se_platform.Collaboration.Conflicts.{ActiveTask, detect_conflicts}
use local_first_se_platform.Collaboration.Conflicts.Parallel.{edits, warns, detect_conflicts_exact}

abbrev active : String → List ActiveTask
active worker =
    record { id = "a"; target_files = "f" ∷ []; assigned_worker_id = some "w" }
    ∷ record { id = "b"; target_files = "f" ∷ "g" ∷ []; assigned_worker_id = some worker }
    ∷ []

-- One worker with two tasks on a file is warned of as well.
same_worker_is_warned : ltb 1 (edits "f" (active "w")) ≡ true
unfolding edits count one_if same_id
same_worker_is_warned = refl

detect_conflicts_exact_example :
    warns "f" (detect_conflicts (active "v")) ≡ ltb 1 (edits "f" (active "v"))
detect_conflicts_exact_example = detect_conflicts_exact "f" (active "v")
