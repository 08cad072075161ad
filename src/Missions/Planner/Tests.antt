-- ===== src/Missions/Planner/Tests.antt =====
-- The batches of a new mission.
use local_first_se_platform.Base.{◌≡◌, refl, [], ◌∷◌, same_id, lookup, insert, has}
use local_first_se_platform.Missions.Graph.{
  batches, get_execution_batches, add_task, add_dependencies, add_dependency, detect_cycle, drain,
  relax, level, relax_batch, copy_degrees, zero_ids,
}
use local_first_se_platform.Missions.Planner.{
  plan_mission, arch_task, impl_task, test_task, review_task,
}

one_task_per_batch :
    get_execution_batches (plan_mission "m" "g")
    ≡ batches (
        record { batch_number = 1; task_ids = "task-m-arch" ∷ [] }
        ∷ record { batch_number = 2; task_ids = "task-m-impl" ∷ [] }
        ∷ record { batch_number = 3; task_ids = "task-m-test" ∷ [] }
        ∷ record { batch_number = 4; task_ids = "task-m-review" ∷ [] }
        ∷ [])
unfolding plan_mission arch_task impl_task test_task review_task get_execution_batches add_task
    add_dependencies add_dependency detect_cycle drain relax level relax_batch copy_degrees zero_ids
    lookup insert has same_id
one_task_per_batch = refl
