-- ===== src/Collaboration/Ownership/Tests.antt =====
-- One task that is observed twice by the same worker.
use local_first_se_platform.Base.{◌≡◌, refl, none, some, List, [], ◌∷◌, same_id, lookup, insert}
use local_first_se_platform.Collaboration.Ownership.{
  TaskOwnership, assign_owner, add_observer, change_found,
}
use local_first_se_platform.Collaboration.Ownership.Observers.{
  Operation, assigns_owner, adds_observer, perform, perform_all,
}

abbrev operations : List Operation
operations = assigns_owner "t" "w" none ∷ adds_observer "t" "v" ∷ adds_observer "t" "v" ∷ []

abbrev observed : TaskOwnership
observed = record { task_id = "t"; owner_id = "w"; reviewer_id = none; observer_ids = "v" ∷ [] }

observed_once : lookup "t" (perform_all operations []) ≡ some observed
unfolding perform_all perform assign_owner add_observer change_found lookup insert same_id
observed_once = refl
