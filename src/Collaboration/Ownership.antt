-- ===== src/Collaboration/Ownership.antt =====
-- src/v2/application/collaboration/task_ownership_manager.ts.
mod Tests
pub mod Observers
use local_first_se_platform.Base.{
  String, Bool, true, false, Option, none, some, List, [], ◌∷◌, ◌++◌, if◌then◌else◌, contains, Dict,
  lookup, insert,
}

pub record TaskOwnership : Type 0 where
  pub task_id : String
  pub owner_id : String
  pub reviewer_id : Option String
  pub observer_ids : List String

unfoldable pub assign_owner :
    String → String → Option String → Dict TaskOwnership → Dict TaskOwnership
assign_owner task_id owner_id reviewer_id m =
    insert task_id
      (record {
        task_id = task_id;
        owner_id = owner_id;
        reviewer_id = reviewer_id;
        observer_ids = [];
      })
      m

-- A change to the ownership that the map has for a task, if it has one.
unfoldable pub change_found :
    (TaskOwnership → TaskOwnership)
    → String
    → Option TaskOwnership
    → Dict TaskOwnership
    → Dict TaskOwnership × Bool
change_found change task_id none m = (m, false)
change_found change task_id (some o) m = (insert task_id (change o) m, true)

unfoldable pub assign_reviewer : String → String → Dict TaskOwnership → Dict TaskOwnership × Bool
unfolding change_found
assign_reviewer task_id reviewer_id m =
    change_found (λ o. record o { reviewer_id = some reviewer_id }) task_id (lookup task_id m) m

unfoldable pub transfer_ownership : String → String → Dict TaskOwnership → Dict TaskOwnership × Bool
unfolding change_found
transfer_ownership task_id new_owner_id m =
    change_found (λ o. record o { owner_id = new_owner_id }) task_id (lookup task_id m) m

abbrev pub with_observer : String → TaskOwnership → TaskOwnership
with_observer observer_id o = record o {
  observer_ids =
      if contains observer_id o.observer_ids
      then o.observer_ids
      else o.observer_ids ++ observer_id ∷ [];
}

unfoldable pub add_observer : String → String → Dict TaskOwnership → Dict TaskOwnership × Bool
unfolding change_found
add_observer task_id observer_id m =
    change_found (with_observer observer_id) task_id (lookup task_id m) m
