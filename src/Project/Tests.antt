-- ===== src/Project/Tests.antt =====
-- A project, a follow-up and a restart.
use local_first_se_platform.Base.{
  String, ◌≡◌, refl, ◌≢◌, true, false, none, some, [], ◌∷◌, arith, same_id, length, one_if, count,
  lookup,
}
use local_first_se_platform.Base.Text.{is_empty_text}
use local_first_se_platform.ProjectHistory.{ProjectResult}
use local_first_se_platform.Project.{
  LifecycleContext, Lifecycle, returns, MissionOutcome, executed, execute_project_lifecycle,
  Orchestrator, placed, run_project, reports_of, get_state, follow_up_context, continue_project,
  restart, Copy, copied, copy_fails,
}
use local_first_se_platform.Project.Turns.{FollowedUp, continue_project_follows_up}
use local_first_se_platform.Project.Restart.{
  IsNamed, follow_up_survives_restart, restart_forgets_first_turn,
}

abbrev empty : Orchestrator
empty = record { active_projects = []; project_history = []; state_file = none }

abbrev mission : MissionOutcome
mission = executed "m1" "plan" "done" true (("t1", "ok") ∷ [])

abbrev strategy : LifecycleContext → Lifecycle
strategy c = returns (execute_project_lifecycle c.project_id "add JWT" 3 4 mission)

abbrev disk_full : Copy
disk_full = copy_fails "no space left" true

first : ProjectResult
first = execute_project_lifecycle "p" "API" 1 2 mission

abbrev one_project : Orchestrator
one_project = record {
  active_projects = [];
  project_history = ("p", first) ∷ [];
  state_file = none;
}

one_project-known : get_state "p" one_project ≡ some first.state
unfolding get_state lookup same_id
one_project-known = refl

continue_project_follows_up_example :
    let (o', out) = continue_project "p" "add JWT" 3 true copied strategy one_project in
    FollowedUp "add JWT" 3 first.state
      (reports_of (lookup "p" one_project.project_history))
      (strategy (follow_up_context "p" first.state))
      out
    × (out.state.project_id ≡ first.state.project_id)
    × (out.state.workspace_path ≡ first.state.workspace_path)
    × (out.state.execution_workspace_path ≡ first.state.execution_workspace_path)
    × (lookup "p" o'.project_history ≡ some out)
    × (◌≢◌ {A = String} "p" "q"
        → lookup "q" o'.project_history ≡ lookup "q" one_project.project_history)
continue_project_follows_up_example =
    continue_project_follows_up "p" "add JWT" 3 true copied strategy one_project first.state "q"
      one_project-known

one_project-IsNamed : IsNamed one_project.project_history
unfolding count one_if first execute_project_lifecycle is_empty_text
one_project-IsNamed = record { distinct = λ v. ground arith; with_ids = (refl, tt) }

first-id : is_empty_text first.state.project_id ≡ false
unfolding first execute_project_lifecycle is_empty_text
first-id = refl

follow_up_survives_restart_example :
    let o' = (continue_project "p" "add JWT" 3 true copied strategy one_project).0 in
    lookup "p" (restart o').project_history ≡ lookup "p" o'.project_history
follow_up_survives_restart_example =
    follow_up_survives_restart "p" "add JWT" 3 copied strategy one_project first.state "p"
      one_project-known first-id refl one_project-IsNamed

empty-IsNamed : IsNamed []
unfolding count
empty-IsNamed = record { distinct = λ v. omega arith; with_ids = tt }

restart_forgets_first_turn_example :
    let o' = (run_project "p" "API" 1 (some "/home/x") none true copied (returns first) empty).0 in
    (get_state "p" (restart o') ≡ some first.state)
    × (first.state.workspace_path ≡ none)
    × (first.state.conversation_history ≡ [])
    × (get_state "p" o' ≡ some (placed "API" 1 (some "/home/x") none first).state)
    × (length (placed "API" 1 (some "/home/x") none first).state.conversation_history ≡ 1)
unfolding first is_empty_text
restart_forgets_first_turn_example =
    restart_forgets_first_turn "p" "API" 1 2 (some "/home/x") none mission empty refl empty-IsNamed
