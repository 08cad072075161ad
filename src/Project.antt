-- ===== src/Project.antt =====
-- src/v2/application/project: the life of a project over its runs, its follow-ups and restarts of
-- the program. Plans, results and reports are opaque texts here; what the planner, the mission
-- engine and the orchestrator of missions answer is an input of the strategy. The file system is an
-- input as far as it can refuse to write the history or to copy the output to the user's directory.
-- A project workspace that cannot be created rejects the call of `runProject` before it changes
-- anything, and is left out. Events, the database of projects and the files of the output,
-- whose errors are caught where they arise, are left out.
mod Tests
pub mod Turns
pub mod Restart
use local_first_se_platform.Base.{
  ℕ, ◌/◌, String, Bool, true, false, Option, none, some, List, [], ◌∷◌, ◌++◌, if◌then◌else◌, Dict,
  lookup, insert, remove,
}
use local_first_se_platform.ProjectHistory.{
  ProjectStatus, idle, planning, executing_missions, completed, failed, cancelled, ConversationTurn,
  ProjectState, ProjectResult, Json, array, entries_json, read_entries, items_of,
}
use Prim.Native.String.{◌++◌ as join}
use local_first_se_platform.Base.Text.{is_empty_text}

-- The context that the orchestrator gives to a strategy.
pub record LifecycleContext : Type 0 where
  pub project_id : String
  pub absolute_path : Option String
  pub execution_workspace_path : Option String
  pub is_follow_up : Bool
  pub conversation : List ConversationTurn

-- A strategy returns or throws.
pub data Lifecycle : Type 0 where
  returns : ProjectResult → Lifecycle
  throws : String → Lifecycle

abbrev pub initial_state : String → String → ℕ → ProjectState
initial_state id goal now = record {
  project_id = id;
  goal = goal;
  status = planning;
  execution_plans = [];
  execution_results = [];
  start_time = now;
  end_time = none;
  workspace_path = none;
  execution_workspace_path = none;
  conversation_history = [];
}

-- What the parts that the default strategy calls answer: one of them throws, or the mission is
-- planned and executed.
pub data MissionOutcome : Type 0 where
  fails_before_planning : String → MissionOutcome
  fails_executing : String → String → String → MissionOutcome
  executed : String → String → String → Bool → Dict String → MissionOutcome

abbrev pub end_of : Bool → ProjectStatus
end_of true = completed
end_of false = failed

abbrev pub failed_lifecycle : ProjectState → ℕ → String → ProjectResult
failed_lifecycle state now message = record {
  success = false;
  state = record state { status = failed; end_time = some now };
  summary = message;
  reports = [];
  error = some message;
}

-- `DefaultProjectLifecycleStrategy.executeProjectLifecycle`, which catches every exception.
unfoldable pub execute_project_lifecycle : String → String → ℕ → ℕ → MissionOutcome → ProjectResult
execute_project_lifecycle id goal now later (fails_before_planning message) =
    failed_lifecycle (initial_state id goal now) later message
execute_project_lifecycle id goal now later (fails_executing mission plan message) =
    failed_lifecycle
      (record (initial_state id goal now) { execution_plans = insert mission plan [] }) later
      message
execute_project_lifecycle id goal now later (executed mission plan result success reports) =
    record {
      success = success;
      state = record (initial_state id goal now) {
        status = end_of success;
        execution_plans = insert mission plan [];
        execution_results = insert mission result [];
        end_time = some later;
      };
      summary = result;
      reports = reports;
      error = none;
    }

pub record Orchestrator : Type 0 where
  pub active_projects : Dict ProjectState
  pub project_history : Dict ProjectResult
  -- `project_history.json`, as a tree
  pub state_file : Option Json

-- `persistHistory`: the file gets the history as it is now, unless writing fails.
unfoldable pub persist_history : Bool → Orchestrator → Orchestrator
unfolding entries_json
persist_history writes o = record o {
  state_file = if writes then some (array (entries_json o.project_history)) else o.state_file;
}

abbrev pub default_workspace : String
default_workspace = "./.se_workspaces"

abbrev pub first_some : Option String → Option String → Option String
first_some none o = o
first_some (some a) o = some a

abbrev pub some_or : Option String → String → String
some_or none d = d
some_or (some a) d = a

-- `result.state.workspacePath = ..`, and what follows it: the object in the history is changed.
abbrev pub placed : String → ℕ → Option String → Option String → ProjectResult → ProjectResult
placed goal now target workspace r = record r {
  state = record r.state {
    workspace_path = some (some_or target default_workspace);
    execution_workspace_path = first_some workspace r.state.execution_workspace_path;
    conversation_history = record { goal = goal; timestamp = now; summary = r.summary } ∷ [];
  };
}

abbrev pub started : String → String → ℕ → Option String → Option String → ProjectState
started id goal now target workspace = record (initial_state id goal now) {
  workspace_path = some (some_or target default_workspace);
  execution_workspace_path = workspace;
}

-- The result of a `catch`: `what` is `execution` or `continuation`.
abbrev pub failed_run : String → String → ProjectState → Dict String → ℕ → String → ProjectResult
failed_run id what state reports now message = record {
  success = false;
  state = record state { status = failed; end_time = some now };
  summary = join "Project '" (join id (join "' " (join what (join " failed: " message))));
  reports = reports;
  error = some message;
}

abbrev pub settle : String → ProjectResult → Orchestrator → Orchestrator
settle id r o = record o {
  active_projects = remove id o.active_projects;
  project_history = insert id r o.project_history;
}

-- `syncProjectWorkspace`: it can throw, and then the flag says whether the history can be written
-- again.
pub data Copy : Type 0 where
  copied : Copy
  copy_fails : String → Bool → Copy

-- The output is copied if there is a workspace to copy from, and a directory to copy to.
abbrev pub copy_failure : Copy → Option String → Option String → Option (String × Bool)
copy_failure copied workspace target = none
copy_failure (copy_fails message again) none target = none
copy_failure (copy_fails message again) (some workspace) none = none
copy_failure (copy_fails message again) (some workspace) (some target) = some (message, again)

-- The `catch` of `runProject`.
unfoldable pub fail_project :
    String
    → String
    → ℕ
    → Option String
    → Option String
    → Bool
    → String
    → Orchestrator
    → Orchestrator × ProjectResult
unfolding persist_history
fail_project id goal now target workspace writes message o =
    let r = failed_run id "execution" (started id goal now target workspace) [] now message in
    (persist_history writes (settle id r o), r)

-- `runProject`, after the strategy has been started: `target` is the directory that the user chose,
-- `workspace` the one of the workspace engine.
unfoldable pub finish_project :
    String
    → String
    → ℕ
    → Option String
    → Option String
    → Bool
    → Copy
    → Lifecycle
    → Orchestrator
    → Orchestrator × ProjectResult
unfolding persist_history fail_project
finish_project id goal now target workspace writes copy (returns r) o =
    let persisted = persist_history writes (settle id r o) in
    let r' = placed goal now target workspace r in
    let shown = record persisted { project_history = insert id r' persisted.project_history } in
    elim (copy_failure copy workspace target) [
      | none ↦ (shown, r')
      | some (message, again) ↦ fail_project id goal now target workspace again message shown
    ]
finish_project id goal now target workspace writes copy (throws message) o =
    fail_project id goal now target workspace writes message o

unfoldable pub begin_project :
    String → String → ℕ → Option String → Option String → Orchestrator → Orchestrator
begin_project id goal now target workspace o = record o {
  active_projects = insert id (started id goal now target workspace) o.active_projects;
}

-- `runProject`
unfoldable pub run_project :
    String
    → String
    → ℕ
    → Option String
    → Option String
    → Bool
    → Copy
    → Lifecycle
    → Orchestrator
    → Orchestrator × ProjectResult
unfolding begin_project finish_project
run_project id goal now target workspace writes copy l o =
    finish_project id goal now target workspace writes copy l
      (begin_project id goal now target workspace o)

-- `{ ...old, ...new }`
unfoldable pub merge : Dict String → Dict String → Dict String
merge old [] = old
merge old ((k, v) ∷ new) = merge (insert k v old) new

abbrev pub state_of : Option ProjectResult → Option ProjectState
state_of none = none
state_of (some r) = some r.state

abbrev pub reports_of : Option ProjectResult → Dict String
reports_of none = []
reports_of (some r) = r.reports

abbrev pub prior_of : Option ProjectState → Option ProjectResult → Option ProjectState
prior_of none r = state_of r
prior_of (some s) r = some s

-- `getState`
unfoldable pub get_state : String → Orchestrator → Option ProjectState
get_state id o = prior_of (lookup id o.active_projects) (lookup id o.project_history)

abbrev pub follow_up_context : String → ProjectState → LifecycleContext
follow_up_context id prior = record {
  project_id = id;
  absolute_path = prior.workspace_path;
  execution_workspace_path = prior.execution_workspace_path;
  is_follow_up = true;
  conversation = prior.conversation_history;
}

abbrev pub continued : String → ℕ → ProjectState → Dict String → ProjectResult → ProjectResult
continued goal now prior prior_reports r = record r {
  state = record prior {
    goal = goal;
    status = r.state.status;
    execution_plans = merge prior.execution_plans r.state.execution_plans;
    execution_results = merge prior.execution_results r.state.execution_results;
    end_time = r.state.end_time;
    conversation_history =
        prior.conversation_history
        ++ record { goal = goal; timestamp = now; summary = r.summary } ∷ [];
  };
  reports = merge prior_reports r.reports;
}

-- The state of the answer is FAILED, with no time of its end.
abbrev pub not_found : String → String → ℕ → ProjectResult
not_found id goal now =
    let message =
      join "No existing project found with id '"
        (join id "' to continue. Use runProject() to start one.") in
    record {
      success = false;
      state = record (initial_state id goal now) { status = failed };
      summary = message;
      reports = [];
      error = some message;
    }

unfoldable pub keep_follow_up :
    String → Bool → ProjectResult → Orchestrator → Orchestrator × ProjectResult
unfolding persist_history
keep_follow_up id writes r o =
    (persist_history writes (record o { project_history = insert id r o.project_history }), r)

-- `continueProject`, after the strategy has been started on `prior`.
unfoldable pub finish_follow_up :
    String
    → String
    → ℕ
    → Bool
    → Copy
    → ProjectState
    → Dict String
    → Lifecycle
    → Orchestrator
    → Orchestrator × ProjectResult
unfolding keep_follow_up merge
finish_follow_up id goal now writes copy prior reports (returns r) o =
    let (kept, r') = keep_follow_up id writes (continued goal now prior reports r) o in
    elim (copy_failure copy prior.execution_workspace_path prior.workspace_path) [
      | none ↦ (kept, r')
      | some (message, again) ↦
          keep_follow_up id again (failed_run id "continuation" prior reports now message) kept
    ]
finish_follow_up id goal now writes copy prior reports (throws message) o =
    keep_follow_up id writes (failed_run id "continuation" prior reports now message) o

unfoldable pub continue_from :
    String
    → String
    → ℕ
    → Bool
    → Copy
    → (LifecycleContext → Lifecycle)
    → Option ProjectState
    → Orchestrator
    → Orchestrator × ProjectResult
unfolding finish_follow_up
continue_from id goal now writes copy strategy none o = (o, not_found id goal now)
continue_from id goal now writes copy strategy (some prior) o =
    finish_follow_up id goal now writes copy prior (reports_of (lookup id o.project_history))
      (strategy (follow_up_context id prior)) o

-- `continueProject`
unfoldable pub continue_project :
    String
    → String
    → ℕ
    → Bool
    → Copy
    → (LifecycleContext → Lifecycle)
    → Orchestrator
    → Orchestrator × ProjectResult
unfolding get_state continue_from
continue_project id goal now writes copy strategy o =
    continue_from id goal now writes copy strategy (get_state id o) o

abbrev pub last_key {ℓ} : {V : Type ℓ} → Dict V → Option String
last_key [] = none
last_key ((k, v) ∷ []) = some k
last_key ((k, v) ∷ e ∷ m) = last_key (e ∷ m)

-- `getLatestProjectId`
unfoldable pub get_latest_project_id : Orchestrator → Option String
get_latest_project_id o = first_some (last_key o.active_projects) (last_key o.project_history)

-- `loadHistory`, in a new process: entries without a project id are skipped.
unfoldable pub load_entries : Dict ProjectResult → Dict ProjectResult → Dict ProjectResult
load_entries [] history = history
load_entries ((id, r) ∷ entries) history =
    load_entries entries (if is_empty_text r.state.project_id then history else insert id r history)

-- What is read of the file: a value that is no array throws, and nothing is loaded.
abbrev pub entries_of : Option Json → Dict ProjectResult
entries_of none = []
entries_of (some j) = elim (items_of j) [ none ↦ [] | some items ↦ read_entries items ]

unfoldable pub restart : Orchestrator → Orchestrator
unfolding load_entries read_entries
restart o = record {
  active_projects = [];
  project_history = load_entries (entries_of o.state_file) [];
  state_file = o.state_file;
}
