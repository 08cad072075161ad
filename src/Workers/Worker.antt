-- ===== src/Workers/Worker.antt =====
-- src/v2/domain/employees/worker.ts.
pub mod SingleFlight
use local_first_se_platform.Base.{
  ℕ, ◌+◌, String, Bool, true, false, ◌||◌, Option, none, some, List, [], ◌∷◌, ◌++◌, if◌then◌else◌,
  ◌==◌, take, contains,
}

pub data Department : Type 0 where
  backend frontend qa devops architecture documentation research : Department

pub data ProcessState : Type 0 where
  starting idle busy paused crashed stopped quarantined : ProcessState

pub record ProcessMetrics : Type 0 where
  pub pid : ℕ
  pub restart_count : ℕ
  pub crash_count : ℕ
  pub last_heartbeat : ℕ
  pub start_time : ℕ

pub data TaskOutcome : Type 0 where
  completed failed interrupted : TaskOutcome

pub record HistoryEntry : Type 0 where
  pub task_id : String
  pub goal : String
  pub outcome : TaskOutcome
  pub timestamp : ℕ
  pub duration_ms : ℕ
  pub files_touched : List String

pub record ActiveExecution : Type 0 where
  pub execution_id : String
  pub request_id : String
  pub task_id : String
  pub goal : String
  pub plugin_id : String
  pub workspace_path : Option String
  pub started_at : ℕ

abbrev pub max_history_per_worker : ℕ
max_history_per_worker = 25

pub record Worker : Type 0 where
  pub id : String
  pub name : String
  pub role : String
  pub department : Department
  pub skills : List String
  pub cli_profile_path : Option String
  pub process_state : ProcessState
  pub process : ProcessMetrics
  pub assigned_provider_id : Option String
  pub active_execution : Option ActiveExecution
  pub token_usage_total : ℕ
  pub history : List HistoryEntry

-- `[...new Set(xs.filter(Boolean))]`, over the skills in lower case with no blanks around them.
unfoldable pub distinct_skills : List String → List String → List String
distinct_skills seen [] = seen
distinct_skills seen (x ∷ xs) =
    distinct_skills (if x == "" || contains x seen then seen else seen ++ x ∷ []) xs

-- The constructor. `skills` are the given ones after `trim().toLowerCase()`.
unfoldable pub new_worker :
    (now : ℕ) (id name role : String) (department : Department) (skills : List String)
    (cli_profile_path : Option String)
    → Worker
unfolding distinct_skills
new_worker now id name role department skills cli_profile_path = record {
  id = id;
  name = name;
  role = role;
  department = department;
  skills = distinct_skills [] skills;
  cli_profile_path = cli_profile_path;
  process_state = starting;
  process = record {
    pid = 0;
    restart_count = 0;
    crash_count = 0;
    last_heartbeat = now;
    start_time = now;
  };
  assigned_provider_id = none;
  active_execution = none;
  token_usage_total = 0;
  history = [];
}

abbrev pub is_some {ℓ} : {A : Type ℓ} → Option A → Bool
is_some none = false
is_some (some a) = true

abbrev pub is_busy : Worker → Bool
is_busy w = is_some w.active_execution

-- `none` where the method throws.
unfoldable pub begin_execution : ActiveExecution → Worker → Option Worker
begin_execution execution w =
    if is_busy w
    then none
    else some (record w { active_execution = some execution; process_state = busy })

abbrev pub idle_if_busy : ProcessState → ProcessState
idle_if_busy busy = idle
idle_if_busy s = s

pub record CompletionOptions : Type 0 where
  pub duration_ms : ℕ
  pub files_touched : List String
  pub token_usage : ℕ

abbrev pub history_entry : TaskOutcome → CompletionOptions → ℕ → ActiveExecution → HistoryEntry
history_entry outcome opts now e = record {
  task_id = e.task_id;
  goal = e.goal;
  outcome = outcome;
  timestamp = now;
  duration_ms = opts.duration_ms;
  files_touched = opts.files_touched;
}

unfoldable pub complete_execution : TaskOutcome → CompletionOptions → ℕ → Worker → Worker
complete_execution outcome opts now w = elim w.active_execution [
  | none ↦ w
  | some e ↦ record w {
    active_execution = none;
    process_state = idle_if_busy w.process_state;
    token_usage_total = w.token_usage_total + opts.token_usage;
    history = take max_history_per_worker (history_entry outcome opts now e ∷ w.history);
  }
]
