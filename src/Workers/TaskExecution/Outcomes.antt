-- ===== src/Workers/TaskExecution/Outcomes.antt =====
-- When a task's execution is reported as completed, and why it fails.
use local_first_se_platform.Base.{String, ◌≡◌, ◌⊎◌, true, false, none, some, [], ◌++◌, take, lookup}
use local_first_se_platform.Workers.Store.{WorkerStore}
use local_first_se_platform.Workers.Workspace.{Mutation, apply_execution_plan}
use local_first_se_platform.Workers.TaskExecution.{
  ok, err, usable, Consultation, consult, no_consultation, completed, failed, Report, Request,
  Engine, World, is_nonempty, raw_response, message_or, places,
}

-- What the questions of a text bring.
abbrev pub consulted : World → Request → WorkerStore → String → Consultation
consulted w request store text =
    consult store request.worker_id w.answer_of (take 3 (w.questions_in text)) no_consultation

abbrev pub no_response : String
no_response = "Reasoning pipeline failed to generate execution response"

abbrev pub no_second_response : String
no_second_response = "Worker could not continue after specialist answers"

-- The text whose files are written: the first response, unless a colleague has answered one of its
-- questions; then the response to the answers.
abbrev pub IsUsed : World → Request → WorkerStore → String → Type 0
IsUsed w request store text =
    (first : String) × (usable no_response w.first ≡ ok first)
    × (let c = consulted w request store first in
        (c.failure ≡ none)
        × (((is_nonempty c.team_answers ≡ false) × (first ≡ text))
            ⊎ ((is_nonempty c.team_answers ≡ true)
                × (usable no_second_response (w.with_answers c.team_answers) ≡ ok text))))

abbrev pub written_files : World → Request → String → Mutation
written_files w request text =
    apply_execution_plan w.write_fails request.workspace (w.files_in text) []

-- A text without file blocks is kept.
abbrev pub kept_text : World → Request → String → Mutation
kept_text w request text =
    apply_execution_plan w.write_fails request.workspace (raw_response request.task_id text) []

abbrev pub not_applied : String
not_applied = "WorkspaceExecutionService failed to apply execution plan"

-- Why an execution fails, with the message of its report.
pub data Reason (w : World) (request : Request) (store : WorkerStore) : String → Type 0 where
  no_first : (m : String) → usable no_response w.first ≡ err m → Reason w request store m
  no_consultation_possible :
      (first m : String)
      → usable no_response w.first ≡ ok first
      → (consulted w request store first).failure ≡ some m
      → Reason w request store m
  no_second :
      (first m : String)
      → usable no_response w.first ≡ ok first
      → (consulted w request store first).failure ≡ none
      → is_nonempty (consulted w request store first).team_answers ≡ true
      → usable no_second_response (w.with_answers (consulted w request store first).team_answers)
        ≡ err m
      → Reason w request store m
  not_written :
      (text : String)
      → IsUsed w request store text
      → is_nonempty (w.files_in text) ≡ true
      → (written_files w request text).success ≡ false
      → Reason w request store (message_or (written_files w request text).error not_applied)
  not_kept :
      (text : String)
      → IsUsed w request store text
      → is_nonempty (w.files_in text) ≡ false
      → (kept_text w request text).success ≡ false
      → Reason w request store (message_or (kept_text w request text).error not_applied)
  no_files :
      (text : String)
      → IsUsed w request store text
      → is_nonempty (w.files_in text) ≡ false
      → (kept_text w request text).success ≡ true
      → Reason w request store "Provider returned no structured file blocks"

-- What a report says, by its status.
abbrev pub Delivered : World → Request → WorkerStore → Engine → Engine → Report → Type 0
Delivered w request store e e' r =
    (text : String) × IsUsed w request store text
    × (is_nonempty (w.files_in text) ≡ true)
    × ((written_files w request text).success ≡ true)
    × (e'.files ≡ e.files ++ (written_files w request text).written)
    × (r.files_created ≡ places (written_files w request text).written)

abbrev pub Explains : World → Request → WorkerStore → Engine → Engine → Report → Type 0
Explains w request store e e' r =
    (r.status ≡ completed → Delivered w request store e e' r)
    × (r.status ≡ failed
        → (r.files_created ≡ []) × ((m : String) × (r.error ≡ some m) × Reason w request store m))
    × (r.execution_id ≡ request.execution_id)
    × (lookup request.execution_id e'.reports ≡ some r)
