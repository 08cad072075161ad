-- ===== src/Workers/TaskExecution/Tests.antt =====
-- A worker that asks a colleague, and one that answers in prose.
use local_first_se_platform.Base.{
  ◌≡◌, refl, true, none, some, [], ◌∷◌, if◌then◌else◌, same_id, ◌==◌, length,
}
use local_first_se_platform.Workers.Worker.{new_worker, distinct_skills, backend}
use local_first_se_platform.Workers.Store.{WorkerStore, find_by_skill, skilled, has_skill}
use local_first_se_platform.Workers.Workspace.{
  apply_execution_plan, write_all, resolve, walk, enter, split_path, starts_with, passes_check,
  path_text,
}
use local_first_se_platform.Workers.TaskExecution.{
  answers, Question, consult, answered, completed, failed, Request, Engine, World, after_questions,
  deliver, write_result, go_on, execute_task,
}

abbrev store : WorkerStore
store =
    ("ann", new_worker 0 "ann" "Ann" "dev" backend ("backend" ∷ []) none)
    ∷ ("bob", new_worker 0 "bob" "Bob" "dev" backend ("backend" ∷ []) none)
    ∷ []

abbrev question : Question
question = record { id = "q1"; capability = "backend"; question = "which port?" }

abbrev world : World
world = record {
  first = answers true (some "ask") none;
  with_answers = λ given. answers true (some "code") none;
  questions_in = λ text. if text == "ask" then question ∷ [] else [];
  answer_of = λ q. answers true (some " 8080 ") none;
  files_in =
      λ text. if text == "code" then record { relative_path = "a.ts"; content = "x" } ∷ [] else [];
  write_fails = λ p. none;
}

abbrev request : Request
request = record { execution_id = "e1"; task_id = "t1"; worker_id = "ann"; workspace = "ws" ∷ [] }

abbrev engine : Engine
engine = record { reports = []; messages = []; files = [] }

abbrev prose : World
prose = record world { questions_in = λ text. [] }

-- A text without file blocks is kept, and the task fails.
prose_fails :
    ((execute_task prose request store engine).1.status ≡ failed)
    × ((execute_task prose request store engine).1.files_created ≡ [])
    × (length (execute_task prose request store engine).0.files ≡ 1)
unfolding execute_task go_on write_result deliver after_questions consult apply_execution_plan
    write_all resolve walk enter split_path starts_with passes_check path_text same_id
prose_fails = (refl, refl, refl)

asks_bob :
    ((execute_task world request store engine).1.status ≡ completed)
    × ((execute_task world request store engine).0.files ≡ ("a.ts" ∷ "ws" ∷ [], "x") ∷ [])
unfolding execute_task go_on write_result deliver after_questions consult answered
    apply_execution_plan write_all resolve walk enter split_path starts_with passes_check path_text
    same_id find_by_skill skilled has_skill new_worker distinct_skills
asks_bob = (refl, refl)
