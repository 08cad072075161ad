-- ===== src/Workers/TaskExecution.antt =====
-- src/v2/application/worker/worker_execution_engine.ts: one task, from the provider's text to
-- files. What the reasoning coordinator answers, the file blocks and the questions that a text
-- contains, and the errors of the file system are inputs. Prompts, provider sessions, the shared
-- memory, artifacts, events and times are left out.
mod Tests
pub mod Outcomes
mod Asking
use local_first_se_platform.Base.{
  String, Bool, true, false, not, Option, none, some, List, [], ◌∷◌, ◌++◌, if◌then◌else◌, take,
  Dict, insert,
}
use Prim.Native.String.{◌++◌ as join}
use local_first_se_platform.Base.Text.{is_empty_text, trim}
use local_first_se_platform.Workers.Worker.{Worker}
use local_first_se_platform.Workers.Store.{WorkerStore, find_by_skill}
use local_first_se_platform.Workers.Workspace.{
  Place, FileMutationSpec, Mutation, apply_execution_plan,
}

-- `requestReasoning` rejects, or answers: its success, the text of a response, an error.
pub data Reasoned : Type 0 where
  rejects : String → Reasoned
  answers : Bool → Option String → Option String → Reasoned

-- A value, or an exception.
pub data Result {ℓ} (A : Type ℓ) : Type ℓ where
  ok : A → Result A
  err : String → Result A

abbrev pub message_or : Option String → String → String
message_or none d = d
message_or (some m) d = if is_empty_text m then d else m

-- `if (!res.success || !res.response) throw ..`
abbrev pub usable : String → Reasoned → Result String
usable default (rejects message) = err message
usable default (answers true (some text) e) = ok text
usable default (answers true none e) = err (message_or e default)
usable default (answers false response e) = err (message_or e default)

pub record Question : Type 0 where
  pub id : String
  pub capability : String
  pub question : String

pub data Message : Type 0 where
  asks : (question_id sender recipient text : String) → Message
  replies : (question_id sender recipient text : String) → Message

-- What the worker is told: the trimmed answer, or that there is none.
abbrev pub answer_text : Bool → Option String → Option String → String
answer_text true (some text) e =
    if is_empty_text text
    then join "No answer available: " (message_or e "specialist execution failed")
    else trim text
answer_text true none e = join "No answer available: " (message_or e "specialist execution failed")
answer_text false response e =
    join "No answer available: " (message_or e "specialist execution failed")

pub record Consultation : Type 0 where
  pub messages : List Message
  pub team_answers : List String
  pub failure : Option String

abbrev pub asked : String → Question → Worker → Consultation → Consultation
asked worker_id q recipient c = record c {
  messages = c.messages ++ asks q.id worker_id recipient.id q.question ∷ [];
}

-- The answer of the recipient is handed on; if its reasoning rejects, the task fails.
unfoldable pub answered : String → Question → Worker → Reasoned → Consultation → Consultation
answered worker_id q recipient (rejects message) c = record c { failure = some message }
answered worker_id q recipient (answers success response e) c = record c {
  messages =
      c.messages ++ replies q.id recipient.id worker_id (answer_text success response e) ∷ [];
  team_answers = c.team_answers ++ answer_text success response e ∷ [];
}

abbrev pub failed_already : Option String → Bool
failed_already none = false
failed_already (some message) = true

-- The loop over the questions, of which only the first three are looked at. A question without a
-- worker of the skill is skipped.
unfoldable pub consult :
    WorkerStore → String → (Question → Reasoned) → List Question → Consultation → Consultation
unfolding answered
consult store worker_id answer_of [] c = c
consult store worker_id answer_of (q ∷ qs) c =
    elim (find_by_skill q.capability (worker_id ∷ []) store) [
      | none ↦ consult store worker_id answer_of qs c
      | some recipient ↦
          let c' = answered worker_id q recipient (answer_of q) (asked worker_id q recipient c) in
          let rest = consult store worker_id answer_of qs c' in
          if failed_already c'.failure then c' else rest
    ]

abbrev pub no_consultation : Consultation
no_consultation = record { messages = []; team_answers = []; failure = none }

pub data Status : Type 0 where
  pending preparing_context reasoning planning_mutations executing_mutations collecting_artifacts
        completed failed :
      Status

pub record Report : Type 0 where
  pub execution_id : String
  pub task_id : String
  pub worker_id : String
  pub status : Status
  pub files_created : List Place
  pub error : Option String

pub record Request : Type 0 where
  pub execution_id : String
  pub task_id : String
  pub worker_id : String
  pub workspace : Place

pub record Engine : Type 0 where
  pub reports : Dict Report
  pub messages : List Message
  pub files : List (Place × String)

-- What the world of one execution answers.
pub record World : Type 0 where
  pub first : Reasoned
  pub with_answers : List String → Reasoned
  pub questions_in : String → List Question
  pub answer_of : Question → Reasoned
  pub files_in : String → List FileMutationSpec
  pub write_fails : Place → Option String

abbrev pub is_nonempty {ℓ} : {A : Type ℓ} → List A → Bool
is_nonempty [] = false
is_nonempty (x ∷ xs) = true

-- The text that the execution goes on with, and the messages until then.
unfoldable pub after_questions : World → String → Consultation → Result String
after_questions w text c = elim c.failure [
  | some message ↦ err message
  | none ↦
      if is_nonempty c.team_answers
      then usable "Worker could not continue after specialist answers"
          (w.with_answers c.team_answers)
      else ok text
]

-- The goal and the advice that stand between the two are left out.
abbrev pub raw_response : String → String → List FileMutationSpec
raw_response task_id text =
    record { relative_path = "RESPONSE.md"; content = join "# Task " (join task_id text) } ∷ []

pub record Delivery : Type 0 where
  pub mutation : Mutation
  pub failure : Option String

-- The files of the text are written. A text without file blocks is kept in RESPONSE.md, and is a
-- failure.
unfoldable pub deliver : World → Request → String → Delivery
unfolding apply_execution_plan
deliver w request text =
    let files = w.files_in text in
    let structured = is_nonempty files in
    let m =
      apply_execution_plan w.write_fails request.workspace
        (if structured then files else raw_response request.task_id text) [] in
    record {
      mutation = m;
      failure =
          if not m.success
          then some (message_or m.error "WorkspaceExecutionService failed to apply execution plan")
          else if structured
          then none
          else some "Provider returned no structured file blocks";
    }

abbrev pub places : List (Place × String) → List Place
places [] = []
places ((p, content) ∷ written) = p ∷ places written

abbrev pub report_of : Request → List Place → Option String → Report
report_of request created none = record {
  execution_id = request.execution_id;
  task_id = request.task_id;
  worker_id = request.worker_id;
  status = completed;
  files_created = created;
  error = none;
}
report_of request created (some message) = record {
  execution_id = request.execution_id;
  task_id = request.task_id;
  worker_id = request.worker_id;
  status = failed;
  files_created = [];
  error = some message;
}

abbrev pub file_report : Report → List Message → List (Place × String) → Engine → Engine
file_report r messages written e = record e {
  reports = insert r.execution_id r e.reports;
  messages = e.messages ++ messages;
  files = e.files ++ written;
}

unfoldable pub write_result :
    World → Request → Consultation → Result String → Engine → Engine × Report
unfolding deliver
write_result w request c (err message) e =
    let r = report_of request [] (some message) in (file_report r c.messages [] e, r)
write_result w request c (ok text) e =
    let d = deliver w request text in
    let r = report_of request (places d.mutation.written) d.failure in
    (file_report r c.messages d.mutation.written e, r)

unfoldable pub go_on : World → Request → WorkerStore → Result String → Engine → Engine × Report
unfolding write_result after_questions consult
go_on w request store (err message) e = write_result w request no_consultation (err message) e
go_on w request store (ok text) e =
    let c =
      consult store request.worker_id w.answer_of (take 3 (w.questions_in text)) no_consultation in
    write_result w request c (after_questions w text c) e

-- `executeTask`
unfoldable pub execute_task : World → Request → WorkerStore → Engine → Engine × Report
unfolding go_on
execute_task w request store e =
    go_on w request store
      (usable "Reasoning pipeline failed to generate execution response" w.first) e
