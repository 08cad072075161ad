-- ===== src/ProjectHistory.antt =====
-- The state of a project, as src/v2/application/project writes it to project_history.json and reads
-- it again: `JSON.stringify` and `JSON.parse` between the values and the tree of the text. A value
-- that is undefined is left out of its object; an entry that does not have the fields of a result is
-- skipped, and is never written. Plans, results and reports are opaque texts, and times numbers.
pub mod RoundTrip
use local_first_se_platform.Base.{
  ℕ, String, Bool, Option, none, some, List, [], ◌∷◌, if◌then◌else◌, ◌==◌, Dict,
}

pub data ProjectStatus : Type 0 where
  idle planning executing_missions completed failed cancelled : ProjectStatus

pub record ConversationTurn : Type 0 where
  pub goal : String
  pub timestamp : ℕ
  pub summary : String

pub record ProjectState : Type 0 where
  pub project_id : String
  pub goal : String
  pub status : ProjectStatus
  pub execution_plans : Dict String
  pub execution_results : Dict String
  pub start_time : ℕ
  pub end_time : Option ℕ
  pub workspace_path : Option String
  pub execution_workspace_path : Option String
  pub conversation_history : List ConversationTurn

pub record ProjectResult : Type 0 where
  pub success : Bool
  pub state : ProjectState
  pub summary : String
  pub reports : Dict String
  pub error : Option String

mutual
  pub data Json : Type 0 where
    text : String → Json
    number : ℕ → Json
    flag : Bool → Json
    array : Items → Json
    object : Members → Json

  pub data Items : Type 0 where
    no_items : Items
    item : Json → Items → Items

  pub data Members : Type 0 where
    no_members : Members
    member : String → Json → Members → Members

abbrev pub and_then {ℓ κ} : {A : Type ℓ} {B : Type κ} → Option A → (A → Option B) → Option B
and_then none f = none
and_then (some a) f = f a

abbrev pub status_text : ProjectStatus → String
status_text idle = "IDLE"
status_text planning = "PLANNING"
status_text executing_missions = "EXECUTING_MISSIONS"
status_text completed = "COMPLETED"
status_text failed = "FAILED"
status_text cancelled = "CANCELLED"

abbrev pub status_of_text : String → Option ProjectStatus
status_of_text s =
    if s == "IDLE"
    then some idle
    else if s == "PLANNING"
    then some planning
    else if s == "EXECUTING_MISSIONS"
    then some executing_missions
    else if s == "COMPLETED"
    then some completed
    else if s == "FAILED"
    then some failed
    else if s == "CANCELLED"
    then some cancelled
    else none

-- `undefined` is left out.
abbrev pub optional {ℓ} : {A : Type ℓ} → String → (A → Json) → Option A → Members → Members
optional key json none rest = rest
optional key json (some a) rest = member key (json a) rest

unfoldable pub texts_json : Dict String → Members
texts_json [] = no_members
texts_json ((k, v) ∷ m) = member k (text v) (texts_json m)

abbrev pub turn_json : ConversationTurn → Json
turn_json t = object (
    member "goal" (text t.goal)
      (member "timestamp" (number t.timestamp) (member "summary" (text t.summary) no_members)))

unfoldable pub turns_json : List ConversationTurn → Items
turns_json [] = no_items
turns_json (t ∷ ts) = item (turn_json t) (turns_json ts)

unfoldable pub state_json : ProjectState → Json
unfolding texts_json turns_json
state_json s = object (
    member "projectId" (text s.project_id) (
      member "goal" (text s.goal) (
        member "status" (text (status_text s.status)) (
          member "executionPlans" (object (texts_json s.execution_plans)) (
            member "executionResults" (object (texts_json s.execution_results)) (
              member "startTime" (number s.start_time) (
                member "conversationHistory" (array (turns_json s.conversation_history)) (
                  optional "endTime" number s.end_time (
                    optional "workspacePath" text s.workspace_path (
                      optional "executionWorkspacePath" text s.execution_workspace_path
                        no_members))))))))))

unfoldable pub result_json : ProjectResult → Json
unfolding state_json texts_json
result_json r = object (
    member "success" (flag r.success) (
      member "state" (state_json r.state) (
        member "summary" (text r.summary) (
          member "reports" (object (texts_json r.reports))
            (optional "error" text r.error no_members)))))

-- `JSON.stringify(Array.from(history.entries()))`
unfoldable pub entries_json : Dict ProjectResult → Items
unfolding result_json
entries_json [] = no_items
entries_json ((id, r) ∷ m) =
    item (array (item (text id) (item (result_json r) no_items))) (entries_json m)

abbrev pub find_member : String → Members → Option Json
find_member key no_members = none
find_member key (member k j ms) = if k == key then some j else find_member key ms

abbrev pub text_of : Json → Option String
text_of (text s) = some s
text_of _ = none

abbrev pub number_of : Json → Option ℕ
number_of (number n) = some n
number_of _ = none

abbrev pub flag_of : Json → Option Bool
flag_of (flag b) = some b
flag_of _ = none

abbrev pub members_of : Json → Option Members
members_of (object ms) = some ms
members_of _ = none

abbrev pub items_of : Json → Option Items
items_of (array js) = some js
items_of _ = none

-- A field that must be there, and one that may be undefined.
abbrev pub field {ℓ} : {A : Type ℓ} → String → (Json → Option A) → Members → Option A
field key read ms = and_then (find_member key ms) read

abbrev pub maybe_field {ℓ} : {A : Type ℓ} → String → (Json → Option A) → Members → Option (Option A)
maybe_field key read ms = elim (find_member key ms) [
  | none ↦ some none
  | some j ↦ and_then (read j) (λ a. some (some a))
]

unfoldable pub read_texts : Members → Option (Dict String)
read_texts no_members = some []
read_texts (member k j ms) =
    and_then (text_of j) (λ v. and_then (read_texts ms) (λ m. some ((k, v) ∷ m)))

abbrev pub read_turn : Members → Option ConversationTurn
read_turn ms = and_then (field "goal" text_of ms) (λ goal.
    and_then (field "timestamp" number_of ms) (λ time.
      and_then (field "summary" text_of ms)
        (λ summary. some (record { goal = goal; timestamp = time; summary = summary }))))

unfoldable pub read_turns : Items → Option (List ConversationTurn)
read_turns no_items = some []
read_turns (item j js) =
    and_then (members_of j)
      (λ ms. and_then (read_turn ms) (λ t. and_then (read_turns js) (λ ts. some (t ∷ ts))))

abbrev pub texts_of : Json → Option (Dict String)
texts_of j = and_then (members_of j) read_texts

abbrev pub turns_of : Json → Option (List ConversationTurn)
turns_of j = and_then (items_of j) read_turns

unfoldable pub read_state : Members → Option ProjectState
unfolding read_texts read_turns
read_state ms = and_then (field "projectId" text_of ms) (λ id.
    and_then (field "goal" text_of ms) (λ goal.
      and_then (field "status" (λ j. and_then (text_of j) status_of_text) ms) (λ status.
        and_then (field "executionPlans" texts_of ms) (λ plans.
          and_then (field "executionResults" texts_of ms) (λ results.
            and_then (field "startTime" number_of ms) (λ start.
              and_then (field "conversationHistory" turns_of ms) (λ turns.
                and_then (maybe_field "endTime" number_of ms) (λ end_at.
                  and_then (maybe_field "workspacePath" text_of ms) (λ path.
                    and_then (maybe_field "executionWorkspacePath" text_of ms) (λ workspace.
                      some (record {
                        project_id = id;
                        goal = goal;
                        status = status;
                        execution_plans = plans;
                        execution_results = results;
                        start_time = start;
                        end_time = end_at;
                        workspace_path = path;
                        execution_workspace_path = workspace;
                        conversation_history = turns;
                      })))))))))))

unfoldable pub read_result : Json → Option ProjectResult
unfolding read_state read_texts
read_result j = and_then (members_of j) (λ ms. and_then (field "success" flag_of ms) (λ success.
    and_then (field "state" (λ s. and_then (members_of s) read_state) ms) (λ state.
      and_then (field "summary" text_of ms) (λ summary.
        and_then (field "reports" texts_of ms) (λ reports.
          and_then (maybe_field "error" text_of ms) (λ message. some (record {
            success = success;
            state = state;
            summary = summary;
            reports = reports;
            error = message;
          })))))))

abbrev pub read_entry : Json → Option (String × ProjectResult)
read_entry (array (item (text id) (item j no_items))) = and_then (read_result j) (λ r. some (id, r))
read_entry _ = none

abbrev added : Option (String × ProjectResult) → Dict ProjectResult → Dict ProjectResult
added none m = m
added (some e) m = e ∷ m

-- The entries of `JSON.parse(text)`.
unfoldable pub read_entries : Items → Dict ProjectResult
unfolding read_result
read_entries no_items = []
read_entries (item j js) = added (read_entry j) (read_entries js)
