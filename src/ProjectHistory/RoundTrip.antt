-- ===== src/ProjectHistory/RoundTrip.antt =====
-- What is written to project_history.json is read again.
use local_first_se_platform.Base.{
  ℕ, String, ◌≡◌, refl, ap, ◌∙◌, inl, inr, Option-cases, Option, none, some, List, [], ◌∷◌, same_id,
  Dict,
}
use local_first_se_platform.ProjectHistory.{
  ProjectStatus, ConversationTurn, ProjectState, ProjectResult, and_then, status_text,
  status_of_text, optional, texts_json, turns_json, state_json, result_json, entries_json, text_of,
  number_of, members_of, maybe_field, read_texts, read_turns, read_state, read_result, added,
  read_entries, idle, planning, executing_missions, completed, failed, cancelled, Members, text,
  number, no_members,
}

read_texts-json : (m : Dict String) → read_texts (texts_json m) ≡ some m
unfolding read_texts texts_json
read_texts-json [] = refl
read_texts-json ((k, v) ∷ m) = rw (read_texts-json m) refl

read_turns-json : (ts : List ConversationTurn) → read_turns (turns_json ts) ≡ some ts
unfolding read_turns turns_json same_id
read_turns-json [] = refl
read_turns-json (t ∷ ts) = rw (read_turns-json ts) refl

status_of_text-status_text : (s : ProjectStatus) → status_of_text (status_text s) ≡ some s
unfolding same_id
status_of_text-status_text idle = refl
status_of_text-status_text planning = refl
status_of_text-status_text executing_missions = refl
status_of_text-status_text completed = refl
status_of_text-status_text failed = refl
status_of_text-status_text cancelled = refl

abbrev with_options : ProjectState → Option ℕ → Option String → Option String → ProjectState
with_options s end_at path workspace = record s {
  end_time = end_at;
  workspace_path = path;
  execution_workspace_path = workspace;
}

-- The fields of a state that may be undefined.
abbrev read_options : ProjectState → Members → Option ProjectState
read_options s ms = and_then (maybe_field "endTime" number_of ms) (λ end_at.
    and_then (maybe_field "workspacePath" text_of ms) (λ path.
      and_then (maybe_field "executionWorkspacePath" text_of ms)
        (λ workspace. some (with_options s end_at path workspace))))

options_back :
    (s : ProjectState) (a : Option ℕ) (b c : Option String)
    → read_options s (
        optional "endTime" number a
          (optional "workspacePath" text b (optional "executionWorkspacePath" text c no_members)))
      ≡ some (with_options s a b c)
unfolding same_id
options_back s none none none = refl
options_back s none none (some c) = refl
options_back s none (some b) none = refl
options_back s none (some b) (some c) = refl
options_back s (some a) none none = refl
options_back s (some a) none (some c) = refl
options_back s (some a) (some b) none = refl
options_back s (some a) (some b) (some c) = refl

state_back : (s : ProjectState) → and_then (members_of (state_json s)) read_state ≡ some s
unfolding state_json read_state same_id
state_back s =
    rw
      (
        status_of_text-status_text s.status,
        read_texts-json s.execution_plans,
        read_texts-json s.execution_results,
        read_turns-json s.conversation_history,
      )
      (options_back s s.end_time s.workspace_path s.execution_workspace_path)

read_result-json : (r : ProjectResult) → read_result (result_json r) ≡ some r
unfolding result_json read_result same_id
read_result-json r =
    rw (state_back r.state, read_texts-json r.reports)
      (elim (Option-cases r.error) [
        | inl no_message ↦ rw no_message refl
        | inr (message, given) ↦ rw given refl
      ])

entry_back :
    (id : String) (r : ProjectResult)
    → and_then {B = String × ProjectResult} (read_result (result_json r)) (λ r'. some (id, r'))
      ≡ some (id, r)
entry_back id r = rw (read_result-json r) refl

-- What is written is read again.
pub read_entries-json : (m : Dict ProjectResult) → read_entries (entries_json m) ≡ m
unfolding read_entries entries_json
read_entries-json [] = refl
read_entries-json ((id, r) ∷ m) =
    ap (λ e. added e (read_entries (entries_json m))) (entry_back id r)
    ∙ ap (λ rest. (id, r) ∷ rest) (read_entries-json m)
