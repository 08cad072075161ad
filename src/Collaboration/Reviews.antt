-- ===== src/Collaboration/Reviews.antt =====
-- src/v2/application/collaboration/review_workflow.ts. Times are what the clock gives; a review's
-- id is made of its task and the time.
use local_first_se_platform.Base.{
  ℕ, String, Option, none, some, if◌then◌else◌, ◌==◌, Dict, lookup, insert,
}

pub data ReviewStatus : Type 0 where
  pending approved rejected : ReviewStatus

pub record ReviewRecord : Type 0 where
  pub task_id : String
  pub developer_id : String
  pub reviewer_id : String
  pub status : ReviewStatus
  pub feedback : Option String
  pub timestamp : ℕ

unfoldable pub request_review : String → String → String → ℕ → Dict ReviewRecord → Dict ReviewRecord
request_review task_id developer_id reviewer_id now m =
    insert task_id
      (record {
        task_id = task_id;
        developer_id = developer_id;
        reviewer_id = reviewer_id;
        status = pending;
        feedback = none;
        timestamp = now;
      })
      m

-- A change to the record that the map has for a task, if it has one; the result is the new record.
unfoldable pub update_found :
    (ReviewRecord → ReviewRecord)
    → String
    → Option ReviewRecord
    → Dict ReviewRecord
    → Dict ReviewRecord × Option ReviewRecord
update_found change task_id none m = (m, none)
update_found change task_id (some r) m = (insert task_id (change r) m, some (change r))

-- `if (feedback) record.feedback = feedback`
abbrev pub given_feedback : Option String → Option String → Option String
given_feedback none old = old
given_feedback (some text) old = if text == "" then old else some text

unfoldable pub approve_review :
    String → Option String → ℕ → Dict ReviewRecord → Dict ReviewRecord × Option ReviewRecord
unfolding update_found
approve_review task_id feedback now m =
    update_found
      (λ r. record r {
        status = approved;
        feedback = given_feedback feedback r.feedback;
        timestamp = now;
      })
      task_id (lookup task_id m) m

unfoldable pub reject_review :
    String → String → ℕ → Dict ReviewRecord → Dict ReviewRecord × Option ReviewRecord
unfolding update_found
reject_review task_id feedback now m =
    update_found (λ r. record r { status = rejected; feedback = some feedback; timestamp = now })
      task_id (lookup task_id m) m
