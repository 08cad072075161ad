-- ===== src/Project/Turns.antt =====
-- What a run and a follow-up leave of a project, on every branch.
use local_first_se_platform.Base.{
  ℕ, String, ◌≡◌, refl, ◌∙◌, ◌≢◌, inl, inr, Option-cases, Bool, false, ◌||◌, Option, none, some, [],
  ◌∷◌, ◌++◌, arith, eq_self, length, Dict, lookup, insert, has, lookup-insert, has-insert,
}
use local_first_se_platform.ProjectHistory.{failed, ConversationTurn, ProjectState, ProjectResult}
use local_first_se_platform.Project.{
  LifecycleContext, Lifecycle, returns, throws, Orchestrator, persist_history, failed_run, merge,
  reports_of, get_state, follow_up_context, continued, not_found, continue_from, continue_project,
  Copy, copy_failure, keep_follow_up, finish_follow_up,
}

turn_of : String → ℕ → ProjectResult → ConversationTurn
turn_of goal now r = record { goal = goal; timestamp = now; summary = r.summary }

-- The result of a run by what the strategy did.
abbrev pub Settled : String → ℕ → Lifecycle → ProjectResult → Type 0
Settled goal now (returns r) out =
    (out.success ≡ r.success)
    × (out.reports ≡ r.reports)
    × (length out.state.conversation_history ≡ 1)
Settled goal now (throws message) out =
    (out.success ≡ false)
    × (out.error ≡ some message)
    × (out.state.status ≡ failed)
    × (out.state.conversation_history ≡ [])

-- How a run ends: a copy of the output that throws counts as the strategy's throw.
abbrev pub ending : Option (String × Bool) → Lifecycle → Lifecycle
ending none l = l
ending (some (message, again)) (returns r) = throws message
ending (some (message, again)) (throws first) = throws first

-- What an operation on one project leaves of it, and of another one.
abbrev Leaves : String → String → Orchestrator → Orchestrator → ProjectResult → Type 0
Leaves id other o o' out =
    (has id o'.active_projects ≡ false)
    × (lookup id o'.project_history ≡ some out)
    × (id ≢ other
        → (lookup other o'.active_projects ≡ lookup other o.active_projects)
          × (lookup other o'.project_history ≡ lookup other o.project_history))

has-merge : (k : String) (old new : Dict String) → has k (merge old new) ≡ (has k old || has k new)
unfolding merge has
has-merge k old [] = ground arith
has-merge k old ((j, v) ∷ new) =
    ground (arith, has-merge k (insert j v old) new, has-insert j k v old)

-- What a follow-up leaves, by what the strategy did with its context.
abbrev pub FollowedUp : String → ℕ → ProjectState → Dict String → Lifecycle → ProjectResult → Type 0
FollowedUp goal now prior reports (returns r) out =
    (out.success ≡ r.success)
    × (out.state.conversation_history
        ≡ prior.conversation_history
          ++ record { goal = goal; timestamp = now; summary = r.summary } ∷ [])
    × ((k : String) → has k out.reports ≡ (has k reports || has k r.reports))
FollowedUp goal now prior reports (throws message) out =
    (out.success ≡ false)
    × (out.error ≡ some message)
    × (out.state.conversation_history ≡ prior.conversation_history)
    × (out.reports ≡ reports)

-- What a follow-up keeps of its project, and of another one.
abbrev Keeps : String → String → ProjectState → Orchestrator → Orchestrator → ProjectResult → Type 0
Keeps id other prior o o' out =
    (out.state.project_id ≡ prior.project_id)
    × (out.state.workspace_path ≡ prior.workspace_path)
    × (out.state.execution_workspace_path ≡ prior.execution_workspace_path)
    × (lookup id o'.project_history ≡ some out)
    × (id ≢ other → lookup other o'.project_history ≡ lookup other o.project_history)

keep_follow_up-Keeps :
    (id other : String) (writes : Bool) (prior : ProjectState) (r : ProjectResult)
    (o : Orchestrator)
    → r.state.project_id ≡ prior.project_id
    → r.state.workspace_path ≡ prior.workspace_path
    → r.state.execution_workspace_path ≡ prior.execution_workspace_path
    → Keeps id other prior o (keep_follow_up id writes r o).0 r
unfolding keep_follow_up persist_history
keep_follow_up-Keeps id other writes prior r o a b c = (
  a,
  b,
  c,
  ground (arith, lookup-insert id id r o.project_history, eq_self id),
  λ apart. ground (arith, lookup-insert id other r o.project_history),
)

finish_follow_up-Keeps :
    (id goal : String) (now : ℕ) (writes : Bool) (copy : Copy) (prior : ProjectState)
    (reports : Dict String) (l : Lifecycle) (o : Orchestrator) (other : String)
    → let (o', out) = finish_follow_up id goal now writes copy prior reports l o in
      FollowedUp goal now prior reports
        (ending (copy_failure copy prior.execution_workspace_path prior.workspace_path) l)
        out
      × Keeps id other prior o o' out
unfolding finish_follow_up keep_follow_up
finish_follow_up-Keeps id goal now writes copy prior reports (throws message) o other =
    let kept =
      keep_follow_up-Keeps id other writes prior
        (failed_run id "continuation" prior reports now message) o refl refl refl in
    elim (Option-cases (copy_failure copy prior.execution_workspace_path prior.workspace_path)) [
      | inl fine ↦ rw (fine, finish_follow_up) ((refl, refl, refl, refl), kept)
      | inr (failure, bad) ↦ rw (bad, finish_follow_up) ((refl, refl, refl, refl), kept)
    ]
finish_follow_up-Keeps id goal now writes copy prior reports (returns r) o other =
    let out = continued goal now prior reports r in
    let first = keep_follow_up-Keeps id other writes prior out o refl refl refl in
    elim (Option-cases (copy_failure copy prior.execution_workspace_path prior.workspace_path)) [
      | inl fine ↦
          rw (fine, finish_follow_up) ((refl, refl, λ k. has-merge k reports r.reports), first)
      | inr ((message, again), bad) ↦
          let (_, _, _, _, first_others) = first in
          let (a, b, c, found, others) =
            keep_follow_up-Keeps id other again prior
              (failed_run id "continuation" prior reports now message)
              (keep_follow_up id writes out o).0 refl refl refl in
          rw (bad, finish_follow_up)
            ((refl, refl, refl, refl), (a, b, c, found, λ apart. others apart ∙ first_others apart))
    ]

-- A follow-up of a project that is known adds one turn to its conversation and its reports to the
-- former ones, or, if the strategy or the copy of the output throws, keeps both and fails; the
-- project keeps its id and its two workspaces, the history has what the caller is given, and no
-- other project is touched.
pub continue_project_follows_up :
    (id goal : String) (now : ℕ) (writes : Bool) (copy : Copy)
    (strategy : LifecycleContext → Lifecycle) (o : Orchestrator) (prior : ProjectState)
    (other : String)
    → get_state id o ≡ some prior
    → let (o', out) = continue_project id goal now writes copy strategy o in
      FollowedUp goal now prior
        (reports_of (lookup id o.project_history))
        (ending
          (copy_failure copy prior.execution_workspace_path prior.workspace_path)
          (strategy (follow_up_context id prior)))
        out
      × (out.state.project_id ≡ prior.project_id)
      × (out.state.workspace_path ≡ prior.workspace_path)
      × (out.state.execution_workspace_path ≡ prior.execution_workspace_path)
      × (lookup id o'.project_history ≡ some out)
      × (id ≢ other → lookup other o'.project_history ≡ lookup other o.project_history)
unfolding continue_project continue_from
continue_project_follows_up id goal now writes copy strategy o prior other known =
    let (followed, kept) =
      finish_follow_up-Keeps id goal now writes copy prior
        (reports_of (lookup id o.project_history)) (strategy (follow_up_context id prior)) o
        other in
    let (a, b, c, found, others) = kept in
    rw (known, continue_from) (followed, a, b, c, found, others)

-- A follow-up of a project that is not known changes nothing and fails.
pub continue_project_unknown :
    (id goal : String) (now : ℕ) (writes : Bool) (copy : Copy)
    (strategy : LifecycleContext → Lifecycle) (o : Orchestrator)
    → get_state id o ≡ none
    → continue_project id goal now writes copy strategy o ≡ (o, not_found id goal now)
unfolding continue_project continue_from
continue_project_unknown id goal now writes copy strategy o unknown =
    rw (unknown, continue_from) refl
