-- ===== src/Project/Restart.antt =====
-- What a restart of the program finds of a project.
use local_first_se_platform.Base.{
  Option-cases, Bool, ℕ, ◌+◌, ◌≤◌, ◌<◌, String, ◌≡◌, refl, ap, ◌∙◌, inl, inr, true, false, Option,
  none, some, [], ◌∷◌, arith, if◌then◌else◌, Bool-cases, ◌==◌, eq_self, length, one_if, count, All,
  Dict, lookup, insert, remove, has, keys, lookup-insert, lookup-remove, has-lookup,
}
use local_first_se_platform.Base.Text.{is_empty_text}
use local_first_se_platform.Missions.ReadyQueue.Unlocking.{IsDistinct}
use local_first_se_platform.ProjectHistory.{ProjectState, ProjectResult, array, entries_json}
use local_first_se_platform.ProjectHistory.RoundTrip.{read_entries-json}
use local_first_se_platform.Project.{
  Copy, copy_fails, copy_failure, keep_follow_up, finish_follow_up, failed_run, continued,
  continue_from, continue_project, reports_of, follow_up_context, LifecycleContext, Lifecycle,
  returns, throws, MissionOutcome, fails_before_planning, fails_executing, executed,
  execute_project_lifecycle, Orchestrator, persist_history, placed, started, finish_project,
  begin_project, run_project, reports_of, get_state, load_entries, restart, prior_of, copied,
}

-- A history as the program builds it: each project once, under an id that is not empty.
pub record IsNamed (history : Dict ProjectResult) : Type 0 where
  pub distinct : IsDistinct (keys history)
  pub with_ids : All (λ e. is_empty_text e.1.state.project_id ≡ false) history

count-keys-insert {ℓ} :
    {V : Type ℓ} (v k : String) (w : V) (m : Dict V)
    → count v (keys (insert k w m)) ≤ count v (keys m) + one_if (k == v)
      × (0 < count v (keys m) → count v (keys (insert k w m)) ≡ count v (keys m))
unfolding insert count one_if
count-keys-insert v k w [] = ground arith
count-keys-insert v k w ((j, x) ∷ m) = ground (arith, count-keys-insert v k w m)

abbrev HasId : String × ProjectResult → Type 0
HasId e = is_empty_text e.1.state.project_id ≡ false

insert-HasId :
    (id : String) (r : ProjectResult) (m : Dict ProjectResult)
    → is_empty_text r.state.project_id ≡ false
    → All HasId m
    → All HasId (insert id r m)
unfolding insert
insert-HasId id r [] named h = (named, tt)
insert-HasId id r ((j, x) ∷ m) named h = elim (Bool-cases (j == id)) [
  | inl same ↦ rw same (named, h.1)
  | inr other ↦ rw other (h.0, insert-HasId id r m named h.1)
]

insert-IsNamed :
    (id : String) (r : ProjectResult) (history : Dict ProjectResult)
    → is_empty_text r.state.project_id ≡ false
    → IsNamed history
    → IsNamed (insert id r history)
unfolding one_if
insert-IsNamed id r history named h = record {
  distinct = λ v. ground (arith, h.distinct v, count-keys-insert v id r history);
  with_ids = insert-HasId id r history named h.with_ids;
}

has-count {ℓ} : {V : Type ℓ} (k : String) (m : Dict V) → count k (keys m) ≡ 0 → lookup k m ≡ none
unfolding lookup count one_if
has-count k [] h = refl
has-count k ((j, w) ∷ m) h = ground (arith, has-count k m)

has_of_count {ℓ} : {V : Type ℓ} (k : String) (m : Dict V) → count k (keys m) ≡ 0 → has k m ≡ false
unfolding has count one_if
has_of_count k [] h = refl
has_of_count k ((j, w) ∷ m) h = ground (arith, has_of_count k m)

load_entries-lookup :
    (k : String) (entries history : Dict ProjectResult)
    → All HasId entries
    → IsDistinct (keys entries)
    → lookup k (load_entries entries history)
      ≡ (if has k entries then lookup k entries else lookup k history)
unfolding load_entries has lookup count one_if
load_entries-lookup k [] history named distinct = refl
load_entries-lookup k ((j, r) ∷ entries) history named distinct =
    let rest =
      load_entries-lookup k entries (insert j r history) named.1 (λ v. omega (arith, distinct v)) in
    rw (named.0, load_entries)
      (ground (
        arith,
        rest,
        lookup-insert j k r history,
        distinct j,
        has-count k entries,
        has_of_count k entries,
      ))

-- A restart after the history was written finds the same history.
restart-same :
    (k : String) (o : Orchestrator)
    → o.state_file ≡ some (array (entries_json o.project_history))
    → IsNamed o.project_history
    → lookup k (restart o).project_history ≡ lookup k o.project_history
unfolding restart lookup
restart-same k o written h =
    rw (written, read_entries-json)
      (ground (
        arith,
        load_entries-lookup k o.project_history [] h.with_ids h.distinct,
        has-lookup k o.project_history,
      ))

-- The history can be written again, after a copy that threw.
abbrev pub rewrites : Copy → Bool
rewrites copied = true
rewrites (copy_fails message again) = again

keep-restart :
    (id : String) (r : ProjectResult) (o : Orchestrator) (k : String)
    → is_empty_text r.state.project_id ≡ false
    → IsNamed o.project_history
    → let o' = (keep_follow_up id true r o).0 in
      IsNamed o'.project_history
      × (lookup k (restart o').project_history ≡ lookup k o'.project_history)
unfolding keep_follow_up persist_history
keep-restart id r o k named h =
    let kept = insert-IsNamed id r o.project_history named h in
    (
      kept,
      restart-same k
          (record o {
            project_history = insert id r o.project_history;
            state_file = some (array (entries_json (insert id r o.project_history)));
          })
          refl kept,
    )

again_true :
    (copy : Copy) (workspace target : Option String) (message : String) (again : Bool)
    → rewrites copy ≡ true
    → copy_failure copy workspace target ≡ some (message, again)
    → again ≡ true
again_true copied workspace target message again h e = cc
again_true (copy_fails m a) none target message again h e = cc
again_true (copy_fails m a) (some workspace) none message again h e = cc
again_true (copy_fails m a) (some workspace) (some target) message again h e = cc

finish_follow_up-restart :
    (id goal : String) (now : ℕ) (copy : Copy) (prior : ProjectState) (reports : Dict String)
    (l : Lifecycle) (o : Orchestrator) (k : String)
    → is_empty_text prior.project_id ≡ false
    → rewrites copy ≡ true
    → IsNamed o.project_history
    → let o' = (finish_follow_up id goal now true copy prior reports l o).0 in
      lookup k (restart o').project_history ≡ lookup k o'.project_history
unfolding finish_follow_up
finish_follow_up-restart id goal now copy prior reports (throws message) o k named again h =
    (keep-restart id (failed_run id "continuation" prior reports now message) o k named h).1
finish_follow_up-restart id goal now copy prior reports (returns r) o k named again h =
    let (kept, same) = keep-restart id (continued goal now prior reports r) o k named h in
    elim (Option-cases (copy_failure copy prior.execution_workspace_path prior.workspace_path)) [
      | inl fine ↦ rw (fine, finish_follow_up) same
      | inr ((message, flag), bad) ↦
          let written =
            again_true copy prior.execution_workspace_path prior.workspace_path message flag again
              bad in
          rw (bad, written, finish_follow_up)
            (keep-restart id (failed_run id "continuation" prior reports now message)
              (keep_follow_up id true (continued goal now prior reports r) o).0 k named kept).1
    ]

-- A follow-up survives a restart: if the history could be written, however the strategy and the
-- copy of the output end, and its entries have keys of their own and project ids that are not empty,
-- a new process reads from the file every project as it was after the follow-up.
pub follow_up_survives_restart :
    (id goal : String) (now : ℕ) (copy : Copy) (strategy : LifecycleContext → Lifecycle)
    (o : Orchestrator) (prior : ProjectState) (k : String)
    → get_state id o ≡ some prior
    → is_empty_text prior.project_id ≡ false
    → rewrites copy ≡ true
    → IsNamed o.project_history
    → let o' = (continue_project id goal now true copy strategy o).0 in
      lookup k (restart o').project_history ≡ lookup k o'.project_history
unfolding continue_project continue_from
follow_up_survives_restart id goal now copy strategy o prior k known named again h =
    rw (known, continue_from)
      (finish_follow_up-restart id goal now copy prior (reports_of (lookup id o.project_history))
        (strategy (follow_up_context id prior)) o k named again h)

plain_state :
    (id goal : String) (now later : ℕ) (m : MissionOutcome)
    → let s = (execute_project_lifecycle id goal now later m).state in
      (s.project_id ≡ id) × (s.workspace_path ≡ none) × (s.conversation_history ≡ [])
unfolding execute_project_lifecycle
plain_state id goal now later (fails_before_planning message) = (refl, refl, refl)
plain_state id goal now later (fails_executing mission plan message) = (refl, refl, refl)
plain_state id goal now later (executed mission plan result success reports) = (refl, refl, refl)

prior_of_history :
    (a : Option ProjectState) (h : Option ProjectResult) (r : ProjectResult)
    → a ≡ none
    → h ≡ some r
    → prior_of a h ≡ some r.state
prior_of_history a h r none_active found = rw (none_active, found) refl

lookup-nil {ℓ} : {V : Type ℓ} (k : String) → lookup {V = V} k [] ≡ none
unfolding lookup
lookup-nil k = refl

-- A first run does not survive a restart as a whole, even if the history could be written, the
-- output copied, and the entries have keys of their own and project ids: `runProject` writes the history before it notes
-- the workspace and the first turn, so a new process finds the project of a run with the default
-- strategy without a workspace and without any turn, where the old process has both.
pub restart_forgets_first_turn :
    (id goal : String) (now later : ℕ) (target workspace : Option String) (m : MissionOutcome)
    (o : Orchestrator)
    → is_empty_text id ≡ false
    → IsNamed o.project_history
    → let r = execute_project_lifecycle id goal now later m in
      let o' = (run_project id goal now target workspace true copied (returns r) o).0 in
      (get_state id (restart o') ≡ some r.state)
      × (r.state.workspace_path ≡ none)
      × (r.state.conversation_history ≡ [])
      × (get_state id o' ≡ some (placed goal now target workspace r).state)
      × (length (placed goal now target workspace r).state.conversation_history ≡ 1)
unfolding get_state restart run_project begin_project finish_project persist_history
restart_forgets_first_turn id goal now later target workspace m o named h =
    let r = execute_project_lifecycle id goal now later m in
    let begun = started id goal now target workspace in
    let shown = placed goal now target workspace r in
    let (own_id, no_workspace, no_turn) = plain_state id goal now later m in
    let o1 = record o {
      project_history = insert id r o.project_history;
      state_file = some (array (entries_json (insert id r o.project_history)));
    } in
    let found : lookup id (restart o1).project_history ≡ some r =
      restart-same id o1 refl
        (insert-IsNamed id r o.project_history (ap is_empty_text own_id ∙ named) h)
      ∙ ground (arith, lookup-insert id id r o.project_history, eq_self id) in
    (
      prior_of_history (lookup id []) (lookup id (restart o1).project_history) r (lookup-nil id)
          found,
      no_workspace,
      no_turn,
      prior_of_history (lookup id (remove id (insert id begun o.active_projects)))
          (lookup id (insert id shown (insert id r o.project_history))) shown
          (ground (arith, lookup-remove id id (insert id begun o.active_projects), eq_self id))
          (ground (arith, lookup-insert id id shown (insert id r o.project_history), eq_self id)),
      refl,
    )
