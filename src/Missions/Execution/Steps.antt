-- ===== src/Missions/Execution/Steps.antt =====
-- Each step of the orchestrator keeps the invariant.
use local_first_se_platform.Base.{
  ◌<◌, String, ◌≡◌, refl, ap, ◌∙◌, false, List, [], arith, one_if, count,
}
use local_first_se_platform.Missions.Plan.{TaskStatus, running, completed, failed, ids, set_status}
use local_first_se_platform.Missions.ReadyQueue.{is_blocked}
use local_first_se_platform.Missions.ReadyQueue.Unlocking.{
  IsDistinct, unlock_ready_tasks-Consistent, unlock_ready_tasks-ids, unlock_ready_tasks-Knows,
}
use local_first_se_platform.Missions.Execution.{
  Execution, dispatch, settle_success, settle_failure, record_success, record_failure, unlock,
}
use local_first_se_platform.Missions.Execution.Inv.{
  begun, Inv, count-without, count-snoc, all_completed_mono, set_status-ids, set_status-Knows,
  set_status-BlockedApart, all_completed-Consistent,
}

module _ (deps : String → List String) (plan_ids : List String)
    (distinct : IsDistinct plan_ids) where
  -- A step that only sets a status.
  set_status-Inv :
      (t : String) (st : TaskStatus) (s : Execution)
      → is_blocked st ≡ false
      → Inv deps plan_ids s
      → Inv deps plan_ids (record s { tasks = set_status t st s.tasks })
  set_status-Inv t st s open_status inv = record {
    knows = set_status-Knows deps t st s.tasks inv.knows;
    same_ids = set_status-ids t st s.tasks ∙ inv.same_ids;
    conserved = inv.conserved;
    consistent = record {
      is_ready = inv.consistent.is_ready;
      apart =
          set_status-BlockedApart t st s.pending_ids s.queue s.tasks open_status
            inv.consistent.apart;
    };
    deps_done = inv.deps_done;
  }

  -- A step that moves a begun task from one list to another.
  move-Inv :
      (s u : Execution)
      → u.tasks ≡ s.tasks
      → u.pending_ids ≡ s.pending_ids
      → u.queue ≡ s.queue
      → u.completed_ids ≡ s.completed_ids
      → ((v : String) → begun v u ≡ begun v s)
      → Inv deps plan_ids s
      → Inv deps plan_ids u
  move-Inv s u same_tasks same_pending same_queue same_completed same_begun inv = record {
    knows = rw same_tasks inv.knows;
    same_ids = ap ids same_tasks ∙ inv.same_ids;
    conserved = λ v. omega (arith, ap (count v) same_pending, same_begun v, inv.conserved v);
    consistent = rw (same_tasks, same_pending, same_queue, same_completed) inv.consistent;
    deps_done = λ v h. rw same_completed (inv.deps_done v (omega (arith, same_begun v)));
  }

  pub dispatch-Inv :
      (t : String) (s : Execution) → Inv deps plan_ids s → Inv deps plan_ids (dispatch t s)
  unfolding dispatch
  dispatch-Inv t s inv = set_status-Inv t running s refl inv

  pub settle_success-Inv :
      (t : String) (s : Execution)
      → 0 < count t s.running_ids
      → Inv deps plan_ids s
      → Inv deps plan_ids (settle_success t s)
  unfolding settle_success one_if
  settle_success-Inv t s listed inv =
      let marked = set_status-Inv t completed s refl inv in
      move-Inv (record s { tasks = set_status t completed s.tasks }) (settle_success t s) refl refl
        refl refl
        (λ v. ground (
          arith,
          count-without v t s.running_ids,
          count-snoc v t s.succeeded_ids,
          inv.conserved v,
          distinct v,
        ))
        marked

  pub settle_failure-Inv :
      (t : String) (s : Execution)
      → 0 < count t s.running_ids
      → Inv deps plan_ids s
      → Inv deps plan_ids (settle_failure t s)
  unfolding settle_failure one_if
  settle_failure-Inv t s listed inv =
      let marked = set_status-Inv t failed s refl inv in
      move-Inv (record s { tasks = set_status t failed s.tasks }) (settle_failure t s) refl refl
        refl refl
        (λ v. ground (
          arith,
          count-without v t s.running_ids,
          count-snoc v t s.failing_ids,
          inv.conserved v,
          distinct v,
        ))
        marked

  pub record_failure-Inv :
      (t : String) (s : Execution)
      → 0 < count t s.failing_ids
      → Inv deps plan_ids s
      → Inv deps plan_ids (record_failure t s)
  unfolding record_failure one_if
  record_failure-Inv t s listed inv =
      move-Inv s (record_failure t s) refl refl refl refl
        (λ v. ground (
          arith,
          count-without v t s.failing_ids,
          count-snoc v t s.failed_ids,
          inv.conserved v,
          distinct v,
        ))
        inv

  pub record_success-Inv :
      (t : String) (s : Execution)
      → 0 < count t s.succeeded_ids
      → Inv deps plan_ids s
      → Inv deps plan_ids (record_success t s)
  unfolding record_success one_if
  record_success-Inv t s listed inv =
      let same : (v : String) → begun v (record_success t s) ≡ begun v s = λ v. ground (
        arith,
        count-without v t s.succeeded_ids,
        count-snoc v t s.completed_ids,
        inv.conserved v,
        distinct v,
      ) in
      record {
        knows = inv.knows;
        same_ids = inv.same_ids;
        conserved = λ v. omega (arith, same v, inv.conserved v);
        consistent =
            all_completed-Consistent deps t s.completed_ids s.pending_ids s.queue s.tasks
              inv.consistent;
        deps_done = λ v h.
            all_completed_mono t s.completed_ids (deps v) (inv.deps_done v (omega (arith, same v)));
      }

  pub unlock-Inv :
      (t : String) (s : Execution) → Inv deps plan_ids s → Inv deps plan_ids (unlock t s)
  unfolding unlock
  unlock-Inv t s inv = record {
    knows = unlock_ready_tasks-Knows deps s.completed_ids s.queue [] s.tasks inv.knows;
    same_ids = unlock_ready_tasks-ids s.completed_ids s.queue [] s.tasks ∙ inv.same_ids;
    conserved = inv.conserved;
    consistent =
        unlock_ready_tasks-Consistent deps s.completed_ids s.pending_ids s.queue [] s.tasks
          inv.knows (rw inv.same_ids distinct) inv.consistent;
    deps_done = inv.deps_done;
  }
