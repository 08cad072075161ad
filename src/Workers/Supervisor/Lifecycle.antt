-- ===== src/Workers/Supervisor/Lifecycle.antt =====
-- What the supervisor's operations do to the workers and to the processes.
use local_first_se_platform.Base.{
  ℕ, ◌+◌, String, ◌≡◌, refl, ◌∙◌, ◌≢◌, Bool, true, false, ◌||◌, none, some, [], ◌∷◌, ◌++◌, arith,
  if◌then◌else◌, ◌==◌, eq_self, Dict, lookup, insert, remove, lookup-insert, lookup-remove,
}
use local_first_se_platform.Workers.Worker.{Worker}
use local_first_se_platform.Workers.Supervisor.{
  Supervisor, Child, Signal, sigterm, sigstop, kill_child, kill_if_fresh, stop_worker, respawn,
  restart_worker, pause_found, pause_worker,
}

kill_if_fresh-workers :
    (id : String) (signal : Signal) (s : Supervisor)
    → (kill_if_fresh id signal s).workers ≡ s.workers
unfolding kill_if_fresh
kill_if_fresh-workers id signal s = ground arith

stop_worker-workers :
    (preserve_log : Bool) (id : String) (s : Supervisor)
    → (stop_worker preserve_log id s).0.workers ≡ remove id s.workers
unfolding stop_worker
stop_worker-workers preserve_log id s = ground (arith, kill_if_fresh-workers id sigterm s)

replaced :
    (k k' j : String) (a b c : Worker) (m : Dict Worker)
    → k' ≡ k
    → lookup j (insert k' a (insert k' b (insert k' c (remove k m))))
      ≡ (if k == j then some a else lookup j m)
replaced k k' j a b c m e =
    rw (lookup-insert, lookup-insert, lookup-insert, lookup-remove) (ground arith)

-- Who is in the store after a respawn.
respawn-lookup :
    (id other : String) (pid now : ℕ) (w : Worker) (s : Supervisor)
    → w.id ≡ id
    → let after = respawn id pid now w s in
      lookup other after.0.workers ≡ (if id == other then some after.1 else lookup other s.workers)
unfolding respawn
respawn-lookup id other pid now w s named =
    rw (stop_worker-workers true id s) (replaced id w.id other _ _ _ s.workers named)

-- A restart of a worker that the store has under its id keeps its business state: provider, token
-- usage, history and crash count stay, the restart count grows by one, and the worker of any other
-- id is as before.
pub restart_worker_keeps :
    (id : String) (pid now : ℕ) (s : Supervisor) (w : Worker)
    → lookup id s.workers ≡ some w
    → w.id ≡ id
    → let after = restart_worker id pid now s in
      (new : Worker) × (after.1 ≡ some new)
      × (lookup id after.0.workers ≡ some new)
      × (new.assigned_provider_id ≡ w.assigned_provider_id)
      × (new.token_usage_total ≡ w.token_usage_total)
      × (new.history ≡ w.history)
      × (new.process.crash_count ≡ w.process.crash_count)
      × (new.process.restart_count ≡ w.process.restart_count + 1)
      × ((other : String) → id ≢ other → lookup other after.0.workers ≡ lookup other s.workers)
unfolding restart_worker respawn
restart_worker_keeps id pid now s w found named =
    let new = (respawn id pid now w s).1 in
    rw (found, restart_worker)
      (
        new,
        refl,
        respawn-lookup id id pid now w s named ∙ rw eq_self,
        refl,
        refl,
        refl,
        refl,
        refl,
        λ other differs. respawn-lookup id other pid now w s named ∙ ground arith,
      )

kill_if_fresh-sent :
    (id : String) (signal : Signal) (s : Supervisor) (c : Child)
    → lookup id s.children ≡ some c
    → (kill_if_fresh id signal s).sent
      ≡ (if c.killed || c.has_exited then s.sent else s.sent ++ (c.pid, signal) ∷ [])
unfolding kill_if_fresh
kill_if_fresh-sent id signal s c found = ground arith

stop_worker-sent :
    (preserve_log : Bool) (id : String) (s : Supervisor)
    → (stop_worker preserve_log id s).0.sent ≡ (kill_if_fresh id sigterm s).sent
unfolding stop_worker
stop_worker-sent preserve_log id s = ground arith

stop_worker-children :
    (preserve_log : Bool) (id : String) (s : Supervisor)
    → (stop_worker preserve_log id s).0.children ≡ remove id (kill_if_fresh id sigterm s).children
unfolding stop_worker
stop_worker-children preserve_log id s = ground arith

-- Stopping a worker whose process runs and has had no signal sends it SIGTERM, once, and forgets
-- the worker and its child; nobody else's worker is touched.
pub stop_worker_terminates :
    (id : String) (s : Supervisor) (c : Child)
    → lookup id s.children ≡ some c
    → c.killed ≡ false
    → c.has_exited ≡ false
    → let after = (stop_worker false id s).0 in
      (after.sent ≡ s.sent ++ (c.pid, sigterm) ∷ [])
      × (lookup id after.workers ≡ none)
      × (lookup id after.children ≡ none)
      × ((other : String) → id ≢ other → lookup other after.workers ≡ lookup other s.workers)
stop_worker_terminates id s c found fresh running = (
  stop_worker-sent false id s ∙ kill_if_fresh-sent id sigterm s c found ∙ rw (fresh, running),
  rw (stop_worker-workers false id s, lookup-remove, eq_self),
  rw (stop_worker-children false id s, lookup-remove, eq_self),
  λ other differs. rw (stop_worker-workers false id s, lookup-remove) (ground arith),
)

pause_found-fresh :
    (id : String) (s : Supervisor) (c : Child) (w : Worker)
    → c.killed ≡ false
    → c.has_exited ≡ false
    → let after = (pause_found id (some c) (some w) s).0 in
      (after.sent ≡ s.sent ++ (c.pid, sigstop) ∷ [])
      × (after.children ≡ insert id (record c { killed = true }) s.children)
unfolding pause_found kill_child
pause_found-fresh id s c w fresh running = (rw (fresh, running), rw (fresh, running))

paused_child :
    (id : String) (s : Supervisor) (c : Child) (w : Worker)
    → lookup id s.children ≡ some c
    → lookup id s.workers ≡ some w
    → c.killed ≡ false
    → c.has_exited ≡ false
    → let after = (pause_worker id s).0 in
      (after.sent ≡ s.sent ++ (c.pid, sigstop) ∷ [])
      × (lookup id after.children ≡ some (record c { killed = true }))
unfolding pause_worker
paused_child id s c w found known fresh running =
    rw (found, known)
      (let (sent, children) = pause_found-fresh id s c w fresh running in
        (sent, rw (children, lookup-insert, eq_self)))

-- A running process that has had no signal, and whose worker is paused and then stopped, gets a
-- SIGSTOP and no SIGTERM, and its child is forgotten: SIGSTOP has set the child's `killed` flag.
pub stop_worker_after_pause :
    (id : String) (s : Supervisor) (c : Child) (w : Worker)
    → lookup id s.children ≡ some c
    → lookup id s.workers ≡ some w
    → c.killed ≡ false
    → c.has_exited ≡ false
    → let after = (stop_worker false id (pause_worker id s).0).0 in
      (after.sent ≡ s.sent ++ (c.pid, sigstop) ∷ []) × (lookup id after.children ≡ none)
stop_worker_after_pause id s c w found known fresh running =
    let (sent, child) = paused_child id s c w found known fresh running in
    let p = (pause_worker id s).0 in
    (
      stop_worker-sent false id p
          ∙ kill_if_fresh-sent id sigterm p (record c { killed = true }) child
          ∙ sent,
      rw (stop_worker-children false id p, lookup-remove, eq_self),
    )
