-- ===== src/Workers/Supervisor.antt =====
-- src/v2/application/runtime/local_process_supervisor.ts. The operating system gives the process
-- ids; a child is told apart from an earlier one of the same worker by its process id. As Node
-- documents it, `child.kill` sets `child.killed` when the signal is sent, whatever the signal.
mod Tests
pub mod Lifecycle
use local_first_se_platform.Base.{
  ℕ, ◌+◌, String, Bool, true, false, not, ◌&&◌, Option, none, some, List, [], ◌∷◌, ◌++◌, nat_eq,
  if◌then◌else◌, ◌==◌, Dict, lookup, insert, remove, has,
}
use local_first_se_platform.Workers.Worker.{
  Department, Worker, ProcessState, idle, paused, crashed, stopped, ProcessMetrics,
}
use local_first_se_platform.Workers.Store.{WorkerStore, register}

pub data Signal : Type 0 where
  sigterm sigkill sigstop sigcont : Signal

pub record Child : Type 0 where
  pub pid : ℕ
  pub killed : Bool
  pub has_exited : Bool

pub data EventType : Type 0 where
  worker_spawned worker_started worker_exited worker_failed worker_stopped worker_removed :
      EventType
  worker_killed worker_restarted worker_paused worker_resumed worker_heartbeat : EventType

pub record WorkerMetadata : Type 0 where
  pub id : String
  pub name : String
  pub role : String
  pub department : Department
  pub skills : List String
  pub cli_profile_path : Option String

pub record Supervisor : Type 0 where
  pub workers : WorkerStore
  pub children : Dict Child
  pub pty_engines : Dict ℕ
  pub terminal_logs : List String
  pub is_supervising : Bool
  -- The signals that reached a process, and the events, in the order in which they were sent.
  pub sent : List (ℕ × Signal)
  pub events : List (EventType × String)

abbrev pub emit : EventType → String → Supervisor → Supervisor
emit e id s = record s { events = s.events ++ (e, id) ∷ [] }

abbrev pub start_supervision : Supervisor → Supervisor
start_supervision s = record s { is_supervising = true }

abbrev pub stop_supervision : Supervisor → Supervisor
stop_supervision s = record s { is_supervising = false }

-- `child.kill(signal)`, for the child of this id.
unfoldable pub kill_child : String → Signal → Child → Supervisor → Supervisor
kill_child id signal c s = if c.has_exited then s else record s {
  children = insert id (record c { killed = true }) s.children;
  sent = s.sent ++ (c.pid, signal) ∷ [];
}

unfoldable pub spawn_worker : WorkerMetadata → ℕ → ℕ → Supervisor → Worker × Supervisor
unfolding register
spawn_worker meta pid now s =
    let (fresh, workers) =
      register now meta.id meta.name meta.role meta.department meta.skills meta.cli_profile_path
        s.workers in
    let worker = record fresh {
      process = record {
        pid = pid;
        restart_count = 0;
        crash_count = 0;
        last_heartbeat = now;
        start_time = now;
      };
      process_state = idle;
    } in
    (
      worker,
      emit worker_started meta.id (
          emit worker_spawned meta.id (record s {
            workers = insert meta.id worker workers;
            children =
                insert meta.id (record { pid = pid; killed = false; has_exited = false })
                  s.children;
            pty_engines = insert meta.id pid s.pty_engines;
          })),
    )

-- A process's own exit with code 0, with another code, or by a signal (code null).
pub data ExitCode : Type 0 where
  success : ExitCode
  failure : ℕ → ExitCode
  by_signal : ExitCode

abbrev pub exited_worker : ExitCode → Worker → Worker
exited_worker (failure code) w =
    let process = w.process in
    record w {
      process = record process { crash_count = process.crash_count + 1 };
      process_state = crashed;
    }
exited_worker success w = record w { process_state = stopped }
exited_worker by_signal w = record w { process_state = stopped }

abbrev pub exit_events : ExitCode → String → Supervisor → Supervisor
exit_events (failure code) id s = emit worker_failed id (emit worker_exited id s)
exit_events success id s = emit worker_exited id s
exit_events by_signal id s = emit worker_exited id s

-- The handler of a child's `exit`. It holds the worker object that was spawned with the child, so
-- it changes the stored worker only if that still runs this child.
unfoldable pub on_exit : String → ℕ → ExitCode → Supervisor → Supervisor
on_exit id pid code s = exit_events code id (elim (lookup id s.children) [
  | none ↦ s
  | some c ↦
      if nat_eq c.pid pid
      then record s {
        children = insert id (record c { has_exited = true }) s.children;
        workers = elim (lookup id s.workers) [
          | none ↦ s.workers
          | some w ↦ insert id (exited_worker code w) s.workers
        ];
      }
      else s
])

-- `if (child && !child.killed) child.kill(signal)`
unfoldable pub kill_if_fresh : String → Signal → Supervisor → Supervisor
unfolding kill_child
kill_if_fresh id signal s = elim (lookup id s.children) [
  | none ↦ s
  | some c ↦ if c.killed then s else kill_child id signal c s
]

abbrev pub without_log : String → List String → List String
without_log id [] = []
without_log id (x ∷ xs) = if x == id then without_log id xs else x ∷ without_log id xs

unfoldable pub stop_worker : Bool → String → Supervisor → Supervisor × Bool
unfolding kill_if_fresh
stop_worker preserve_log id s =
    let signalled = kill_if_fresh id sigterm s in
    let gone = emit worker_stopped id (record signalled {
      children = remove id signalled.children;
      pty_engines = remove id signalled.pty_engines;
      workers = remove id signalled.workers;
    }) in
    let removed = has id s.workers in
    (
      if removed && not preserve_log
          then emit worker_removed id
              (record gone { terminal_logs = without_log id gone.terminal_logs })
          else gone,
      removed,
    )

unfoldable pub kill_worker : String → Supervisor → Supervisor × Bool
unfolding stop_worker
kill_worker id s = stop_worker false id (emit worker_killed id (kill_if_fresh id sigkill s))

abbrev pub metadata_of : Worker → WorkerMetadata
metadata_of w = record {
  id = w.id;
  name = w.name;
  role = w.role;
  department = w.department;
  skills = w.skills;
  cli_profile_path = w.cli_profile_path;
}

-- The fields that `restartWorker` copies onto the new worker.
abbrev pub restored : Worker → Worker → Worker
restored old fresh =
    let process = fresh.process in
    record fresh {
      process = record process {
        restart_count = old.process.restart_count + 1;
        crash_count = old.process.crash_count;
      };
      assigned_provider_id = old.assigned_provider_id;
      history = old.history;
      token_usage_total = old.token_usage_total;
    }

-- `restartWorker`, for a worker that the store has.
unfoldable pub respawn : String → ℕ → ℕ → Worker → Supervisor → Supervisor × Worker
unfolding spawn_worker
respawn id pid now w s =
    let (fresh, spawned) = spawn_worker (metadata_of w) pid now (stop_worker true id s).0 in
    let new = restored w fresh in
    (emit worker_restarted id (record spawned { workers = insert w.id new spawned.workers }), new)

unfoldable pub restart_worker : String → ℕ → ℕ → Supervisor → Supervisor × Option Worker
restart_worker id pid now s = elim (lookup id s.workers) [
  | none ↦ (s, none)
  | some w ↦ let (s', new) = respawn id pid now w s in (s', some new)
]

abbrev pub with_state : String → ProcessState → Worker → Supervisor → Supervisor
with_state id state w s = record s {
  workers = insert id (record w { process_state = state }) s.workers;
}

-- `if (!child || child.killed || !worker) return false`, and what follows it.
unfoldable pub pause_found : String → Option Child → Option Worker → Supervisor → Supervisor × Bool
unfolding kill_child
pause_found id none found s = (s, false)
pause_found id (some c) none s = (s, false)
pause_found id (some c) (some w) s =
    if c.killed
    then (s, false)
    else (emit worker_paused id (with_state id paused w (kill_child id sigstop c s)), true)

unfoldable pub pause_worker : String → Supervisor → Supervisor × Bool
unfolding pause_found
pause_worker id s = pause_found id (lookup id s.children) (lookup id s.workers) s

unfoldable pub resume_worker : String → Supervisor → Supervisor × Bool
unfolding kill_child
resume_worker id s = elim (lookup id s.children) [
  | none ↦ (s, false)
  | some c ↦ elim (lookup id s.workers) [
    | none ↦ (s, false)
    | some w ↦ (emit worker_resumed id (with_state id idle w (kill_child id sigcont c s)), true)
  ]
]

unfoldable pub record_heartbeat : String → ℕ → Supervisor → Supervisor
record_heartbeat id now s = emit worker_heartbeat id (elim (lookup id s.workers) [
  | none ↦ s
  | some w ↦
      let process = w.process in
      record s {
        workers =
            insert id (record w { process = record process { last_heartbeat = now } }) s.workers;
      }
])

abbrev pub is_beating : ProcessState → Bool
is_beating stopped = false
is_beating paused = false
is_beating _ = true

-- The timer's `runHeartbeatCheck`, over the workers listed when it starts.
unfoldable pub run_heartbeat_check : List Worker → ℕ → Supervisor → Supervisor
unfolding record_heartbeat
run_heartbeat_check [] now s = s
run_heartbeat_check (w ∷ ws) now s =
    run_heartbeat_check ws now
      (if is_beating w.process_state then record_heartbeat w.id now s else s)
