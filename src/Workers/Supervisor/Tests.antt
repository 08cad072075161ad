-- ===== src/Workers/Supervisor/Tests.antt =====
-- A supervisor with one worker.
use local_first_se_platform.Base.{◌≡◌, refl, true, false, none, some, [], ◌∷◌, same_id, lookup}
use local_first_se_platform.Workers.Worker.{Worker, backend, new_worker}
use local_first_se_platform.Workers.Supervisor.{
  Supervisor, Child, sigstop, stop_worker, pause_worker,
}
use local_first_se_platform.Workers.Supervisor.Lifecycle.{stop_worker_after_pause}

abbrev ada : Worker
ada = new_worker 0 "w" "Ada" "Engineer" backend [] none

abbrev child : Child
child = record { pid = 7; killed = false; has_exited = false }

abbrev supervisor : Supervisor
supervisor = record {
  workers = ("w", ada) ∷ [];
  children = ("w", child) ∷ [];
  pty_engines = ("w", 7) ∷ [];
  terminal_logs = [];
  is_supervising = true;
  sent = [];
  events = [];
}

child_known : lookup "w" supervisor.children ≡ some child
unfolding lookup same_id
child_known = refl

worker_known : lookup "w" supervisor.workers ≡ some ada
unfolding lookup same_id
worker_known = refl

stop_worker_after_pause_example :
    let after = (stop_worker false "w" (pause_worker "w" supervisor).0).0 in
    (after.sent ≡ (7, sigstop) ∷ []) × (lookup "w" after.children ≡ none)
stop_worker_after_pause_example =
    stop_worker_after_pause "w" supervisor child ada child_known worker_known refl refl
