-- ===== src/Collaboration/Conflicts/Parallel.antt =====
-- When the conflict detector warns.
use local_first_se_platform.Base.{
  or_else, ℕ, ◌+◌, ◌≤◌, String, ◌≡◌, refl, ap, ◌∙◌, ◌≢◌, Bool, false, Option, none, some, List, [],
  ◌∷◌, ◌++◌, arith, ltb, if◌then◌else◌, ◌==◌, length, length-append, any, one_if, count, Dict,
  lookup, insert, keys,
}
use local_first_se_platform.Collaboration.Conflicts.{
  ActiveTask, ConflictWarning, push_worker, push_files, push_task, file_to_workers, warnings_of,
  detect_conflicts,
}

-- How often a task of a worker names the file.
abbrev edits_of : String → Option String → List String → ℕ
edits_of f none files = 0
edits_of f (some worker) files = count f files

-- How often the tasks that have a worker name the file.
unfoldable pub edits : String → List ActiveTask → ℕ
unfolding count
edits f [] = 0
edits f (t ∷ ts) = edits_of f t.assigned_worker_id t.target_files + edits f ts

unfoldable edits_in : String → Dict (List String) → ℕ
edits_in f [] = 0
edits_in f ((j, ws) ∷ m) = (if j == f then length ws else 0) + edits_in f m

edits_in-push_worker :
    (f w g : String) (m : Dict (List String))
    → edits_in f (push_worker w g m) ≡ edits_in f m + one_if (g == f)
unfolding edits_in push_worker insert lookup one_if
edits_in-push_worker f w g [] = ground arith
edits_in-push_worker f w g ((j, ws) ∷ m) =
    ground (arith, edits_in-push_worker f w g m, length-append ws (w ∷ []))

keys-insert_other :
    (f g : String) (v : List String) (m : Dict (List String))
    → f ≢ g
    → count f (keys (insert g v m)) ≡ count f (keys m)
unfolding insert count one_if
keys-insert_other f g v [] h = ground arith
keys-insert_other f g v ((j, ws) ∷ m) h = ground (arith, keys-insert_other f g v m h)

keys-insert :
    (f g : String) (v : List String) (m : Dict (List String))
    → count f (keys m) ≤ 1
    → count f (keys (insert g v m)) ≤ 1
unfolding insert count one_if
keys-insert f g v [] h = ground arith
keys-insert f g v ((j, ws) ∷ m) h = ground (arith, keys-insert f g v m, keys-insert_other f g v m)

no_edits : (f : String) (m : Dict (List String)) → count f (keys m) ≡ 0 → edits_in f m ≡ 0
unfolding edits_in count one_if
no_edits f [] h = refl
no_edits f ((j, ws) ∷ m) h = ground (arith, no_edits f m)

abbrev pub warns : String → List ConflictWarning → Bool
warns f ws = any (λ w. w.target_file == f) ws

no_warning :
    (f : String) (m : Dict (List String)) → count f (keys m) ≡ 0 → warns f (warnings_of m) ≡ false
unfolding warnings_of count one_if
no_warning f [] h = refl
no_warning f ((j, ws) ∷ m) h = ground (arith, no_warning f m)

warns-warnings_of :
    (f : String) (m : Dict (List String))
    → count f (keys m) ≤ 1
    → warns f (warnings_of m) ≡ ltb 1 (edits_in f m)
unfolding warnings_of edits_in count one_if
warns-warnings_of f [] h = refl
warns-warnings_of f ((j, ws) ∷ m) h =
    ground (arith, warns-warnings_of f m, no_edits f m, no_warning f m)

push_worker-keys :
    (f w g : String) (m : Dict (List String))
    → count f (keys m) ≤ 1
    → count f (keys (push_worker w g m)) ≤ 1
unfolding push_worker
push_worker-keys f w g m h = keys-insert f g (or_else (lookup g m) [] ++ w ∷ []) m h

push_files-edits :
    (f w : String) (files : List String) (m : Dict (List String))
    → count f (keys m) ≤ 1
    → (edits_in f (push_files w files m) ≡ edits_in f m + count f files)
      × (count f (keys (push_files w files m)) ≤ 1)
unfolding push_files count
push_files-edits f w [] m h = (omega arith, h)
push_files-edits f w (g ∷ gs) m h =
    let (total, once) = push_files-edits f w gs (push_worker w g m) (push_worker-keys f w g m h) in
    (omega (arith, total, edits_in-push_worker f w g m), once)

push_task-edits :
    (f : String) (worker : Option String) (files : List String) (m : Dict (List String))
    → count f (keys m) ≤ 1
    → (edits_in f (push_task worker files m) ≡ edits_in f m + edits_of f worker files)
      × (count f (keys (push_task worker files m)) ≤ 1)
unfolding push_task
push_task-edits f none files m h = (omega arith, h)
push_task-edits f (some worker) files m h = push_files-edits f worker files m h

file_to_workers-edits :
    (f : String) (ts : List ActiveTask) (m : Dict (List String))
    → count f (keys m) ≤ 1
    → (edits_in f (file_to_workers ts m) ≡ edits_in f m + edits f ts)
      × (count f (keys (file_to_workers ts m)) ≤ 1)
unfolding file_to_workers edits
file_to_workers-edits f [] m h = (omega arith, h)
file_to_workers-edits f (t ∷ ts) m h =
    let (here, once) = push_task-edits f t.assigned_worker_id t.target_files m h in
    let (total, still) =
      file_to_workers-edits f ts (push_task t.assigned_worker_id t.target_files m) once in
    (omega (arith, total, here), still)

no_keys : (f : String) → count f [] ≤ 1
unfolding count
no_keys f = omega arith

no_edits_yet : (f : String) → edits_in f [] ≡ 0
unfolding edits_in
no_edits_yet f = refl

-- The detector warns of a file just if the tasks that have a worker name it more than once, be it
-- one worker's task that names it twice or tasks of different workers.
pub detect_conflicts_exact :
    (f : String) (tasks : List ActiveTask)
    → warns f (detect_conflicts tasks) ≡ ltb 1 (edits f tasks)
unfolding detect_conflicts
detect_conflicts_exact f tasks =
    let (total, once) = file_to_workers-edits f tasks [] (no_keys f) in
    warns-warnings_of f (file_to_workers tasks []) once
    ∙ ap (ltb 1) (omega (arith, total, no_edits_yet f))
