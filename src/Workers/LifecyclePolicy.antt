-- ===== src/Workers/LifecyclePolicy.antt =====
-- src/v2/application/worker/worker_lifecycle_policy.ts. `now` is what `Date.now()` gives.
mod Tests
pub mod Containment
use local_first_se_platform.Base.{
  ℕ, ◌+◌, ◌-◌, ◌*◌, ◌^◌, String, Bool, none, some, List, [], ◌∷◌, ◌++◌, ltb, if◌then◌else◌, ◌==◌,
  length, filter, contains, Dict, lookup, insert, remove, has,
}
use Prim.Native.Nat.{min}
use local_first_se_platform.Base.{or_else}
use local_first_se_platform.Workers.Worker.{Worker, quarantined}

pub record PolicyOptions : Type 0 where
  pub max_crashes_in_window : ℕ
  pub window_ms : ℕ
  pub backoff_base_ms : ℕ
  pub backoff_max_ms : ℕ

abbrev pub default_options : PolicyOptions
default_options = record {
  max_crashes_in_window = 5;
  window_ms = 5 * 60 * 1000;
  backoff_base_ms = 1000;
  backoff_max_ms = 30 * 1000;
}

pub record LifecyclePolicy : Type 0 where
  pub crash_timestamps : Dict (List ℕ)
  pub quarantined_ids : List String

-- What the handler of `WorkerFailed` does before it sleeps.
pub data Decision : Type 0 where
  ignored : Decision
  quarantines : Decision
  restarts_in : ℕ → Decision

abbrev pub timestamps : String → LifecyclePolicy → List ℕ
timestamps id p = or_else (lookup id p.crash_timestamps) []

abbrev pub is_quarantined : String → LifecyclePolicy → Bool
is_quarantined id p = contains id p.quarantined_ids

-- `now - t < windowMs`
abbrev pub in_window : PolicyOptions → ℕ → ℕ → Bool
in_window options now t = ltb now (t + options.window_ms)

pub recent_crashes : PolicyOptions → ℕ → String → LifecyclePolicy → List ℕ
recent_crashes options now id p = filter (in_window options now) (timestamps id p) ++ now ∷ []

pub backoff_ms : PolicyOptions → ℕ → ℕ
backoff_ms options attempt =
    min (options.backoff_base_ms * 2 ^ (attempt - 1)) options.backoff_max_ms

pub on_worker_failed : PolicyOptions → ℕ → String → LifecyclePolicy → LifecyclePolicy × Decision
on_worker_failed options now id p =
    let recent = recent_crashes options now id p in
    let counted = record p { crash_timestamps = insert id recent p.crash_timestamps } in
    if is_quarantined id p
    then (p, ignored)
    else if ltb options.max_crashes_in_window (length recent)
    then (record counted { quarantined_ids = p.quarantined_ids ++ id ∷ [] }, quarantines)
    else (counted, restarts_in (backoff_ms options (length recent)))

-- `worker.processState = 'QUARANTINED'` in the store, where the worker is there.
unfoldable pub mark_quarantined : String → Dict Worker → Dict Worker
mark_quarantined id workers = elim (lookup id workers) [
  | none ↦ workers
  | some w ↦ insert id (record w { process_state = quarantined }) workers
]

-- After the sleep: is the supervisor told to restart the worker?
unfoldable pub restarts_after_sleep : String → Dict Worker → Bool
restarts_after_sleep id workers = has id workers

unfoldable pub get_crash_count : PolicyOptions → ℕ → String → LifecyclePolicy → ℕ
get_crash_count options now id p = length (filter (in_window options now) (timestamps id p))

-- `xs.delete(x)` of a `Set`.
unfoldable pub set_delete : String → List String → List String
set_delete x [] = []
set_delete x (y ∷ ys) = if y == x then set_delete x ys else y ∷ set_delete x ys

unfoldable pub clear_quarantine : String → LifecyclePolicy → LifecyclePolicy
clear_quarantine id p = record {
  crash_timestamps = remove id p.crash_timestamps;
  quarantined_ids = set_delete id p.quarantined_ids;
}
