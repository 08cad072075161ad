-- ===== src/Workers/LifecyclePolicy/Tests.antt =====
-- A worker that crashes three times within a window of two crashes.
use local_first_se_platform.Base.{◌≤◌, ◌<◌, ◌≡◌, refl, true, [], ◌∷◌, arith, lookup}
use local_first_se_platform.Workers.LifecyclePolicy.{PolicyOptions, LifecyclePolicy, is_quarantined}
use local_first_se_platform.Workers.LifecyclePolicy.Containment.{restarts, restarts_bounded}

abbrev two_crashes : PolicyOptions
two_crashes = record {
  max_crashes_in_window = 2;
  window_ms = 100;
  backoff_base_ms = 10;
  backoff_max_ms = 50;
}

abbrev no_crashes : LifecyclePolicy
no_crashes = record { crash_timestamps = []; quarantined_ids = [] }

restarts_bounded_example :
    ((restarts two_crashes "w" (5 ∷ 6 ∷ 7 ∷ []) no_crashes).1 ≤ 2)
    × (2 < 3 → is_quarantined "w" (restarts two_crashes "w" (5 ∷ 6 ∷ 7 ∷ []) no_crashes).0 ≡ true)
unfolding lookup
restarts_bounded_example =
    restarts_bounded two_crashes 5 "w" (5 ∷ 6 ∷ 7 ∷ []) no_crashes refl refl
      ((omega arith, omega arith), ((omega arith, omega arith), ((omega arith, omega arith), tt)))
