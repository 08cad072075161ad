-- ===== src/Resilience/Guardian/Tests.antt =====
-- A process that gets a second signal and an error while it shuts down.
use local_first_se_platform.Base.{◌+◌, ◌≤◌, ◌≡◌, refl, true, List, [], ◌∷◌, one_if}
use local_first_se_platform.Resilience.Guardian.{
  fresh_guardian, ProcessEvent, installs, gets_signal, gets_fatal, drain_ends, handle, handle_all,
  run_shutdown, run_fatal, finish_drain, begin_drain, exit,
}
use local_first_se_platform.Resilience.Guardian.Once.{
  clean_exits, is_draining, guardian_drains_once,
}

abbrev bad_day : List ProcessEvent
bad_day = installs ∷ gets_signal ∷ gets_signal ∷ gets_fatal ∷ drain_ends true ∷ []

bad_day_exits : (handle_all bad_day fresh_guardian).exits ≡ 1 ∷ 0 ∷ []
unfolding handle_all handle run_shutdown run_fatal finish_drain begin_drain exit
bad_day_exits = refl

guardian_drains_once_example :
    let g = handle_all bad_day fresh_guardian in
    (g.drains ≤ 1) × (clean_exits g.exits + one_if (is_draining g.draining) ≤ g.drains)
guardian_drains_once_example = guardian_drains_once bad_day
