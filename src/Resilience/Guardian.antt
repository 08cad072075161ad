-- ===== src/Resilience/Guardian.antt =====
-- src/v2/infrastructure/resilience/process_guardian.ts. The process delivers events while the
-- handlers are installed; `exit` is injectable, so a run goes on after it.
mod Tests
pub mod Once
use local_first_se_platform.Base.{
  ℕ, ◌+◌, Bool, true, false, Option, none, some, List, [], ◌∷◌, ◌++◌, if◌then◌else◌,
}

-- The handler that is awaited: `onShutdownSignal` or `onFatalError`.
pub data Drain : Type 0 where
  for_signal for_fatal : Drain

pub record Guardian : Type 0 where
  pub installed : Bool
  pub shutting_down : Bool
  pub draining : Option Drain
  -- How often a handler has been called, and the codes that `exit` was called with.
  pub drains : ℕ
  pub exits : List ℕ

abbrev pub fresh_guardian : Guardian
fresh_guardian = record {
  installed = false;
  shutting_down = false;
  draining = none;
  drains = 0;
  exits = [];
}

unfoldable pub exit : ℕ → Guardian → Guardian
exit code g = record g { exits = g.exits ++ code ∷ [] }

unfoldable pub begin_drain : Drain → Guardian → Guardian
begin_drain d g = record g { shutting_down = true; draining = some d; drains = g.drains + 1 }

-- `runShutdown`, up to its `await`.
unfoldable pub run_shutdown : Guardian → Guardian
unfolding begin_drain
run_shutdown g = if g.shutting_down then g else begin_drain for_signal g

-- `runFatal`, up to its `await`.
unfoldable pub run_fatal : Guardian → Guardian
unfolding begin_drain exit
run_fatal g = if g.shutting_down then exit 1 g else begin_drain for_fatal g

-- The awaited handler resolves, or throws.
unfoldable pub finish_drain : Option Drain → Bool → Guardian → Guardian
unfolding exit
finish_drain none resolves g = g
finish_drain (some for_signal) resolves g =
    exit (if resolves then 0 else 1) (record g { draining = none })
finish_drain (some for_fatal) resolves g = exit 1 (record g { draining = none })

pub data ProcessEvent : Type 0 where
  installs uninstalls gets_signal gets_fatal : ProcessEvent
  drain_ends : Bool → ProcessEvent

unfoldable pub handle : ProcessEvent → Guardian → Guardian
unfolding run_shutdown run_fatal finish_drain
handle installs g = record g { installed = true }
handle uninstalls g = record g { installed = false }
handle gets_signal g = if g.installed then run_shutdown g else g
handle gets_fatal g = if g.installed then run_fatal g else g
handle (drain_ends resolves) g = finish_drain g.draining resolves g

unfoldable pub handle_all : List ProcessEvent → Guardian → Guardian
unfolding handle
handle_all [] g = g
handle_all (e ∷ es) g = handle_all es (handle e g)
