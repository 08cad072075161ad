-- ===== src/Resilience/Guardian/Once.antt =====
-- A guardian drains once, whatever the process goes through.
use local_first_se_platform.Base.{
  ℕ, zero, suc, ◌+◌, ◌≤◌, ◌≡◌, refl, Bool, true, false, Option, none, some, List, [], ◌∷◌, ◌++◌,
  arith, if◌then◌else◌, one_if,
}
use local_first_se_platform.Resilience.Guardian.{
  Drain, for_signal, for_fatal, Guardian, fresh_guardian, exit, begin_drain, run_shutdown,
  run_fatal, finish_drain, ProcessEvent, installs, uninstalls, gets_signal, gets_fatal, drain_ends,
  handle, handle_all,
}

unfoldable pub clean_exits : List ℕ → ℕ
clean_exits [] = 0
clean_exits (zero ∷ xs) = 1 + clean_exits xs
clean_exits (suc n ∷ xs) = clean_exits xs

abbrev pub is_draining : Option Drain → Bool
is_draining none = false
is_draining (some d) = true

clean_exits-append :
    (xs : List ℕ) (code : ℕ)
    → clean_exits (xs ++ code ∷ []) ≡ clean_exits xs + clean_exits (code ∷ [])
unfolding clean_exits
clean_exits-append [] zero = refl
clean_exits-append [] (suc n) = refl
clean_exits-append (zero ∷ xs) code = omega (arith, clean_exits-append xs code)
clean_exits-append (suc n ∷ xs) code = clean_exits-append xs code

record IsSingle (g : Guardian) : Type 0 where
  counted : g.drains ≡ one_if g.shutting_down
  owed : clean_exits g.exits + one_if (is_draining g.draining) ≤ g.drains

one_if-le : (b : Bool) → one_if b ≤ 1
unfolding one_if
one_if-le true = omega arith
one_if-le false = omega arith

clean_exit-le : (n : ℕ) → clean_exits (n ∷ []) ≤ 1
unfolding clean_exits
clean_exit-le zero = omega arith
clean_exit-le (suc n) = omega arith

failed_exit : clean_exits (1 ∷ []) ≡ 0
unfolding clean_exits
failed_exit = refl

exit-IsSingle :
    (code : ℕ) (g : Guardian)
    → g.drains ≡ one_if g.shutting_down
    → clean_exits g.exits + clean_exits (code ∷ []) + one_if (is_draining g.draining) ≤ g.drains
    → IsSingle (exit code g)
unfolding exit
exit-IsSingle code g counted owed = record {
  counted = counted;
  owed = omega (arith, clean_exits-append g.exits code);
}

begin_drain-IsSingle :
    (d : Drain) (g : Guardian) → g.shutting_down ≡ false → IsSingle g → IsSingle (begin_drain d g)
unfolding begin_drain one_if
begin_drain-IsSingle d g fresh h =
    let none_yet : one_if g.shutting_down ≡ 0 = rw fresh refl in
    record { counted = omega (arith, h.counted); owed = omega (arith, h.counted, h.owed) }

drain_counts :
    (g : Guardian) (d : Drain) → g.draining ≡ some d → one_if (is_draining g.draining) ≡ 1
unfolding one_if
drain_counts g d e = rw e refl

idle_counts : one_if (is_draining none) ≡ 0
unfolding one_if
idle_counts = refl

finish_drain-IsSingle :
    (d : Option Drain) (resolves : Bool) (g : Guardian)
    → g.draining ≡ d
    → IsSingle g
    → IsSingle (finish_drain d resolves g)
unfolding finish_drain
finish_drain-IsSingle none resolves g e h = h
finish_drain-IsSingle (some for_signal) resolves g e h =
    exit-IsSingle _ (record g { draining = none }) h.counted
      (omega (
        arith,
        clean_exit-le (if resolves then 0 else 1),
        h.owed,
        drain_counts g for_signal e,
        idle_counts,
      ))
finish_drain-IsSingle (some for_fatal) resolves g e h =
    exit-IsSingle 1 (record g { draining = none }) h.counted
      (omega (arith, failed_exit, h.owed, drain_counts g for_fatal e, idle_counts))

if-IsSingle :
    (b : Bool) (x y : Guardian)
    → (b ≡ true → IsSingle x)
    → (b ≡ false → IsSingle y)
    → IsSingle (if b then x else y)
if-IsSingle true x y h k = h refl
if-IsSingle false x y h k = k refl

run_shutdown-IsSingle : (g : Guardian) → IsSingle g → IsSingle (run_shutdown g)
unfolding run_shutdown
run_shutdown-IsSingle g h =
    if-IsSingle g.shutting_down g (begin_drain for_signal g) (λ down. h)
      (λ up. begin_drain-IsSingle for_signal g up h)

run_fatal-IsSingle : (g : Guardian) → IsSingle g → IsSingle (run_fatal g)
unfolding run_fatal
run_fatal-IsSingle g h =
    if-IsSingle g.shutting_down (exit 1 g) (begin_drain for_fatal g)
      (λ down. exit-IsSingle 1 g h.counted (omega (arith, failed_exit, h.owed)))
      (λ up. begin_drain-IsSingle for_fatal g up h)

handle-IsSingle : (e : ProcessEvent) (g : Guardian) → IsSingle g → IsSingle (handle e g)
unfolding handle
handle-IsSingle installs g h = record { counted = h.counted; owed = h.owed }
handle-IsSingle uninstalls g h = record { counted = h.counted; owed = h.owed }
handle-IsSingle gets_signal g h =
    if-IsSingle g.installed (run_shutdown g) g (λ on. run_shutdown-IsSingle g h) (λ off. h)
handle-IsSingle gets_fatal g h =
    if-IsSingle g.installed (run_fatal g) g (λ on. run_fatal-IsSingle g h) (λ off. h)
handle-IsSingle (drain_ends resolves) g h = finish_drain-IsSingle g.draining resolves g refl h

handle_all-IsSingle :
    (es : List ProcessEvent) (g : Guardian) → IsSingle g → IsSingle (handle_all es g)
unfolding handle_all
handle_all-IsSingle [] g h = h
handle_all-IsSingle (e ∷ es) g h = handle_all-IsSingle es (handle e g) (handle-IsSingle e g h)

fresh-IsSingle : IsSingle fresh_guardian
unfolding clean_exits one_if
fresh-IsSingle = record { counted = refl; owed = omega arith }

-- Whatever signals and errors a process gets, in whatever order: the shutdown handlers are called
-- at most once, and the process exits with code 0 only after such a call, at most once.
pub guardian_drains_once :
    (es : List ProcessEvent)
    → let g = handle_all es fresh_guardian in
      (g.drains ≤ 1) × (clean_exits g.exits + one_if (is_draining g.draining) ≤ g.drains)
guardian_drains_once es =
    let h = handle_all-IsSingle es fresh_guardian fresh-IsSingle in
    (omega (arith, h.counted, one_if-le (handle_all es fresh_guardian).shutting_down), h.owed)
