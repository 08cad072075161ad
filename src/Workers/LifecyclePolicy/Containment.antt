-- ===== src/Workers/LifecyclePolicy/Containment.antt =====
-- How the policy contains a worker that keeps crashing.
use local_first_se_platform.Base.{
  ℕ, ◌+◌, ◌-◌, ◌≤◌, ◌<◌, String, ◌≡◌, refl, sym, ap, ◌∙◌, subst, true, false, List, [], ◌∷◌, ◌++◌,
  arith, eq_self, length, length-append, filter, contains, All, All-append, insert, lookup-insert,
}
use native.Mathlib.Decide.{dec_lt}
use native.Mathlib.Nat.{pow-le-pow_right, mul-le-mul_left}
use local_first_se_platform.Workers.LifecyclePolicy.{
  PolicyOptions, LifecyclePolicy, Decision, ignored, quarantines, restarts_in, timestamps,
  is_quarantined, in_window, recent_crashes, backoff_ms, on_worker_failed,
}

abbrev tally : Decision → ℕ → ℕ
tally (restarts_in ms) n = n + 1
tally _ n = n

-- A worker's crashes, one after the other, at the given times: how many restarts are ordered.
unfoldable pub restarts : PolicyOptions → String → List ℕ → LifecyclePolicy → LifecyclePolicy × ℕ
restarts options id [] p = (p, 0)
restarts options id (now ∷ later) p =
    let (p', decision) = on_worker_failed options now id p in
    let (p'', n) = restarts options id later p' in (p'', tally decision n)

-- The times of one window.
abbrev pub InWindow : PolicyOptions → ℕ → List ℕ → Type 0
InWindow options t₀ ts = All (λ t. (t₀ ≤ t) × (t < t₀ + options.window_ms)) ts

filter-in_window :
    (options : PolicyOptions) (t₀ now : ℕ) (ts : List ℕ)
    → now < t₀ + options.window_ms
    → InWindow options t₀ ts
    → filter (in_window options now) ts ≡ ts
filter-in_window options t₀ now [] h all_in = refl
filter-in_window options t₀ now (t ∷ ts) h all_in =
    ground (arith, filter-in_window options t₀ now ts h all_in.1)

ignored_while_quarantined :
    (options : PolicyOptions) (now : ℕ) (id : String) (p : LifecyclePolicy)
    → is_quarantined id p ≡ true
    → on_worker_failed options now id p ≡ (p, ignored)
unfolding on_worker_failed
ignored_while_quarantined options now id p h = rw h

-- A quarantined worker is never restarted.
pub restarts_while_quarantined :
    (options : PolicyOptions) (id : String) (cs : List ℕ) (p : LifecyclePolicy)
    → is_quarantined id p ≡ true
    → restarts options id cs p ≡ (p, 0)
unfolding restarts
restarts_while_quarantined options id [] p h = refl
restarts_while_quarantined options id (now ∷ later) p h = ground (
  arith,
  ignored_while_quarantined options now id p h,
  restarts_while_quarantined options id later p h,
)

contains_snoc : (x : String) (xs : List String) → contains x (xs ++ x ∷ []) ≡ true
contains_snoc x [] = ground (arith, eq_self x)
contains_snoc x (y ∷ ys) = ground (arith, contains_snoc x ys)

record Open (options : PolicyOptions) (t₀ : ℕ) (id : String) (p : LifecyclePolicy) : Type 0 where
  free : is_quarantined id p ≡ false
  within : InWindow options t₀ (timestamps id p)
  few : length (timestamps id p) ≤ options.max_crashes_in_window

-- What a crash leaves: one more timestamp, or a quarantine.
abbrev after_restart : String → ℕ → LifecyclePolicy → LifecyclePolicy
after_restart id now p = record p {
  crash_timestamps = insert id (timestamps id p ++ now ∷ []) p.crash_timestamps;
}

timestamps-after_restart :
    (id : String) (now : ℕ) (p : LifecyclePolicy)
    → timestamps id (after_restart id now p) ≡ timestamps id p ++ now ∷ []
timestamps-after_restart id now p = rw (lookup-insert, eq_self)

failed_restarts :
    (options : PolicyOptions) (t₀ now : ℕ) (id : String) (p : LifecyclePolicy)
    → now < t₀ + options.window_ms
    → Open options t₀ id p
    → length (timestamps id p) < options.max_crashes_in_window
    → on_worker_failed options now id p
      ≡ (after_restart id now p, restarts_in (backoff_ms options (length (timestamps id p) + 1)))
unfolding on_worker_failed recent_crashes
failed_restarts options t₀ now id p early o few = ground (
  arith,
  filter-in_window options t₀ now (timestamps id p) early o.within,
  length-append (timestamps id p) (now ∷ []),
  o.free,
)

failed_quarantines :
    (options : PolicyOptions) (t₀ now : ℕ) (id : String) (p : LifecyclePolicy)
    → now < t₀ + options.window_ms
    → Open options t₀ id p
    → length (timestamps id p) ≡ options.max_crashes_in_window
    → on_worker_failed options now id p ≡ (
      record (after_restart id now p) { quarantined_ids = p.quarantined_ids ++ id ∷ [] },
      quarantines,
    )
unfolding on_worker_failed recent_crashes
failed_quarantines options t₀ now id p early o full = ground (
  arith,
  filter-in_window options t₀ now (timestamps id p) early o.within,
  length-append (timestamps id p) (now ∷ []),
  o.free,
)

after_restart-Open :
    (options : PolicyOptions) (t₀ now : ℕ) (id : String) (p : LifecyclePolicy)
    → t₀ ≤ now
    → now < t₀ + options.window_ms
    → Open options t₀ id p
    → length (timestamps id p) < options.max_crashes_in_window
    → Open options t₀ id (after_restart id now p)
after_restart-Open options t₀ now id p late early o few =
    let e = timestamps-after_restart id now p in
    record {
      free = o.free;
      within = subst (InWindow options t₀) (sym e) (
          All-append (λ t. (t₀ ≤ t) × (t < t₀ + options.window_ms)) (timestamps id p) (now ∷ [])
            o.within ((late, early), tt));
      few = omega (arith, ap length e, length-append (timestamps id p) (now ∷ []));
    }

-- The restarts of a worker within one window, from a policy that has counted some crashes.
restarts_within :
    (options : PolicyOptions) (t₀ : ℕ) (id : String) (cs : List ℕ) (p : LifecyclePolicy)
    → InWindow options t₀ cs
    → Open options t₀ id p
    → let after = restarts options id cs p in
      (after.1 + length (timestamps id p) ≤ options.max_crashes_in_window)
      × (options.max_crashes_in_window < length (timestamps id p) + length cs
          → is_quarantined id after.0 ≡ true)
unfolding restarts
restarts_within options t₀ id [] p times o =
    (omega (arith, o.few), λ h. absurd (omega (arith, o.few)))
restarts_within options t₀ id (now ∷ later) p times o =
    elim (dec_lt (length (timestamps id p)) options.max_crashes_in_window) [
      | yes few ↦
          let e = failed_restarts options t₀ now id p times.0.1 o few in
          let grown =
            ap length (timestamps-after_restart id now p)
            ∙ length-append (timestamps id p) (now ∷ []) in
          let (bound, ends) =
            restarts_within options t₀ id later (after_restart id now p) times.1
              (after_restart-Open options t₀ now id p times.0.0 times.0.1 o few) in
          rw e (omega arith, λ h. ends (omega arith))
      | no full ↦
          let e = failed_quarantines options t₀ now id p times.0.1 o (omega (arith, o.few)) in
          let held =
            restarts_while_quarantined options id later
              (record (after_restart id now p) { quarantined_ids = p.quarantined_ids ++ id ∷ [] })
              (contains_snoc id p.quarantined_ids) in
          rw (e, held) (omega (arith, o.few), λ h. contains_snoc id p.quarantined_ids)
    ]

-- A worker that has no crash on record and is not quarantined, and whose crashes all fall within
-- one window, is restarted at most `maxCrashesInWindow` times; if it crashes more often than that,
-- then it ends in quarantine.
pub restarts_bounded :
    (options : PolicyOptions) (t₀ : ℕ) (id : String) (cs : List ℕ) (p : LifecyclePolicy)
    → timestamps id p ≡ []
    → is_quarantined id p ≡ false
    → All (λ t. (t₀ ≤ t) × (t < t₀ + options.window_ms)) cs
    → ((restarts options id cs p).1 ≤ options.max_crashes_in_window)
      × (options.max_crashes_in_window < length cs
          → is_quarantined id (restarts options id cs p).0 ≡ true)
restarts_bounded options t₀ id cs p fresh free times =
    let (bound, ends) =
      restarts_within options t₀ id cs p times
        (record { free = free; within = rw fresh tt; few = omega (arith, ap length fresh) }) in
    (omega arith, λ h. ends (omega (arith, ap length fresh)))

-- The wait before a restart grows with the number of recent crashes, up to `backoffMaxMs`.
pub backoff_ms_mono :
    (options : PolicyOptions) (a b : ℕ)
    → a ≤ b
    → (backoff_ms options a ≤ backoff_ms options b)
      × (backoff_ms options b ≤ options.backoff_max_ms)
unfolding backoff_ms
backoff_ms_mono options a b h =
    let grows = pow-le-pow_right {n = 2} (omega arith) {i = a - 1} {j = b - 1} (omega arith) in
    let scaled = mul-le-mul_left options.backoff_base_ms grows in (omega arith, omega arith)
