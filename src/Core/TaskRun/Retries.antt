-- ===== src/Core/TaskRun/Retries.antt =====
-- The retry loop of one sub-task.
use local_first_se_platform.Base.{
  ℕ, zero, suc, ◌+◌, ◌≤◌, ◌<◌, String, ◌≡◌, refl, ap, ◌⊎◌, inl, inr, Option, [], ◌∷◌, arith, ltb,
  Bool-cases, length, length-append, one_if,
}
use local_first_se_platform.Core.Round.{
  SubTask, Attempt, ProviderReply, crashes, replies, Failure, Run, Verdict, passed, retryable,
  final, verify_round, write_round, replied, round,
}
use local_first_se_platform.Core.TaskRun.{count_retry, note_retry, retry_loop}

pub Verdict-cases :
    (v : Verdict)
    → ((hash : Option String) × (v ≡ passed hash))
      ⊎ (((reason : Failure) × (v ≡ retryable reason)) ⊎ ((reason : Failure) × (v ≡ final reason)))
Verdict-cases (passed hash) = inl (hash, refl)
Verdict-cases (retryable reason) = inr (inl (reason, refl))
Verdict-cases (final reason) = inr (inr (reason, refl))

-- What a round may leave: `Q` if it passed, `P` otherwise.
abbrev pub Leaves {ℓ} : (P Q : Run → Type ℓ) → Run → Verdict → Type ℓ
Leaves P Q s (passed hash) = Q s
Leaves P Q s (retryable reason) = P s
Leaves P Q s (final reason) = P s

abbrev pub Ends {ℓ} : (P Q : Run → Type ℓ) → Run → (Option String) ⊎ Failure → Type ℓ
Ends P Q s (inl hash) = Q s
Ends P Q s (inr reason) = P s

module _ {ℓ} (P Q : Run → Type ℓ) (st : SubTask) (attempts : ℕ → Attempt) (index max_retry : ℕ)
    (counted : (n : ℕ) (s : Run) → P s → P (count_retry n s))
    (noted : (n : ℕ) (e : Failure) (s : Run) → P s → P (note_retry index n e s))
    (each : (n : ℕ) (s : Run)
      → P s
      → Leaves P Q (round st (attempts n) s).0 (round st (attempts n) s).1) where
  -- A rule for the loop: what each round keeps, it keeps.
  pub retry_loop_inv :
      (rounds retries : ℕ) (s : Run)
      → P s
      → let r = retry_loop rounds max_retry index st attempts retries s in
        Ends P Q r.run_state r.result
  unfolding retry_loop
  retry_loop_inv zero retries s h = h
  retry_loop_inv (suc rounds) retries s h =
      let s' = count_retry retries s in
      let left = each retries s' (counted retries s h) in
      elim (Verdict-cases (round st (attempts retries) s').1) [
        | inl (hash, e) ↦ rw (e, retry_loop) (rw e at left)
        | inr (inl (reason, e)) ↦ elim (Bool-cases (ltb retries max_retry)) [
          | inl more ↦
              rw (e, more, retry_loop)
                (retry_loop_inv rounds (retries + 1) _
                  (noted (retries + 1) reason _ (rw e at left)))
          | inr spent ↦ rw (e, spent, retry_loop) (rw e at left)
        ]
        | inr (inr (reason, e)) ↦ rw (e, retry_loop) (rw e at left)
      ]

-- A round does not touch what the loop counts.
abbrev SameCounts : Run → Run → Type 0
SameCounts s u = (u.total_retry_count ≡ s.total_retry_count) × (u.retry_history ≡ s.retry_history)

verify_round-SameCounts : (a : Attempt) (s : Run) → SameCounts s (verify_round a s).0
unfolding verify_round
verify_round-SameCounts a s = ground arith

write_round-SameCounts :
    (st : SubTask) (a : Attempt) (s : Run) → SameCounts s (write_round st a s).0
unfolding write_round
write_round-SameCounts st a s = grind (arith, verify_round-SameCounts)

replied-SameCounts :
    (st : SubTask) (a : Attempt) (r : ProviderReply) (s : Run) → SameCounts s (replied st a r s).0
unfolding replied
replied-SameCounts st a (crashes message) s = (refl, refl)
replied-SameCounts st a (replies ok output error) s =
    ground (arith, write_round-SameCounts st a (record s { last_output = output }))

round-SameCounts : (st : SubTask) (a : Attempt) (s : Run) → SameCounts s (round st a s).0
unfolding round
round-SameCounts st a s = replied-SameCounts st a a.reply s

-- `retries` retries have been announced in the history; all but the last have been counted.
abbrev IsAhead : ℕ → Run → Type 0
IsAhead retries s = s.total_retry_count + one_if (ltb 0 retries) ≡ length s.retry_history

retry_loop-counts :
    (rounds max_retry index : ℕ) (st : SubTask) (attempts : ℕ → Attempt) (retries : ℕ) (s : Run)
    → rounds + retries ≡ suc max_retry
    → 0 < rounds
    → IsAhead retries s
    → let r = retry_loop rounds max_retry index st attempts retries s in
      (r.run_state.total_retry_count ≡ length r.run_state.retry_history)
      × (r.run_state.total_retry_count + retries
          ≡ s.total_retry_count + one_if (ltb 0 retries) + r.retry_count)
      × (r.retry_count ≤ max_retry)
unfolding retry_loop one_if
retry_loop-counts zero max_retry index st attempts retries s left some_left ahead =
    absurd (omega arith)
retry_loop-counts (suc rounds) max_retry index st attempts retries s left some_left ahead =
    let s' = count_retry retries s in
    let a = attempts retries in
    let (same_total, same_history) = round-SameCounts st a s' in
    let same_length = ap length same_history in
    elim (Verdict-cases (round st a s').1) [
      | inl (hash, e) ↦ rw (e, retry_loop) (ground (arith, same_length))
      | inr (inl (reason, e)) ↦ elim (Bool-cases (ltb retries max_retry)) [
        | inl more ↦
            let u = note_retry index (retries + 1) reason (round st a s').0 in
            let grown =
              length-append (round st a s').0.retry_history
                (record { sub_task = index; attempt = retries + 1; reason = reason } ∷ []) in
            let rest =
              retry_loop-counts rounds max_retry index st attempts (retries + 1) u (omega arith)
                (ground arith) (ground (arith, same_length, grown)) in
            rw (e, more, retry_loop) (ground (arith, rest))
        | inr spent ↦ rw (e, spent, retry_loop) (ground (arith, same_length))
      ]
      | inr (inr (reason, e)) ↦ rw (e, retry_loop) (ground (arith, same_length))
    ]

-- The loop stops by itself: more rounds than it can use change nothing.
retry_loop_fuel :
    (rounds extra max_retry index : ℕ) (st : SubTask) (attempts : ℕ → Attempt) (retries : ℕ)
    (s : Run)
    → rounds + retries ≡ suc max_retry
    → 0 < rounds
    → retry_loop (rounds + extra) max_retry index st attempts retries s
      ≡ retry_loop rounds max_retry index st attempts retries s
unfolding retry_loop
retry_loop_fuel zero extra max_retry index st attempts retries s left some_left =
    absurd (omega arith)
retry_loop_fuel (suc rounds) extra max_retry index st attempts retries s left some_left =
    let s' = count_retry retries s in
    let one_more : suc rounds + extra ≡ suc (rounds + extra) = omega arith in
    rw one_more (elim (Verdict-cases (round st (attempts retries) s').1) [
      | inl (hash, e) ↦ rw (e, retry_loop) refl
      | inr (inl (reason, e)) ↦ elim (Bool-cases (ltb retries max_retry)) [
        | inl more ↦
            rw (e, more, retry_loop)
              (retry_loop_fuel rounds extra max_retry index st attempts (retries + 1)
                (note_retry index (retries + 1) reason (round st (attempts retries) s').0)
                (omega arith) (ground arith))
        | inr spent ↦ rw (e, spent, retry_loop) refl
      ]
      | inr (inr (reason, e)) ↦ rw (e, retry_loop) refl
    ])

-- The retry loop of a sub-task ends by itself, whatever the outside answers: allowing it more
-- rounds than `maxRetryCount + 1` changes nothing. It goes round again at most `maxRetryCount`
-- times, and each time adds one to the run's counter and one line to its history, which agree from
-- the start.
pub retry_loop_ends :
    (extra max_retry index : ℕ) (st : SubTask) (attempts : ℕ → Attempt) (s : Run)
    → s.total_retry_count ≡ length s.retry_history
    → let r = retry_loop (suc max_retry + extra) max_retry index st attempts 0 s in
      (r ≡ retry_loop (suc max_retry) max_retry index st attempts 0 s)
      × (r.run_state.total_retry_count ≡ s.total_retry_count + r.retry_count)
      × (length r.run_state.retry_history ≡ length s.retry_history + r.retry_count)
      × (r.retry_count ≤ max_retry)
unfolding one_if
retry_loop_ends extra max_retry index st attempts s level =
    let same =
      retry_loop_fuel (suc max_retry) extra max_retry index st attempts 0 s (omega arith)
        (omega arith) in
    let (total, grown, few) =
      retry_loop-counts (suc max_retry) max_retry index st attempts 0 s (omega arith) (omega arith)
        (ground arith) in
    let rest : (s.total_retry_count ≡ length s.retry_history) = level in
    (same, rw same (ground arith), rw same (ground arith), rw same few)
