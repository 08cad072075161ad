-- ===== src/Workers/TaskExecution/Asking.antt =====
-- Whom the execution of a task asks.
use local_first_se_platform.Base.{
  ◌+◌, ◌*◌, ◌≤◌, String, ◌≡◌, refl, ◌≢◌, ◌⊎◌, inl, inr, Bool, true, not, Option, none, some, List,
  [], ◌∷◌, ◌++◌, arith, Bool-cases, Option-cases, length, length-append, take, filter, every, find,
  contains, All, All-append, values,
}
use local_first_se_platform.Base.{length-take-le}
use local_first_se_platform.Workers.Worker.{Worker, is_busy}
use local_first_se_platform.Workers.Store.{WorkerStore, skilled, has_skill, find_by_skill, or_next}
use local_first_se_platform.Workers.TaskExecution.{
  Reasoned, rejects, answers, Question, Message, asks, replies, Consultation, asked, answered,
  failed_already, consult, answer_text, no_consultation,
}

find-every :
    (p q : Worker → Bool) (ws : List Worker) (w : Worker)
    → every q ws ≡ true
    → find p ws ≡ some w
    → q w ≡ true
find-every p q [] w h e = cc
find-every p q (x ∷ xs) w h e = elim (Bool-cases (p x)) [
  | inl here ↦
      let k : some x ≡ some w = rw here at e in let same : x ≡ w = cc in rw (← same) (ground arith)
  | inr later ↦ find-every p q xs w (ground arith) (rw later at e)
]

every-filter :
    (p q : Worker → Bool) (ws : List Worker) → every q ws ≡ true → every q (filter p ws) ≡ true
every-filter p q [] h = refl
every-filter p q (x ∷ xs) h = ground (arith, every-filter p q xs)

every-filter_self : (p : Worker → Bool) (ws : List Worker) → every p (filter p ws) ≡ true
every-filter_self p [] = refl
every-filter_self p (x ∷ xs) = ground (arith, every-filter_self p xs)

or_next-cases :
    (a b : Option Worker) (w : Worker) → or_next a b ≡ some w → (a ≡ some w) ⊎ (b ≡ some w)
or_next-cases none b w h = inr h
or_next-cases (some x) b w h = inl h

-- Nobody is asked who is excluded.
find_by_skill-other :
    (capability self : String) (store : WorkerStore) (w : Worker)
    → find_by_skill capability (self ∷ []) store ≡ some w
    → w.id ≢ self
unfolding find_by_skill skilled
find_by_skill-other capability self store w h =
    let keeps = λ (x : Worker). not (contains x.id (self ∷ [])) in
    let all =
      every-filter (has_skill capability) keeps (filter keeps (values store))
        (every-filter_self keeps (values store)) in
    let ws = filter (has_skill capability) (filter keeps (values store)) in
    let kept : keeps w ≡ true = elim (or_next-cases _ _ w h) [
      | inl idle ↦ find-every (λ x. not (is_busy x)) keeps ws w all idle
      | inr any_of ↦ find-every (λ x. true) keeps ws w all any_of
    ] in
    λ e. ground arith

-- A message of an execution that asks somebody else, or answers back.
abbrev pub IsBetween : String → Message → Type 0
IsBetween worker_id (asks id sender recipient text) = (sender ≡ worker_id) × (recipient ≢ worker_id)
IsBetween worker_id (replies id sender recipient text) =
    (sender ≢ worker_id) × (recipient ≡ worker_id)

answered-IsBetween :
    (worker_id : String) (q : Question) (recipient : Worker) (a : Reasoned) (c : Consultation)
    → recipient.id ≢ worker_id
    → All (IsBetween worker_id) c.messages
    → All
        (IsBetween worker_id)
        (answered worker_id q recipient a (asked worker_id q recipient c)).messages
      × (length (answered worker_id q recipient a (asked worker_id q recipient c)).messages
          ≤ length c.messages + 2)
unfolding answered
answered-IsBetween worker_id q recipient (rejects message) c other h = (
  All-append (IsBetween worker_id) c.messages _ h ((refl, other), tt),
  omega (arith, length-append c.messages (asks q.id worker_id recipient.id q.question ∷ [])),
)
answered-IsBetween worker_id q recipient (answers success response e) c other h =
    let asked_list = c.messages ++ asks q.id worker_id recipient.id q.question ∷ [] in
    let reply = replies q.id recipient.id worker_id (answer_text success response e) in
    (
      All-append (IsBetween worker_id) asked_list (reply ∷ [])
          (All-append (IsBetween worker_id) c.messages _ h ((refl, other), tt)) ((other, refl), tt),
      omega (
        arith,
        length-append c.messages (asks q.id worker_id recipient.id q.question ∷ []),
        length-append asked_list (reply ∷ []),
      ),
    )

consult-IsBetween :
    (store : WorkerStore) (worker_id : String) (answer_of : Question → Reasoned)
    (qs : List Question) (c : Consultation)
    → All (IsBetween worker_id) c.messages
    → All (IsBetween worker_id) (consult store worker_id answer_of qs c).messages
      × (length (consult store worker_id answer_of qs c).messages
          ≤ length c.messages + 2 * length qs)
unfolding consult
consult-IsBetween store worker_id answer_of [] c h = (h, omega arith)
consult-IsBetween store worker_id answer_of (q ∷ qs) c h =
    elim (Option-cases (find_by_skill q.capability (worker_id ∷ []) store)) [
      | inl nobody ↦
          let (all, few) = consult-IsBetween store worker_id answer_of qs c h in
          rw (nobody, consult) (all, omega (arith, few))
      | inr (recipient, found) ↦
          let other = find_by_skill-other q.capability worker_id store recipient found in
          let c' = answered worker_id q recipient (answer_of q) (asked worker_id q recipient c) in
          let (all, few) = answered-IsBetween worker_id q recipient (answer_of q) c other h in
          elim (Bool-cases (failed_already c'.failure)) [
            | inl broken ↦ rw (found, broken, consult) (all, omega (arith, few))
            | inr fine ↦
                let (later, few_later) = consult-IsBetween store worker_id answer_of qs c' all in
                rw (found, fine, consult) (later, omega (arith, few, few_later))
          ]
    ]

-- Whatever a response asks, an execution sends at most three questions and their answers, each
-- question from the worker to somebody else and each answer back to it.
pub consultation_is_bounded :
    (store : WorkerStore) (worker_id : String) (answer_of : Question → Reasoned)
    (qs : List Question)
    → let c = consult store worker_id answer_of (take 3 qs) no_consultation in
      All (IsBetween worker_id) c.messages × (length c.messages ≤ 6)
consultation_is_bounded store worker_id answer_of qs =
    let (all, few) = consult-IsBetween store worker_id answer_of (take 3 qs) no_consultation tt in
    (all, omega (arith, few, length-take-le 3 qs))
