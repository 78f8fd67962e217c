-- ===== src/Knowledge/Ingestion/History.antt =====
-- The life of a stage task: every sequence of transitions and retries that a worker asks for. A call
-- that raises leaves the stored record as it was.
use ragflow_agent.Base.{
  sym, subst, ◌∙◌, ◌≤◌, ◌+◌, [], inl, inr, Result-cases, ℕ, ◌+◌, ◌≤◌, ◌<◌, ◌≡◌, refl, Bool, true,
  Option, List, [], ◌∷◌, arith, Result, ok, err, ◌&&◌, not,
}
use native.Mathlib.Nat.{le_refl, le_trans}
use ragflow_agent.Knowledge.Errors.{Raised}
use ragflow_agent.Knowledge.Ingestion.{
  IngestionStatus, failed, IngestionError, IngestionTask, task_record, validate_task,
  transition_ingestion, retry_ingestion_task, same_status, has_retryable_error, is_terminal,
}
use ragflow_agent.Knowledge.Ingestion.Moves.{IsValid, transition-Advances, validate-IsValid}

pub data Command : Type 0 where
  move : IngestionStatus → ℕ → ℕ → Option IngestionError → Command
  retry : ℕ → Command

pub apply_command : IngestionTask → Command → Result Raised IngestionTask
apply_command t (move target progress changed_at error) =
    transition_ingestion t target progress changed_at error
apply_command t (retry changed_at) = retry_ingestion_task t changed_at

abbrev stored : IngestionTask → Result Raised IngestionTask → IngestionTask
stored t (ok t') = t'
stored t (err e) = t

pub run : IngestionTask → List Command → IngestionTask
unfolding apply_command
run t [] = t
run t (c ∷ cs) = run (stored t (apply_command t c)) cs

abbrev counted : Command → Result Raised IngestionTask → ℕ → ℕ
counted (retry _) (ok _) n = n + 1
counted _ _ n = n

-- How many of the requested retries are accepted.
pub accepted_retries : IngestionTask → List Command → ℕ
unfolding apply_command
accepted_retries t [] = 0
accepted_retries t (c ∷ cs) =
    let r = apply_command t c in counted c r (accepted_retries (stored t r) cs)

-- Nothing can reopen the task.
abbrev pub is_closed : IngestionTask → Bool
is_closed t =
    is_terminal t.status && not (same_status t.status failed && has_retryable_error t.error)

pub record IsTask (t : IngestionTask) : Type 0 where
  pub body : IsValid t.body
  pub attempted : 0 < t.attempt

pub record LeadsTo (t t' : IngestionTask) : Type 0 where
  pub task : IsTask t'
  pub later : t.updated_at ≤ t'.updated_at
  pub further : t.progress ≤ t'.progress
  pub attempts : t.attempt ≤ t'.attempt
  pub closed : is_closed t ≡ true → t' ≡ t

LeadsTo-refl : {t : IngestionTask} → IsTask t → LeadsTo t t
LeadsTo-refl v = record {
  task = v;
  later = le_refl _;
  further = le_refl _;
  attempts = le_refl _;
  closed = λ _. refl;
}

move-LeadsTo :
    (t : IngestionTask) (target : IngestionStatus) (progress changed_at : ℕ)
    (error : Option IngestionError) (t' : IngestionTask)
    → IsTask t
    → transition_ingestion t target progress changed_at error ≡ ok t'
    → LeadsTo t t'
unfolding transition_ingestion validate_task
move-LeadsTo t target progress changed_at error t' v h =
    ground (arith, transition-Advances t target progress changed_at error t' v.body h)

retry-LeadsTo :
    (t : IngestionTask) (changed_at : ℕ) (t' : IngestionTask)
    → IsTask t
    → retry_ingestion_task t changed_at ≡ ok t'
    → LeadsTo t t'
unfolding retry_ingestion_task validate_task
retry-LeadsTo t changed_at t' v h = ground (arith, validate-IsValid t'.body)

step-LeadsTo :
    (t : IngestionTask) (c : Command) → IsTask t → LeadsTo t (stored t (apply_command t c))
unfolding apply_command
step-LeadsTo t (move target progress changed_at error) v =
    elim (Result-cases (transition_ingestion t target progress changed_at error)) [
      | inl (t', p) ↦ rw p (move-LeadsTo t target progress changed_at error t' v p)
      | inr (e, p) ↦ rw p (LeadsTo-refl v)
    ]
step-LeadsTo t (retry changed_at) v = elim (Result-cases (retry_ingestion_task t changed_at)) [
  | inl (t', p) ↦ rw p (retry-LeadsTo t changed_at t' v p)
  | inr (e, p) ↦ rw p (LeadsTo-refl v)
]

LeadsTo-trans : {a b c : IngestionTask} → LeadsTo a b → LeadsTo b c → LeadsTo a c
LeadsTo-trans {a} {b} {c} p q = record {
  task = q.task;
  later = le_trans p.later q.later;
  further = le_trans p.further q.further;
  attempts = le_trans p.attempts q.attempts;
  closed = λ h. q.closed (subst (λ x. is_closed x ≡ true) (sym (p.closed h)) h) ∙ p.closed h;
}

-- Whatever transitions and retries a worker asks for, in any order: a well-formed task stays
-- well-formed, its time, its progress and its attempt number never go back, and a task that
-- succeeded, was cancelled or failed for good never changes again.
pub run-LeadsTo : (t : IngestionTask) (cs : List Command) → IsTask t → LeadsTo t (run t cs)
unfolding run
run-LeadsTo t [] v = LeadsTo-refl v
run-LeadsTo t (c ∷ cs) v =
    let first = step-LeadsTo t c v in
    LeadsTo-trans first (run-LeadsTo (stored t (apply_command t c)) cs first.task)

step_attempt :
    (t : IngestionTask) (c : Command) (n : ℕ)
    → (stored t (apply_command t c)).attempt + n ≡ t.attempt + counted c (apply_command t c) n
unfolding apply_command transition_ingestion retry_ingestion_task validate_task
step_attempt t (move target progress changed_at error) n = ground arith
step_attempt t (retry changed_at) n = ground arith

-- The attempt number counts exactly the accepted retries; a transition never changes it.
pub attempt-run :
    (t : IngestionTask) (cs : List Command) → (run t cs).attempt ≡ t.attempt + accepted_retries t cs
unfolding run accepted_retries
attempt-run t [] = omega arith
attempt-run t (c ∷ cs) =
    let t' = stored t (apply_command t c) in
    omega (arith, attempt-run t' cs, step_attempt t c (accepted_retries t' cs))
