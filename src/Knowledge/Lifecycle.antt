-- ===== src/Knowledge/Lifecycle.antt =====
-- knowledge/domain/lifecycle.py: operations across the stores, their steps and their progress, and
-- worker/dead_letter.py. Timestamps are timezone-aware and counted in microseconds; the free-form
-- `metadata` is the one entry that the program reads, the command fingerprint.
pub mod Operation
pub mod Steps
pub use Operation.*
use ragflow_agent.Base.{
  ℕ, ◌+◌, String, Bool, true, false, not, ◌&&◌, ◌||◌, Option, none, some, List, [], ◌∷◌, ltb,
  nat_eq, ◌==◌, is_none, if◌then◌else◌, Result, Check, ok, err, raise_if, float_one,
}
use ragflow_agent.Knowledge.Errors.{Raised, conflict, invalid}

abbrev pub step_index : LifecycleStep → ℕ
step_index register = 0
step_index store_object = 1
step_index parse = 2
step_index chunk = 3
step_index embed = 4
step_index write_index = 5
step_index validate = 6
step_index promote = 7
step_index LifecycleStep.activate = 8
step_index retire_previous = 9
step_index mark_invisible = 10
step_index clean_index = 11
step_index clean_objects = 12
step_index complete = 13

-- Equality of steps as dictionary keys.
abbrev pub same_step : LifecycleStep → LifecycleStep → Bool
same_step a b = nat_eq (step_index a) (step_index b)

-- `for item in LifecycleStep`, in the order of the declaration.
abbrev pub all_steps : List LifecycleStep
all_steps =
    register ∷ store_object ∷ parse ∷ chunk ∷ embed ∷ write_index ∷ validate ∷ promote
    ∷ LifecycleStep.activate ∷ retire_previous ∷ mark_invisible ∷ clean_index ∷ clean_objects
    ∷ complete ∷ []

abbrev pub StepMap : Type 0
StepMap = LifecycleStep → Option LifecycleStepState

abbrev pub put_step : StepMap → LifecycleStep → LifecycleStepState → StepMap
put_step m step s k = if same_step step k then some s else m k

-- `{item.step: item for item in steps}`: a later item replaces an earlier one.
unfoldable pub states_from : StepMap → List LifecycleStepState → StepMap
states_from m [] = m
states_from m (s ∷ rest) = states_from (put_step m s.step s) rest

abbrev pub states_of : List LifecycleStepState → StepMap
states_of steps = states_from (λ _. none) steps

abbrev pub prepend : Option LifecycleStepState → List LifecycleStepState → List LifecycleStepState
prepend none rest = rest
prepend (some s) rest = s ∷ rest

-- `tuple(states[item] for item in LifecycleStep if item in states)`.
unfoldable pub collect : List LifecycleStep → StepMap → List LifecycleStepState
collect [] m = []
collect (k ∷ ks) m = prepend (m k) (collect ks m)

abbrev pub is_succeeded : LifecycleStepStatus → Bool
is_succeeded LifecycleStepStatus.succeeded = true
is_succeeded _ = false

abbrev is_running : LifecycleStepStatus → Bool
is_running LifecycleStepStatus.running = true
is_running _ = false

-- `status in {SUCCEEDED, SKIPPED}`.
abbrev is_completed : LifecycleStepStatus → Bool
is_completed LifecycleStepStatus.succeeded = true
is_completed LifecycleStepStatus.skipped = true
is_completed _ = false

abbrev or_else : Option ℕ → ℕ → ℕ
or_else none d = d
or_else (some t) d = t

-- `states.get(step, LifecycleStepState(step=step))`.
abbrev pub current_state : StepMap → LifecycleStep → LifecycleStepState
current_state m step = elim (m step) [
  | some s ↦ s
  | none ↦ record {
    step = step;
    status = LifecycleStepStatus.pending;
    attempts = 0;
    started_at = none;
    completed_at = none;
    last_error = none;
  }
]

abbrev pub next_state :
    LifecycleStepState
    → LifecycleStep
    → LifecycleStepStatus
    → ℕ
    → Option LifecycleError
    → LifecycleStepState
next_state current step status changed_at error = record {
  step = step;
  status = status;
  attempts = current.attempts + (if is_running status then 1 else 0);
  started_at = some (or_else current.started_at changed_at);
  completed_at = if is_completed status then some changed_at else none;
  last_error = error;
}

-- `states` after `states[step] = ...`.
abbrev pub next_states :
    LifecycleOperation → LifecycleStep → LifecycleStepStatus → ℕ → Option LifecycleError → StepMap
next_states operation step status changed_at error =
    let states = states_of operation.steps in
    put_step states step (next_state (current_state states step) step status changed_at error)

unfoldable pub update_step :
    LifecycleOperation
    → LifecycleStep
    → LifecycleStepStatus
    → ℕ
    → Option LifecycleError
    → Result Raised LifecycleOperation
update_step operation step status changed_at error =
    if is_succeeded (current_state (states_of operation.steps) step).status
      && not (is_succeeded status)
    then err (conflict "lifecycle_step_regression")
    else ok (record operation {
      current_step = step;
      steps = collect all_steps (next_states operation step status changed_at error);
      updated_at = changed_at;
    })

abbrev is_cancelled : LifecycleOperationStatus → Bool
is_cancelled cancel_requested = true
is_cancelled LifecycleOperationStatus.cancelled = true
is_cancelled _ = false

unfoldable pub require_not_cancelled : LifecycleOperation → Check Raised
require_not_cancelled operation =
    raise_if (is_cancelled operation.status) (conflict "lifecycle_cancelled")

unfoldable pub update_progress : LifecycleOperation → ℕ → ℕ → Result Raised LifecycleOperation
update_progress operation progress changed_at =
    if ltb float_one progress
    then err invalid
    else if ltb progress operation.progress
    then err (conflict "lifecycle_progress_regression")
    else ok (record operation { progress = progress; updated_at = changed_at })

-- `move_to_dead_letter` of worker/dead_letter.py.
unfoldable pub move_to_dead_letter : LifecycleOperation → LifecycleError → ℕ → LifecycleOperation
move_to_dead_letter operation error changed_at = record operation {
  status = dead_letter;
  attempts = operation.attempts + 1;
  error = some error;
  next_attempt_at = none;
  updated_at = changed_at;
}
