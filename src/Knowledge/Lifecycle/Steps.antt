-- ===== src/Knowledge/Lifecycle/Steps.antt =====
-- The steps of an operation under `update_step` of knowledge/domain/lifecycle.py.
use ragflow_agent.Base.{
  ℕ, zero, suc, ◌≤◌, ◌<◌, ◌≡◌, refl, inl, inr, Bool, true, false, ◌||◌, Option, none, some, List,
  [], ◌∷◌, arith, sym, ap, ◌∙◌, ok, if◌then◌else◌, Option-cases,
}
use ragflow_agent.Knowledge.Lifecycle.{
  LifecycleStep, LifecycleStepStatus, LifecycleStepState, LifecycleOperation, LifecycleError,
  step_index, same_step, all_steps, StepMap, put_step, prepend, states_from, states_of, collect,
  current_state, next_states, next_state, update_step, is_succeeded,
}

abbrev Above : ℕ → List LifecycleStepState → Type 0
Above n [] = Unit
Above n (s ∷ rest) = (n < step_index s.step) × Above n rest

-- Each step once, in the order of the declaration.
abbrev pub IsOrdered : List LifecycleStepState → Type 0
IsOrdered [] = Unit
IsOrdered (s ∷ rest) = Above (step_index s.step) rest × IsOrdered rest

step_at : List LifecycleStep → ℕ → LifecycleStep
step_at [] n = LifecycleStep.register
step_at (k ∷ ks) zero = k
step_at (k ∷ ks) (suc n) = step_at ks n

step_at-index : (k : LifecycleStep) → step_at all_steps (step_index k) ≡ k
unfolding step_at
step_at-index LifecycleStep.register = refl
step_at-index _ = refl

same_step→eq : (j k : LifecycleStep) → same_step j k ≡ true → j ≡ k
same_step→eq j k h =
    let e : step_index j ≡ step_index k = ground arith in
    sym (step_at-index j) ∙ ap (step_at all_steps) e ∙ step_at-index k

same_step_refl : (k : LifecycleStep) → same_step k k ≡ true
same_step_refl k = ground arith

-- Every entry of the map is the state of its own key.
IsKeyed : StepMap → Type 0
IsKeyed m = (k : LifecycleStep) (s : LifecycleStepState) → m k ≡ some s → s.step ≡ k

put_step-IsKeyed :
    (m : StepMap) (s : LifecycleStepState) → IsKeyed m → IsKeyed (put_step m s.step s)
unfolding IsKeyed
put_step-IsKeyed m s h k s' e = ground (arith, same_step→eq s.step k, h k s')

states_from-IsKeyed :
    (m : StepMap) (l : List LifecycleStepState) → IsKeyed m → IsKeyed (states_from m l)
unfolding states_from
states_from-IsKeyed m [] h = h
states_from-IsKeyed m (s ∷ rest) h =
    states_from-IsKeyed (put_step m s.step s) rest (put_step-IsKeyed m s h)

abbrev listed : LifecycleStep → List LifecycleStep → Bool
listed k [] = false
listed k (j ∷ js) = same_step j k || listed k js

abbrev first_some :
    Option LifecycleStepState → Option LifecycleStepState → Option LifecycleStepState
first_some none d = d
first_some (some s) d = some s

states_from-collect :
    (m acc : StepMap) (ks : List LifecycleStep) (k : LifecycleStep)
    → IsKeyed m
    → states_from acc (collect ks m) k ≡ (if listed k ks then first_some (m k) (acc k) else acc k)
unfolding states_from collect IsKeyed
states_from-collect m acc [] k h = refl
states_from-collect m acc (j ∷ ks) k h = elim (Option-cases (m j)) [
  | inl p ↦ ground (arith, states_from-collect m acc ks k h, same_step→eq j k)
  | inr (s, p) ↦ ground (
    arith,
    states_from-collect m (put_step acc s.step s) ks k h,
    h j s p,
    same_step→eq j k,
    same_step_refl s.step,
  )
]

all_listed : (k : LifecycleStep) → listed k all_steps ≡ true
all_listed LifecycleStep.register = refl
all_listed _ = refl

first_some-none : (o : Option LifecycleStepState) → first_some o none ≡ o
first_some-none none = refl
first_some-none (some s) = refl

states_of-collect :
    (m : StepMap) (k : LifecycleStep) → IsKeyed m → states_of (collect all_steps m) k ≡ m k
states_of-collect m k h =
    rw (states_from-collect m (λ _. none) all_steps k h, all_listed k, first_some-none)

abbrev KeysAbove : ℕ → List LifecycleStep → Type 0
KeysAbove n [] = Unit
KeysAbove n (k ∷ ks) = (n < step_index k) × KeysAbove n ks

abbrev Ascending : List LifecycleStep → Type 0
Ascending [] = Unit
Ascending (k ∷ ks) = KeysAbove (step_index k) ks × Ascending ks

collect-Above :
    (m : StepMap) (n : ℕ) (ks : List LifecycleStep)
    → IsKeyed m
    → KeysAbove n ks
    → Above n (collect ks m)
unfolding collect IsKeyed
collect-Above m n [] h a = tt
collect-Above m n (k ∷ ks) h a = elim (Option-cases (m k)) [
  | inl p ↦ rw (p, prepend) (collect-Above m n ks h a.1)
  | inr (s, p) ↦ rw (p, prepend) (rw (h k s p) a.0, collect-Above m n ks h a.1)
]

collect-IsOrdered :
    (m : StepMap) (ks : List LifecycleStep) → IsKeyed m → Ascending ks → IsOrdered (collect ks m)
unfolding collect IsKeyed
collect-IsOrdered m [] h a = tt
collect-IsOrdered m (k ∷ ks) h a = elim (Option-cases (m k)) [
  | inl p ↦ rw (p, prepend) (collect-IsOrdered m ks h a.1)
  | inr (s, p) ↦
      rw (p, prepend)
        (rw (h k s p) (collect-Above m (step_index k) ks h a.0), collect-IsOrdered m ks h a.1)
]

module _ (o : LifecycleOperation) (step : LifecycleStep) (status : LifecycleStepStatus) (now : ℕ)
    (error : Option LifecycleError) where
  abbrev current : LifecycleStepState
  current = current_state (states_of o.steps) step

  update_step_inversion :
      {o' : LifecycleOperation}
      → update_step o step status now error ≡ ok o'
      → (o'.steps ≡ collect all_steps (next_states o step status now error))
        × (is_succeeded current.status ≡ true → is_succeeded status ≡ true)
  unfolding update_step
  update_step_inversion h = ground arith

  next_states-IsKeyed : IsKeyed (next_states o step status now error)
  unfolding IsKeyed
  next_states-IsKeyed =
      put_step-IsKeyed (states_of o.steps) (next_state current step status now error)
        (states_from-IsKeyed (λ _. none) o.steps (λ k s e. cc))

  -- An accepted update sets its own step to the new state and keeps that of every other step.
  pub states-update_step :
      {o' : LifecycleOperation} (k : LifecycleStep)
      → update_step o step status now error ≡ ok o'
      → states_of o'.steps k ≡ next_states o step status now error k
  states-update_step k h =
      rw (update_step_inversion h).0
        (states_of-collect (next_states o step status now error) k next_states-IsKeyed)

  -- However the steps of an operation are listed, an accepted update lists each step once and in the
  -- order of the declaration.
  pub update_step-IsOrdered :
      {o' : LifecycleOperation} → update_step o step status now error ≡ ok o' → IsOrdered o'.steps
  update_step-IsOrdered h = rw (update_step_inversion h).0 (
      collect-IsOrdered (next_states o step status now error) all_steps next_states-IsKeyed
        (omega arith))

-- A step that is completed stays completed, and a step's count of attempts never falls.
pub record StepKept (a b : LifecycleStepState) : Type 0 where
  pub completed : is_succeeded a.status ≡ true → is_succeeded b.status ≡ true
  pub attempts : a.attempts ≤ b.attempts

-- Through an accepted update every step, the updated one and the others, stays completed once it is,
-- and never loses an attempt.
pub update_step-StepKept :
    (o : LifecycleOperation) (step : LifecycleStep) (status : LifecycleStepStatus) (now : ℕ)
    (error : Option LifecycleError) {o' : LifecycleOperation} (k : LifecycleStep)
    → update_step o step status now error ≡ ok o'
    → StepKept (current_state (states_of o.steps) k) (current_state (states_of o'.steps) k)
update_step-StepKept o step status now error k h = ground (
  arith,
  states-update_step o step status now error k h,
  update_step_inversion o step status now error h,
  same_step→eq step k,
)
