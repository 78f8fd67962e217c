-- ===== src/Agent/Graph/Termination.antt =====
-- How long a run of agent/graphs/agentic_rag.py lasts.
use ragflow_agent.Base.{
  ℕ, zero, suc, ◌+◌, ◌-◌, ◌*◌, ◌≤◌, ◌<◌, ◌≡◌, refl, subst, sym, ◌∙◌, ◌⊎◌, inl, inr, Bool, true, not,
  ◌&&◌, Option, none, some, is_empty, get_elem?, leb, if◌then◌else◌, arith, Result, ok, err,
  FloatOps, Option-cases,
}
use ragflow_agent.Agent.Errors.{AgentRaised, exhausted, agent_iterations}
use ragflow_agent.Agent.Budget.{can_finalize}
use ragflow_agent.Agent.Evidence.{QueryPlan, PlanStep}
use ragflow_agent.Agent.Graph.State.{AgenticState, completed, World, ledger_of}
use ragflow_agent.Agent.Graph.Evaluation.{Setting, stopped, evaluate_node}
use ragflow_agent.Agent.Graph.Nodes.{
  Turn, route_node, execute_step_node, execute_at, step_raised, paid, pay_step,
}
use ragflow_agent.Agent.Graph.Await.{await_approval_node}
use ragflow_agent.Agent.Graph.Runs.{
  Node, route, direct_rag, execute_step, await_approval, evaluate, finalize, Edge, to, finish,
  after, after_route, after_execute, unless_final, Ended, unfinished, visit, run, proceed, advance,
  is_pending,
}
use ragflow_agent.Agent.Graph.Ledgers.{get_elem?-ltb, await-IsSame, paid-Stores, pay_step-cases}
use ragflow_agent.Agent.Graph.Support.{is_backed, is_completed}

module _ (F : FloatOps) (G : Setting) where
  -- The iterations that are left.
  abbrev left : AgenticState F.Float → ℕ
  left s = s.budget_limits.max_agent_iterations - s.budget_usage.agent_iterations

  -- The visits that may still follow.
  abbrev need : Node → AgenticState F.Float → ℕ
  need route s = 2 * left s + 5
  need direct_rag s = 1
  need execute_step s = if is_pending s then 2 * left s + 2 else 2 * left s + 4
  need await_approval s = 2 * left s + 5
  need evaluate s = 2 * left s + 3
  need finalize s = 1

  -- A plan has steps, as its validation requires.
  abbrev pub has_steps : AgenticState F.Float → Bool
  has_steps s = elim s.plan [ none ↦ true | some plan ↦ not (is_empty plan.steps) ]

  -- No iteration is left, a step of the plan is, the evidence suffices already, and the tokens used
  -- leave the reserve for finalizing.
  abbrev pub is_caught : AgenticState F.Float → Bool
  is_caught s =
      is_pending s
      && leb s.budget_limits.max_agent_iterations s.budget_usage.agent_iterations
      && is_backed F G s
      && can_finalize (ledger_of s)

  abbrev IsTrapped : Node → AgenticState F.Float → Type 0
  IsTrapped node s =
      (node ≡ execute_step) × (is_caught s ≡ true) × (is_completed s.final_status ≡ true)

  abbrev GoesOn : ℕ → Edge → AgenticState F.Float → Type 0
  GoesOn bound finish s = Unit
  GoesOn bound (to await_approval) s = Unit
  GoesOn bound (to m) s = (has_steps s ≡ true) × ((need m s < bound) ⊎ IsTrapped m s)

  evaluate-GoesOn :
      (w w' : World F.Float)
      → has_steps w.state ≡ true
      → evaluate_node F G w ≡ ok w'
      → GoesOn (need evaluate w.state) (unless_final w'.state) w'.state
  unfolding evaluate_node unless_final
  evaluate-GoesOn w w' s h = ground arith

  module _ (t : Turn F.Float) where
    route-GoesOn :
        (w : World F.Float)
        → has_steps w.state ≡ true
        → GoesOn
            (need route w.state)
            (after_route (route_node F G t w).state)
            (route_node F G t w).state
    unfolding route_node after_route
    route-GoesOn w h = ground arith

    await-GoesOn :
        (w w' : World F.Float)
        → has_steps w.state ≡ true
        → await_approval_node F G t w ≡ ok w'
        → GoesOn (need await_approval w.state) (unless_final w'.state) w'.state
    unfolding unless_final
    await-GoesOn w w' s h = ground (arith, await-IsSame F G t w w')

    -- A step that took an iteration.
    moved-GoesOn :
        (s s' : AgenticState F.Float)
        → is_pending s ≡ true
        → has_steps s ≡ true
        → s'.plan ≡ s.plan
        → s'.budget_limits ≡ s.budget_limits
        → (s.budget_usage.agent_iterations < s.budget_limits.max_agent_iterations)
          × (s'.budget_usage.agent_iterations ≡ s.budget_usage.agent_iterations + 1)
        → GoesOn (need execute_step s) (after_execute s') s'
    unfolding after_execute
    moved-GoesOn s s' p k a b c = ground arith

    -- A step for which there is none.
    out_of_iterations :
        (w : World F.Float) (plan : QueryPlan)
        → w.state.plan ≡ some plan
        → is_pending w.state ≡ true
        → has_steps w.state ≡ true
        → w.state.budget_limits.max_agent_iterations ≤ w.state.budget_usage.agent_iterations
        → let s = step_raised F G t w.state plan (exhausted agent_iterations) (ledger_of w.state) in
          GoesOn (need execute_step w.state) (after_execute s) s
    unfolding after_execute
    out_of_iterations w plan p k s m = ground arith

    execute_at-GoesOn :
        (w w' : World F.Float) (plan : QueryPlan) (o : Option PlanStep)
        → w.state.plan ≡ some plan
        → get_elem? plan.steps w.state.current_step ≡ o
        → has_steps w.state ≡ true
        → execute_at F G t w plan o ≡ ok w'
        → GoesOn (need execute_step w.state) (after_execute w'.state) w'.state
    unfolding execute_at after_execute
    execute_at-GoesOn w w' plan none p q s h =
        ground (arith, get_elem?-ltb plan.steps w.state.current_step)
    execute_at-GoesOn w w' plan (some step) p q s h =
        elim (pay_step-cases F G t step (ledger_of w.state)) [
          | inl (m, c) ↦ ground (
            arith,
            get_elem?-ltb plan.steps w.state.current_step,
            out_of_iterations w plan p
                (ground (arith, get_elem?-ltb plan.steps w.state.current_step)) s m,
            subst (λ x. paid F G t w plan step x ≡ ok w') c h,
          )
          | inr (m, c) ↦
              let (a, b, d) =
                paid-Stores F G t w w' plan step (pay_step F G t step (ledger_of w.state)) h in
              moved-GoesOn w.state w'.state
                (ground (arith, get_elem?-ltb plan.steps w.state.current_step)) s a b (ground arith)
        ]

    execute-GoesOn :
        (w w' : World F.Float)
        → has_steps w.state ≡ true
        → execute_step_node F G t w ≡ ok w'
        → GoesOn (need execute_step w.state) (after_execute w'.state) w'.state
    unfolding execute_step_node after_execute
    execute-GoesOn w w' s h = elim (Option-cases w.state.plan) [
      | inl p ↦ ground arith
      | inr (plan, p) ↦
          execute_at-GoesOn w w' plan (get_elem? plan.steps w.state.current_step) p refl s
            (ground arith)
    ]

    visit-GoesOn :
        (node : Node) (w w' : World F.Float)
        → has_steps w.state ≡ true
        → visit F G t node w ≡ ok w'
        → GoesOn (need node w.state) (after node w'.state) w'.state
    unfolding visit after
    visit-GoesOn route w w' s h = ground (arith, route-GoesOn w)
    visit-GoesOn direct_rag w w' s h = tt
    visit-GoesOn execute_step w w' s h = execute-GoesOn w w' s h
    visit-GoesOn await_approval w w' s h = await-GoesOn w w' s h
    visit-GoesOn evaluate w w' s h = evaluate-GoesOn w w' s h
    visit-GoesOn finalize w w' s h = tt

    abbrev completed_again : World F.Float → World F.Float
    completed_again w = record w {
      state =
          stopped w.state w.state.budget_usage completed
            "budget_exhausted_after_sufficient_evidence";
    }

    execute_at-caught :
        (w : World F.Float) (plan : QueryPlan) (step : PlanStep)
        → w.state.plan ≡ some plan
        → is_caught w.state ≡ true
        → execute_at F G t w plan (some step) ≡ ok (completed_again w)
    unfolding execute_at
    execute_at-caught w plan step p c = elim (pay_step-cases F G t step (ledger_of w.state)) [
      | inl (m, e) ↦ rw (e, paid) (ground arith)
      | inr (m, e) ↦ absurd (ground arith)
    ]

    -- A caught step is taken again and again.
    caught-Trapped :
        (w : World F.Float)
        → is_caught w.state ≡ true
        → (execute_step_node F G t w ≡ ok (completed_again w))
          × (after_execute (completed_again w).state ≡ to execute_step)
          × IsTrapped execute_step (completed_again w).state
    unfolding execute_step_node after_execute
    caught-Trapped w c = elim (Option-cases w.state.plan) [
      | inl p ↦ ground arith
      | inr (plan, p) ↦ elim (Option-cases (get_elem? plan.steps w.state.current_step)) [
        | inl q ↦ ground (arith, get_elem?-ltb plan.steps w.state.current_step)
        | inr (step, q) ↦ ground (arith, execute_at-caught w plan step p c)
      ]
    ]

  -- Where a run out of fuel was to go on.
  proceed-eq-unfinished :
      (bound : ℕ) (e : Edge) (v v' : World F.Float) (m : Node) (next : Node → Ended F.Float)
      → GoesOn bound e v.state
      → proceed e v next ≡ unfinished m v'
      → (k : Node) × (has_steps v.state ≡ true)
        × ((need k v.state < bound) ⊎ IsTrapped k v.state)
        × (next k ≡ unfinished m v')
  proceed-eq-unfinished b finish v v' m next g h = cc
  proceed-eq-unfinished b (to await_approval) v v' m next g h = ground arith
  proceed-eq-unfinished b (to k) v v' m next (s, g) h = (k, s, g, h)

  advance-eq-unfinished :
      (bound : ℕ) (node : Node) (r : Result AgentRaised (World F.Float)) (v' : World F.Float)
      (m : Node) (next : Node → World F.Float → Ended F.Float)
      → ((v : World F.Float) → r ≡ ok v → GoesOn bound (after node v.state) v.state)
      → advance node r next ≡ unfinished m v'
      → (v : World F.Float) × (k : Node) × (has_steps v.state ≡ true)
        × ((need k v.state < bound) ⊎ IsTrapped k v.state)
        × (next k v ≡ unfinished m v')
  unfolding advance
  advance-eq-unfinished b node (err e) v' m next g h = cc
  advance-eq-unfinished b node (ok v) v' m next g h =
      let (k, s, c, q) =
        proceed-eq-unfinished b (after node v.state) v v' m (λ k. next k v) (g v refl) h in
      (v, k, s, c, q)

  need-pos : (node : Node) (s : AgenticState F.Float) → 0 < need node s
  need-pos route s = omega arith
  need-pos direct_rag s = omega arith
  need-pos execute_step s = ground arith
  need-pos await_approval s = omega arith
  need-pos evaluate s = omega arith
  need-pos finalize s = omega arith

  module _ (turns : ℕ → Turn F.Float) where
    -- A run that stands at an execution with no iteration left, a step of the plan left, evidence that
    -- suffices already and the token reserve for finalizing untouched never ends: however many visits
    -- it is granted, it is found before the next execution, in such a state again.
    pub run-caught :
        (fuel n : ℕ) (w : World F.Float)
        → is_caught w.state ≡ true
        → (v : World F.Float) × (run F G fuel turns n execute_step w ≡ unfinished execute_step v)
          × (is_caught v.state ≡ true)
    unfolding run advance visit after
    run-caught zero n w c = (w, refl, c)
    run-caught (suc fuel) n w c =
        let (p, q, e) = caught-Trapped (turns n) w c in
        let (v, r, k) = run-caught fuel (n + 1) (completed_again (turns n) w) e.1 in
        (v, rw p (rw q r), k)

    run-completed :
        (fuel n : ℕ) (w : World F.Float)
        → IsTrapped execute_step w.state
        → (v : World F.Float) × (run F G fuel turns n execute_step w ≡ unfinished execute_step v)
          × IsTrapped execute_step v.state
    unfolding run advance visit after
    run-completed zero n w c = (w, refl, c)
    run-completed (suc fuel) n w c =
        let (p, q, e) = caught-Trapped (turns n) w c.1 in
        let (v, r, k) = run-completed fuel (n + 1) (completed_again (turns n) w) e in
        (v, rw p (rw q r), k)

    abbrev HasTrapped : Ended F.Float → Type 0
    HasTrapped (unfinished m v) = IsTrapped m v.state
    HasTrapped _ = Unit

    IsTrapped-run :
        (fuel n : ℕ) (node m : Node) (w v : World F.Float)
        → IsTrapped node w.state
        → run F G fuel turns n node w ≡ unfinished m v
        → IsTrapped m v.state
    IsTrapped-run fuel n node m w v (e, c, d) h =
        let (u, r, k) = run-completed fuel n w (refl, c, d) in
        let at_execute = subst (λ x. run F G fuel turns n x w ≡ unfinished m v) e h in
        subst (λ x. HasTrapped x) (sym r ∙ at_execute) k

    run-Trapped :
        (fuel n : ℕ) (node m : Node) (w v : World F.Float)
        → has_steps w.state ≡ true
        → need node w.state ≤ fuel
        → run F G fuel turns n node w ≡ unfinished m v
        → IsTrapped m v.state
    unfolding run
    run-Trapped zero n node m w v s c h = absurd (omega (arith, need-pos node w.state))
    run-Trapped (suc fuel) n node m w v s c h =
        let (u, k, s', d, q) =
          advance-eq-unfinished (need node w.state) node (visit F G (turns n) node w) v m
            (λ next u. run F G fuel turns (n + 1) next u)
            (λ u e. visit-GoesOn (turns n) node w u s e) h in
        elim d [
          | inl l ↦ run-Trapped fuel (n + 1) k m u v s' (omega arith) q
          | inr b ↦ IsTrapped-run fuel (n + 1) k m u v b q
        ]

    -- A run from its start, or from the resumption of an approval, whose plan has steps if it has
    -- one, is over after twice its iterations and five visits more: it has ended, it waits for an
    -- approval, or a node has raised; unless it stands before an execution with no iteration left,
    -- a step of the plan left, evidence that suffices already and the status `completed`.
    pub run-ends :
        (fuel n : ℕ) (node m : Node) (w v : World F.Float)
        → (node ≡ route) ⊎ (node ≡ await_approval)
        → has_steps w.state ≡ true
        → 2 * w.state.budget_limits.max_agent_iterations + 5 ≤ fuel
        → run F G fuel turns n node w ≡ unfinished m v
        → (m ≡ execute_step)
          × (is_caught v.state ≡ true)
          × (is_completed v.state.final_status ≡ true)
    run-ends fuel n node m w v (inl p) s c h =
        run-Trapped fuel n node m w v s (rw p (omega arith)) h
    run-ends fuel n node m w v (inr p) s c h =
        run-Trapped fuel n node m w v s (rw p (omega arith)) h
