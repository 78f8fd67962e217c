-- ===== src/Agent/Graph/Support.antt =====
-- When a run of agent/graphs/agentic_rag.py ends with the status `completed`.
use ragflow_agent.Base.{
  ℕ, zero, suc, ◌+◌, ◌≡◌, refl, subst, ◌⊎◌, inl, inr, Bool, true, false, Option, none, some, List,
  [], ◌∷◌, is_empty, map, arith, Result, ok, err, FloatOps,
}
use ragflow_agent.Base.Texts.{join}
use ragflow_agent.Agent.Errors.{AgentRaised}
use ragflow_agent.Agent.Graph.State.{AgenticState, AgenticRunStatus, completed, Route, World}
use ragflow_agent.Agent.Graph.Evaluation.{
  Setting, is_sufficient, decision_on, citations_of, answer_lines, evaluate_node, finalize_node,
}
use ragflow_agent.Agent.Graph.Nodes.{Turn, route_node, direct_rag_node}
use ragflow_agent.Agent.Graph.Await.{await_approval_node}
use ragflow_agent.Agent.Graph.Runs.{
  Node, route, direct_rag, execute_step, await_approval, evaluate, finalize, Edge, to, finish,
  after, after_route, after_execute, unless_final, Ended, finished, visit, run, proceed, advance,
}

abbrev pub is_completed : Option AgenticRunStatus → Bool
is_completed (some completed) = true
is_completed _ = false

module _ (F : FloatOps) (G : Setting) where
  -- The policy finds the state's evidence sufficient for its plan.
  abbrev pub is_backed : AgenticState F.Float → Bool
  is_backed s = elim s.plan [
    | none ↦ false
    | some plan ↦ is_sufficient (decision_on F G s plan).status
  ]

  -- What each node relies on.
  abbrev Enters : Node → AgenticState F.Float → Type 0
  Enters route s = is_completed s.final_status ≡ false
  Enters direct_rag s = s.route ≡ Route.direct_rag
  Enters execute_step s = Unit
  Enters await_approval s = is_completed s.final_status ≡ false
  Enters evaluate s = Unit
  Enters finalize s = (is_completed s.final_status ≡ false) ⊎ (is_backed s ≡ true)

  abbrev EntersAt : Edge → AgenticState F.Float → Type 0
  EntersAt (to n) s = Enters n s
  EntersAt finish s = Unit

  is_empty-map : {A B : Type 0} (f : A → B) (xs : List A) → is_empty (map f xs) ≡ is_empty xs
  is_empty-map f [] = refl
  is_empty-map f (x ∷ xs) = refl

  evaluate-Enters :
      (w w' : World F.Float)
      → evaluate_node F G w ≡ ok w'
      → EntersAt (unless_final w'.state) w'.state
  unfolding evaluate_node unless_final
  evaluate-Enters w w' h = ground arith

  module _ (t : Turn F.Float) where
    route-Enters :
        (w : World F.Float)
        → is_completed w.state.final_status ≡ false
        → EntersAt (after_route (route_node F G t w).state) (route_node F G t w).state
    unfolding route_node after_route
    route-Enters w h = ground arith

    await-Enters :
        (w w' : World F.Float)
        → await_approval_node F G t w ≡ ok w'
        → EntersAt (unless_final w'.state) w'.state
    unfolding await_approval_node unless_final
    await-Enters w w' h = ground arith

  execute-Enters : (s : AgenticState F.Float) → EntersAt (after_execute s) s
  unfolding after_execute
  execute-Enters s = ground arith

  -- What a completed run ends with.
  abbrev pub IsAnswered : AgenticState F.Float → Type 0
  IsAnswered s =
      ((s.route ≡ Route.direct_rag) × (is_empty s.citations ≡ false))
      ⊎ ((is_backed s ≡ true)
          × (s.citations ≡ citations_of s.evidence)
          × (s.final_answer ≡ some (join "\n" (answer_lines s.evidence))))

  finalize-IsAnswered :
      (w w' : World F.Float)
      → Enters finalize w.state
      → finalize_node F G w ≡ ok w'
      → is_completed w'.state.final_status ≡ true
      → IsAnswered w'.state
  unfolding finalize_node
  finalize-IsAnswered w w' e h k = ground arith

  direct-IsAnswered :
      (t : Turn F.Float) (w : World F.Float)
      → w.state.route ≡ Route.direct_rag
      → is_completed (direct_rag_node F G t w).state.final_status ≡ true
      → IsAnswered (direct_rag_node F G t w).state
  unfolding direct_rag_node
  direct-IsAnswered t w e k = ground arith

  -- One visit leads to what the next node relies on, or to the end.
  abbrev Leads : Edge → World F.Float → Type 0
  Leads (to n) w = Enters n w.state
  Leads finish w = is_completed w.state.final_status ≡ true → IsAnswered w.state

  visit-Leads :
      (t : Turn F.Float) (node : Node) (w w' : World F.Float)
      → Enters node w.state
      → visit F G t node w ≡ ok w'
      → Leads (after node w'.state) w'
  unfolding visit after
  visit-Leads t route w w' e h = ground (arith, route-Enters t w)
  visit-Leads t direct_rag w w' e h = ground (arith, direct-IsAnswered t w)
  visit-Leads t execute_step w w' e h = ground (arith, execute-Enters w'.state)
  visit-Leads t await_approval w w' e h = ground (arith, await-Enters t w w')
  visit-Leads t evaluate w w' e h = ground (arith, evaluate-Enters w w')
  visit-Leads t finalize w w' e h = λ k. finalize-IsAnswered w w' e h k

  proceed-eq-finished :
      (e : Edge) (v w' : World F.Float) (next : Node → Ended F.Float)
      → proceed e v next ≡ finished w'
      → ((e ≡ finish) × (v ≡ w')) ⊎ ((m : Node) × (e ≡ to m) × (next m ≡ finished w'))
  proceed-eq-finished finish v w' next h = inl (refl, cc)
  proceed-eq-finished (to await_approval) v w' next h = ground arith
  proceed-eq-finished (to m) v w' next h = inr (m, refl, h)

  advance-eq-finished :
      (node : Node) (r : Result AgentRaised (World F.Float)) (w' : World F.Float)
      (next : Node → World F.Float → Ended F.Float)
      → advance node r next ≡ finished w'
      → (v : World F.Float) × (r ≡ ok v)
        × (((after node v.state ≡ finish) × (v ≡ w'))
            ⊎ ((m : Node) × (after node v.state ≡ to m) × (next m v ≡ finished w')))
  unfolding advance
  advance-eq-finished node (err e) w' next h = cc
  advance-eq-finished node (ok v) w' next h =
      (v, refl, proceed-eq-finished (after node v.state) v w' (λ m. next m v) h)

  run-Leads :
      (turns : ℕ → Turn F.Float) (fuel n : ℕ) (node : Node) (w w' : World F.Float)
      → Enters node w.state
      → run F G fuel turns n node w ≡ finished w'
      → is_completed w'.state.final_status ≡ true
      → IsAnswered w'.state
  unfolding run
  run-Leads turns zero n node w w' e h k = cc
  run-Leads turns (suc fuel) n node w w' e h k =
      let (v, p, q) =
        advance-eq-finished node (visit F G (turns n) node w) w'
          (λ next v. run F G fuel turns (n + 1) next v) h in
      let l = visit-Leads (turns n) node w v e p in
      elim q [
        | inl (s, r) ↦ subst (λ u. IsAnswered u.state) r ((subst (λ x. Leads x v) s l) (rw r k))
        | inr (m, s, r) ↦ run-Leads turns fuel (n + 1) m v w' (subst (λ x. Leads x v) s l) r k
      ]

  -- A run from its start, or from the resumption of an approval, that ends with the status
  -- `completed` either took the direct route and has citations, or the policy finds its evidence
  -- sufficient for its plan; its citations and the lines of its answer are then those of its
  -- evidence.
  pub run-IsAnswered :
      (turns : ℕ → Turn F.Float) (fuel n : ℕ) (node : Node) (w w' : World F.Float)
      → (node ≡ route) ⊎ (node ≡ await_approval)
      → is_completed w.state.final_status ≡ false
      → run F G fuel turns n node w ≡ finished w'
      → is_completed w'.state.final_status ≡ true
      → IsAnswered w'.state
  run-IsAnswered turns fuel n node w w' (inl p) c h k =
      run-Leads turns fuel n node w w' (rw p c) h k
  run-IsAnswered turns fuel n node w w' (inr p) c h k =
      run-Leads turns fuel n node w w' (rw p c) h k
