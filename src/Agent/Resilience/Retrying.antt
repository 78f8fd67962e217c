-- ===== src/Agent/Resilience/Retrying.antt =====
-- How often `run_operation` of agent/application/resilience.py calls, and what its outcome says.
use ragflow_agent.Base.{
  ℕ, zero, suc, ◌+◌, ◌≤◌, ◌<◌, ◌≡◌, refl, ap, sym, subst, ◌∙◌, ◌⊎◌, inl, inr, Bool, true, false,
  arith, length, FloatOps, Bool-cases,
}
use ragflow_agent.Agent.Resilience.{
  Ended, returned, raised_transient, raised_agent_error, raised_other, OperationOutcome, done,
  retries_exhausted, agent_error, model_error, cancelled, assertion_error, Operated, attempt_from,
  run_operation, after_attempt, after_call, at_once, slept, cut_short,
}

module _ {A : Type 0} (world : ℕ → Ended A) (is_cancelled is_cancelled_in_delay : ℕ → Bool) where
  -- What an outcome says of the attempts made after the first `before`, when `calls` more were made
  -- and at most `bound` might be.
  pub Tells : OperationOutcome A → ℕ → ℕ → ℕ → Type 0
  Tells (done v retries) before calls bound =
      (0 < calls) × (retries + 1 ≡ before + calls) × (world (before + calls) ≡ returned v)
  Tells (retries_exhausted n) before calls bound =
      (calls ≡ bound) × (n ≡ before + calls) × (world (before + calls) ≡ raised_transient)
  Tells (agent_error code) before calls bound =
      (0 < calls) × (world (before + calls) ≡ raised_agent_error code)
  Tells model_error before calls bound = (0 < calls) × (world (before + calls) ≡ raised_other)
  Tells cancelled before calls bound =
      ((calls < bound) × (is_cancelled (suc (before + calls)) ≡ true))
      ⊎ ((0 < calls)
          × (calls < bound)
          × (is_cancelled_in_delay (before + calls) ≡ true)
          × (world (before + calls) ≡ raised_transient))
  Tells assertion_error before calls bound = ⊥

  -- Every attempt after the first `before` but the last of `calls` ended transiently.
  abbrev pub Transient : ℕ → ℕ → Type 0
  Transient before calls = (n : ℕ) → before < n → n < before + calls → world n ≡ raised_transient

  -- The token was not set before any of the calls, nor in a delay between two of them.
  abbrev pub Uncancelled : ℕ → ℕ → Type 0
  Uncancelled before calls =
      ((n : ℕ) → before < n → n ≤ before + calls → is_cancelled n ≡ false)
      × ((n : ℕ) → before < n → n < before + calls → is_cancelled_in_delay n ≡ false)

  module _ (F : FloatOps) where
    pub record IsBounded (before bound : ℕ) (r : Operated A F.Float) : Type 0 where
      pub calls : r.calls ≤ bound
      pub delays : length r.delays ≤ r.calls
      pub earlier : Transient before r.calls
      pub uncancelled : Uncancelled before r.calls
      pub tells : Tells r.outcome before r.calls bound

    module _ (backoff_factor : F.Float) where
      at_next : (before : ℕ) → before + 1 ≡ suc before
      at_next before = omega arith

      at_none : (before : ℕ) → suc (before + 0) ≡ suc before
      at_none before = omega arith

      -- No call, and one call before which the token was not set.
      none-Uncancelled : (before : ℕ) → Uncancelled before 0
      none-Uncancelled before =
          (λ n p q. absurd (omega (arith, p, q)), λ n p q. absurd (omega (arith, p, q)))

      first-Uncancelled : (before : ℕ) → is_cancelled (suc before) ≡ false → Uncancelled before 1
      first-Uncancelled before h = (
        λ n p q. subst (λ k. is_cancelled k ≡ false) (omega (arith, p, q)) h,
        λ n p q. absurd (omega (arith, p, q)),
      )

      -- One call and nothing after it.
      single-IsBounded :
          (before bound : ℕ) (o : OperationOutcome A)
          → is_cancelled (suc before) ≡ false
          → Tells o before 1 (suc bound)
          → IsBounded before (suc bound) (after_call F o)
      single-IsBounded before bound o u h = record {
        uncancelled = first-Uncancelled before u;
        calls = omega arith;
        delays = omega arith;
        earlier = λ n p q. absurd (omega (arith, p, q));
        tells = h;
      }

      cancelled-IsBounded :
          (before bound : ℕ)
          → is_cancelled (suc before) ≡ true
          → IsBounded before (suc bound) (at_once F cancelled)
      unfolding Tells
      cancelled-IsBounded before bound h = record {
        uncancelled = none-Uncancelled before;
        calls = omega arith;
        delays = omega arith;
        earlier = λ n p q. absurd (omega (arith, p, q));
        tells = inl (omega arith, ap is_cancelled (at_none before) ∙ h);
      }

      cut_short-IsBounded :
          (before bound : ℕ) (delay : F.Float)
          → is_cancelled (suc before) ≡ false
          → is_cancelled_in_delay (suc before) ≡ true
          → world (suc before) ≡ raised_transient
          → IsBounded before (suc (suc bound)) (cut_short F delay)
      unfolding Tells
      cut_short-IsBounded before bound delay u h e = record {
        uncancelled = first-Uncancelled before u;
        calls = omega arith;
        delays = omega arith;
        earlier = λ n p q. absurd (omega (arith, p, q));
        tells = inr (
          omega arith,
          omega arith,
          ap is_cancelled_in_delay (at_next before) ∙ h,
          ap world (at_next before) ∙ e,
        );
      }

      at_later : (before calls : ℕ) → before + (calls + 1) ≡ suc before + calls
      at_later before calls = omega arith

      Tells-slept :
          (o : OperationOutcome A) (before calls bound : ℕ)
          → Tells o (suc before) calls bound
          → Tells o before (calls + 1) (suc bound)
      unfolding Tells
      Tells-slept (done v n) before calls bound h =
          (omega arith, omega (arith, h.1), ap world (at_later before calls) ∙ h.2)
      Tells-slept (retries_exhausted n) before calls bound h =
          (omega (arith, h.0), omega (arith, h.1), ap world (at_later before calls) ∙ h.2)
      Tells-slept (agent_error code) before calls bound h =
          (omega arith, ap world (at_later before calls) ∙ h.1)
      Tells-slept model_error before calls bound h =
          (omega arith, ap world (at_later before calls) ∙ h.1)
      Tells-slept cancelled before calls bound (inl (p, q)) =
          inl (omega arith, ap (λ n. is_cancelled (suc n)) (at_later before calls) ∙ q)
      Tells-slept cancelled before calls bound (inr (p, q, s, e)) = inr (
        omega arith,
        omega arith,
        ap is_cancelled_in_delay (at_later before calls) ∙ s,
        ap world (at_later before calls) ∙ e,
      )
      Tells-slept assertion_error before calls bound h = absurd h

      next_or_later : (before n : ℕ) → before < n → (n ≡ suc before) ⊎ (suc before < n)
      next_or_later before n h = ground arith

      slept-IsBounded :
          (before bound : ℕ) (delay : F.Float) (r : Operated A F.Float)
          → world (suc before) ≡ raised_transient
          → is_cancelled (suc before) ≡ false
          → is_cancelled_in_delay (suc before) ≡ false
          → IsBounded (suc before) bound r
          → IsBounded before (suc bound) (slept F delay r)
      slept-IsBounded before bound delay r h u v b = record {
        uncancelled = (
          λ n p q. elim (next_or_later before n p) [
            | inl e ↦ ap is_cancelled e ∙ u
            | inr l ↦ b.uncancelled.0 n l (omega (arith, q))
          ],
          λ n p q. elim (next_or_later before n p) [
            | inl e ↦ ap is_cancelled_in_delay e ∙ v
            | inr l ↦ b.uncancelled.1 n l (omega (arith, q))
          ],
        );
        calls = omega (arith, b.calls);
        delays = omega (arith, b.delays);
        earlier = λ n p q. elim (next_or_later before n p) [
          | inl e ↦ ap world e ∙ h
          | inr l ↦ b.earlier n l (omega (arith, q))
        ];
        tells = Tells-slept r.outcome before r.calls bound b.tells;
      }

      -- After an attempt that did not end transiently, or did: `again` is then what follows.
      after_attempt-IsBounded :
          (before bound : ℕ) (e : Ended A) (again : Operated A F.Float)
          → is_cancelled (suc before) ≡ false
          → world (suc before) ≡ e
          → (e ≡ raised_transient → IsBounded before (suc bound) again)
          → IsBounded before (suc bound) (after_attempt F e before again)
      unfolding Tells
      after_attempt-IsBounded before bound (returned v) again u h k =
          single-IsBounded before bound (done v before) u
            (omega arith, refl, ap world (at_next before) ∙ h)
      after_attempt-IsBounded before bound raised_transient again u h k = k refl
      after_attempt-IsBounded before bound (raised_agent_error code) again u h k =
          single-IsBounded before bound (agent_error code) u
            (omega arith, ap world (at_next before) ∙ h)
      after_attempt-IsBounded before bound raised_other again u h k =
          single-IsBounded before bound model_error u (omega arith, ap world (at_next before) ∙ h)

      attempt_from-IsBounded :
          (left before : ℕ) (delay : F.Float)
          → IsBounded before (suc left) (
              attempt_from F world is_cancelled is_cancelled_in_delay backoff_factor left before
                delay)
      unfolding attempt_from Tells
      attempt_from-IsBounded zero before delay = elim (Bool-cases (is_cancelled (suc before))) [
        | inl p ↦ rw p (cancelled-IsBounded before 0 p)
        | inr p ↦ rw p (
            after_attempt-IsBounded before 0 (world (suc before)) _ p refl (λ e.
              single-IsBounded before 0 (retries_exhausted (suc before)) p
                (refl, sym (at_next before), ap world (at_next before) ∙ e)))
      ]
      attempt_from-IsBounded (suc left) before delay =
          let rest = attempt_from-IsBounded left (suc before) (F.mul delay backoff_factor) in
          elim (Bool-cases (is_cancelled (suc before))) [
            | inl p ↦ rw p (cancelled-IsBounded before (suc left) p)
            | inr p ↦ rw p (
                after_attempt-IsBounded before (suc left) (world (suc before)) _ p refl (λ e.
                  elim (Bool-cases (is_cancelled_in_delay (suc before))) [
                    | inl q ↦ rw q (cut_short-IsBounded before left delay p q e)
                    | inr q ↦ rw q (slept-IsBounded before (suc left) delay _ e p q rest)
                  ]))
          ]

      -- With at least one attempt allowed, whatever the attempts end with and whenever the token is
      -- set: the operation is called at most `max_attempts` times, with a delay at most after each
      -- call; every call but the last ended transiently, and the token was set neither before a call
      -- nor in a delay between two calls. A value is that of the last call, with one retry less than
      -- calls; exhausted retries mean that `max_attempts` calls were made, the last transient too;
      -- another error of the operation is that of the last call; a cancellation means that the token
      -- was set before the next call, or in the delay after the last one, which ended transiently. The
      -- loop never runs out.
      pub run_operation-IsBounded :
          (max_attempts : ℕ) (initial : F.Float)
          → 0 < max_attempts
          → IsBounded 0 max_attempts (
              run_operation F world is_cancelled is_cancelled_in_delay backoff_factor max_attempts
                initial)
      unfolding run_operation
      run_operation-IsBounded zero initial h = absurd (omega arith)
      run_operation-IsBounded (suc left) initial h = attempt_from-IsBounded left 0 initial
