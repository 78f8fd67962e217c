-- ===== src/Agent/Approval/Concurrency.antt =====
-- Many processes work on one approval through `ApprovalService` of agent/application/hitl.py: each
-- writes, by `compare_and_set`, what it derives from a row that it read at any earlier time.
use ragflow_agent.Base.{
  ℕ, ◌+◌, ◌≤◌, ◌<◌, ◌≡◌, ◌⊎◌, inl, inr, String, Bool, true, false, Option, none, some, List, [],
  ◌∷◌, arith, ok, err, In, ◌∙◌, if◌then◌else◌, Bool-cases, Result,
}
use ragflow_agent.Agent.Errors.{AgentRaised}
use ragflow_agent.Agent.Tools.{ToolAuthorizationContext, ToolCallSummary}
use ragflow_agent.Agent.Approval.Requests.{
  ApprovalRequest, ApprovalStatus, Store, find, compare_and_set, approval_required, expired,
  executing, succeeded, failed,
}
use ragflow_agent.Agent.Approval.Rows.{
  find-has_key, find-compare_and_set, compare_and_set-revision, compare_and_set-lost,
}
use ragflow_agent.Agent.Approval.{
  ApprovalDecision, is_open, is_approved, is_expired, with_status, decided, decided_status,
  with_result,
}

-- The writes of the service: an expiry, a decision, the claim of an execution, and its two ends.
pub data Write : Type 0 where
  expiry : ℕ → Write
  decision : ToolAuthorizationContext → ApprovalDecision → ℕ → Write
  claim : Write
  failure : Write
  success : ToolCallSummary → Write

abbrev pub is_executing : ApprovalStatus → Bool
is_executing executing = true
is_executing _ = false

abbrev decided_row :
    ApprovalRequest
    → ToolAuthorizationContext
    → ℕ
    → Result AgentRaised ApprovalStatus
    → Option ApprovalRequest
decided_row item context now (ok status) = some (decided item status context.actor_id now)
decided_row item context now (err e) = none

-- What a process that read `item` writes, if it writes.
unfoldable pub propose : Write → ApprovalRequest → Option ApprovalRequest
unfolding decided_status
propose (expiry now) item = if is_expired item now then some (with_status item expired) else none
propose (decision context d now) item =
    if is_open item.status
    then decided_row item context now (decided_status item context d)
    else none
propose claim item = if is_approved item.status then some (with_status item executing) else none
propose failure item = if is_executing item.status then some (with_status item failed) else none
propose (success summary) item =
    if is_executing item.status then some (with_result item summary) else none

-- The store, every row that some process has read, and how many claims took effect.
pub record Shared : Type 0 where
  pub store : Store
  pub seen : List ApprovalRequest
  pub claims : ℕ

abbrev count_claim : Write → Bool → ℕ → ℕ
count_claim claim true n = n + 1
count_claim _ _ n = n

abbrev pub write : Write → ApprovalRequest → ApprovalRequest → Shared → Shared
write w item updated s =
    let (changed, store) = compare_and_set item.revision updated s.store in
    record { store = store; seen = s.seen; claims = count_claim w changed s.claims }

-- One step of one process.
pub data Moves (tenant_id approval_id : String) : Shared → Shared → Type 0 where
  reads :
      (s : Shared) (item : ApprovalRequest)
      → find tenant_id approval_id s.store ≡ some item
      → Moves tenant_id approval_id s (record s { seen = item ∷ s.seen })
  writes :
      (s : Shared) (item updated : ApprovalRequest) (w : Write)
      → In item s.seen
      → propose w item ≡ some updated
      → Moves tenant_id approval_id s (write w item updated s)

-- What the steps lead to from a freshly requested approval.
pub data Reached (tenant_id approval_id : String) : Shared → Type 0 where
  requested :
      (store : Store) (item : ApprovalRequest)
      → find tenant_id approval_id store ≡ some item
      → item.status ≡ approval_required
      → Reached tenant_id approval_id (record { store = store; seen = []; claims = 0 })
  next :
      (s s' : Shared)
      → Reached tenant_id approval_id s
      → Moves tenant_id approval_id s s'
      → Reached tenant_id approval_id s'

-- The executions that a status stands for.
abbrev pub executions : ApprovalStatus → ℕ
executions executing = 1
executions succeeded = 1
executions failed = 1
executions _ = 0

executions_le : (s : ApprovalStatus) → executions s ≤ 1
executions_le s = ground arith

-- What was read is the row or older than it.
abbrev Older : ApprovalRequest → ApprovalRequest → Type 0
Older row item =
    (item ≡ row)
    ⊎ ((item.revision < row.revision)
        × (item.tenant_id ≡ row.tenant_id)
        × (item.approval_id ≡ row.approval_id))

record Tracks (tenant_id approval_id : String) (s : Shared) : Type 0 where
  pub row : ApprovalRequest
  pub found : find tenant_id approval_id s.store ≡ some row
  pub counted : s.claims ≡ executions row.status
  pub older : (item : ApprovalRequest) → In item s.seen → Older row item

-- A write keeps the row's key and takes the next revision; its status follows from the item's.
propose_row :
    (w : Write) (item updated : ApprovalRequest)
    → propose w item ≡ some updated
    → (updated.revision ≡ item.revision + 1)
      × (updated.tenant_id ≡ item.tenant_id)
      × (updated.approval_id ≡ item.approval_id)
      × (count_claim w true (executions item.status) ≡ executions updated.status)
unfolding propose decided_status
propose_row (expiry now) item updated h = ground arith
propose_row (decision context ApprovalDecision.approve now) item updated h = ground arith
propose_row (decision context ApprovalDecision.reject now) item updated h = ground arith
propose_row (decision context ApprovalDecision.cancel now) item updated h = ground arith
propose_row claim item updated h = ground arith
propose_row failure item updated h = ground arith
propose_row (success summary) item updated h = ground arith

module _ (tenant_id approval_id : String) where
  requested-Tracks :
      (store : Store) (item : ApprovalRequest)
      → find tenant_id approval_id store ≡ some item
      → item.status ≡ approval_required
      → Tracks tenant_id approval_id (record { store = store; seen = []; claims = 0 })
  requested-Tracks store item f e = record {
    row = item;
    found = f;
    counted = ground arith;
    older = λ x h. absurd h;
  }

  reads-Tracks :
      (s : Shared) (item : ApprovalRequest)
      → find tenant_id approval_id s.store ≡ some item
      → Tracks tenant_id approval_id s
      → Tracks tenant_id approval_id (record s { seen = item ∷ s.seen })
  reads-Tracks s item f v = record {
    row = v.row;
    found = v.found;
    counted = v.counted;
    older = λ x h. ground (arith, v.older x, v.found);
  }

  -- A write that took effect was made from the row itself.
  write-row :
      (s : Shared) (item updated : ApprovalRequest) (w : Write) (v : Tracks tenant_id approval_id s)
      → In item s.seen
      → propose w item ≡ some updated
      → (compare_and_set item.revision updated s.store).0 ≡ true
      → item ≡ v.row
  write-row s item updated w v m p h = ground (
    arith,
    v.older item m,
    v.found,
    find-has_key tenant_id approval_id s.store v.row,
    propose_row w item updated p,
    compare_and_set-revision item.revision updated s.store v.row,
  )

  -- An older row stays older than what is written over the row.
  Older-next :
      (row updated item : ApprovalRequest)
      → updated.revision ≡ row.revision + 1
      → updated.tenant_id ≡ row.tenant_id
      → updated.approval_id ≡ row.approval_id
      → Older row item
      → Older updated item
  Older-next row updated item r t a (inl e) = inr (ground arith)
  Older-next row updated item r t a (inr o) = inr (ground arith)

  lost-Tracks :
      (s : Shared) (item updated : ApprovalRequest) (w : Write)
      → Tracks tenant_id approval_id s
      → (compare_and_set item.revision updated s.store).0 ≡ false
      → Tracks tenant_id approval_id (write w item updated s)
  lost-Tracks s item updated w v h = record {
    row = v.row;
    found = ground (arith, v.found, compare_and_set-lost item.revision updated s.store h);
    counted = ground (arith, v.counted);
    older = v.older;
  }

  count_claim-cong :
      (w : Write) (b : Bool) (n m : ℕ) → b ≡ true → n ≡ m → count_claim w b n ≡ count_claim w true m
  count_claim-cong w b n m p q = cc

  won-Tracks :
      (s : Shared) (item updated : ApprovalRequest) (w : Write)
      → Tracks tenant_id approval_id s
      → In item s.seen
      → propose w item ≡ some updated
      → (compare_and_set item.revision updated s.store).0 ≡ true
      → Tracks tenant_id approval_id (write w item updated s)
  won-Tracks s item updated w v m p h =
      let e = write-row s item updated w v m p h in
      let q = propose_row w item updated p in
      let k = find-has_key tenant_id approval_id s.store v.row v.found in
      record {
        row = updated;
        found = ground (arith, find-compare_and_set item.revision updated s.store h);
        counted = count_claim-cong w _ _ _ h (ground (arith, v.counted)) ∙ q.3;
        older = λ x n.
            Older-next v.row updated x (ground arith) (ground arith) (ground arith) (v.older x n);
      }

  Reached-Tracks : (s : Shared) → Reached tenant_id approval_id s → Tracks tenant_id approval_id s
  Reached-Tracks _ (requested store item f e) = requested-Tracks store item f e
  Reached-Tracks _ (next s _ r (reads _ item f)) = reads-Tracks s item f (Reached-Tracks s r)
  Reached-Tracks _ (next s _ r (writes _ item updated w m p)) =
      elim (Bool-cases (compare_and_set item.revision updated s.store).0) [
        | inl h ↦ won-Tracks s item updated w (Reached-Tracks s r) m p h
        | inr h ↦ lost-Tracks s item updated w (Reached-Tracks s r) h
      ]

  -- Whatever processes read, expire, decide, claim and settle an approval, from rows read at any
  -- earlier time and in any order: at most one claim of its execution takes effect, and one has
  -- exactly when the stored status is executing, succeeded or failed.
  pub claims-Reached :
      (s : Shared) (row : ApprovalRequest)
      → Reached tenant_id approval_id s
      → find tenant_id approval_id s.store ≡ some row
      → (s.claims ≤ 1) × (s.claims ≡ executions row.status)
  claims-Reached s row r f = ground (
    arith,
    executions_le row.status,
    Tracks.counted (Reached-Tracks s r),
    Tracks.found (Reached-Tracks s r),
  )
