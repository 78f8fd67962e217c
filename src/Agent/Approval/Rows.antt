-- ===== src/Agent/Approval/Rows.antt =====
-- What reads of the approval store return after a `compare_and_set`.
use ragflow_agent.Base.{ℕ, ◌≡◌, refl, String, true, false, some, [], ◌∷◌, arith, eq_iff, eq_refl}
use ragflow_agent.Agent.Approval.Requests.{ApprovalRequest, Store, find, compare_and_set, has_key}

has_key_iff :
    (t a : String) (r : ApprovalRequest)
    → has_key t a r ≡ true
    → (r.tenant_id ≡ t) × (r.approval_id ≡ a)
has_key_iff t a r h = ground (arith, eq_iff r.tenant_id t, eq_iff r.approval_id a)

-- A row that is found stands under the key that was asked for.
pub find-has_key :
    (t a : String) (rows : Store) (r : ApprovalRequest)
    → find t a rows ≡ some r
    → (r.tenant_id ≡ t) × (r.approval_id ≡ a)
unfolding find
find-has_key t a [] r h = absurd (ground arith)
find-has_key t a (x ∷ rows) r h = ground (arith, find-has_key t a rows r, has_key_iff t a x)

-- A write that took effect is read back.
pub find-compare_and_set :
    (n : ℕ) (u : ApprovalRequest) (rows : Store)
    → (compare_and_set n u rows).0 ≡ true
    → find u.tenant_id u.approval_id (compare_and_set n u rows).1 ≡ some u
unfolding find compare_and_set
find-compare_and_set n u [] h = absurd (ground arith)
find-compare_and_set n u (x ∷ rows) h =
    ground (arith, find-compare_and_set n u rows, eq_refl u.tenant_id, eq_refl u.approval_id)

-- A write that took effect met the expected revision.
pub compare_and_set-revision :
    (n : ℕ) (u : ApprovalRequest) (rows : Store) (r : ApprovalRequest)
    → (compare_and_set n u rows).0 ≡ true
    → find u.tenant_id u.approval_id rows ≡ some r
    → r.revision ≡ n
unfolding find compare_and_set
compare_and_set-revision n u [] r h f = absurd (ground arith)
compare_and_set-revision n u (x ∷ rows) r h f = ground (arith, compare_and_set-revision n u rows r)

-- A write that lost changed no row.
pub compare_and_set-lost :
    (n : ℕ) (u : ApprovalRequest) (rows : Store)
    → (compare_and_set n u rows).0 ≡ false
    → (compare_and_set n u rows).1 ≡ rows
unfolding compare_and_set
compare_and_set-lost n u [] h = refl
compare_and_set-lost n u (x ∷ rows) h = ground (arith, compare_and_set-lost n u rows)
