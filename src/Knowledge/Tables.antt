-- ===== src/Knowledge/Tables.antt =====
-- The tables of knowledge/infrastructure/database/repositories.py: rows under the primary key (tenant,
-- id). A call that raises leaves its table as it is, and aborts the transaction that it stands in.
use ragflow_agent.Base.{
  ℕ, ◌≡◌, subst, ◌↔◌, inl, inr, Bool-cases, String, Bool, true, false, not, ◌&&◌, Option, none,
  some, List, [], ◌∷◌, arith, nat_eq, ◌==◌, eq_iff, is_none, if◌then◌else◌, Result, ok, err, ◌>>◌,
  raise_if,
}
use ragflow_agent.Knowledge.Errors.{Raised, conflict, forbidden, not_found}
use ragflow_agent.Knowledge.Document.{Document, DocumentVersion}
use ragflow_agent.Knowledge.Lifecycle.Operation.{LifecycleOperation}

-- An entity with its key.
pub record Keyed (A : Type 0) : Type 0 where
  pub tenant_of : A → String
  pub id_of : A → String

instance abbrev pub document_keyed : Keyed Document
document_keyed = record { tenant_of = λ d. d.tenant_id; id_of = λ d. d.id }

instance abbrev pub version_keyed : Keyed DocumentVersion
version_keyed = record { tenant_of = λ v. v.tenant_id; id_of = λ v. v.id }

instance abbrev pub operation_keyed : Keyed LifecycleOperation
operation_keyed = record { tenant_of = λ o. o.tenant_id; id_of = λ o. o.id }

module _ {A : Type 0} ⦃k : Keyed A⦄ where
  abbrev pub has_key : String → String → A → Bool
  has_key t i x = k.tenant_of x == t && k.id_of x == i

  -- `get`.
  unfoldable pub get : String → String → List A → Option A
  get t i [] = none
  get t i (x ∷ xs) = if has_key t i x then some x else get t i xs

  -- The rows with one of them replaced.
  unfoldable pub replace : A → List A → List A
  replace x [] = []
  replace x (y ∷ ys) =
      let rest = replace x ys in if has_key (k.tenant_of x) (k.id_of x) y then x ∷ ys else y ∷ rest

  -- `save`.
  unfoldable pub save : String → A → List A → Result Raised (List A)
  unfolding get replace
  save tenant_id x rows = do
    raise_if (not (k.tenant_of x == tenant_id)) (forbidden "tenant_mismatch")
    raise_if (is_none (get (k.tenant_of x) (k.id_of x) rows)) (not_found "knowledge_resource")
    ok (replace x rows)

  pub get-has_key :
      (t i : String) (x : A) (rows : List A) → get t i rows ≡ some x → has_key t i x ≡ true
  unfolding get
  get-has_key t i x [] h = cc
  get-has_key t i x (y ∷ ys) h = ground (arith, get-has_key t i x ys)

  pub has_key_iff :
      (t i : String) (x : A) → (has_key t i x ≡ true) ↔ ((k.tenant_of x ≡ t) × (k.id_of x ≡ i))
  has_key_iff t i x = ground (arith, eq_iff (k.tenant_of x) t, eq_iff (k.id_of x) i)

  pub save-replace :
      (t : String) (x : A) (rows rows' : List A)
      → save t x rows ≡ ok rows'
      → (k.tenant_of x ≡ t) × (is_none (get t (k.id_of x) rows) ≡ false) × (rows' ≡ replace x rows)
  unfolding save
  save-replace t x rows rows' h = elim (Bool-cases (k.tenant_of x == t)) [
    | inr e ↦ absurd (ground arith)
    | inl e ↦
        let same = (eq_iff (k.tenant_of x) t).0 e in
        (
          same,
          subst (λ u. is_none (get u (k.id_of x) rows) ≡ false) same (ground arith),
          ground arith,
        )
  ]

  pub get-replace :
      (t i : String) (x : A) (rows : List A)
      → get t i (replace x rows)
        ≡ (if has_key t i x && not (is_none (get t i rows)) then some x else get t i rows)
  unfolding get replace
  get-replace t i x [] = ground arith
  get-replace t i x (y ∷ ys) = ground (
    arith,
    get-replace t i x ys,
    eq_iff (k.tenant_of x) t,
    eq_iff (k.id_of x) i,
    eq_iff (k.tenant_of y) t,
    eq_iff (k.id_of y) i,
    eq_iff (k.tenant_of y) (k.tenant_of x),
    eq_iff (k.id_of y) (k.id_of x),
  )

-- `save_if_revision`: an update that has to hit one row.
unfoldable pub save_if_revision :
    String → Document → ℕ → List Document → Result Raised (List Document)
unfolding get replace
save_if_revision tenant_id d expected rows = do
  raise_if (not (d.tenant_id == tenant_id)) (forbidden "tenant_mismatch")
  elim (get tenant_id d.id rows) [
    | none ↦ err (conflict "document_revision_conflict")
    | some old ↦
        if nat_eq old.revision expected
        then ok (replace d rows)
        else err (conflict "document_revision_conflict")
  ]

pub save_if_revision-replace :
    (t : String) (d : Document) (expected : ℕ) (rows rows' : List Document)
    → save_if_revision t d expected rows ≡ ok rows'
    → (d.tenant_id ≡ t) × (is_none (get t d.id rows) ≡ false) × (rows' ≡ replace d rows)
unfolding save_if_revision
save_if_revision-replace t d expected rows rows' h = ground (arith, eq_iff d.tenant_id t)
