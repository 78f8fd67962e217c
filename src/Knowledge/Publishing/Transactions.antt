-- ===== src/Knowledge/Publishing/Transactions.antt =====
-- `complete_ingestion` of knowledge/application/lifecycle/publish.py: what is read, and the tables after
-- the transaction.
use ragflow_agent.Base.{
  ℕ, ◌≡◌, refl, ap, ◌∙◌, ◌⊎◌, inl, inr, String, Bool, true, false, not, Option, none, some, List,
  arith, ◌==◌, eq_iff, is_none, ok, Result-cases, Option-cases,
}
use ragflow_agent.Knowledge.Document.{DocumentVersion, superseded}
use ragflow_agent.Knowledge.Tables.{
  get, save, replace, save_if_revision, save-replace, save_if_revision-replace, has_key,
  has_key_iff, get-replace, version_keyed, operation_keyed, document_keyed,
}
use ragflow_agent.Knowledge.Publishing.{
  Database, Loaded, Prepared, load, previous_of, save_retired, commit,
}
use ragflow_agent.Knowledge.Publishing.Steps.{Retires}

-- The tables after the transaction.
abbrev pub rows_after :
    DocumentVersion → Option DocumentVersion → List DocumentVersion → List DocumentVersion
rows_after r none versions = replace r versions
rows_after r (some u) versions = replace u (replace r versions)

pub record Commits (t : String) (p : Prepared) (db db' : Database) : Type 0 where
  pub ready_tenant : p.ready_version.tenant_id ≡ t
  pub ready_row : is_none (get t p.ready_version.id db.versions) ≡ false
  pub versions_after : db'.versions ≡ rows_after p.ready_version p.retired_version db.versions
  pub document_tenant : p.active_document.tenant_id ≡ t
  pub document_row : is_none (get t p.active_document.id db.documents) ≡ false
  pub documents_after : db'.documents ≡ replace p.active_document db.documents

save_retired_lem :
    (t : String) (r : DocumentVersion) (u : Option DocumentVersion)
    (versions saved out : List DocumentVersion)
    → saved ≡ replace r versions
    → save_retired t u saved ≡ ok out
    → out ≡ rows_after r u versions
save_retired_lem t r none versions saved out e h = ground arith
save_retired_lem t r (some u) versions saved out e h =
    (save-replace t u saved out h).2 ∙ ap (replace u) e

pub commit-Commits :
    (t : String) (revision : ℕ) (p : Prepared) (db db' : Database)
    → commit t revision p db ≡ ok db'
    → Commits t p db db'
unfolding commit
commit-Commits t revision p db db' h = elim (Result-cases (save t p.ready_version db.versions)) [
  | inr (x, e) ↦ absurd (ground arith)
  | inl (saved, e) ↦ elim (Result-cases (save_retired t p.retired_version saved)) [
    | inr (x, f) ↦ absurd (ground arith)
    | inl (vs, f) ↦
        elim (Result-cases (save_if_revision t p.active_document revision db.documents)) [
          | inr (x, g) ↦ absurd (ground arith)
          | inl (ds, g) ↦
              let (rt, rr, rs) = save-replace t p.ready_version db.versions saved e in
              let (dt, dr, dd) =
                save_if_revision-replace t p.active_document revision db.documents ds g in
              let same : (db'.versions ≡ vs) × (db'.documents ≡ ds) = ground arith in
              record {
                ready_tenant = rt;
                ready_row = rr;
                versions_after =
                    same.0
                    ∙ save_retired_lem t p.ready_version p.retired_version db.versions saved vs rs
                        f;
                document_tenant = dt;
                document_row = dr;
                documents_after = same.1 ∙ dd;
              }
        ]
  ]
]

-- A row of the versions after the transaction is the one made ready, the one retired, or one that was
-- there.
abbrev pub misses : String → String → Option DocumentVersion → Bool
misses t i none = true
misses t i (some u) = not (has_key t i u)

abbrev pub Origin :
    String
    → String
    → DocumentVersion
    → Option DocumentVersion
    → List DocumentVersion
    → DocumentVersion
    → Type 0
Origin t i r out versions v =
    ((v ≡ r) × (has_key t i r ≡ true))
    ⊎ (out ≡ some v)
    ⊎ ((get t i versions ≡ some v) × (has_key t i r ≡ false) × (misses t i out ≡ true))

pub rows_after-Origin :
    (t i : String) (r : DocumentVersion) (out : Option DocumentVersion)
    (versions : List DocumentVersion) (v : DocumentVersion)
    → get t i (rows_after r out versions) ≡ some v
    → Origin t i r out versions v × (is_none (get t i versions) ≡ false)
rows_after-Origin t i r none versions v h = ground (arith, get-replace t i r versions)
rows_after-Origin t i r (some u) versions v h =
    ground (arith, get-replace t i u (replace r versions), get-replace t i r versions)

pub Retires-superseded :
    (previous out : Option DocumentVersion) (r v : DocumentVersion)
    → Retires previous r out
    → out ≡ some v
    → v.status ≡ superseded
Retires-superseded none out r v h e = ground arith
Retires-superseded (some w) out r v h e = ground arith

pub Retires-other :
    (previous out : Option DocumentVersion) (r u : DocumentVersion)
    → Retires previous r out
    → out ≡ some u
    → (u.id == r.id) ≡ false
Retires-other none out r u h e = ground arith
Retires-other (some w) out r u h e = ground (arith, eq_iff u.id r.id, eq_iff w.id r.id)

-- The row of the version made ready, after the transaction.
pub ready_after :
    (t : String) (r : DocumentVersion) (out : Option DocumentVersion)
    (versions : List DocumentVersion)
    → r.tenant_id ≡ t
    → is_none (get t r.id versions) ≡ false
    → ((u : DocumentVersion) → out ≡ some u → (u.id == r.id) ≡ false)
    → get t r.id (rows_after r out versions) ≡ some r
ready_after t r none versions e n h =
    ground (arith, get-replace t r.id r versions, has_key_iff t r.id r)
ready_after t r (some u) versions e n h = ground (
  arith,
  get-replace t r.id u (replace r versions),
  get-replace t r.id r versions,
  has_key_iff t r.id r,
  h u refl,
)

-- What was read.
pub record Loads (t : String) (operation_id : String) (db : Database) (l : Loaded) : Type 0 where
  pub operation_row : get t operation_id db.operations ≡ some l.operation
  pub document_row : get t l.operation.document_id db.documents ≡ some l.document
  pub version_row : get t l.operation.version_id db.versions ≡ some l.version
  pub previous_row : l.previous ≡ previous_of t l.operation.previous_version_id db.versions

pub load-Loads :
    (t operation_id : String) (db : Database) (l : Loaded)
    → load t operation_id db ≡ ok l
    → Loads t operation_id db l
unfolding load
load-Loads t operation_id db l h = elim (Option-cases (get t operation_id db.operations)) [
  | inl e ↦ absurd (ground arith)
  | inr (o, e) ↦ elim (Option-cases (get t o.document_id db.documents)) [
    | inl f ↦ absurd (ground arith)
    | inr (d, f) ↦ elim (Option-cases (get t o.version_id db.versions)) [
      | inl g ↦ absurd (ground arith)
      | inr (v, g) ↦ ground arith
    ]
  ]
]
