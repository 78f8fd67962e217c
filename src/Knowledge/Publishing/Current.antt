-- ===== src/Knowledge/Publishing/Current.antt =====
-- `complete_ingestion` of knowledge/application/lifecycle/publish.py: the versions that are ready after
-- the transaction.
use ragflow_agent.Base.{
  ◌≡◌, sym, ap, ◌∙◌, subst, inl, inr, String, true, false, some, arith, ◌==◌, is_none, Option-cases,
  Bool-cases,
}
use ragflow_agent.Knowledge.Document.{Document, DocumentVersion, ready}
use ragflow_agent.Knowledge.Tables.{
  get, replace, has_key, has_key_iff, get-replace, get-has_key, version_keyed, operation_keyed,
  document_keyed,
}
use ragflow_agent.Knowledge.Publishing.{Database, Loaded, Prepared, previous_of}
use ragflow_agent.Knowledge.Publishing.Steps.{Prepares, Retires}
use ragflow_agent.Knowledge.Publishing.Transactions.{
  misses, Commits, Loads, rows_after-Origin, Retires-superseded,
}

-- Every version that is ready is the current one of its document, and no identifier is empty.
pub record OnlyCurrent (db : Database) : Type 0 where
  pub current :
      (t i : String) (v : DocumentVersion)
      → get t i db.versions ≡ some v
      → v.status ≡ ready
      → (d : Document) × (get t v.document_id db.documents ≡ some d)
        × (d.current_version_id ≡ some v.id)
  pub named :
      (t i : String) (v : DocumentVersion) → get t i db.versions ≡ some v → (i == "") ≡ false

module _ (t operation_id : String) (db db' : Database) (l : Loaded) (p : Prepared)
    (only : OnlyCurrent db) (loads : Loads t operation_id db l) (prepares : Prepares l p)
    (commits : Commits t p db db')
    (follows : l.document.current_version_id ≡ l.operation.previous_version_id) where
  found : get t l.document.id (replace p.active_document db.documents) ≡ some p.active_document
  found = ground (
    arith,
    get-replace t l.document.id p.active_document db.documents,
    has_key_iff t l.document.id p.active_document,
    ap (λ i. is_none (get t i db.documents)) prepares.active_id,
  )

  -- The document after the transaction.
  pub document_after : (get t l.document.id db'.documents ≡ some p.active_document)
  document_after = ap (get t l.document.id) commits.documents_after ∙ found

  previous_is :
      (i : String) (v : DocumentVersion)
      → get t i db.versions ≡ some v
      → l.document.current_version_id ≡ some v.id
      → l.previous ≡ some v
  previous_is i v g c =
      let key = (has_key_iff t i v).0 (get-has_key t i v db.versions g) in
      loads.previous_row
      ∙ ap (λ o. previous_of t o db.versions) (sym follows ∙ c)
      ∙ ap (λ x. previous_of t (some x) db.versions) key.1
      ∙ ground (arith, only.named t i v g)

  -- A version that was current is retired or published again.
  not_retired :
      (i : String) (v : DocumentVersion)
      → get t i db.versions ≡ some v
      → l.document.current_version_id ≡ some v.id
      → has_key t i p.ready_version ≡ false
      → misses t i p.retired_version ≡ true
      → ⊥
  not_retired i v g c r m =
      let key = (has_key_iff t i v).0 (get-has_key t i v db.versions g) in
      elim (subst (λ x. Retires x p.ready_version p.retired_version) (previous_is i v g c)
        prepares.retires) [
          | inl (e, f) ↦ ground (arith, has_key_iff t i p.ready_version, key)
          | inr (u, f, o, a, b, s) ↦ ground (arith, has_key_iff t i u, key)
        ]

  -- The document of a version of the same tenant and the same document.
  same_document :
      (t' : String) (d : Document) (id : String)
      → t' ≡ t
      → id ≡ l.document.id
      → get t' id db.documents ≡ some d
      → some d ≡ some l.document
  same_document t' d id q e g =
      let key =
        (has_key_iff t l.operation.document_id l.document).0
          (get-has_key t l.operation.document_id l.document db.documents loads.document_row) in
      sym g
      ∙ ap (λ x. get x id db.documents) q
      ∙ ap (λ x. get t x db.documents) (e ∙ key.1)
      ∙ loads.document_row

  kept_current :
      (t' i : String) (v : DocumentVersion)
      → get t' i db.versions ≡ some v
      → has_key t' i p.ready_version ≡ false
      → misses t' i p.retired_version ≡ true
      → (d : Document) → get t' v.document_id db.documents ≡ some d
      → d.current_version_id ≡ some v.id
      → get t' v.document_id db'.documents ≡ some d
  kept_current t' i v g r m d gd c =
      elim (Bool-cases (has_key t' v.document_id p.active_document)) [
        | inr k ↦
            ap (get t' v.document_id) commits.documents_after
            ∙ ground (arith, get-replace t' v.document_id p.active_document db.documents)
        | inl k ↦
            let (a, b) = (has_key_iff t' v.document_id p.active_document).0 k in
            let q : t' ≡ t = sym a ∙ commits.document_tenant in
            let e = same_document t' d v.document_id q (sym b ∙ prepares.active_id) gd in
            absurd (
              not_retired i v (subst (λ x. get x i db.versions ≡ some v) q g)
                (sym (ground (arith, e)) ∙ c) (subst (λ x. has_key x i p.ready_version ≡ false) q r)
                (subst (λ x. misses x i p.retired_version ≡ true) q m))
      ]

  current_after :
      (t' i : String) (v : DocumentVersion)
      → get t' i db'.versions ≡ some v
      → v.status ≡ ready
      → (d : Document) × (get t' v.document_id db'.documents ≡ some d)
        × (d.current_version_id ≡ some v.id)
  current_after t' i v g s =
      let (o, e) =
        rows_after-Origin t' i p.ready_version p.retired_version db.versions v
          (sym (ap (get t' i) commits.versions_after) ∙ g) in
      elim o [
        | inl (q, k) ↦
            let (a, b) = (has_key_iff t' i p.ready_version).0 k in
            (
              p.active_document,
              ap (λ x. get x v.document_id db'.documents) (sym a ∙ commits.ready_tenant)
                  ∙ ap (λ x. get t x db'.documents)
                      (ap (λ x. x.document_id) q ∙ prepares.ready_document)
                  ∙ document_after,
              prepares.active_version ∙ ap some (sym (ap (λ x. x.id) q ∙ prepares.ready_id)),
            )
        | inr (inl q) ↦
            let z =
              Retires-superseded l.previous p.retired_version p.ready_version v prepares.retires
                q in
            absurd (ground arith)
        | inr (inr (g', r, m)) ↦
            let (d, gd, c) = only.current t' i v g' s in (d, kept_current t' i v g' r m d gd c, c)
      ]

  pub after-OnlyCurrent : OnlyCurrent db'
  after-OnlyCurrent = record {
    current = current_after;
    named = λ t' i v g.
        let (o, e) =
          rows_after-Origin t' i p.ready_version p.retired_version db.versions v
            (sym (ap (get t' i) commits.versions_after) ∙ g) in
        elim (Option-cases (get t' i db.versions)) [
          | inl q ↦ absurd (ground arith)
          | inr (w, q) ↦ only.named t' i w q
        ];
  }
