-- ===== src/Knowledge/Document/Histories.antt =====
-- Sequences of transitions of a document version, `transition_document_version` of
-- knowledge/domain/document.py.
use ragflow_agent.Base.{
  ℕ, suc, ◌+◌, ◌≤◌, ◌≡◌, refl, sym, ap, ◌∙◌, subst, inl, inr, List, [], ◌∷◌, length, arith, ok,
  Result-cases,
}
use ragflow_agent.Knowledge.Document.{
  DocumentVersionStatus, DocumentVersion, transition_document_version,
}
use ragflow_agent.Knowledge.Document.Versions.{
  VersionEdge, delete, moved, transition-edge, transition_inversion, run,
}

-- A way along the diagram, by the number of its edges.
pub data Way : DocumentVersionStatus → DocumentVersionStatus → ℕ → Type 0 where
  here : {s : DocumentVersionStatus} → Way s s 0
  next : {s t u : DocumentVersionStatus} {n : ℕ} → VersionEdge s t → Way t u n → Way s u (suc n)

deleted-closed : (t : DocumentVersionStatus) → VersionEdge DocumentVersionStatus.deleted t → ⊥
deleted-closed t (delete h) = cc

-- The version after some requests: it went along the diagram, once for each revision, its time did not
-- go back, it is the same version of the same content, and it did not change if it was deleted.
pub record Leads (v v' : DocumentVersion) : Type 0 where
  pub moves : ℕ
  pub path : Way v.status v'.status moves
  pub revisions : v'.revision ≡ v.revision + moves
  pub later : v.updated_at ≤ v'.updated_at
  pub same_id : v'.id ≡ v.id
  pub same_tenant : v'.tenant_id ≡ v.tenant_id
  pub same_document : v'.document_id ≡ v.document_id
  pub same_object : v'.object_key ≡ v.object_key
  pub same_content : v'.content_hash ≡ v.content_hash
  pub closed : v.status ≡ DocumentVersionStatus.deleted → v' ≡ v

same-Leads : (v : DocumentVersion) → Leads v v
same-Leads v = record {
  moves = 0;
  path = Way.here;
  revisions = omega arith;
  later = omega arith;
  same_id = refl;
  same_tenant = refl;
  same_document = refl;
  same_object = refl;
  same_content = refl;
  closed = λ h. refl;
}

moved-Leads :
    (v v' : DocumentVersion) (target : DocumentVersionStatus) (now : ℕ)
    → VersionEdge v.status target
    → v.updated_at ≤ now
    → Leads (moved v target now) v'
    → Leads v v'
moved-Leads v v' target now e h l = record {
  moves = suc l.moves;
  path = Way.next e l.path;
  revisions = omega (arith, l.revisions);
  later = omega (arith, h, l.later);
  same_id = l.same_id;
  same_tenant = l.same_tenant;
  same_document = l.same_document;
  same_object = l.same_object;
  same_content = l.same_content;
  closed = λ d. absurd (deleted-closed target (subst (λ s. VersionEdge s target) d e));
}

-- Whatever transitions a version is asked for, in any order and at any times: its status goes along the
-- diagram of the lifecycle, its revision rises by exactly the number of edges taken, its time does not
-- go back, its identity and content stay, and a deleted version never changes.
pub run-Leads :
    (v : DocumentVersion) (requests : List (DocumentVersionStatus × ℕ)) → Leads v (run v requests)
unfolding run
run-Leads v [] = same-Leads v
run-Leads v ((target, now) ∷ rest) =
    elim (Result-cases (transition_document_version v target now)) [
      | inr (x, e) ↦ rw e (run-Leads v rest)
      | inl (v', e) ↦ elim (transition_inversion v target now v' e) [
        | inl same ↦ rw e (rw same (run-Leads v rest))
        | inr (edge, h, same) ↦ rw e (
            rw same (
              moved-Leads v (run (moved v target now) rest) target now edge h
                (run-Leads (moved v target now) rest)))
      ]
    ]

run-step :
    (v v' : DocumentVersion) (target : DocumentVersionStatus) (now : ℕ)
    (rest : List (DocumentVersionStatus × ℕ))
    → transition_document_version v target now ≡ ok v'
    → run v ((target, now) ∷ rest) ≡ run v' rest
unfolding run
run-step v v' target now rest e = rw e refl

-- A version that was not updated before it was created can be led along every way of the diagram: there
-- are requests, one for each edge, after which it has the status at the end of the way and its revision
-- is higher by their number.
pub Way-run :
    (v : DocumentVersion) (s u : DocumentVersionStatus) (n : ℕ)
    → v.created_at ≤ v.updated_at
    → v.status ≡ s
    → Way s u n
    → (requests : List (DocumentVersionStatus × ℕ)) × (length requests ≡ n)
      × ((run v requests).status ≡ u)
      × ((run v requests).revision ≡ v.revision + n)
unfolding run
Way-run v s u n c h Way.here = ([], refl, h, omega arith)
Way-run v s u n c h (Way.next {t = t} e p) =
    let now = v.updated_at in
    let (requests, k, q, r) = Way-run (moved v t now) t u _ c refl p in
    let step =
      run-step v (moved v t now) t now requests
        (transition-edge v t now c (omega arith) (subst (λ x. VersionEdge x t) (sym h) e)) in
    (
      (t, now) ∷ requests,
      ap suc k,
      ap (λ x. x.status) step ∙ q,
      ap (λ x. x.revision) step ∙ omega (arith, r),
    )
