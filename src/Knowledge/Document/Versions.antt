-- ===== src/Knowledge/Document/Versions.antt =====
-- The life of a document version under `transition_document_version` of
-- knowledge/domain/document.py.
use ragflow_agent.Base.{
  ℕ, ◌+◌, ◌≤◌, ◌≡◌, refl, ◌⊎◌, inl, inr, true, false, List, [], ◌∷◌, arith, Result, ok, err, sym,
  ap,
}
use mathlib.Core.List.{Memᴰ}
use ragflow_agent.Knowledge.Errors.{Raised}
use ragflow_agent.Knowledge.Document.{
  DocumentVersionStatus, registered, ingesting, ready, failed, superseded, DocumentVersion,
  same_version_status, in_version_transitions, transition_document_version,
}

-- The diagram of the lifecycle, with deletion possible from everywhere but itself.
pub data VersionEdge : DocumentVersionStatus → DocumentVersionStatus → Type 0 where
  ingest : VersionEdge registered ingesting
  publish : VersionEdge ingesting ready
  fail : VersionEdge ingesting failed
  retry : VersionEdge failed ingesting
  supersede : VersionEdge ready superseded
  reinstate : VersionEdge superseded ready
  delete :
      {s : DocumentVersionStatus}
      → same_version_status s DocumentVersionStatus.deleted ≡ false
      → VersionEdge s DocumentVersionStatus.deleted

edge_of : (s t : DocumentVersionStatus) → in_version_transitions s t ≡ true → VersionEdge s t
edge_of registered ingesting h = ingest
edge_of ingesting ready h = publish
edge_of ingesting failed h = fail
edge_of failed ingesting h = retry
edge_of ready superseded h = supersede
edge_of superseded ready h = reinstate
edge_of registered DocumentVersionStatus.deleted h = delete refl
edge_of ingesting DocumentVersionStatus.deleted h = delete refl
edge_of ready DocumentVersionStatus.deleted h = delete refl
edge_of failed DocumentVersionStatus.deleted h = delete refl
edge_of superseded DocumentVersionStatus.deleted h = delete refl
edge_of s t h = cc

edge_allowed : {s t : DocumentVersionStatus} → VersionEdge s t → in_version_transitions s t ≡ true
edge_allowed ingest = refl
edge_allowed publish = refl
edge_allowed fail = refl
edge_allowed retry = refl
edge_allowed supersede = refl
edge_allowed reinstate = refl
edge_allowed (delete {s = registered} h) = refl
edge_allowed (delete {s = ingesting} h) = refl
edge_allowed (delete {s = ready} h) = refl
edge_allowed (delete {s = failed} h) = refl
edge_allowed (delete {s = superseded} h) = refl
edge_allowed (delete {s = DocumentVersionStatus.deleted} h) = cc

abbrev pub moved : DocumentVersion → DocumentVersionStatus → ℕ → DocumentVersion
moved v target now = record v { status = target; revision = v.revision + 1; updated_at = now }

-- The transition along an edge at a time that does not go back.
pub transition-edge :
    (v : DocumentVersion) (target : DocumentVersionStatus) (now : ℕ)
    → v.created_at ≤ v.updated_at
    → v.updated_at ≤ now
    → VersionEdge v.status target
    → transition_document_version v target now ≡ ok (moved v target now)
unfolding transition_document_version
transition-edge v target now c u e = ground (arith, edge_allowed e)

-- An accepted transition repeats the status and changes nothing, or follows an edge at a time that
-- does not go back.
pub transition_inversion :
    (v : DocumentVersion) (target : DocumentVersionStatus) (now : ℕ) (v' : DocumentVersion)
    → transition_document_version v target now ≡ ok v'
    → (v' ≡ v) ⊎ (VersionEdge v.status target × (v.updated_at ≤ now) × (v' ≡ moved v target now))
unfolding transition_document_version
transition_inversion v target now v' h = ground (arith, edge_of v.status target)

abbrev stored : DocumentVersion → Result Raised DocumentVersion → DocumentVersion
stored v (ok v') = v'
stored v (err e) = v

-- A sequence of requests; one that raises leaves the version as it was.
unfoldable pub run : DocumentVersion → List (DocumentVersionStatus × ℕ) → DocumentVersion
run v [] = v
run v ((target, now) ∷ rest) = run (stored v (transition_document_version v target now)) rest

abbrev pub Unborn : DocumentVersionStatus → Type 0
Unborn s = (s ≡ registered) ⊎ (s ≡ DocumentVersionStatus.deleted)

step-Unborn :
    (v : DocumentVersion) (target : DocumentVersionStatus) (now : ℕ)
    → Unborn v.status
    → (target ≡ ingesting) ⊎ Unborn (stored v (transition_document_version v target now)).status
unfolding transition_document_version
step-Unborn v target now h = ground arith

-- A registered version that is ready after any requests was asked to ingest: no other way leads
-- from registration to publication.
pub ready_needs_ingesting :
    (v : DocumentVersion) (requests : List (DocumentVersionStatus × ℕ))
    → Unborn v.status
    → (run v requests).status ≡ ready
    → (now : ℕ) × Memᴰ (ingesting, now) requests
unfolding run
ready_needs_ingesting v [] u h = absurd (ground arith)
ready_needs_ingesting v ((target, now) ∷ rest) u h = elim (step-Unborn v target now u) [
  | inl p ↦ (now, Memᴰ.head (ap (λ t. (t, now)) (sym p)))
  | inr q ↦
      let (at, m) =
        ready_needs_ingesting (stored v (transition_document_version v target now)) rest q h in
      (at, Memᴰ.tail m)
]
