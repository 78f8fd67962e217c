-- ===== src/Knowledge/Ingestion/Moves.antt =====
-- One transition of knowledge/domain/ingestion.py: along which edges it moves and what it keeps.
use ragflow_agent.Base.{
  ℕ, ◌≤◌, ◌≡◌, ◌≢◌, ◌⊎◌, true, false, Option, none, arith, ok, float_one, is_none,
}
use ragflow_agent.Knowledge.Ingestion.{
  IngestionStatus, pending, running, succeeded, failed, cancelled, IngestionError, Progressed,
  IngestionRecord, validate_ingestion_record, transition_ingestion, in_transitions,
}

-- The lifecycle, drawn independently of the table.
pub data Edge : IngestionStatus → IngestionStatus → Type 0 where
  start : Edge pending running
  withdraw : Edge pending cancelled
  succeed : Edge running succeeded
  fail : Edge running failed
  cancel : Edge running cancelled

pub record IsValid (r : Progressed) : Type 0 where
  pub bounded : r.progress ≤ float_one
  pub ordered : r.created_at ≤ r.updated_at
  pub complete : r.status ≡ succeeded → r.progress ≡ float_one
  pub explained : r.status ≡ failed → is_none r.error ≡ false
  pub clean : r.status ≢ failed → r.error ≡ none

-- What one transition does to a record.
pub record Advances (a b : Progressed) : Type 0 where
  pub valid : IsValid b
  pub later : a.updated_at ≤ b.updated_at
  pub further : a.progress ≤ b.progress
  pub created : b.created_at ≡ a.created_at
  pub along : (b ≡ a) ⊎ Edge a.status b.status

pub validate-IsValid : (r : Progressed) → validate_ingestion_record r ≡ ok tt → IsValid r
unfolding validate_ingestion_record
validate-IsValid r h = ground arith

pub IsValid-validate : (r : Progressed) → IsValid r → validate_ingestion_record r ≡ ok tt
unfolding validate_ingestion_record
IsValid-validate r v = ground arith

edge_of : (s t : IngestionStatus) → in_transitions s t ≡ true → Edge s t
edge_of pending running h = start
edge_of pending cancelled h = withdraw
edge_of running succeeded h = succeed
edge_of running failed h = fail
edge_of running cancelled h = cancel
edge_of s t h = cc

module _ {R : Type 0} ⦃i : IngestionRecord R⦄ where
  -- An accepted transition of a valid job or task gives a valid one, whose time and progress are no
  -- lower, whose creation time is the same, and which is either unchanged or one edge of the diagram
  -- further.
  pub transition-Advances :
      (r : R) (target : IngestionStatus) (progress changed_at : ℕ) (error : Option IngestionError)
      (r' : R)
      → IsValid (i.body r)
      → transition_ingestion r target progress changed_at error ≡ ok r'
      → Advances (i.body r) (i.body r')
  unfolding transition_ingestion
  transition-Advances r target progress changed_at error r' v h = ground (
    arith,
    i.body_with_body r (record (i.body r) {
      status = target;
      progress = progress;
      error = error;
      updated_at = changed_at;
    }),
    i.validate_body (
        i.with_body r (record (i.body r) {
          status = target;
          progress = progress;
          error = error;
          updated_at = changed_at;
        })),
    validate-IsValid (record (i.body r) {
      status = target;
      progress = progress;
      error = error;
      updated_at = changed_at;
    }),
    edge_of (i.body r).status target,
  )
