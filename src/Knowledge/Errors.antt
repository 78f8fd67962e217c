-- ===== src/Knowledge/Errors.antt =====
-- knowledge/domain/errors.py, and the ValueError that a pydantic model raises. Of an exception the
-- callers read its class and its code; message and details are not kept.
use Prim.Native.String.{String}

pub data Raised : Type 0 where
  conflict : String → Raised  -- KnowledgeConflictError, by error_code
  forbidden : String → Raised  -- KnowledgeAuthorizationError, by reason_code
  not_found : String → Raised  -- KnowledgeNotFoundError, by resource_type
  retrieval_failed : String → Raised  -- KnowledgeRetrievalError, by error_code
  invalid : Raised  -- ValueError and pydantic's ValidationError
