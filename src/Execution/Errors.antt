-- ===== src/Execution/Errors.antt =====
-- The normalized error categories and records: src/rag_eval/models/enums.py and
-- src/rag_eval/models/target.py. Of a record the fields are kept that the execution layer reads.
use rag_eval.Prelude.{ℕ, Bool, true, false, Option, String, List, any}

-- `class ErrorCategory`
pub data ErrorCategory : Type 0 where
  validation unsupported_capability authentication authorization not_found conflict : ErrorCategory
  network connection timeout rate_limit resource_exhausted ingestion : ErrorCategory
  retrieval generation invalid_response internal unknown : ErrorCategory

unfoldable pub ErrorCategory-discrete : Discrete ErrorCategory
ErrorCategory-discrete = hlevel

-- `a == b` on categories.
abbrev pub category_eq : ErrorCategory → ErrorCategory → Bool
category_eq a b = elim (ErrorCategory-discrete a b) [ yes p ↦ true | no n ↦ false ]

-- `category in categories`
abbrev pub category_in : ErrorCategory → List ErrorCategory → Bool
category_in c = any (category_eq c)

-- `class ErrorRecord`
pub record ErrorRecord : Type 0 where
  pub category : ErrorCategory
  pub code : String
  pub message : String
  pub retryable : Bool
  pub retry_after_ms : Option ℕ
  pub http_status : Option ℕ
