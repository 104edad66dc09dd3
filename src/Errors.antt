-- ===== src/Errors.antt =====
-- packages/t3code-lib/src/errors.ts: the failures that the library raises, without their message
-- texts, causes and stack traces.
use t3code_client.Prelude.{String, ℕ, Option}
use t3code_client.Json.{Json, Fields}

-- `T3ConnectionFailureReason`
pub data FailureReason : Type 0 where
  closed open_failed ping_timeout protocol message_too_large : FailureReason

-- The classes below `T3Error`. `insufficient_scope` and `auth_invalid` are the codes of
-- `T3AuthError`, with `requiredScope`; `http`, `not_found` and these two are HTTP failures with their
-- status and reason.
pub data T3Error : Type 0 where
  storage : T3Error
  http : ℕ → Option String → T3Error
  auth_invalid : T3Error
  insufficient_scope : Option String → T3Error
  not_found : Option String → T3Error
  rpc : String → Fields → T3Error
  rpc_defect : String → Option Json → T3Error
  connection : FailureReason → T3Error
  decode : String → T3Error
  precondition : T3Error
  interrupted : T3Error
  timeout : T3Error
