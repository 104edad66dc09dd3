-- ===== src/Follow/Exit.antt =====
-- packages/t3code-cli/src/errors.ts: the exit codes of the CLI.
use t3code_client.Prelude.{
  ℕ, String, Bool, false, not, ◌&&◌, ◌||◌, Option, none, some, is_some, same, if◌then◌else◌,
}
use t3code_client.Json.{Fields, get, as_str}
use t3code_client.Errors.{
  T3Error, storage, http, auth_invalid, insufficient_scope, not_found, rpc, rpc_defect, connection,
  decode, precondition, interrupted, timeout,
}

-- `ErrorContext`
pub data ErrorContext : Type 0 where
  local connecting dispatch run_detach run_interrupt : ErrorContext

abbrev pub timeout_code : ErrorContext → ℕ
timeout_code local = 1
timeout_code connecting = 8
timeout_code dispatch = 8
timeout_code run_detach = 5
timeout_code run_interrupt = 6

-- The fields of a record that a schema asks for; a scope may be any text. That the record is redacted
-- before it is decoded changes neither its tag nor which of its fields are texts.
abbrev pub has_text : String → Fields → Bool
has_text key record_ = is_some (as_str (get key record_))

-- `z.string().optional()`
abbrev pub may_have_text : String → Fields → Bool
may_have_text key record_ = not (is_some (get key record_)) || has_text key record_

-- `EnvironmentAuthorizationError` and `TerminalProviderInstanceNotFoundError`
abbrev pub matches_authorization : Fields → Bool
matches_authorization record_ =
    has_text "message" record_
    && has_text "requiredScope" record_
    && may_have_text "requiredPermission" record_

abbrev pub matches_instance : Fields → Bool
matches_instance record_ = has_text "providerInstanceId" record_

abbrev pub is_tag : String → Option String → Bool
is_tag tag none = false
is_tag tag (some t) = same t tag

-- `error.is`: the record has the tag, and was decoded by the schema of that tag.
unfoldable pub is_error : String → (Fields → Bool) → Fields → Bool
is_error tag matches record_ = is_tag tag (as_str (get "_tag" record_)) && matches record_

abbrev pub tag_code : Fields → ℕ
tag_code record_ =
    if is_error "EnvironmentAuthorizationError" matches_authorization record_
    then 9
    else if is_error "TerminalProviderInstanceNotFoundError" matches_instance record_
    then 10
    else 1

-- `exitCodeFor`
unfoldable pub exit_code_for : T3Error → ErrorContext → ℕ
unfolding is_error
exit_code_for storage c = 1
exit_code_for (http status reason) c = 1
exit_code_for auth_invalid c = 9
exit_code_for (insufficient_scope scope) c = 9
exit_code_for (not_found reason) c = 10
exit_code_for (rpc method record_) c = tag_code record_
exit_code_for (rpc_defect method defect) c = 1
exit_code_for (connection reason) c = 8
exit_code_for (decode method) c = 1
exit_code_for precondition c = 2
exit_code_for interrupted c = 4
exit_code_for timeout c = timeout_code c

-- `exitCodeForState`
unfoldable pub exit_code_for_state : String → ℕ
exit_code_for_state state =
    if same state "completed" || same state "idle"
    then 0
    else if same state "failed" || same state "rolled_back"
    then 3
    else if same state "interrupted" || same state "cancelled"
    then 4
    else 1
