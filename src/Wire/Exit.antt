-- ===== src/Wire/Exit.antt =====
-- packages/t3code-lib/src/wire/exit.ts. `exitToError` keeps the error record as received; the
-- redaction of the error classes is not modelled.
use t3code_client.Prelude.{String, Bool, true, false, Option, none, some, List, find, any}
use t3code_client.Json.{
  Json, null, bool, num, str, arr, obj, Fields, no_fields, field, get, set, as_str,
}
use t3code_client.Errors
use t3code_client.Errors.{T3Error, rpc, rpc_defect}
use t3code_client.Wire.Envelope.{CauseEntry, fail, die, interrupted, ExitEncoded, success, failure}

-- `RpcExitOutcome`
pub data Outcome : Type 0 where
  succeeded : Option Json → Outcome
  failed : Fields → Outcome
  died : Option Json → Outcome
  was_interrupted : Outcome

abbrev pub is_fail : CauseEntry → Bool
is_fail (fail e) = true
is_fail (die d) = false
is_fail interrupted = false

abbrev pub is_die : CauseEntry → Bool
is_die (fail e) = false
is_die (die d) = true
is_die interrupted = false

abbrev pub is_interrupt : CauseEntry → Bool
is_interrupt (fail e) = false
is_interrupt (die d) = false
is_interrupt interrupted = true

tagged_record : Fields → Option String → Fields
tagged_record fs (some tag) = fs
tagged_record fs none = set "_tag" (str "UnknownError") fs

abbrev value_field : Option Json → Fields
value_field none = no_fields
value_field (some v) = field "value" v no_fields

-- `{ _tag: "UnknownError", value: error }`; a value that is `undefined` is no field.
abbrev pub unknown_record : Option Json → Fields
unknown_record e = field "_tag" (str "UnknownError") (value_field e)

unfoldable pub to_fail_record : Option Json → Fields
unfolding tagged_record
to_fail_record none = unknown_record none
to_fail_record (some null) = unknown_record (some null)
to_fail_record (some (bool b)) = unknown_record (some (bool b))
to_fail_record (some (num n)) = unknown_record (some (num n))
to_fail_record (some (str s)) = unknown_record (some (str s))
to_fail_record (some (arr vs)) = unknown_record (some (arr vs))
to_fail_record (some (obj fs)) = tagged_record fs (as_str (get "_tag" fs))

abbrev pub without_cause : Outcome
without_cause = died (some (str "The server reported a failure without a cause."))

interrupt_outcome : Bool → Outcome
interrupt_outcome true = was_interrupted
interrupt_outcome false = without_cause

die_outcome : List CauseEntry → Option CauseEntry → Outcome
unfolding interrupt_outcome
die_outcome cs (some (die d)) = died d
die_outcome cs (some (fail e)) = interrupt_outcome (any is_interrupt cs)
die_outcome cs (some interrupted) = interrupt_outcome (any is_interrupt cs)
die_outcome cs none = interrupt_outcome (any is_interrupt cs)

fail_outcome : List CauseEntry → Option CauseEntry → Outcome
unfolding die_outcome
fail_outcome cs (some (fail e)) = failed (to_fail_record e)
fail_outcome cs (some (die d)) = die_outcome cs (find is_die cs)
fail_outcome cs (some interrupted) = die_outcome cs (find is_die cs)
fail_outcome cs none = die_outcome cs (find is_die cs)

unfoldable pub normalize_exit : ExitEncoded → Outcome
unfolding fail_outcome
normalize_exit (success v) = succeeded v
normalize_exit (failure cs) = fail_outcome cs (find is_fail cs)

-- `exitToError`, whose argument is no success; none stands for a success.
unfoldable pub exit_to_error : Outcome → String → Option T3Error
exit_to_error (succeeded v) method = none
exit_to_error (failed record_) method = some (rpc method record_)
exit_to_error (died d) method = some (rpc_defect method d)
exit_to_error was_interrupted method = some Errors.interrupted
