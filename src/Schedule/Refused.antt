-- ===== src/Schedule/Refused.antt =====
-- packages/t3code-lib/src/api/scheduledTasks.ts and scheduledTaskUpdate.ts: the updates that are not sent.
use t3code_client.Prelude.{ℕ, String, Bool, true, false, Option, none, some, ◌&&◌, leb, same, ◌||◌}
use t3code_client.Json.{Json}
use t3code_client.Schedule.Update.{
  Signature, SignatureInput, Schedule, interval, fixed_time, webhook, unknown, ScheduleInput,
  interval_input, fixed_time_input, webhook_input, is_writable,
}

-- The values that a server takes.
abbrev pub is_interval : ℕ → Bool
is_interval n = leb 60000 n

abbrev pub is_age : Option ℕ → Bool
is_age none = true
is_age (some n) = leb 1 n && leb n 1440

abbrev pub is_encoding : String → Bool
is_encoding e = same "hex" e || same "base64" e

abbrev pub is_signature : Option Signature → Bool
is_signature none = true
is_signature (some s) = is_encoding s.encoding

abbrev pub is_signature_input : Option SignatureInput → Bool
is_signature_input none = true
is_signature_input (some s) = is_encoding s.encoding

-- Whether the stored trigger can be sent again as a whole.
abbrev pub can_resend : Schedule → Bool
can_resend (interval n) = is_interval n
can_resend (fixed_time t ds) = true
can_resend (webhook w) = is_signature w.signature && is_age w.max_delivery_age_minutes
can_resend (unknown raw) = false

-- Whether what the patch says of a trigger can be sent.
abbrev pub signature_said : Option (Option SignatureInput) → Bool → Bool
signature_said none kept = kept
signature_said (some s) kept = is_signature_input s

abbrev pub age_said : Option (Option ℕ) → Bool → Bool
age_said none kept = kept
age_said (some n) kept = is_age n

-- A trigger of the patch over a stored one: the signature and the age that it does not say are those of
-- a stored webhook.
abbrev pub can_patch : Schedule → ScheduleInput → Bool
can_patch s (interval_input n) = is_interval n
can_patch s (fixed_time_input t ds) = true
can_patch (webhook w) (webhook_input p) =
    signature_said p.signature (is_signature w.signature)
    && age_said p.max_delivery_age_minutes (is_age w.max_delivery_age_minutes)
can_patch (interval n) (webhook_input p) =
    signature_said p.signature true && age_said p.max_delivery_age_minutes true
can_patch (fixed_time t ds) (webhook_input p) =
    signature_said p.signature true && age_said p.max_delivery_age_minutes true
can_patch (unknown raw) (webhook_input p) =
    signature_said p.signature true && age_said p.max_delivery_age_minutes true

abbrev pub can_update : Schedule → Option ScheduleInput → Bool
can_update s none = can_resend s
can_update s (some p) = can_patch s p

-- Whether a trigger is there and is writable.
abbrev goes_out : Option ScheduleInput → Bool
goes_out none = false
goes_out (some s) = is_writable s

-- Whether a signature is there and fits.
abbrev has_signature : Option (Option SignatureInput) → Bool
has_signature none = false
has_signature (some s) = is_signature_input s
