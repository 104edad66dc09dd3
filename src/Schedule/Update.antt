-- ===== src/Schedule/Update.antt =====
-- packages/t3code-lib/src/api/scheduledTaskUpdate.ts, on the records of
-- packages/t3code-lib/src/schemas/scheduledTask.ts and scheduledTaskSchedule.ts. None is the throw of a
-- `T3PreconditionError`. A field that may be omitted or null is an Option of an Option where the two
-- differ.
use t3code_client.Prelude.{
  ℕ, ◌*◌, leb, ◌&&◌, String, Bool, true, Option, none, some, or_else, List, [], ◌∷◌, any, same,
  if◌then◌else◌,
}
use t3code_client.Json.{Json}

-- `ScheduledTaskWebhookSignature`
pub record Signature : Type 0 where
  pub header : String
  pub encoding : String
  pub prefix : String

-- `ScheduledTaskWebhookSignatureInput`: with a new secret, or none to keep the stored one.
pub record SignatureInput : Type 0 where
  pub header : String
  pub encoding : String
  pub prefix : String
  pub secret : Option String

-- `ScheduledTaskWebhookSchedule`
pub record Webhook : Type 0 where
  pub signature : Option Signature
  pub max_delivery_age_minutes : Option ℕ
  pub dedupe : Option Json
  pub filters : Option Json

-- `ScheduledTaskUpsertWebhookSchedule`
pub record WebhookInput : Type 0 where
  pub signature : Option (Option SignatureInput)
  pub max_delivery_age_minutes : Option (Option ℕ)
  pub dedupe : Option Json
  pub filters : Option Json

-- `ScheduledTaskSchedule`
pub data Schedule : Type 0 where
  interval : ℕ → Schedule
  fixed_time : String → Option (List ℕ) → Schedule
  webhook : Webhook → Schedule
  unknown : Json → Schedule

-- `ScheduledTaskUpsertSchedule`
pub data ScheduleInput : Type 0 where
  interval_input : ℕ → ScheduleInput
  fixed_time_input : String → Option (List ℕ) → ScheduleInput
  webhook_input : WebhookInput → ScheduleInput

-- `ScheduledTask`, without what the server counts and times.
pub record Task : Type 0 where
  pub id : String
  pub title : String
  pub prompt : String
  pub enabled : Bool
  pub schedule : Schedule
  pub project_id : String
  pub thread_id : Option String
  pub workspace_strategy : Json
  pub model_selection : Json
  pub runtime_mode : String
  pub interaction_mode : String
  pub created_by : Json
  pub creation_source : String

-- `ScheduledTaskUpsertInput`, as the update fills it in.
pub record UpsertInput : Type 0 where
  pub id : String
  pub require_existing : Bool
  pub title : String
  pub prompt : String
  pub enabled : Bool
  pub schedule : ScheduleInput
  pub project_id : String
  pub thread_id : Option String
  pub workspace_strategy : Json
  pub model_selection : Json
  pub runtime_mode : String
  pub interaction_mode : String
  pub created_by : Json
  pub creation_source : String

-- `ScheduledTaskPatch`
pub record Patch : Type 0 where
  pub title : Option String
  pub prompt : Option String
  pub enabled : Option Bool
  pub schedule : Option ScheduleInput
  pub project_id : Option String
  pub thread_id : Option (Option String)
  pub workspace_strategy : Option Json
  pub model_selection : Option Json
  pub runtime_mode : Option String
  pub interaction_mode : Option String

abbrev pub signature_encodings : List String
signature_encodings = "hex" ∷ "base64" ∷ []

abbrev pub is_known_encoding : String → Bool
is_known_encoding encoding = any (λ e. same e encoding) signature_encodings

unfoldable pub signature_input : Option Signature → Option (Option SignatureInput)
signature_input none = some none
signature_input (some s) =
    if is_known_encoding s.encoding
    then some (
        some
          (record { header = s.header; encoding = s.encoding; prefix = s.prefix; secret = none }))
    else none

-- `storedSignature`
unfoldable pub stored_signature : Webhook → Option (Option SignatureInput)
unfolding signature_input
stored_signature w = signature_input w.signature

-- The signature of a patched webhook: that of the patch, if it says one.
unfoldable pub patched_signature :
    Webhook → Option (Option SignatureInput) → Option (Option SignatureInput)
unfolding stored_signature
patched_signature w none = stored_signature w
patched_signature w (some s) = some s

abbrev pub with_signature :
    Option (Option SignatureInput)
    → Option (Option ℕ)
    → Option Json
    → Option Json
    → Option ScheduleInput
with_signature none age dedupe filters = none
with_signature (some s) age dedupe filters = some (
    webhook_input (record {
      signature = some s;
      max_delivery_age_minutes = age;
      dedupe = dedupe;
      filters = filters;
    }))

unfoldable pub patched_webhook : Webhook → WebhookInput → Option ScheduleInput
unfolding patched_signature
patched_webhook w p =
    with_signature (patched_signature w p.signature)
      (some (or_else p.max_delivery_age_minutes w.max_delivery_age_minutes)) p.dedupe p.filters

unfoldable pub patched_schedule : Schedule → ScheduleInput → Option ScheduleInput
unfolding patched_webhook
patched_schedule current (interval_input n) = some (interval_input n)
patched_schedule current (fixed_time_input t ds) = some (fixed_time_input t ds)
patched_schedule (webhook w) (webhook_input p) = patched_webhook w p
patched_schedule (interval n) (webhook_input p) = some (webhook_input p)
patched_schedule (fixed_time t ds) (webhook_input p) = some (webhook_input p)
patched_schedule (unknown raw) (webhook_input p) = some (webhook_input p)

unfoldable pub kept_schedule : Schedule → Option ScheduleInput
unfolding stored_signature
kept_schedule (unknown raw) = none
kept_schedule (interval n) = some (interval_input n)
kept_schedule (fixed_time t ds) = some (fixed_time_input t ds)
kept_schedule (webhook w) =
    with_signature (stored_signature w) (some w.max_delivery_age_minutes) none none

-- `updatedSchedule`
unfoldable pub updated_schedule : Schedule → Option ScheduleInput → Option ScheduleInput
unfolding patched_schedule kept_schedule
updated_schedule current none = kept_schedule current
updated_schedule current (some patch) = patched_schedule current patch

abbrev pub input_of : Task → Patch → ScheduleInput → UpsertInput
input_of stored patch schedule = record {
  id = stored.id;
  require_existing = true;
  title = or_else patch.title stored.title;
  prompt = or_else patch.prompt stored.prompt;
  enabled = or_else patch.enabled stored.enabled;
  schedule = schedule;
  project_id = or_else patch.project_id stored.project_id;
  thread_id = or_else patch.thread_id stored.thread_id;
  workspace_strategy = or_else patch.workspace_strategy stored.workspace_strategy;
  model_selection = or_else patch.model_selection stored.model_selection;
  runtime_mode = or_else patch.runtime_mode stored.runtime_mode;
  interaction_mode = or_else patch.interaction_mode stored.interaction_mode;
  created_by = stored.created_by;
  creation_source = stored.creation_source;
}

abbrev pub input_with : Task → Patch → Option ScheduleInput → Option UpsertInput
input_with stored patch none = none
input_with stored patch (some schedule) = some (input_of stored patch schedule)

-- `scheduledTaskUpdateInput`
unfoldable pub scheduled_task_update_input : Task → Patch → Option UpsertInput
unfolding updated_schedule
scheduled_task_update_input stored patch =
    input_with stored patch (updated_schedule stored.schedule patch.schedule)

-- `MIN_SCHEDULED_TASK_INTERVAL_MS` and `MAX_WEBHOOK_DELIVERY_AGE_MINUTES`
abbrev pub min_interval : ℕ
min_interval = 60000

abbrev pub max_delivery_age : ℕ
max_delivery_age = 24 * 60

-- `MaxDeliveryAgeMinutes.nullable().optional()`
abbrev pub age_fits : Option (Option ℕ) → Bool
age_fits none = true
age_fits (some none) = true
age_fits (some (some n)) = leb 1 n && leb n max_delivery_age

-- `ScheduledTaskWebhookSignatureInput.nullable().optional()`
abbrev pub signature_fits : Option (Option SignatureInput) → Bool
signature_fits none = true
signature_fits (some none) = true
signature_fits (some (some s)) = is_known_encoding s.encoding

-- What `ScheduledTaskUpsertSchedule` checks of a trigger before it is sent; the texts of a trigger, its
-- dedupe and its filters are taken to fit.
unfoldable pub is_writable : ScheduleInput → Bool
is_writable (interval_input n) = leb min_interval n
is_writable (fixed_time_input t ds) = true
is_writable (webhook_input i) = signature_fits i.signature && age_fits i.max_delivery_age_minutes

abbrev pub if_writable : Option UpsertInput → Option UpsertInput
if_writable none = none
if_writable (some i) = if is_writable i.schedule then some i else none

-- `update` of the API, without its read of a new target thread: the payload, as the call of
-- `scheduledTasks.upsert` takes it.
unfoldable pub sent_update : Task → Patch → Option UpsertInput
unfolding scheduled_task_update_input is_writable
sent_update stored patch = if_writable (scheduled_task_update_input stored patch)
