-- ===== src/Schedule/Kept.antt =====
-- api/scheduledTaskUpdate.ts: what an update sends, on a server that saves as it is documented to.
use t3code_client.Prelude.{
  ℕ, String, Bool, true, false, Option, none, some, or_else, List, if◌then◌else◌, ◌≡◌, refl, ap,
  sym, ◌∙◌, arith,
}
use t3code_client.Json.{Json}
use t3code_client.Schedule.Update.{
  Signature, SignatureInput, Webhook, WebhookInput, Schedule, interval, fixed_time, webhook,
  unknown, ScheduleInput, interval_input, fixed_time_input, webhook_input, Task, UpsertInput, Patch,
  is_known_encoding, signature_input, with_signature, updated_schedule, input_of, input_with,
  scheduled_task_update_input,
}

-- `x ?? y`
abbrev pub or_stored : Option Json → Option Json → Option Json
or_stored none y = y
or_stored (some x) y = some x

-- An omitted value is cleared like one that is null.
abbrev pub cleared {ℓ} : {A : Type ℓ} → Option (Option A) → Option A
cleared none = none
cleared (some x) = x

abbrev pub as_stored : Option SignatureInput → Option Signature
as_stored none = none
as_stored (some s) = some (record { header = s.header; encoding = s.encoding; prefix = s.prefix })

-- What the comments of the schema say of a webhook trigger that is saved over another: an omitted or null
-- signature and delivery age are cleared, and an omitted dedupe and filters are kept.
abbrev pub saved_webhook : Webhook → WebhookInput → Webhook
saved_webhook w i = record {
  signature = as_stored (cleared i.signature);
  max_delivery_age_minutes = cleared i.max_delivery_age_minutes;
  dedupe = or_stored i.dedupe w.dedupe;
  filters = or_stored i.filters w.filters;
}

-- A server saves a trigger over one of the same type as it is documented to.
pub record SavesSchedules (save : Schedule → ScheduleInput → Schedule) : Type 0 where
  pub intervals : (s : Schedule) (n : ℕ) → save s (interval_input n) ≡ interval n
  pub fixed_times :
      (s : Schedule) (t : String) (ds : Option (List ℕ))
      → save s (fixed_time_input t ds) ≡ fixed_time t ds
  pub webhooks :
      (w : Webhook) (i : WebhookInput)
      → save (webhook w) (webhook_input i) ≡ webhook (saved_webhook w i)

-- The task that replaces the stored one.
abbrev pub saved_task : (Schedule → ScheduleInput → Schedule) → Task → UpsertInput → Task
saved_task save stored i = record {
  id = i.id;
  title = i.title;
  prompt = i.prompt;
  enabled = i.enabled;
  schedule = save stored.schedule i.schedule;
  project_id = i.project_id;
  thread_id = i.thread_id;
  workspace_strategy = i.workspace_strategy;
  model_selection = i.model_selection;
  runtime_mode = i.runtime_mode;
  interaction_mode = i.interaction_mode;
  created_by = i.created_by;
  creation_source = i.creation_source;
}

-- The stored task with the fields that the patch says.
abbrev pub patched_task : Task → Patch → Schedule → Task
patched_task t p schedule = record {
  id = t.id;
  title = or_else p.title t.title;
  prompt = or_else p.prompt t.prompt;
  enabled = or_else p.enabled t.enabled;
  schedule = schedule;
  project_id = or_else p.project_id t.project_id;
  thread_id = or_else p.thread_id t.thread_id;
  workspace_strategy = or_else p.workspace_strategy t.workspace_strategy;
  model_selection = or_else p.model_selection t.model_selection;
  runtime_mode = or_else p.runtime_mode t.runtime_mode;
  interaction_mode = or_else p.interaction_mode t.interaction_mode;
  created_by = t.created_by;
  creation_source = t.creation_source;
}

module _ (save : Schedule → ScheduleInput → Schedule) (saves : SavesSchedules save) where
  -- A webhook that is sent with its own signature.
  sent_kept :
      (w : Webhook) (s : Option SignatureInput) (i : ScheduleInput)
      → as_stored s ≡ w.signature
      → with_signature (some s) (some w.max_delivery_age_minutes) none none ≡ some i
      → save (webhook w) i ≡ webhook w
  sent_kept w s i e h =
      let sent : WebhookInput = record {
        signature = some s;
        max_delivery_age_minutes = some w.max_delivery_age_minutes;
        dedupe = none;
        filters = none;
      } in
      let is_sent : i ≡ webhook_input sent = cc h in
      ap (save (webhook w)) is_sent
      ∙ saves.webhooks w sent
      ∙ ap {A = Option Signature} {B = Schedule} (λ x. webhook (record w { signature = x })) e

  webhook_kept :
      (w : Webhook) (s : Option Signature) (i : ScheduleInput)
      → w.signature ≡ s
      → with_signature (signature_input s) (some w.max_delivery_age_minutes) none none ≡ some i
      → save (webhook w) i ≡ webhook w
  unfolding signature_input
  webhook_kept w none i e h = sent_kept w none i (sym e) h
  webhook_kept w (some s) i e h = by_encoding (is_known_encoding s.encoding) h
    where
      known_ : Option SignatureInput
      known_ =
          some
            (record { header = s.header; encoding = s.encoding; prefix = s.prefix; secret = none })

      by_encoding :
          (b : Bool)
          → with_signature
              (if b then some known_ else none)
              (some w.max_delivery_age_minutes)
              none
              none
            ≡ some i
          → save (webhook w) i ≡ webhook w
      by_encoding true g = sent_kept w known_ i (sym e) g
      by_encoding false g = cc

  schedule_kept :
      (s : Schedule) (i : ScheduleInput) → updated_schedule s none ≡ some i → save s i ≡ s
  unfolding updated_schedule
  schedule_kept (interval n) i h =
      ap (save (interval n)) (ground (arith, h)) ∙ saves.intervals (interval n) n
  schedule_kept (fixed_time t ds) i h =
      ap (save (fixed_time t ds)) (ground (arith, h)) ∙ saves.fixed_times (fixed_time t ds) t ds
  schedule_kept (webhook w) i h = webhook_kept w w.signature i refl h
  schedule_kept (unknown raw) i h = cc

  -- On a server that saves as it is documented to, an update that can be sent, with a patch without a
  -- schedule, leaves the stored task with the fields of the patch changed and all others, with the
  -- schedule and its dedupe and filters among them, as they were.
  pub update_keeps :
      (t : Task) (p : Patch) (i : UpsertInput)
      → p.schedule ≡ none
      → scheduled_task_update_input t p ≡ some i
      → saved_task save t i ≡ patched_task t p t.schedule
  unfolding scheduled_task_update_input
  update_keeps t p i e h = keeps (updated_schedule t.schedule p.schedule) refl h
    where
      keeps :
          (o : Option ScheduleInput)
          → updated_schedule t.schedule p.schedule ≡ o
          → input_with t p o ≡ some i
          → saved_task save t i ≡ patched_task t p t.schedule
      keeps none u g = cc
      keeps (some s) u g =
          let input = input_of t p s in
          let is_input : i ≡ input = cc g in
          ap (saved_task save t) is_input
          ∙ ap (patched_task t p)
              (schedule_kept t.schedule s (ap (updated_schedule t.schedule) (sym e) ∙ u))
