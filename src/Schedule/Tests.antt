-- ===== src/Schedule/Tests.antt =====
-- The update of a webhook task.
use t3code_client.Prelude.{none, some, ◌≡◌, refl, true, same}
use t3code_client.Json.{null}
use t3code_client.Schedule.Update.{
  Schedule, interval, fixed_time, webhook, unknown, ScheduleInput, interval_input, fixed_time_input,
  webhook_input, Task, UpsertInput, Patch, input_of, scheduled_task_update_input, sent_update,
}
use t3code_client.Schedule.Kept.{
  saved_webhook, SavesSchedules, saved_task, patched_task, update_keeps,
}

-- A server as it is documented.
abbrev save : Schedule → ScheduleInput → Schedule
save s (interval_input n) = interval n
save s (fixed_time_input t ds) = fixed_time t ds
save (webhook w) (webhook_input i) = webhook (saved_webhook w i)
save (interval n) (webhook_input i) = interval n
save (fixed_time t ds) (webhook_input i) = fixed_time t ds
save (unknown raw) (webhook_input i) = unknown raw

save-SavesSchedules : SavesSchedules save
save-SavesSchedules = record {
  intervals = λ s n. refl;
  fixed_times = λ s t ds. refl;
  webhooks = λ w i. refl;
}

abbrev task : Task
task = record {
  id = "k";
  title = "title";
  prompt = "prompt";
  enabled = true;
  schedule = webhook (record {
    signature = some (record { header = "x-signature"; encoding = "hex"; prefix = "sha256=" });
    max_delivery_age_minutes = some 5;
    dedupe = some null;
    filters = none;
  });
  project_id = "p";
  thread_id = some "t";
  workspace_strategy = null;
  model_selection = null;
  runtime_mode = "m";
  interaction_mode = "i";
  created_by = null;
  creation_source = "cli";
}

abbrev patch : Patch
patch = record {
  title = some "renamed";
  prompt = none;
  enabled = none;
  schedule = none;
  project_id = none;
  thread_id = some none;
  workspace_strategy = none;
  model_selection = none;
  runtime_mode = none;
  interaction_mode = none;
}

abbrev input : UpsertInput
input = input_of task patch (
    webhook_input (record {
      signature = some (
          some (record {
            header = "x-signature";
            encoding = "hex";
            prefix = "sha256=";
            secret = none;
          }));
      max_delivery_age_minutes = some (some 5);
      dedupe = none;
      filters = none;
    }))

input-sent : scheduled_task_update_input task patch ≡ some input
unfolding scheduled_task_update_input same
input-sent = refl

update_keeps_example : saved_task save task input ≡ patched_task task patch task.schedule
update_keeps_example = update_keeps save save-SavesSchedules task patch input refl input-sent

-- A stored interval of less than a minute, which the server may have from before its bound.
abbrev legacy : Task
legacy = record task { schedule = interval 30000 }

legacy_refused : sent_update legacy patch ≡ none
unfolding sent_update scheduled_task_update_input
legacy_refused = refl
