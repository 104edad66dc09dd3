-- ===== src/Redact.antt =====
-- packages/t3code-lib/src/internal/redact.ts: secrets are taken out of what an error keeps. A value is one
-- that `JSON.parse` yields, so that no object stands in it twice; the set `seen` is for other values.
pub mod Patterns
pub mod Clean
mod Tests
use t3code_client.Prelude.{String, Bool, true, false, ◌&&◌, Option, same, if◌then◌else◌}
use t3code_client.Json.{
  Json, null, bool, num, str, arr, obj, Items, nil, cons, Fields, no_fields, field,
}
use t3code_client.Proxy.Units.{Text, units}
use t3code_client.Redact.Patterns.{is_secret_key, is_secret_map, holds_secret_url}

-- `REDACTED`
abbrev pub redacted : String
redacted = "[redacted]"

abbrev pub is_text : Json → Bool
is_text null = false
is_text (bool b) = false
is_text (num n) = false
is_text (str s) = true
is_text (arr vs) = false
is_text (obj fs) = false

-- `isPlainObject`
abbrev pub is_plain_object : Json → Bool
is_plain_object null = false
is_plain_object (bool b) = false
is_plain_object (num n) = false
is_plain_object (str s) = false
is_plain_object (arr vs) = false
is_plain_object (obj fs) = true

-- `out[key] = entry` on a new object adds no entry under this key: it is a setter of every object, which
-- `JSON.parse` goes past.
abbrev pub is_prototype : String → Bool
is_prototype key = same key "__proto__"

-- `decodeURIComponent`, with none where it throws.
module _ (decode_uri_component : Text → Option Text) where
  unfoldable pub redact_text : String → String
  redact_text s = if holds_secret_url decode_uri_component (units s) then redacted else s

  -- The body of the loop over an object, with what `redact` makes of the item.
  unfoldable pub redact_entry : String → Json → Json → Json
  redact_entry key v inner =
      if is_secret_map (units key) && is_plain_object v
      then str redacted
      else if is_text v && is_secret_key (units key)
      then str redacted
      else inner

  unfoldable mutual
    unfolding redact_text redact_entry

    -- `redact`
    pub redact : Json → Json
    redact null = null
    redact (bool b) = bool b
    redact (num n) = num n
    redact (str s) = str (redact_text s)
    redact (arr vs) = arr (redact_items vs)
    redact (obj fs) = obj (redact_fields fs)

    pub redact_items : Items → Items
    redact_items nil = nil
    redact_items (cons v vs) = cons (redact v) (redact_items vs)

    pub redact_fields : Fields → Fields
    redact_fields no_fields = no_fields
    redact_fields (field key v fs) =
        let rest = redact_fields fs in
        let entry = redact_entry key v (redact v) in
        if is_prototype key then rest else field key entry rest
