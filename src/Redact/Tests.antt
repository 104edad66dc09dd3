-- ===== src/Redact/Tests.antt =====
-- A body with secrets.
use t3code_client.Prelude.{true, false, Option, none, same, ◌⊎◌, ◌≡◌, refl}
use t3code_client.Json.{Json, str, obj, no_fields, field}
use t3code_client.Proxy.Units.{Text, units}
use t3code_client.Redact.{redact}
use t3code_client.Redact.Clean.{is_clean, redact-stays_clean}
use t3code_client.Redact.Patterns.{is_secret_key, is_secret_map, holds_secret_url}

abbrev decode : Text → Option Text
decode name = none

abbrev body : Json
body = obj (
    field "accessToken" (str "t1") (
      field "code" (str "not_found") (
        field "headers" (obj (field "x" (str "t2") no_fields))
          (field "url" (str "see https://a/b?x=1&id_token=t3") no_fields))))

-- `JSON.parse` makes an own entry of the key `__proto__`, which is lost.
drops_prototype :
    redact decode (obj (field "__proto__" (str "x") (field "code" (str "y") no_fields)))
    ≡ obj (field "code" (str "y") no_fields)
unfolding redact is_secret_map is_secret_key holds_secret_url same
drops_prototype = refl

keeps :
    redact decode body
    ≡ obj (
        field "accessToken" (str "[redacted]") (
          field "code"
            (str "not_found")
            (field "headers" (str "[redacted]") (field "url" (str "[redacted]") no_fields))))
unfolding redact is_secret_map is_secret_key holds_secret_url same
keeps = refl

redact-stays_clean_example :
    (is_clean decode (redact decode body) ≡ true)
    × ((is_clean decode body ≡ false) ⊎ (redact decode body ≡ body))
redact-stays_clean_example = redact-stays_clean decode body

holds_password : holds_secret_url decode (units "go to http://me:pw@host/ now") ≡ true
unfolding holds_secret_url
holds_password = refl

holds_login : holds_secret_url decode (units "clone SSH://git@host/repo") ≡ false
unfolding holds_secret_url
holds_login = refl
