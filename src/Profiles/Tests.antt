-- ===== src/Profiles/Tests.antt =====
-- A manager with one server.
use t3code_client.Prelude.{
  String, Bool, true, ◌||◌, Option, none, some, List, [], ◌∷◌, same, if◌then◌else◌, ◌≡◌, refl,
  subst, inl, inr, Bool-cases,
}
use t3code_client.Prelude.Dict.{lookup}
use t3code_client.Json.{str, Fields, no_fields, field, get, set}
use t3code_client.Profiles.Config.{
  returns, ProfileConfig, missing, contents, to_json, profile_named, load_config,
}
use t3code_client.Profiles.Loaded.{IsUrlParser, IsServer, IsSaveable, load_config-to_json}
use t3code_client.Profiles.Manager.{
  of_profile, Resolved, ResolveOptions, Operation, switches, logs_out, registers, find_origin,
  resolve, run,
}
use t3code_client.Profiles.Stored.{Loads, run-Loads}
use t3code_client.Profiles.Resolved.{IsFor, resolve-IsFor}

-- A parser that knows two URLs of one origin.
abbrev is_known : String → Bool
is_known u = same u "http://a" || same u "http://a/x"

abbrev parse_url : String → Option (String × String)
parse_url u = if is_known u then some ("http:", "http://a") else none

parses_origin :
    {p o : String}
    → ◌≡◌ {A = Option (String × String)} (some ("http:", "http://a")) (some (p, o))
    → parse_url o ≡ some (p, o)
unfolding same
parses_origin {p} {o} h =
    let e : ◌≡◌ {A = String} "http://a" o = cc in subst (λ x. parse_url x ≡ some (p, o)) e h

url : IsUrlParser parse_url
url = record {
  origin_parses = λ u p o h http. elim (Bool-cases (is_known u)) [
    | inl hit ↦ parses_origin (rw hit at h)
    | inr miss ↦ cc (rw miss at h)
  ];
  empty_fails = unfold same in refl;
}

abbrev one_server : ProfileConfig
one_server = record {
  servers = ("home", field "url" (str "http://a") no_fields) ∷ [];
  current = some "home";
  rest = no_fields;
}

-- Two servers, one of which has a field that this version does not know.
abbrev two_servers : ProfileConfig
two_servers = record {
  servers =
      ("home", field "note" (str "mine") (field "url" (str "http://a") no_fields))
      ∷ ("work", field "url" (str "http://a") no_fields)
      ∷ [];
  current = some "work";
  rest = field "theme" (str "dark") no_fields;
}

is_server : (server : Fields) → get "url" server ≡ some (str "http://a") → IsServer parse_url server
unfolding same
is_server server h = record {
  url = "http://a";
  protocol = "http:";
  has_url = h;
  nonempty = refl;
  is_origin = refl;
  is_http = inl refl;
}

two_servers-IsSaveable : IsSaveable parse_url two_servers
unfolding lookup get same
two_servers-IsSaveable = record {
  servers = (refl, is_server _ refl, (refl, is_server _ refl, tt));
  current_named = (refl, (_, refl));
  apart = refl;
}

load_config-to_json_example :
    (d : ProfileConfig) × (load_config parse_url (contents (some (to_json two_servers)))
      ≡ returns d)
    × (d.servers ≡ two_servers.servers)
    × (d.current ≡ two_servers.current)
load_config-to_json_example = load_config-to_json parse_url two_servers two_servers-IsSaveable

abbrev operations : List Operation
operations =
    registers "home" "http://a/x" true none true
    ∷ switches "home" true
    ∷ logs_out none none true
    ∷ registers "work" "http://a" true none true
    ∷ []

missing-Loads : Loads parse_url url missing
unfolding load_config
missing-Loads = (_, refl)

run-Loads_example : Loads parse_url url (run parse_url missing operations)
run-Loads_example = run-Loads parse_url url missing operations missing-Loads

abbrev options : ResolveOptions
options = record {
  server = some "http://a/x";
  credentials_file = none;
  server_variable = none;
  token_variable = none;
}

abbrev resolved : Resolved
resolved = record {
  base_url = "http://a";
  credentials = of_profile (record { name = "home"; url = "http://a" });
  profile = some (record { name = "home"; url = "http://a" });
}

resolves :
    resolve parse_url (λ s. s) options none (contents (some (to_json one_server)))
    ≡ returns resolved
unfolding resolve load_config to_json profile_named find_origin lookup get set same
resolves = refl

resolve-IsFor_example : IsFor parse_url url "http://a" (record { name = "home"; url = "http://a" })
resolve-IsFor_example =
    resolve-IsFor parse_url url (λ s. s) options none (contents (some (to_json one_server)))
      resolved (record { name = "home"; url = "http://a" }) resolves refl
