-- ===== src/Profiles/Config.antt =====
-- packages/t3code-lib/src/profiles/profileConfig.ts: the contents of config.json. The keys of an object
-- stand in the order of insertion. `parse_url` is `new URL`, to the protocol and the origin of a URL, none
-- where it throws.
use t3code_client.Prelude.{
  String, Bool, true, false, ◌||◌, Option, none, some, List, [], ◌∷◌, same, if◌then◌else◌, ◌≡◌,
  refl, sym,
}
use t3code_client.Prelude.Dict.{lookup}
use t3code_client.Json.{
  Json, null, bool, num, str, arr, obj, Fields, no_fields, field, get, set, as_str, as_obj,
}
use t3code_client.Errors.{T3Error, storage, precondition}

-- How an action ends, and what follows an action that returns.
pub data Answer {ℓ} (A : Type ℓ) : Type ℓ where
  throws : T3Error → Answer A
  returns : A → Answer A

module _ {ℓ κ} {A : Type ℓ} {B : Type κ} where
  infixl 5 ◌>>=◌
  abbrev pub ◌>>=◌ : Answer A → (A → Answer B) → Answer B
  throws error >>= next = throws error
  returns x >>= next = next x

  pub then-returns :
      (first : Answer A) (next : A → Answer B) {y : B}
      → returns y ≡ (first >>= next)
      → (x : A) × (next x ≡ returns y) × (first ≡ returns x)
  then-returns (throws error) next h = cc
  then-returns (returns x) next h = (x, sym h, refl)

-- `Profile`
pub record Profile : Type 0 where
  pub name : String
  pub url : String

-- `ProfileConfig`: the servers with all their fields, the current name, and the other keys of the file.
pub record ProfileConfig : Type 0 where
  pub servers : List (String × Fields)
  pub current : Option String
  pub rest : Fields

-- What `readFile` finds: no file, a failure, or a text, given as what `JSON.parse` makes of it.
pub data ConfigFile : Type 0 where
  missing : ConfigFile
  unreadable : ConfigFile
  contents : Option Json → ConfigFile

-- `{ ...rest }` without a key.
unfoldable pub remove : String → Fields → Fields
remove k no_fields = no_fields
remove k (field j v fs) = if same j k then remove k fs else field j v (remove k fs)

-- The field `url` of a server, which is a text in every server of a loaded config.
abbrev pub url_from : Option String → String
url_from none = ""
url_from (some url) = url

abbrev pub url_of : Fields → String
url_of server = url_from (as_str (get "url" server))

-- `Object.hasOwn` and `profileNamed`
abbrev pub named : String → Option Fields → Answer Profile
named name none = throws precondition
named name (some server) = returns (record { name = name; url = url_of server })

unfoldable pub profile_named : ProfileConfig → String → Answer Profile
profile_named config name = named name (lookup name config.servers)

-- The check of the current name, and the config as `loadConfig` returns it.
abbrev pub found_current : ProfileConfig → Option Fields → Answer ProfileConfig
found_current c none = throws precondition
found_current c (some server) = returns c

abbrev pub check_named : ProfileConfig → Option String → Answer ProfileConfig
check_named c none = returns c
check_named c (some name) = found_current c (lookup name c.servers)

abbrev pub checked_current : ProfileConfig → Answer ProfileConfig
checked_current c = check_named c c.current

-- `current` of the shape `Config`
abbrev pub as_current : Option Json → Answer (Option String)
as_current none = returns none
as_current (some null) = throws precondition
as_current (some (bool b)) = throws precondition
as_current (some (num n)) = throws precondition
as_current (some (str s)) = if same s "" then throws precondition else returns (some s)
as_current (some (arr vs)) = throws precondition
as_current (some (obj fs)) = throws precondition

-- What `JSON.stringify` writes: the servers, and the file.
abbrev pub server_fields : List (String × Fields) → Fields
server_fields [] = no_fields
server_fields ((name, server) ∷ servers) = field name (obj server) (server_fields servers)

abbrev pub with_current : Option String → Fields → Fields
with_current none fs = fs
with_current (some name) fs = set "current" (str name) fs

unfoldable pub to_json : ProfileConfig → Json
to_json c = obj (with_current c.current (set "servers" (obj (server_fields c.servers)) c.rest))

-- `saveConfig`, with whether its writing and renaming succeeds.
unfoldable pub save_config : Bool → ProfileConfig → ConfigFile → ConfigFile × Option T3Error
unfolding to_json
save_config true c file = (contents (some (to_json c)), none)
save_config false c file = (file, some storage)

abbrev pub http_origin : Option (String × String) → Option String
http_origin none = none
http_origin (some (protocol, origin)) =
    if same protocol "http:" || same protocol "https:" then some origin else none

module _ (parse_url : String → Option (String × String)) where
  -- `serverUrl`; none stands for its throw of a `T3PreconditionError`.
  unfoldable pub server_url : String → Option String
  server_url input = http_origin (parse_url input)

  -- One entry of the servers.
  abbrev pub with_origin : Fields → Option String → Answer Fields
  with_origin server none = throws precondition
  with_origin server (some url) = returns (set "url" (str url) server)

  abbrev pub server_from : Fields → Option String → Answer Fields
  server_from server none = throws precondition
  server_from server (some url) =
      if same url "" then throws precondition else with_origin server (server_url url)

  abbrev pub server_of : Option Fields → Answer Fields
  server_of none = throws precondition
  server_of (some server) = server_from server (as_str (get "url" server))

  unfoldable pub checked_server : String → Json → Answer Fields
  unfolding server_url
  checked_server name raw =
      if same name "" then throws precondition else server_of (as_obj (some raw))

  -- The loop over the servers.
  unfoldable pub load_servers : Fields → Answer (List (String × Fields))
  unfolding checked_server
  load_servers no_fields = returns []
  load_servers (field name raw fs) = do
    server ← checked_server name raw
    servers ← load_servers fs
    returns ((name, server) ∷ servers)

  unfoldable pub load_from : Fields → Option Fields → Answer ProfileConfig
  unfolding load_servers
  load_from raw none = throws precondition
  load_from raw (some entries) = do
    current ← as_current (get "current" raw)
    servers ← load_servers entries
    checked_current (record { servers = servers; current = current; rest = remove "current" raw })

  unfoldable pub load_object : Option Fields → Answer ProfileConfig
  unfolding load_from
  load_object none = throws precondition
  load_object (some raw) = load_from raw (as_obj (get "servers" raw))

  -- `loadConfig`
  unfoldable pub load_config : ConfigFile → Answer ProfileConfig
  unfolding load_object
  load_config missing = returns (record { servers = []; current = none; rest = no_fields })
  load_config unreadable = throws storage
  load_config (contents none) = throws precondition
  load_config (contents (some raw)) = load_object (as_obj (some raw))
