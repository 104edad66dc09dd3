-- ===== src/Profiles/Manager.antt =====
-- packages/t3code-lib/src/profiles/profileManager.ts and environment.ts: `ProfileManager`. An operation
-- is one step, with what the outside does in it: whether the file is written, and what the
-- credential store, the client or the server throws.
use t3code_client.Prelude.{
  first_of, String, Bool, false, Option, none, some, List, [], ◌∷◌, same, if◌then◌else◌,
}
use t3code_client.Prelude.Dict.{insert, delete}
use t3code_client.Json.{str, Fields, no_fields, field}
use t3code_client.Errors.{T3Error, storage, precondition, not_found}
use t3code_client.Profiles.Config.{
  Answer, returns, throws, ◌>>=◌, Profile, ProfileConfig, ConfigFile, url_of, profile_named,
  save_config, server_url, load_config,
}

-- `environmentValue`, with the value of the variable and `trim`.
unfoldable pub environment_value : (String → String) → Option String → Option String
environment_value trim none = none
environment_value trim (some value) = if same (trim value) "" then none else some value

-- Where the credentials of a connection come from: a file, a token, a profile, or nowhere.
pub data Credentials : Type 0 where
  of_file : String → Credentials
  of_token : String → Credentials
  of_profile : Profile → Credentials
  no_credentials : Credentials

-- `ResolvedProfile`, without `sources`, which says which of the inputs were given
pub record Resolved : Type 0 where
  pub base_url : String
  pub credentials : Credentials
  pub profile : Option Profile

-- `ProfileResolveOptions` with the values of T3_SERVER_URL and T3_TOKEN.
pub record ResolveOptions : Type 0 where
  pub server : Option String
  pub credentials_file : Option String
  pub server_variable : Option String
  pub token_variable : Option String

abbrev pub current_profile : ProfileConfig → Option String → Answer (Option Profile)
current_profile config none = returns none
current_profile config (some name) = profile_named config name >>= λ p. returns (some p)

-- `switch`
abbrev pub switch_found :
    String → Bool → ConfigFile → ProfileConfig → Answer Profile → ConfigFile × Option T3Error
switch_found name saves file config (throws e) = (file, some e)
switch_found name saves file config (returns p) =
    save_config saves (record config { current = some name }) file

unfoldable pub switch_from :
    String → Bool → ConfigFile → Answer ProfileConfig → ConfigFile × Option T3Error
unfolding save_config profile_named
switch_from name saves file (throws e) = (file, some e)
switch_from name saves file (returns config) =
    switch_found name saves file config (profile_named config name)

-- `logout`, from the name that it selects.
abbrev pub without_current : String → Option String → Option String
without_current selected none = none
without_current selected (some name) = if same name selected then none else some name

abbrev pub logged_out : String → ProfileConfig → ProfileConfig
logged_out selected config = record config {
  servers = delete selected config.servers;
  current = without_current selected config.current;
}

-- The config is saved after an action that may throw.
abbrev pub save_after :
    Option T3Error → Bool → ConfigFile → ProfileConfig → ConfigFile × Option T3Error
save_after (some e) saves file config = (file, some e)
save_after none saves file config = save_config saves config file

abbrev pub logout_found :
    String
    → Option T3Error
    → Bool
    → ConfigFile
    → ProfileConfig
    → Answer Profile
    → ConfigFile × Option T3Error
logout_found selected clears saves file config (throws e) = (file, some e)
logout_found selected clears saves file config (returns p) =
    save_after clears saves file (logged_out selected config)

unfoldable pub logout_selected :
    Option String → Option T3Error → Bool → ConfigFile → ProfileConfig → ConfigFile × Option T3Error
unfolding save_config profile_named
logout_selected none clears saves file config = (file, some precondition)
logout_selected (some selected) clears saves file config =
    logout_found selected clears saves file config (profile_named config selected)

unfoldable pub logout_from :
    Option String
    → Option T3Error
    → Bool
    → ConfigFile
    → Answer ProfileConfig
    → ConfigFile × Option T3Error
unfolding logout_selected
logout_from name clears saves file (throws e) = (file, some e)
logout_from name clears saves file (returns config) =
    logout_selected (first_of name config.current) clears saves file config

-- `#register`, from where the config was loaded.
abbrev pub registered : String → String → ProfileConfig → ProfileConfig
registered name url config = record config {
  servers = insert name (field "url" (str url) no_fields) config.servers;
  current = first_of config.current (some name);
}

unfoldable pub register_from :
    String
    → String
    → Bool
    → Option T3Error
    → Bool
    → ConfigFile
    → Answer ProfileConfig
    → ConfigFile × Option T3Error
unfolding save_config
register_from name url prepares authenticates saves file (throws e) = (file, some e)
register_from name url prepares authenticates saves file (returns config) =
    if prepares
    then save_after authenticates saves file (registered name url config)
    else (file, some storage)

-- The methods that write. `pair` and `setAccessToken` are `registers`, with a name, a URL, whether the
-- directory of credentials is made, and what selecting the store or authenticating throws.
pub data Operation : Type 0 where
  switches : String → Bool → Operation
  logs_out : Option String → Option T3Error → Bool → Operation
  registers : String → String → Bool → Option T3Error → Bool → Operation

-- `list`
abbrev pub profiles : List (String × Fields) → List Profile
profiles [] = []
profiles ((name, server) ∷ servers) = record { name = name; url = url_of server } ∷ profiles servers

-- The search of `resolveProfile`.
abbrev pub find_named : String → List Profile → Answer Profile
find_named name [] = throws (not_found (some "profile_not_found"))
find_named name (p ∷ ps) = if same p.name name then returns p else find_named name ps

abbrev pub is_origin : String → Option String → Bool
is_origin base none = false
is_origin base (some url) = same url base

abbrev pub base_of : Option String → Answer String
base_of none = throws precondition
base_of (some url) = returns url

abbrev pub credentials_of : Option String → Option String → Option Profile → Credentials
credentials_of (some path) token p = of_file path
credentials_of none (some token) p = of_token token
credentials_of none none (some p) = of_profile p
credentials_of none none none = no_credentials

-- `selects` is what the credential source throws, where the credentials are a profile's.
abbrev pub selected_for : T3Error → Resolved → Credentials → Answer Resolved
selected_for e r (of_file path) = returns r
selected_for e r (of_token token) = returns r
selected_for e r (of_profile p) = throws e
selected_for e r no_credentials = returns r

abbrev pub selected : Option T3Error → Resolved → Answer Resolved
selected none r = returns r
selected (some e) r = selected_for e r r.credentials

module _ (parse_url : String → Option (String × String)) where
  abbrev pub register_at :
      String
      → Option String
      → Bool
      → Option T3Error
      → Bool
      → ConfigFile
      → ConfigFile × Option T3Error
  register_at name none prepares authenticates saves file = (file, some precondition)
  register_at name (some url) prepares authenticates saves file =
      register_from name url prepares authenticates saves file (load_config parse_url file)

  -- `#register`
  unfoldable pub register :
      String → String → Bool → Option T3Error → Bool → ConfigFile → ConfigFile × Option T3Error
  unfolding register_from server_url
  register name input prepares authenticates saves file =
      if same name ""
      then (file, some precondition)
      else register_at name (server_url parse_url input) prepares authenticates saves file

  unfoldable pub step : ConfigFile → Operation → ConfigFile × Option T3Error
  unfolding switch_from logout_from register
  step file (switches name saves) = switch_from name saves file (load_config parse_url file)
  step file (logs_out name clears saves) =
      logout_from name clears saves file (load_config parse_url file)
  step file (registers name input prepares authenticates saves) =
      register name input prepares authenticates saves file

  unfoldable pub run : ConfigFile → List Operation → ConfigFile
  unfolding step
  run file [] = file
  run file (o ∷ os) = run (step file o).0 os

  -- `resolveProfile`, with what selecting the store throws
  unfoldable pub resolve_profile : String → Option T3Error → ConfigFile → Answer Resolved
  resolve_profile name selects file = do
    config ← load_config parse_url file
    p ← find_named name (profiles config.servers)
    selected selects (record { base_url = p.url; credentials = of_profile p; profile = some p })

  -- The search of `resolve`; every URL of a loaded config parses.
  unfoldable pub find_origin : String → List Profile → Option Profile
  unfolding server_url
  find_origin base [] = none
  find_origin base (p ∷ ps) =
      if is_origin base (server_url parse_url p.url) then some p else find_origin base ps

  -- The base URL and the profile of `resolve`.
  abbrev pub chosen :
      ProfileConfig → Option String → Option Profile → Answer (String × Option Profile)
  chosen config none none = throws precondition
  chosen config none (some p) = returns (p.url, some p)
  chosen config (some explicit) current = base_of (server_url parse_url explicit) >>= λ base.
      returns (base, find_origin base (profiles config.servers))

  -- `resolve`
  unfoldable pub resolve :
      (String → String) → ResolveOptions → Option T3Error → ConfigFile → Answer Resolved
  unfolding environment_value
  resolve trim o selects file = do
    config ← load_config parse_url file
    current ← current_profile config config.current
    (base, p) ← chosen config (first_of o.server (environment_value trim o.server_variable)) current
    selected selects (record {
      base_url = base;
      credentials = credentials_of o.credentials_file (environment_value trim o.token_variable) p;
      profile = p;
    })
