-- ===== src/Profiles/Loaded.antt =====
-- packages/t3code-lib/src/profiles/profileConfig.ts: what a saved config is loaded as.
use t3code_client.Prelude.{
  String, true, false, ◌||◌, Option, none, some, List, [], ◌∷◌, same, same_iff, ◌≡◌, ◌⊎◌, refl, ap,
  inl, inr, Bool-cases, Option-cases,
}
use t3code_client.Prelude.Dict.{lookup}
use t3code_client.Json.{
  Json, str, obj, Fields, get, set, as_str, as_obj, set_str_same, get-set, get-set_self, set-set,
}
use t3code_client.Profiles.Config.{
  returns, ProfileConfig, contents, remove, check_named, as_current, server_fields, with_current,
  to_json, http_origin, server_url, server_from, server_of, checked_server, load_servers,
  load_config,
}

-- What `new URL` documents: the origin of an HTTP URL is a URL with the same protocol and origin,
-- and the empty text is no URL.
pub record IsUrlParser (parse_url : String → Option (String × String)) : Type 0 where
  pub origin_parses :
      (url protocol origin : String)
      → parse_url url ≡ some (protocol, origin)
      → same protocol "http:" || same protocol "https:" ≡ true
      → parse_url origin ≡ some (protocol, origin)
  pub empty_fails : parse_url "" ≡ none

http_origin-some :
    (o : Option (String × String)) (v : String)
    → http_origin o ≡ some v
    → (protocol : String) × (o ≡ some (protocol, v))
      × (same protocol "http:" || same protocol "https:" ≡ true)
http_origin-some none v h = cc
http_origin-some (some (protocol, origin)) v h =
    elim (Bool-cases (same protocol "http:" || same protocol "https:")) [
      | inl http ↦ (protocol, ap (λ (o : String). some (protocol, o)) (cc (rw http at h)), http)
      | inr other ↦ cc (rw other at h)
    ]

module _ (parse_url : String → Option (String × String)) where
  abbrev pub AllChecked : List (String × Fields) → Type 0
  AllChecked [] = Unit
  AllChecked ((name, server) ∷ servers) =
      (checked_server parse_url name (obj server) ≡ returns server) × AllChecked servers

  abbrev pub IsNamed : List (String × Fields) → Option String → Type 0
  IsNamed servers none = Unit
  IsNamed servers (some name) =
      (same name "" ≡ false) × ((server : Fields) × (lookup name servers ≡ some server))

  -- A config that `saveConfig` can be given.
  pub record IsValid (c : ProfileConfig) : Type 0 where
    pub checked : AllChecked c.servers
    pub current_named : IsNamed c.servers c.current
    pub apart : get "current" c.rest ≡ none

  load_servers_saved :
      (servers : List (String × Fields))
      → AllChecked servers
      → load_servers parse_url (server_fields servers) ≡ returns servers
  unfolding load_servers
  load_servers_saved [] h = refl
  load_servers_saved ((name, server) ∷ servers) h = rw (h.0, load_servers_saved servers h.1) refl

  as_current_saved :
      (servers : List (String × Fields)) (current : Option String) (fs : Fields)
      → IsNamed servers current
      → get "current" fs ≡ none
      → as_current (get "current" (with_current current fs)) ≡ returns current
  as_current_saved servers none fs h e = rw e refl
  as_current_saved servers (some name) fs h e = rw (get-set_self "current" (str name) fs, h.0) refl

  check_named_saved :
      (c : ProfileConfig) (current : Option String)
      → IsNamed c.servers current
      → check_named c current ≡ returns c
  check_named_saved c none h = refl
  check_named_saved c (some name) h = rw h.1.1 refl

  get_servers_saved :
      (current : Option String) (v : Json) (fs : Fields)
      → get "servers" (with_current current (set "servers" v fs)) ≡ some v
  get_servers_saved none v fs = get-set_self "servers" v fs
  get_servers_saved (some name) v fs =
      rw (get-set "current" "servers" (str name) (set "servers" v fs), apart)
        (get-set_self "servers" v fs)
    where
      apart : same "current" "servers" ≡ false
      apart = unfold same in refl

  get_current_apart :
      (v : Json) (fs : Fields) → get "current" fs ≡ none → get "current" (set "servers" v fs) ≡ none
  get_current_apart v fs e = rw (get-set "servers" "current" v fs, apart) e
    where
      apart : same "servers" "current" ≡ false
      apart = unfold same in refl

  pub load_saved :
      (c : ProfileConfig)
      → IsValid c
      → (d : ProfileConfig) × (load_config parse_url (contents (some (to_json c))) ≡ returns d)
        × (d.servers ≡ c.servers)
        × (d.current ≡ c.current)
  unfolding load_config to_json
  load_saved c h =
      let servers = obj (server_fields c.servers) in
      let raw = with_current c.current (set "servers" servers c.rest) in
      let d : ProfileConfig = record {
        servers = c.servers;
        current = c.current;
        rest = remove "current" raw;
      } in
      (
        d,
        rw
            (
              get_servers_saved c.current servers c.rest,
              as_current_saved c.servers c.current (set "servers" servers c.rest) h.current_named
                  (get_current_apart servers c.rest h.apart),
              load_servers_saved c.servers h.checked,
            )
            (check_named_saved d c.current h.current_named),
        refl,
        refl,
      )

  -- A server with any fields, whose `url` is the origin of an HTTP URL.
  pub record IsServer (server : Fields) : Type 0 where
    pub url : String
    pub protocol : String
    pub has_url : get "url" server ≡ some (str url)
    pub nonempty : same url "" ≡ false
    pub is_origin : parse_url url ≡ some (protocol, url)
    pub is_http : (protocol ≡ "http:") ⊎ (protocol ≡ "https:")

  abbrev pub AllServers : List (String × Fields) → Type 0
  AllServers [] = Unit
  AllServers ((name, server) ∷ servers) =
      (same name "" ≡ false) × IsServer server × AllServers servers

  -- A config with servers under names, the current one of which is among them.
  pub record IsSaveable (c : ProfileConfig) : Type 0 where
    pub servers : AllServers c.servers
    pub current_named : IsNamed c.servers c.current
    pub apart : get "current" c.rest ≡ none

  http_origin_kept :
      (protocol url : String)
      → (protocol ≡ "http:") ⊎ (protocol ≡ "https:")
      → http_origin (some (protocol, url)) ≡ some url
  unfolding same
  http_origin_kept protocol url (inl http) = rw http refl
  http_origin_kept protocol url (inr https) = rw https refl

  checked_server_kept :
      (name : String) (server : Fields)
      → same name "" ≡ false
      → IsServer server
      → checked_server parse_url name (obj server) ≡ returns server
  unfolding checked_server server_url
  checked_server_kept name server named s =
      let read : as_str (get "url" server) ≡ some s.url = rw s.has_url refl in
      rw (named, read, s.nonempty, s.is_origin, http_origin_kept s.protocol s.url s.is_http)
        (ap returns (set_str_same "url" s.url server read))

  AllServers-AllChecked :
      (servers : List (String × Fields)) → AllServers servers → AllChecked servers
  AllServers-AllChecked [] h = tt
  AllServers-AllChecked ((name, server) ∷ servers) (named, s, rest) =
      (checked_server_kept name server named s, AllServers-AllChecked servers rest)

  -- A config that was saved is loaded with the same servers, all their fields included, and the same
  -- current name, where the `url` of each server is the origin of an HTTP URL, no name is empty, the
  -- current name is that of one of the servers, and the other keys of the file have none called "current".
  pub load_config-to_json :
      (c : ProfileConfig)
      → IsSaveable c
      → (d : ProfileConfig) × (load_config parse_url (contents (some (to_json c))) ≡ returns d)
        × (d.servers ≡ c.servers)
        × (d.current ≡ c.current)
  load_config-to_json c h = load_saved c (record {
    checked = AllServers-AllChecked c.servers h.servers;
    current_named = h.current_named;
    apart = h.apart;
  })

module _ (parse_url : String → Option (String × String)) (url : IsUrlParser parse_url) where
  -- The origin of a URL is its own origin, and is not empty.
  pub server_url-server_url :
      (input v : String)
      → server_url parse_url input ≡ some v
      → (server_url parse_url v ≡ some v) × (same v "" ≡ false)
  unfolding server_url
  server_url-server_url input v h =
      let (protocol, parses, http) = http_origin-some (parse_url input) v h in
      let again = url.origin_parses input protocol v parses http in
      (rw (again, http) refl, nonempty again)
    where
      nonempty : {p : String} → parse_url v ≡ some (p, v) → same v "" ≡ false
      nonempty again = elim (Bool-cases (same v "")) [
        | inl empty ↦ cc (url.empty_fails, (same_iff v "").0 empty)
        | inr filled ↦ filled
      ]

  pub server_again :
      (input v : String) (server : Fields)
      → server_url parse_url input ≡ some v
      → server_of parse_url (some (set "url" (str v) server)) ≡ returns (set "url" (str v) server)
  server_again input v server h =
      let (again, filled) = server_url-server_url input v h in
      rw (get-set_self "url" (str v) server, filled, again)
        (ap returns (set-set "url" (str v) (str v) server))

  server_from_idem :
      (server done : Fields) (o : Option String)
      → server_from parse_url server o ≡ returns done
      → server_of parse_url (some done) ≡ returns done
  server_from_idem server done none h = cc
  server_from_idem server done (some input) h = elim (Bool-cases (same input "")) [
    | inl empty ↦ cc (rw empty at h)
    | inr filled ↦ elim (Option-cases (server_url parse_url input)) [
      | inl refused ↦ cc (rw (filled, refused) at h)
      | inr (v, parsed) ↦
          let is_done : set "url" (str v) server ≡ done = cc (rw (filled, parsed) at h) in
          rw (← is_done) (server_again input v server parsed)
    ]
  ]

  server_of_idem :
      (o : Option Fields) (done : Fields)
      → server_of parse_url o ≡ returns done
      → server_of parse_url (some done) ≡ returns done
  server_of_idem none done h = cc
  server_of_idem (some server) done h = server_from_idem server done (as_str (get "url" server)) h

  pub checked_server_idem :
      (name : String) (raw : Json) (done : Fields)
      → checked_server parse_url name raw ≡ returns done
      → checked_server parse_url name (obj done) ≡ returns done
  unfolding checked_server
  checked_server_idem name raw done h = elim (Bool-cases (same name "")) [
    | inl empty ↦ cc (rw empty at h)
    | inr filled ↦ rw filled (server_of_idem (as_obj (some raw)) done (rw filled at h))
  ]
