-- ===== src/Profiles/Valid.antt =====
-- packages/t3code-lib/src/profiles: the configs that are loaded, changed and saved.
use t3code_client.Prelude.{
  first_of, String, false, Option, none, some, List, [], ◌∷◌, same, same_iff, same_refl, sym, ◌≡◌,
  refl, inl, inr, arith, Bool-cases, Option-cases,
}
use t3code_client.Prelude.Dict.{lookup, insert, delete, lookup-insert, lookup-delete}
use t3code_client.Json.{
  Json, null, bool, num, str, arr, obj, Fields, no_fields, field, get, set, as_obj,
}
use t3code_client.Profiles.Config.{
  returns, then-returns, Profile, ProfileConfig, ConfigFile, missing, unreadable, contents, remove,
  check_named, as_current, profile_named, server_url, checked_server, load_servers, load_from,
  load_object, load_config,
}
use t3code_client.Profiles.Loaded.{
  IsUrlParser, AllChecked, IsNamed, IsValid, server_again, checked_server_idem,
}
use t3code_client.Profiles.Manager.{without_current, logged_out, registered}

get-remove : (k : String) (fs : Fields) → get k (remove k fs) ≡ none
unfolding get remove
get-remove k no_fields = refl
get-remove k (field j v fs) = elim (Bool-cases (same j k)) [
  | inl hit ↦ rw hit (get-remove k fs)
  | inr miss ↦ rw miss (rw miss (get-remove k fs))
]

as_current_filled :
    (o : Option Json) (name : String) → as_current o ≡ returns (some name) → same name "" ≡ false
as_current_filled none name h = cc
as_current_filled (some null) name h = cc
as_current_filled (some (bool b)) name h = cc
as_current_filled (some (num n)) name h = cc
as_current_filled (some (str s)) name h = elim (Bool-cases (same s "")) [
  | inl empty ↦ cc (rw empty at h)
  | inr filled ↦ cc (rw filled at h, filled)
]
as_current_filled (some (arr vs)) name h = cc
as_current_filled (some (obj fs)) name h = cc

module _ (parse_url : String → Option (String × String)) (url : IsUrlParser parse_url) where
  load_servers-AllChecked :
      (fs : Fields) (servers : List (String × Fields))
      → load_servers parse_url fs ≡ returns servers
      → AllChecked parse_url servers
  unfolding load_servers
  load_servers-AllChecked no_fields servers h = let e : [] ≡ servers = cc h in rw (← e) tt
  load_servers-AllChecked (field name raw fs) servers h =
      let (server, more, checked) = then-returns (checked_server parse_url name raw) _ (sym h) in
      let (rest, done, loaded) = then-returns (load_servers parse_url fs) _ (sym more) in
      let e : (name, server) ∷ rest ≡ servers = cc done in
      rw (← e) (
        checked_server_idem parse_url url name raw server checked,
        load_servers-AllChecked fs rest loaded,
      )

  check_named-IsNamed :
      (c d : ProfileConfig) (o : Option Json) (current : Option String)
      → as_current o ≡ returns current
      → check_named c current ≡ returns d
      → (c ≡ d) × IsNamed parse_url c.servers current
  check_named-IsNamed c d o none a h = (cc h, tt)
  check_named-IsNamed c d o (some name) a h = elim (Option-cases (lookup name c.servers)) [
    | inl absent ↦ cc (rw absent at h)
    | inr (server, found) ↦ (cc (rw found at h), (as_current_filled o name a, (server, found)))
  ]

  load_from-IsValid :
      (raw : Fields) (o : Option Fields) (c : ProfileConfig)
      → load_from parse_url raw o ≡ returns c
      → IsValid parse_url c
  unfolding load_from
  load_from-IsValid raw none c h = cc
  load_from-IsValid raw (some entries) c h =
      let (current, more, read) = then-returns (as_current (get "current" raw)) _ (sym h) in
      let (servers, checks, loaded) = then-returns (load_servers parse_url entries) _ (sym more) in
      let (is_c, is_named) = check_named-IsNamed _ c (get "current" raw) current read checks in
      rw (← is_c) (record {
        checked = load_servers-AllChecked entries servers loaded;
        current_named = is_named;
        apart = get-remove "current" raw;
      })

  load_object-IsValid :
      (o : Option Fields) (c : ProfileConfig)
      → load_object parse_url o ≡ returns c
      → IsValid parse_url c
  unfolding load_object
  load_object-IsValid none c h = cc
  load_object-IsValid (some raw) c h = load_from-IsValid raw (as_obj (get "servers" raw)) c h

  -- A config that was loaded can be saved.
  pub load_config-IsValid :
      (file : ConfigFile) (c : ProfileConfig)
      → load_config parse_url file ≡ returns c
      → IsValid parse_url c
  unfolding load_config
  load_config-IsValid missing c h =
      let e : record { servers = []; current = none; rest = no_fields } ≡ c = cc h in
      rw (← e) (record { checked = tt; current_named = tt; apart = unfold get in refl })
  load_config-IsValid unreadable c h = cc
  load_config-IsValid (contents none) c h = cc
  load_config-IsValid (contents (some raw)) c h = load_object-IsValid (as_obj (some raw)) c h

  filled_name :
      (name : String) (server : Fields) (servers : List (String × Fields))
      → AllChecked parse_url servers
      → lookup name servers ≡ some server
      → same name "" ≡ false
  unfolding lookup checked_server
  filled_name name server [] h l = cc
  filled_name name server ((n, s) ∷ servers) h l = elim (Bool-cases (same n name)) [
    | inl hit ↦ elim (Bool-cases (same n "")) [
      | inl empty ↦ cc (rw empty at h.0)
      | inr filled ↦ rw (← (same_iff n name).0 hit) filled
    ]
    | inr miss ↦ filled_name name server servers h.1 (rw miss at l)
  ]

  profile_named-IsNamed :
      (c : ProfileConfig) (name : String) (p : Profile)
      → IsValid parse_url c
      → profile_named c name ≡ returns p
      → IsNamed parse_url c.servers (some name)
  unfolding profile_named
  profile_named-IsNamed c name p v h = elim (Option-cases (lookup name c.servers)) [
    | inl absent ↦ cc (rw absent at h)
    | inr (server, found) ↦ (filled_name name server c.servers v.checked found, (server, found))
  ]

  delete-AllChecked :
      (name : String) (servers : List (String × Fields))
      → AllChecked parse_url servers
      → AllChecked parse_url (delete name servers)
  unfolding delete
  delete-AllChecked name [] h = tt
  delete-AllChecked name ((n, s) ∷ servers) h = elim (Bool-cases (same n name)) [
    | inl hit ↦ rw hit (delete-AllChecked name servers h.1)
    | inr miss ↦ rw miss (h.0, delete-AllChecked name servers h.1)
  ]

  insert-AllChecked :
      (name : String) (server : Fields) (servers : List (String × Fields))
      → checked_server parse_url name (obj server) ≡ returns server
      → AllChecked parse_url servers
      → AllChecked parse_url (insert name server servers)
  unfolding insert
  insert-AllChecked name server [] c h = (c, tt)
  insert-AllChecked name server ((n, s) ∷ servers) c h = elim (Bool-cases (same n name)) [
    | inl hit ↦ rw hit (c, h.1)
    | inr miss ↦ rw miss (h.0, insert-AllChecked name server servers c h.1)
  ]

  flipped : (a b : String) → same b a ≡ false → same a b ≡ false
  flipped a b h = ground (arith, same_iff a b, same_iff b a)

  deleted-IsNamed :
      (selected : String) (current : Option String) (servers : List (String × Fields))
      → IsNamed parse_url servers current
      → IsNamed parse_url (delete selected servers) (without_current selected current)
  deleted-IsNamed selected none servers h = tt
  deleted-IsNamed selected (some name) servers h = elim (Bool-cases (same name selected)) [
    | inl hit ↦ rw hit tt
    | inr miss ↦
        rw miss
          (h.0, (h.1.0, rw (lookup-delete selected name servers, flipped selected name miss) h.1.1))
  ]

  pub logged_out-IsValid :
      (selected : String) (c : ProfileConfig)
      → IsValid parse_url c
      → IsValid parse_url (logged_out selected c)
  logged_out-IsValid selected c v = record {
    checked = delete-AllChecked selected c.servers v.checked;
    current_named = deleted-IsNamed selected c.current c.servers v.current_named;
    apart = v.apart;
  }

  inserted-IsNamed :
      (name : String) (server : Fields) (current : Option String) (servers : List (String × Fields))
      → same name "" ≡ false
      → IsNamed parse_url servers current
      → IsNamed parse_url (insert name server servers) (first_of current (some name))
  inserted-IsNamed name server none servers f h =
      (f, (server, rw (lookup-insert name name server servers, same_refl name) refl))
  inserted-IsNamed name server (some n) servers f h = (h.0, stays)
    where
      stays : (x : Fields) × (lookup n (insert name server servers) ≡ some x)
      stays = elim (Bool-cases (same name n)) [
        | inl hit ↦ (server, rw (lookup-insert name n server servers, hit) refl)
        | inr miss ↦ (h.1.0, rw (lookup-insert name n server servers, miss) h.1.1)
      ]

  pub registered-IsValid :
      (name input origin : String) (c : ProfileConfig)
      → same name "" ≡ false
      → server_url parse_url input ≡ some origin
      → IsValid parse_url c
      → IsValid parse_url (registered name origin c)
  registered-IsValid name input origin c f u v = record {
    checked = insert-AllChecked name _ c.servers fresh v.checked;
    current_named = inserted-IsNamed name _ c.current c.servers f v.current_named;
    apart = v.apart;
  }
    where
      fresh :
          checked_server parse_url name (obj (field "url" (str origin) no_fields))
          ≡ returns (field "url" (str origin) no_fields)
      fresh =
          unfold checked_server set in rw f (server_again parse_url url input origin no_fields u)

  pub switched-IsValid :
      (name : String) (p : Profile) (c : ProfileConfig)
      → profile_named c name ≡ returns p
      → IsValid parse_url c
      → IsValid parse_url (record c { current = some name })
  switched-IsValid name p c h v = record {
    checked = v.checked;
    current_named = profile_named-IsNamed c name p v h;
    apart = v.apart;
  }
