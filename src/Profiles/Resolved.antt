-- ===== src/Profiles/Resolved.antt =====
-- packages/t3code-lib/src/profiles/profileManager.ts: whose credentials a resolved connection uses.
use t3code_client.Prelude.{
  first_of, String, true, Option, none, some, List, [], ◌∷◌, same, same_iff, ◌≡◌, refl, sym, ap,
  ◌∙◌, inl, inr, Bool-cases, Option-cases,
}
use t3code_client.Prelude.Dict.{lookup}
use t3code_client.Json.{str, obj, Fields, get, set, as_str, get-set_self}
use t3code_client.Errors.{T3Error}
use t3code_client.Profiles.Config.{
  returns, then-returns, Profile, ProfileConfig, ConfigFile, url_from, url_of, profile_named,
  server_url, server_from, checked_server, load_config,
}
use t3code_client.Profiles.Loaded.{IsUrlParser, AllChecked}
use t3code_client.Profiles.Valid.{load_config-IsValid}
use t3code_client.Profiles.Manager.{
  environment_value, Credentials, of_file, of_token, of_profile, no_credentials, Resolved,
  ResolveOptions, current_profile, profiles, find_origin, is_origin, base_of, chosen,
  credentials_of, selected_for, selected, resolve,
}

is_origin-some : (base : String) (o : Option String) → is_origin base o ≡ true → o ≡ some base
is_origin-some base none h = cc
is_origin-some base (some u) h = ap some ((same_iff u base).0 h)

selected_same : (e : Option T3Error) (r q : Resolved) → selected e r ≡ returns q → r ≡ q
selected_same none r q h = cc h
selected_same (some e) r q h = by_source r.credentials h
  where
    by_source : (c : Credentials) → selected_for e r c ≡ returns q → r ≡ q
    by_source (of_file path) h = cc h
    by_source (of_token token) h = cc h
    by_source (of_profile p) h = cc
    by_source no_credentials h = cc h

credentials-of_profile :
    (path token : Option String) (o : Option Profile) (p : Profile)
    → credentials_of path token o ≡ of_profile p
    → o ≡ some p
credentials-of_profile (some path) token o p h = cc
credentials-of_profile none (some token) o p h = cc
credentials-of_profile none none (some q) p h = cc
credentials-of_profile none none none p h = cc

module _ (parse_url : String → Option (String × String)) (url : IsUrlParser parse_url) where
  -- The origin of a profile is the server that is connected to.
  abbrev pub IsFor : String → Profile → Type 0
  IsFor base p = server_url parse_url p.url ≡ some base

  -- The URL of a server of a loaded config is an origin.
  checked_from :
      (server : Fields) (o : Option String)
      → as_str (get "url" server) ≡ o
      → server_from parse_url server o ≡ returns server
      → server_url parse_url (url_from o) ≡ some (url_from o)
  checked_from server none e h = cc
  checked_from server (some u) e h = elim (Bool-cases (same u "")) [
    | inl empty ↦ cc (rw empty at h)
    | inr filled ↦ elim (Option-cases (server_url parse_url u)) [
      | inl refused ↦ cc (rw (filled, refused) at h)
      | inr (v, parsed) ↦
          let same_server : set "url" (str v) server ≡ server = cc (rw (filled, parsed) at h) in
          let same_url : some v ≡ some u =
            sym (ap as_str (get-set_self "url" (str v) server))
            ∙ ap (λ (s : Fields). as_str (get "url" s)) same_server
            ∙ e in
          parsed ∙ same_url
    ]
  ]

  checked_url :
      (name : String) (server : Fields)
      → checked_server parse_url name (obj server) ≡ returns server
      → server_url parse_url (url_of server) ≡ some (url_of server)
  unfolding checked_server
  checked_url name server h = elim (Bool-cases (same name "")) [
    | inl empty ↦ cc (rw empty at h)
    | inr filled ↦ checked_from server (as_str (get "url" server)) refl (rw filled at h)
  ]

  lookup_url :
      (name : String) (server : Fields) (servers : List (String × Fields))
      → AllChecked parse_url servers
      → lookup name servers ≡ some server
      → server_url parse_url (url_of server) ≡ some (url_of server)
  unfolding lookup
  lookup_url name server [] v h = cc
  lookup_url name server ((n, s) ∷ servers) v h = elim (Bool-cases (same n name)) [
    | inl hit ↦ let e : s ≡ server = cc (rw hit at h) in rw (← e) (checked_url n s v.0)
    | inr miss ↦ lookup_url name server servers v.1 (rw miss at h)
  ]

  current-IsFor :
      (c : ProfileConfig) (name : String) (p : Profile)
      → AllChecked parse_url c.servers
      → profile_named c name ≡ returns p
      → IsFor p.url p
  unfolding profile_named
  current-IsFor c name p v h = elim (Option-cases (lookup name c.servers)) [
    | inl absent ↦ cc (rw absent at h)
    | inr (server, found) ↦
        let e : record { name = name; url = url_of server } ≡ p = cc (rw found at h) in
        rw (← e) (lookup_url name server c.servers v found)
  ]

  current_profile-IsFor :
      (c : ProfileConfig) (name : Option String) (o : Option Profile) (p : Profile)
      → AllChecked parse_url c.servers
      → current_profile c name ≡ returns o
      → o ≡ some p
      → IsFor p.url p
  current_profile-IsFor c none o p v h e = cc
  current_profile-IsFor c (some name) o p v h e =
      let (q, is_o, found) = then-returns (profile_named c name) _ (sym h) in
      current-IsFor c name p v (found ∙ ap returns (cc (is_o, e)))

  find_origin-IsFor :
      (base : String) (ps : List Profile) (p : Profile)
      → find_origin parse_url base ps ≡ some p
      → IsFor base p
  unfolding find_origin
  find_origin-IsFor base [] p h = cc
  find_origin-IsFor base (q ∷ ps) p h =
      elim (Bool-cases (is_origin base (server_url parse_url q.url))) [
        | inl hit ↦
            let e : q ≡ p = cc (rw hit at h) in
            rw (← e) (is_origin-some base (server_url parse_url q.url) hit)
        | inr miss ↦ find_origin-IsFor base ps p (rw miss at h)
      ]

  chosen-IsFor :
      (c : ProfileConfig) (explicit : Option String) (current : Option Profile) (base : String)
      (o : Option Profile) (p : Profile)
      → ((q : Profile) → current ≡ some q → IsFor q.url q)
      → chosen parse_url c explicit current ≡ returns (base, o)
      → o ≡ some p
      → IsFor base p
  chosen-IsFor c none none base o p v h e = cc
  chosen-IsFor c none (some q) base o p v h e =
      let at_base : q.url ≡ base = cc h in
      let is_p : q ≡ p = cc (h, e) in rw (← at_base, ← is_p) (v q refl)
  chosen-IsFor c (some explicit) current base o p v h e =
      let (b, found, parsed) = then-returns (base_of (server_url parse_url explicit)) _ (sym h) in
      let at_base : b ≡ base = cc found in
      let is_o : find_origin parse_url b (profiles c.servers) ≡ o = cc found in
      rw (← at_base) (find_origin-IsFor b (profiles c.servers) p (is_o ∙ e))

  -- The credentials of a profile are used only for the server whose origin is that of the profile.
  pub resolve-IsFor :
      (trim : String → String) (o : ResolveOptions) (selects : Option T3Error) (file : ConfigFile)
      (r : Resolved) (p : Profile)
      → resolve parse_url trim o selects file ≡ returns r
      → r.credentials ≡ of_profile p
      → IsFor r.base_url p
  unfolding resolve
  resolve-IsFor trim o selects file r p h k =
      let (c, more, loaded) = then-returns (load_config parse_url file) _ (sym h) in
      let (current, rest, found) = then-returns (current_profile c c.current) _ (sym more) in
      let (choice, last, chose) =
        then-returns
          (chosen parse_url c (first_of o.server (environment_value trim o.server_variable))
            current)
          _ (sym rest) in
      let is_r = selected_same selects _ r last in
      let of_p : credentials_of o.credentials_file (environment_value trim o.token_variable)
            choice.1
          ≡ of_profile p =
        ap (λ (x : Resolved). x.credentials) is_r ∙ k in
      let is_p = credentials-of_profile o.credentials_file _ choice.1 p of_p in
      let valid = load_config-IsValid parse_url url file c loaded in
      rw (← ap (λ (x : Resolved). x.base_url) is_r) (
        chosen-IsFor c _ current choice.0 choice.1 p
          (λ q e. current_profile-IsFor c c.current current q valid.checked found e) chose is_p)
