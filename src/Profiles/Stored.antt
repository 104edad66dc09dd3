-- ===== src/Profiles/Stored.antt =====
-- packages/t3code-lib/src/profiles/profileManager.ts: the config file over the operations of a manager.
use t3code_client.Prelude.{
  first_of, String, Bool, true, false, Option, none, some, List, [], ◌∷◌, same, ◌≡◌, refl, inl, inr,
  Bool-cases,
}
use t3code_client.Errors.{T3Error}
use t3code_client.Profiles.Config.{
  Answer, returns, throws, Profile, ProfileConfig, ConfigFile, profile_named, save_config,
  server_url, load_config,
}
use t3code_client.Profiles.Loaded.{IsUrlParser, IsValid, load_saved}
use t3code_client.Profiles.Valid.{
  load_config-IsValid, logged_out-IsValid, registered-IsValid, switched-IsValid,
}
use t3code_client.Profiles.Manager.{
  switch_found, switch_from, save_after, logout_found, logout_selected, logout_from, register_from,
  register_at, register, Operation, switches, logs_out, registers, step, run,
}

module _ (parse_url : String → Option (String × String)) (url : IsUrlParser parse_url) where
  -- The file can be loaded.
  abbrev pub Loads : ConfigFile → Type 0
  Loads file = (c : ProfileConfig) × (load_config parse_url file ≡ returns c)

  save-Loads :
      (saves : Bool) (c : ProfileConfig) (file : ConfigFile)
      → IsValid parse_url c
      → Loads file
      → Loads (save_config saves c file).0
  unfolding save_config
  save-Loads true c file v h = let (d, loads, s, n) = load_saved parse_url c v in (d, loads)
  save-Loads false c file v h = h

  switch-Loads :
      (name : String) (saves : Bool) (file : ConfigFile) (c : ProfileConfig) (r : Answer Profile)
      → profile_named c name ≡ r
      → IsValid parse_url c
      → Loads file
      → Loads (switch_found name saves file c r).0
  switch-Loads name saves file c (throws e) q v h = h
  switch-Loads name saves file c (returns p) q v h =
      save-Loads saves _ file (switched-IsValid parse_url url name p c q v) h

  save_after-Loads :
      (e : Option T3Error) (saves : Bool) (file : ConfigFile) (c : ProfileConfig)
      → IsValid parse_url c
      → Loads file
      → Loads (save_after e saves file c).0
  save_after-Loads (some e) saves file c v h = h
  save_after-Loads none saves file c v h = save-Loads saves c file v h

  logout_found-Loads :
      (selected : String) (clears : Option T3Error) (saves : Bool) (file : ConfigFile)
      (c : ProfileConfig) (r : Answer Profile)
      → IsValid parse_url c
      → Loads file
      → Loads (logout_found selected clears saves file c r).0
  logout_found-Loads selected clears saves file c (throws e) v h = h
  logout_found-Loads selected clears saves file c (returns p) v h =
      save_after-Loads clears saves file _ (logged_out-IsValid parse_url url selected c v) h

  logout-Loads :
      (selected : Option String) (clears : Option T3Error) (saves : Bool) (file : ConfigFile)
      (c : ProfileConfig)
      → IsValid parse_url c
      → Loads file
      → Loads (logout_selected selected clears saves file c).0
  unfolding logout_selected
  logout-Loads none clears saves file c v h = h
  logout-Loads (some selected) clears saves file c v h =
      logout_found-Loads selected clears saves file c (profile_named c selected) v h

  register-Loads :
      (name input : String) (origin : Option String) (prepares : Bool) (e : Option T3Error)
      (saves : Bool) (file : ConfigFile) (c : ProfileConfig)
      → load_config parse_url file ≡ returns c
      → same name "" ≡ false
      → server_url parse_url input ≡ origin
      → Loads (register_at parse_url name origin prepares e saves file).0
  unfolding register_from
  register-Loads name input none prepares e saves file c l f u = (c, l)
  register-Loads name input (some origin) true e saves file c l f u =
      rw (l, register_from)
        (save_after-Loads e saves file _
          (registered-IsValid parse_url url name input origin c f u
            (load_config-IsValid parse_url url file c l))
          (c, l))
  register-Loads name input (some origin) false e saves file c l f u = rw (l, register_from) (c, l)

  step-Loads : (file : ConfigFile) (o : Operation) → Loads file → Loads (step parse_url file o).0
  unfolding step register switch_from logout_from
  step-Loads file (switches name saves) (c, l) = rw l (
      switch-Loads name saves file c (profile_named c name) refl
        (load_config-IsValid parse_url url file c l) (c, l))
  step-Loads file (logs_out name clears saves) (c, l) = rw l (
      logout-Loads (first_of name c.current) clears saves file c
        (load_config-IsValid parse_url url file c l) (c, l))
  step-Loads file (registers name input prepares e saves) (c, l) =
      elim (Bool-cases (same name "")) [
        | inl empty ↦ rw empty (c, l)
        | inr filled ↦ rw filled (
            register-Loads name input (server_url parse_url input) prepares e saves file c l filled
              refl)
      ]

  -- A config file that can be loaded still can after any operations of a manager, whatever fails in
  -- them.
  pub run-Loads :
      (file : ConfigFile) (os : List Operation) → Loads file → Loads (run parse_url file os)
  unfolding run
  run-Loads file [] h = h
  run-Loads file (o ∷ os) h = run-Loads (step parse_url file o).0 os (step-Loads file o h)
