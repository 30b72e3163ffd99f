-- ===== src/Startup/Main/Missing.antt =====
-- What `main` of src/main.rs starts where the configuration says nothing of the access control.
use hi_mqtt.Prelude.{◌≡◌, inl, inr, ap, ◌∙◌, false, Option, none, some, Text}
use hi_mqtt.Prelude.Exec.{ok}
use hi_mqtt.Db.Query.{Link}
use hi_mqtt.Acl.Matcher.{Matches}
use hi_mqtt.Acl.Service.{Bcrypt}
use hi_mqtt.Startup.Settings.{AppTables, app_settings}
use hi_mqtt.Startup.{AclTable, acl_settings, AppSettings, Config}
use hi_mqtt.Startup.Main.{
  Cli, World, Halt, Running, or_halt, source_of, load_config, main, settings_unread,
  settings_unparsed, configs_unread, configs_unparsed,
}
use hi_mqtt.Startup.Main.Guard.{and_then-ok, main-IsAsAsked}

or_halt-ok : {A : Type 0} (h : Halt) (o : Option A) (a : A) → or_halt h o ≡ ok a → o ≡ some a
or_halt-ok h none a e = cc
or_halt-ok h (some b) a e = cc

module _ {Raw : Type 0} (world : World Raw) where
  -- The settings come from tables that were parsed.
  load_config-tables :
      (path : Text) (configs : Config) (settings : AppSettings)
      → load_config world path ≡ ok (configs, settings)
      → (raw : Raw) × (tables : AppTables) × (world.tables_of raw ≡ some tables)
        × (settings ≡ app_settings tables)
  unfolding load_config
  load_config-tables path configs settings h =
      let (raw, _, rest) =
        and_then-ok (or_halt settings_unread (world.build_settings (source_of world path))) _
          (configs, settings) h in
      let (tables, parsed, rest) =
        and_then-ok (or_halt settings_unparsed (world.tables_of raw)) _ (configs, settings) rest in
      let (broker, _, rest) =
        and_then-ok (or_halt configs_unread (world.build_configs (source_of world path))) _
          (configs, settings) rest in
      let (found, _, rest) =
        and_then-ok (or_halt configs_unparsed (world.configs_of broker)) _ (configs, settings)
          rest in
      (raw, tables, or_halt-ok settings_unparsed (world.tables_of raw) tables parsed, cc)

  module _ (link : Link) (bcrypt : Bcrypt) (parse : Text → Option Text) (matches : Matches) where
    -- A configuration without the table [acl] starts without access control, whatever else it says:
    -- no service runs, nothing serves the administration, and the listeners have the handlers that
    -- they were read with.
    pub main-without_acl_table :
        (cli : Cli) (r : Running)
        → ((raw : Raw) (tables : AppTables) → world.tables_of raw ≡ some tables → tables.acl ≡ none)
        → main world link bcrypt parse matches cli ≡ ok r
        → (path : Text) × (settings : AppSettings) × (load_config world path
            ≡ ok (r.configs, settings))
          × (r.service ≡ none)
          × (r.refreshes ≡ false)
          × (r.serves ≡ false)
    unfolding app_settings acl_settings
    main-without_acl_table cli r missing h =
        let (path, configs, settings, _, loaded, _, _, asked) =
          main-IsAsAsked world link bcrypt parse matches cli r h in
        let (raw, tables, parsed, from) = load_config-tables path configs settings loaded in
        let absent = missing raw tables parsed in
        let off : settings.acl.enabled ≡ false =
          ap (λ (st : AppSettings). st.acl.enabled) from
          ∙ ap (λ (t : Option AclTable). (acl_settings t).enabled) absent in
        elim asked [
          | inl (on, _, _, _) ↦ cc (on, off)
          | inr (_, service, as_read, refreshes, serves) ↦
              (path, settings, rw (← as_read) at loaded, service, refreshes, serves)
        ]
