-- ===== src/Startup/Main/Guard.antt =====
-- What runs after `main` of src/main.rs has started the program.
use hi_mqtt.Prelude.{
  ◌≡◌, ◌∙◌, sym, ap, ◌⊎◌, inl, inr, refl, Bool, true, false, not, Option, none, is_some, Text, ◌&&◌,
  arith, Bool-cases,
}
use hi_mqtt.Prelude.Exec.{Result, ok, err, map_err}
use hi_mqtt.Db.Query.{Link}
use hi_mqtt.Acl.Matcher.{Matches}
use hi_mqtt.Acl.Service.{AclService, Bcrypt}
use hi_mqtt.Startup.{AppSettings, Config, start_acl, validate_config}
use hi_mqtt.Startup.Guard.{InForce, start_acl-InForce}
use hi_mqtt.Startup.Main.{
  Cli, World, Halt, Running, and_then, check, config_path, load_config, start_monitor, launch,
  start, main, panicked, no_access_control, no_thread, no_runtime,
}

pub and_then-ok :
    {A B : Type 0} (r : Result Halt A) (f : A → Result Halt B) (b : B)
    → and_then r f ≡ ok b
    → (a : A) × (r ≡ ok a) × (f a ≡ ok b)
and_then-ok (ok a) f b h = (a, refl, h)
and_then-ok (err e) f b h = cc

map_err-ok : {E A : Type 0} (f : E → Halt) (r : Result E A) (a : A) → map_err f r ≡ ok a → r ≡ ok a
map_err-ok f (ok a) b h = cc
map_err-ok f (err e) b h = cc

check-ok :
    {B : Type 0} (h : Halt) (passed : Bool) (f : Unit {0} → Result Halt B) (b : B)
    → and_then (check h passed) f ≡ ok b
    → f tt ≡ ok b
check-ok h true f b e = e
check-ok h false f b e = cc

module _ {Raw : Type 0} (world : World Raw) where
  is_some-start_monitor :
      (cli : Cli) (settings : AppSettings) (monitor : _)
      → start_monitor world cli settings ≡ ok monitor
      → is_some monitor ≡ not cli.no_monitor
  unfolding start_monitor
  is_some-start_monitor cli settings monitor h = ground (arith, h)

  launch-ok :
      (cli : Cli) (settings : AppSettings) (started : Option AclService × Config) (r : Running)
      → launch world cli settings started ≡ ok r
      → ((r.service, r.configs) ≡ started)
        × (is_some r.monitor ≡ not cli.no_monitor)
        × (r.refreshes ≡ is_some r.service)
        × (r.serves ≡ (not cli.no_admin && is_some r.service))
  unfolding launch
  launch-ok cli settings (service, configs) r h =
      let (monitor, begun, rest) = and_then-ok (start_monitor world cli settings) _ r h in
      let done = check-ok no_thread world.broker_thread _ r rest in
      let shown = is_some-start_monitor cli settings monitor begun in (cc, cc, cc, cc)

  module _ (link : Link) (bcrypt : Bcrypt) (parse : Text → Option Text) (matches : Matches) where
    -- With access control it is in force and refreshed, and the administration runs unless it was
    -- switched off; without, the broker runs on the configuration as it was read, and neither runs.
    abbrev pub IsAsAsked : Cli → AppSettings → Config → Running → Type 0
    IsAsAsked cli settings configs r =
        ((settings.acl.enabled ≡ true)
          × InForce link bcrypt parse matches settings (r.service, r.configs)
          × (r.refreshes ≡ true)
          × (r.serves ≡ not cli.no_admin))
        ⊎ ((settings.acl.enabled ≡ false)
            × (r.service ≡ none)
            × (r.configs ≡ configs)
            × (r.refreshes ≡ false)
            × (r.serves ≡ false))

    start_acl-disabled :
        (settings : AppSettings) (configs : Config) (started : Option AclService × Config)
        → settings.acl.enabled ≡ false
        → start_acl link bcrypt parse matches settings configs world.reached ≡ ok started
        → started ≡ (none, configs)
    unfolding start_acl
    start_acl-disabled settings configs started e h = ground (arith, e, h)

    start-ok :
        (cli : Cli) (configs : Config) (settings : AppSettings) (r : Running)
        → start world link bcrypt parse matches cli (configs, settings) ≡ ok r
        → (validate_config configs ≡ ok tt)
          × (start_acl link bcrypt parse matches settings configs world.reached
              ≡ ok (r.service, r.configs))
          × (is_some r.monitor ≡ not cli.no_monitor)
          × IsAsAsked cli settings configs r
    unfolding start
    start-ok cli configs settings r h =
        let (_, valid, rest) = and_then-ok (map_err panicked (validate_config configs)) _ r h in
        let rest = check-ok no_runtime world.runtime _ r rest in
        let guard = start_acl link bcrypt parse matches settings configs world.reached in
        let (started, guarded, rest) = and_then-ok (map_err no_access_control guard) _ r rest in
        let begun = map_err-ok no_access_control guard started guarded in
        let (same, monitored, refreshes, serves) = launch-ok cli settings started r rest in
        (
          map_err-ok panicked (validate_config configs) tt valid,
          begun ∙ ap (λ (x : Option AclService × Config). ok x) (sym same),
          monitored,
          elim (Bool-cases settings.acl.enabled) [
            | inl on ↦
                let force =
                  start_acl-InForce link bcrypt parse matches settings configs world.reached
                    (r.service, r.configs) on (rw (← same) at begun) in
                inl (
                  on,
                  force,
                  ground (arith, refreshes, force.is_kept),
                  ground (arith, serves, force.is_kept),
                )
            | inr off ↦
                let bare = same ∙ start_acl-disabled settings configs started off begun in
                let gone : r.service ≡ none = ap (λ (x : Option AclService × Config). x.0) bare in
                inr (
                  off,
                  gone,
                  ap (λ (x : Option AclService × Config). x.1) bare,
                  rw gone at refreshes,
                  ground (arith, serves, gone),
                )
          ],
        )

    -- What `main` went through where something runs in the end.
    main-ok :
        (cli : Cli) (r : Running)
        → main world link bcrypt parse matches cli ≡ ok r
        → (path : Text) × (configs : Config) × (settings : AppSettings) × (config_path world
              cli.config
            ≡ ok path)
          × (load_config world path ≡ ok (configs, settings))
          × (start world link bcrypt parse matches cli (configs, settings) ≡ ok r)
    unfolding main
    main-ok cli r h =
        let run : and_then (config_path world cli.config) (λ path.
          and_then (load_config world path) (start world link bcrypt parse matches cli))
            ≡ ok r =
          ground (arith, h) in
        let (path, found, rest) = and_then-ok (config_path world cli.config) _ r run in
        let ((configs, settings), loaded, rest) = and_then-ok (load_config world path) _ r rest in
        (path, configs, settings, found, loaded, rest)

    -- The access control as `main` started it.
    pub main-started :
        (cli : Cli) (r : Running)
        → main world link bcrypt parse matches cli ≡ ok r
        → (configs : Config) × (settings : AppSettings) × (start_acl link bcrypt parse matches
              settings configs world.reached
            ≡ ok (r.service, r.configs))
          × IsAsAsked cli settings configs r
    main-started cli r h =
        let (path, configs, settings, _, _, rest) = main-ok cli r h in
        let (_, begun, _, asked) = start-ok cli configs settings r rest in
        (configs, settings, begun, asked)

    -- Whatever runs in the end, it runs on a configuration that was read and whose TLS paths hold,
    -- with the monitor unless it was switched off. With access control the cache shows the tables,
    -- the administration has an account, each listener asks the service and the broker its decisions,
    -- the refresh task runs, and the administration unless it was switched off; without, the broker
    -- runs on the configuration as it was read, and neither runs.
    pub main-IsAsAsked :
        (cli : Cli) (r : Running)
        → main world link bcrypt parse matches cli ≡ ok r
        → (path : Text) × (configs : Config) × (settings : AppSettings) × (config_path world
              cli.config
            ≡ ok path)
          × (load_config world path ≡ ok (configs, settings))
          × (validate_config configs ≡ ok tt)
          × (is_some r.monitor ≡ not cli.no_monitor)
          × IsAsAsked cli settings configs r
    main-IsAsAsked cli r h =
        let (path, configs, settings, found, loaded, rest) = main-ok cli r h in
        let (valid, _, monitored, asked) = start-ok cli configs settings r rest in
        (path, configs, settings, found, loaded, valid, monitored, asked)
