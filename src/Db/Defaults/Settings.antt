-- ===== src/Db/Defaults/Settings.antt =====
-- The templates that are stored are the ones that are read: `set_user_defaults` and
-- `get_user_defaults` of src/db/mod.rs.
use hi_mqtt.Prelude.{
  ℕ, ◌≡◌, ap, ◌∙◌, Bool, true, false, Option, none, some, List, [], ◌∷◌, ◌++◌, Text, codes, text_eq,
  text_eq_refl, find, any, update_where, arith, Bool-cases, inl, inr,
}
use mathlib.Core.Option
use hi_mqtt.Prelude.Exec.{Result, ok, pure, ok_or, bind-ok, ◌>>=◌}
use hi_mqtt.Db.Schema.{SettingRow, UserDefaultsSettings, Tables, no_defaults}
use hi_mqtt.Db.Query.{answered, Database, DbError, Link, because, bad_json, run, deliver}
use hi_mqtt.Db.Query.Laws.{run-ok}
use hi_mqtt.Db.Defaults.{
  Serde, IsRoundTrip, defaults_key, select_defaults, upsert_defaults, get_user_defaults,
  set_user_defaults, parse_defaults,
}

abbrev pub is_defaults : SettingRow → Bool
is_defaults r = text_eq r.key defaults_key

abbrev pub stored : List SettingRow → Option Text
stored rows = Option.map (λ (r : SettingRow). r.value) (find is_defaults rows)

stored-update_where :
    (value : Text) (now : ℕ) (rows : List SettingRow)
    → any is_defaults rows ≡ true
    → stored (update_where is_defaults (λ r. record r { value = value; updated_at = now }) rows)
      ≡ some value
unfolding find update_where
stored-update_where value now [] h = cc
stored-update_where value now (r ∷ rows) h = ground (arith, stored-update_where value now rows)

stored-append :
    (value : Text) (now : ℕ) (rows : List SettingRow)
    → any is_defaults rows ≡ false
    → stored (rows ++ record { key = defaults_key; value = value; updated_at = now } ∷ [])
      ≡ some value
unfolding find
stored-append value now [] h = ground (arith, text_eq_refl defaults_key)
stored-append value now (r ∷ rows) h = ground (arith, stored-append value now rows)

stored-upsert_defaults :
    (value : Text) (now : ℕ) (t : Tables)
    → stored (upsert_defaults value now t).1.settings ≡ some value
unfolding upsert_defaults
stored-upsert_defaults value now t = elim (Bool-cases (any is_defaults t.settings)) [
  | inl e ↦ ground (arith, e, stored-update_where value now t.settings)
  | inr e ↦ ground (arith, e, stored-append value now t.settings)
]

module _ (link : Link) (serde : Serde) where
  -- A read that the server answers gives what is stored, parsed.
  get-stored :
      (value : Text) (d : Database) (settings : UserDefaultsSettings)
      → link.delivery d.statements ≡ answered
      → stored d.tables.settings ≡ some value
      → serde.from_value value ≡ some settings
      → (get_user_defaults link serde d).0 ≡ ok settings
  unfolding get_user_defaults parse_defaults run deliver select_defaults
  get-stored value d settings h k p = ground (arith, h, k, p)

  -- Templates whose storing succeeded are the ones that the next read gives, if the server answers
  -- it and what is serialised can be read back.
  pub get_user_defaults-set_user_defaults :
      (settings : UserDefaultsSettings) (d : Database) {r : UserDefaultsSettings}
      → IsRoundTrip serde
      → (set_user_defaults link serde settings d).0 ≡ ok r
      → link.delivery (set_user_defaults link serde settings d).1.statements ≡ answered
      → (get_user_defaults link serde (set_user_defaults link serde settings d).1).0 ≡ ok settings
  unfolding set_user_defaults
  get_user_defaults-set_user_defaults settings d {r} trip h k =
      let serialise =
        ok_or (serde.to_value settings) (because (codes "序列化 user_defaults 失败") bad_json) in
      let send = λ (v : Text). run link (codes "保存系统设置失败") (upsert_defaults v) in
      let (value, written, same1, run1) =
        bind-ok serialise (λ v. send v >>= λ _. pure settings) d r h in
      let d1 = (serialise d).1 in
      let (_, sent, same2, _) = bind-ok (send value) (λ _. pure settings) d1 r run1 in
      let (_, tables) = run-ok link (codes "保存系统设置失败") (upsert_defaults value) d1 tt sent in
      let after = (set_user_defaults link serde settings d).1 in
      let reached : after ≡ (send value d1).1 =
        ap (λ (x : Result DbError UserDefaultsSettings × Database). x.1) (same1 ∙ same2) in
      get-stored value after settings k
        (ap (λ (e : Database). stored e.tables.settings) reached
          ∙ ap (λ (t : Tables). stored t.settings) tables
          ∙ stored-upsert_defaults value (link.now d1.statements) d1.tables)
        (trip.reads_back settings value (ground (arith, written)))

  -- What the settings hold: no templates where nothing is stored.
  abbrev pub defaults_in : Option Text → Option UserDefaultsSettings
  defaults_in none = some no_defaults
  defaults_in (some value) = serde.from_value value

  parse_defaults-ok :
      (value : Option Text) (d : Database) (settings : UserDefaultsSettings)
      → (parse_defaults link serde value d).0 ≡ ok settings
      → defaults_in value ≡ some settings
  parse_defaults-ok none d settings h = ground (arith, h)
  parse_defaults-ok (some value) d settings h = ground (arith, h)

  -- A read that succeeds gives what is stored, parsed.
  pub get_user_defaults-ok :
      (d : Database) (settings : UserDefaultsSettings)
      → (get_user_defaults link serde d).0 ≡ ok settings
      → defaults_in (stored d.tables.settings) ≡ some settings
  unfolding get_user_defaults select_defaults
  get_user_defaults-ok d settings h =
      let send = run link (codes "读取系统设置失败") select_defaults in
      let (value, asked, _, rest) = bind-ok send (parse_defaults link serde) d settings h in
      let (told, _) = run-ok link (codes "读取系统设置失败") select_defaults d value asked in
      let is_stored : stored d.tables.settings ≡ value = ground (arith, told) in
      rw is_stored (parse_defaults-ok value (send d).1 settings rest)
