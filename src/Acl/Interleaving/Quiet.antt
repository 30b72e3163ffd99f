-- ===== src/Acl/Interleaving/Quiet.antt =====
-- While nothing is written: what a reload has read stays true, so a cache that shows the tables goes
-- on showing them, in src/acl/mod.rs.
use hi_mqtt.Prelude.{ℕ, ◌≡◌, ◌==◌, refl, ◌⊎◌, inl, inr, Bool-cases}
use hi_mqtt.Db.Schema.{Tables}
use hi_mqtt.Acl.Service.Reload.{user_rows, topic_rows, acl_rows}
use hi_mqtt.Acl.Interleaving.{
  Progress, idle, users_read, topics_read, rules_read, Shared, proceed, ReloadStep, read_users,
  read_topics, read_rules, store, give_up, QuietRun, start, later, ShowsTables,
}

-- What this reload has read is what the tables hold.
abbrev pub IsCurrent : Tables → Progress → Type 0
IsCurrent t idle = Unit
IsCurrent t (users_read users) = users ≡ user_rows t
IsCurrent t (topics_read users topics) = (users ≡ user_rows t) × (topics ≡ topic_rows t)
IsCurrent t (rules_read users topics rules) =
    (users ≡ user_rows t) × (topics ≡ topic_rows t) × (rules ≡ acl_rows t)

abbrev pub AreCurrent : Shared → Type 0
AreCurrent s = (i : ℕ) → IsCurrent s.tables (s.tasks i)

AreCurrent-proceed :
    (s : Shared) (i : ℕ) (p : Progress)
    → AreCurrent s
    → IsCurrent s.tables p
    → AreCurrent (proceed s i p)
AreCurrent-proceed s i p all h j = elim (Bool-cases (i == j)) [
  | inl e ↦ rw e h
  | inr e ↦ rw e (all j)
]

IsCurrent-at :
    (s : Shared) (i : ℕ) (p : Progress) → AreCurrent s → s.tasks i ≡ p → IsCurrent s.tables p
IsCurrent-at s i p all e = rw e at (all i)

-- What a step of a reload keeps: the tables, and that all reloads are current; the cache stays, or
-- it comes to show the tables.
record IsQuiet (s t : Shared) : Type 0 where
  same_tables : t.tables ≡ s.tables
  still_current : AreCurrent t
  shown : (t.cache ≡ s.cache) ⊎ ShowsTables t

ReloadStep-IsQuiet : {s t : Shared} → ReloadStep s t → AreCurrent s → IsQuiet s t
ReloadStep-IsQuiet (read_users s i e) all = record {
  same_tables = refl;
  still_current = AreCurrent-proceed s i (users_read (user_rows s.tables)) all refl;
  shown = inl refl;
}
ReloadStep-IsQuiet (read_topics s i users e) all = record {
  same_tables = refl;
  still_current =
      AreCurrent-proceed s i (topics_read users (topic_rows s.tables)) all
        (IsCurrent-at s i (users_read users) all e, refl);
  shown = inl refl;
}
ReloadStep-IsQuiet (read_rules s i users topics e) all =
    let (u, t) = IsCurrent-at s i (topics_read users topics) all e in
    record {
      same_tables = refl;
      still_current =
          AreCurrent-proceed s i (rules_read users topics (acl_rows s.tables)) all (u, t, refl);
      shown = inl refl;
    }
ReloadStep-IsQuiet (store s i users topics rules now e) all =
    let (u, t, r) = IsCurrent-at s i (rules_read users topics rules) all e in
    record {
      same_tables = refl;
      still_current = AreCurrent-proceed s i idle all tt;
      shown = inr (record { instant = now; cached = rw (u, t, r) });
    }
ReloadStep-IsQuiet (give_up s i) all = record {
  same_tables = refl;
  still_current = AreCurrent-proceed s i idle all tt;
  shown = inl refl;
}

ShowsTables-kept :
    (s t : Shared) → t.tables ≡ s.tables → t.cache ≡ s.cache → ShowsTables s → ShowsTables t
ShowsTables-kept s t e c h = record { instant = h.instant; cached = rw (c, e) h.cached }

ShowsTables-step : (s t : Shared) → IsQuiet s t → ShowsTables s → ShowsTables t
ShowsTables-step s t q h = elim q.shown [
  | inl kept ↦ ShowsTables-kept s t q.same_tables kept h
  | inr new ↦ new
]

QuietRun-AreCurrent : {s t : Shared} → AreCurrent s → QuietRun s t → AreCurrent t
QuietRun-AreCurrent all start = all
QuietRun-AreCurrent all (later r st) =
    (ReloadStep-IsQuiet st (QuietRun-AreCurrent all r)).still_current

-- While nothing is written and no reload holds what was read before the last write, a cache that
-- shows the tables goes on showing them, whatever reloads start, end or fail.
pub QuietRun-ShowsTables :
    {s t : Shared} → AreCurrent s → ShowsTables s → QuietRun s t → ShowsTables t
QuietRun-ShowsTables all h start = h
QuietRun-ShowsTables all h (later {t} {u} r st) =
    ShowsTables-step t u (ReloadStep-IsQuiet st (QuietRun-AreCurrent all r))
      (QuietRun-ShowsTables all h r)
