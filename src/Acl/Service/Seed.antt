-- ===== src/Acl/Service/Seed.antt =====
-- The first account of the administration: `ensure_seed_data` of src/acl/mod.rs.
use hi_mqtt.Prelude.{ℕ, zero, suc, [], ◌∷◌, codes, ◌≡◌, ◌≤◌, Text, length, length-append, arith}
use hi_mqtt.Prelude.Exec.{ok, bind-ok}
use hi_mqtt.Db.Query.{because, Cause, Db, DbError, Link, run, deliver}
use hi_mqtt.Db.Query.Laws.{run-ok}
use hi_mqtt.Prelude.Keeps.{Keeps, keeps_rules}
use hi_mqtt.Db.Invariants.{IsInvariant, InDatabase, run-Keeps, reads-Keeps}
use hi_mqtt.Db.Schema.{Tables}
use hi_mqtt.Db.Admins.{insert_admin, count_rows, create_admin_user, count_admins}
use hi_mqtt.Acl.Service.{
  default_cost, AclService, Bcrypt, on_pool, draw_hash, seed_admin, ensure_seed_data,
}

module _ (link : Link) (bcrypt : Bcrypt) where
  -- Seeding touches no table but that of the administrators, whatever the link does.
  pub tables-ensure_seed_data :
      (password : Text) (s : AclService)
      → ((ensure_seed_data link bcrypt password s).1.cache ≡ s.cache)
        × ((ensure_seed_data link bcrypt password s).1.database.tables.users
            ≡ s.database.tables.users)
        × ((ensure_seed_data link bcrypt password s).1.database.tables.categories
            ≡ s.database.tables.categories)
        × ((ensure_seed_data link bcrypt password s).1.database.tables.topics
            ≡ s.database.tables.topics)
        × ((ensure_seed_data link bcrypt password s).1.database.tables.acls
            ≡ s.database.tables.acls)
  unfolding ensure_seed_data seed_admin on_pool draw_hash count_admins create_admin_user run deliver
      count_rows insert_admin
  tables-ensure_seed_data password s =
      (ground arith, ground arith, ground arith, ground arith, ground arith)

  insert_admin-one :
      (username password_hash : Text) (now : ℕ) (t : Tables)
      → (insert_admin username password_hash now t).0 ≡ ok tt
      → 1 ≤ length (insert_admin username password_hash now t).1.admin_users
  unfolding insert_admin
  insert_admin-one username password_hash now t h = ground (
    arith,
    length-append t.admin_users (
        record {
          id = suc t.admin_seq;
          username = username;
          password_hash = password_hash;
          created_at = now;
        }
        ∷ []),
  )

  seed_admin-one :
      (password : Text) (n : ℕ) (s : AclService)
      → n ≡ length s.database.tables.admin_users
      → (seed_admin link bcrypt password n s).0 ≡ ok tt
      → 1 ≤ length (seed_admin link bcrypt password n s).1.database.tables.admin_users
  unfolding seed_admin on_pool create_admin_user
  seed_admin-one password (suc n) s e h = omega arith
  seed_admin-one password zero s e h =
      let draw =
        draw_hash link bcrypt (because (codes "hash admin 密码失败") Cause.hash_failed) password
          default_cost in
      let (hash, drawn, same, sent) =
        bind-ok draw (λ hash. on_pool (create_admin_user link (codes "admin") hash)) s tt h in
      let insert = insert_admin (codes "admin") hash in
      let d = (draw s).1.database in
      let (answered, tables) = run-ok link (codes "创建 admin 用户失败") insert d tt sent in
      let one = insert_admin-one (codes "admin") hash (link.now d.statements) d.tables answered in
      rw (same, tables) one

  -- After a seeding that succeeded there is an account for the administration.
  pub ensure_seed_data-one :
      (password : Text) (s : AclService)
      → (ensure_seed_data link bcrypt password s).0 ≡ ok tt
      → 1 ≤ length (ensure_seed_data link bcrypt password s).1.database.tables.admin_users
  unfolding ensure_seed_data on_pool count_admins count_rows
  ensure_seed_data-one password s h =
      let count = on_pool (count_admins link) in
      let (n, counted, same, seeded) = bind-ok count (seed_admin link bcrypt password) s tt h in
      let (answered, tables) =
        run-ok link (codes "查询 admin_users 失败") count_rows s.database n counted in
      rw same (seed_admin-one password n (count s).1 (rw tables (ground (arith, answered))) seeded)

  -- What the insert of an account keeps, the seeding keeps.
  module _ {P : Tables → Type 0} (inv : IsInvariant P) where
    abbrev InService : AclService → Type 0
    InService s = P s.database.tables

    on_pool-Keeps : {A : Type 0} (m : Db A) → Keeps (InDatabase P) m → Keeps InService (on_pool m)
    unfolding on_pool
    on_pool-Keeps m k = record { at = λ s h. k.at s.database h }

    draw_hash-Keeps :
        (e : DbError) (password : Text) (cost : ℕ)
        → Keeps InService (draw_hash link bcrypt e password cost)
    unfolding draw_hash
    draw_hash-Keeps e password cost = record { at = λ s h. ground (arith, h) }

    seed_admin-Keeps :
        (password : Text) (n : ℕ) → Keeps InService (seed_admin link bcrypt password n)
    unfolding seed_admin create_admin_user
    seed_admin-Keeps password (suc n) = search keeps_rules
    seed_admin-Keeps password zero =
        search (keeps_rules, draw_hash-Keeps, on_pool-Keeps, run-Keeps P, inv.insert_admin)

    pub ensure_seed_data-Keeps :
        (password : Text) → Keeps InService (ensure_seed_data link bcrypt password)
    unfolding ensure_seed_data count_admins count_rows
    ensure_seed_data-Keeps password =
        search (keeps_rules, on_pool-Keeps, reads-Keeps P, seed_admin-Keeps)
