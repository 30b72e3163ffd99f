-- ===== src/Db/Query/Laws.antt =====
-- What a statement may leave behind, whatever the link to the server does.
use hi_mqtt.Prelude.{◌≡◌, refl, Text, arith}
use hi_mqtt.Prelude.Exec.{Result, ok, err}
use hi_mqtt.Db.Schema.{Tables}
use hi_mqtt.Db.Query.{
  Cause, Delivery, answered, refused, lost, Link, Database, Statement, deliver, run,
}

module _ {A : Type 0} where
  deliver-ok :
      (d : Delivery) (context : Text) (r : Result Cause A) (after : Tables) (s : Database) (a : A)
      → (deliver d context (r, after) s).0 ≡ ok a
      → (r ≡ ok a) × ((deliver d context (r, after) s).1.tables ≡ after)
  unfolding deliver
  deliver-ok answered context (ok b) after s a h = (ground arith, refl)
  deliver-ok answered context (err e) after s a h = cc
  deliver-ok refused context r after s a h = cc
  deliver-ok lost context r after s a h = cc

  deliver-tables :
      (P : Tables → Type 0) (d : Delivery) (context : Text) (r : Result Cause A) (after : Tables)
      (s : Database)
      → P s.tables
      → P after
      → P (deliver d context (r, after) s).1.tables
  unfolding deliver
  deliver-tables P answered context r after s h k = k
  deliver-tables P refused context r after s h k = h
  deliver-tables P lost context r after s h k = k

  module _ (link : Link) (context : Text) (statement : Statement A) (s : Database) where
    -- A success is the server's, and its tables are what the statement made of them.
    pub run-ok :
        (a : A)
        → (run link context statement s).0 ≡ ok a
        → ((statement (link.now s.statements) s.tables).0 ≡ ok a)
          × ((run link context statement s).1.tables
              ≡ (statement (link.now s.statements) s.tables).1)
    unfolding run
    run-ok a h =
        let (r, after) = statement (link.now s.statements) s.tables in
        deliver-ok (link.delivery s.statements) context r after s a h

    -- An invariant that the statement keeps is kept, whatever the link does.
    pub run-tables :
        (P : Tables → Type 0)
        → P s.tables
        → P (statement (link.now s.statements) s.tables).1
        → P (run link context statement s).1.tables
    unfolding run
    run-tables P h k =
        let (r, after) = statement (link.now s.statements) s.tables in
        deliver-tables P (link.delivery s.statements) context r after s h k
