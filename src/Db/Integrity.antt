-- ===== src/Db/Integrity.antt =====
-- No two users have one name, whatever the statements of src/db/mod.rs do: what `UNIQUE` promises.
use hi_mqtt.Prelude.{
  ℕ, suc, ◌≡◌, refl, ◌∙◌, ◌&&◌, Bool, false, not, Option, some, List, [], ◌∷◌, ◌++◌, map, Text,
  text_eq_iff, any, any-append, select, update_where, arith, Bool-cases, inl, inr,
}
use hi_mqtt.Db.Schema.{StoredUser, Tables, has_category}
use hi_mqtt.Db.Users.{
  refers_to_category, named, numbered, new_user, insert_user, change_user, set_user, remove_user,
  note_login,
}
use hi_mqtt.Db.Categories.{leave_category, remove_category}

abbrev pub HasDistinctNames : List StoredUser → Type 0
HasDistinctNames [] = Unit
HasDistinctNames (u ∷ users) = (any (named u.username) users ≡ false) × HasDistinctNames users

-- A change of the rows that keeps their names.
module _ (f : StoredUser → StoredUser)
    (keeps : (u : StoredUser) → (f u).username ≡ u.username) where
  any-named-update_where :
      (name : Text) (p : StoredUser → Bool) (users : List StoredUser)
      → any (named name) (update_where p f users) ≡ any (named name) users
  unfolding update_where
  any-named-update_where name p [] = refl
  any-named-update_where name p (u ∷ users) =
      ground (arith, keeps u, any-named-update_where name p users)

  update_where-HasDistinctNames :
      (p : StoredUser → Bool) (users : List StoredUser)
      → HasDistinctNames users
      → HasDistinctNames (update_where p f users)
  unfolding update_where
  update_where-HasDistinctNames p [] h = tt
  update_where-HasDistinctNames p (u ∷ users) (h, k) = elim (Bool-cases (p u)) [
    | inl e ↦ rw e (
      rw (keeps u) (any-named-update_where u.username p users ∙ h),
      update_where-HasDistinctNames p users k,
    )
    | inr e ↦
        rw e
          (any-named-update_where u.username p users ∙ h, update_where-HasDistinctNames p users k)
  ]

any-named-select :
    (name : Text) (p : StoredUser → Bool) (users : List StoredUser)
    → any (named name) users ≡ false
    → any (named name) (select p users) ≡ false
unfolding select
any-named-select name p [] h = refl
any-named-select name p (u ∷ users) h = ground (arith, any-named-select name p users)

select-HasDistinctNames :
    (p : StoredUser → Bool) (users : List StoredUser)
    → HasDistinctNames users
    → HasDistinctNames (select p users)
unfolding select
select-HasDistinctNames p [] h = tt
select-HasDistinctNames p (u ∷ users) (h, k) = elim (Bool-cases (p u)) [
  | inl e ↦ rw e (any-named-select u.username p users h, select-HasDistinctNames p users k)
  | inr e ↦ rw e (select-HasDistinctNames p users k)
]

append-HasDistinctNames :
    (row : StoredUser) (users : List StoredUser)
    → any (named row.username) users ≡ false
    → HasDistinctNames users
    → HasDistinctNames (users ++ row ∷ [])
append-HasDistinctNames row [] h k = (refl, tt)
append-HasDistinctNames row (u ∷ users) h (k, l) = (
  any-append (named u.username) users (row ∷ [])
      ∙ ground
          (arith, k, text_eq_iff row.username u.username, text_eq_iff u.username row.username, h),
  append-HasDistinctNames row users (ground (arith, h)) l,
)

leave-HasDistinctNames :
    (id : ℕ) (users : List StoredUser)
    → HasDistinctNames users
    → HasDistinctNames (map (leave_category id) users)
leave-HasDistinctNames id [] h = tt
leave-HasDistinctNames id (u ∷ users) (h, k) =
    (any-named-leave u.username users ∙ h, leave-HasDistinctNames id users k)
  where
    any-named-leave :
        (name : Text) (us : List StoredUser)
        → any (named name) (map (leave_category id) us) ≡ any (named name) us
    any-named-leave name [] = refl
    any-named-leave name (v ∷ us) = ground (arith, any-named-leave name us)

-- The statements that write to the table of the users.
pub data UserWrite : Type 0 where
  insert : (username password_hash : Text) (enabled : Bool) (category_id : Option ℕ) → UserWrite
  update :
      (id : ℕ) (password_hash : Option Text) (enabled : Bool) (category_id : Option (Option ℕ))
      → UserWrite
  remove : (id : ℕ) → UserWrite
  login : (username ip : Text) → UserWrite
  category_removal : (id : ℕ) → UserWrite

-- Each at the server's time.
unfoldable pub write : UserWrite → ℕ → Tables → Tables
unfolding insert_user set_user remove_user note_login remove_category
write (insert username password_hash enabled category_id) now t =
    (insert_user username password_hash enabled category_id now t).1
write (update id password_hash enabled category_id) now t =
    (set_user id password_hash enabled category_id now t).1
write (remove id) now t = (remove_user id now t).1
write (login username ip) now t = (note_login username ip now t).1
write (category_removal id) now t = (remove_category id now t).1

unfoldable pub replay : List (ℕ × UserWrite) → Tables → Tables
unfolding write
replay [] t = t
replay ((now, w) ∷ writes) t = replay writes (write w now t)

username-change_user :
    (hash : Option Text) (enabled : Bool) (category : Option (Option ℕ)) (now : ℕ) (u : StoredUser)
    → (change_user hash enabled category now u).username ≡ u.username
unfolding change_user
username-change_user hash enabled category now u = ground arith

insert_user-HasDistinctNames :
    (username password_hash : Text) (enabled : Bool) (category_id : Option ℕ) (now : ℕ) (t : Tables)
    → HasDistinctNames t.users
    → HasDistinctNames (insert_user username password_hash enabled category_id now t).1.users
unfolding insert_user
insert_user-HasDistinctNames username password_hash enabled category_id now t h =
    let row = new_user (suc t.user_seq) username password_hash enabled category_id now in
    elim (Bool-cases (any (named username) t.users)) [
      | inl taken ↦ rw taken h
      | inr free ↦ elim (Bool-cases (has_category t.categories category_id)) [
        | inl there ↦ rw (free, there) (append-HasDistinctNames row t.users free h)
        | inr missing ↦ rw (free, missing) h
      ]
    ]

set_user-HasDistinctNames :
    (id : ℕ) (hash : Option Text) (enabled : Bool) (category : Option (Option ℕ)) (now : ℕ)
    (t : Tables)
    → HasDistinctNames t.users
    → HasDistinctNames (set_user id hash enabled category now t).1.users
unfolding set_user
set_user-HasDistinctNames id hash enabled category now t h =
    let change = change_user hash enabled category now in
    let changed =
      update_where-HasDistinctNames change (username-change_user hash enabled category now)
        (numbered id) t.users h in
    elim (Bool-cases
      (any (numbered id) t.users && not (refers_to_category t.categories category))) [
        | inl refused ↦ rw refused h
        | inr fine ↦ rw fine changed
      ]

write-HasDistinctNames :
    (w : UserWrite) (now : ℕ) (t : Tables)
    → HasDistinctNames t.users
    → HasDistinctNames (write w now t).users
unfolding write remove_user note_login remove_category
write-HasDistinctNames (insert username password_hash enabled category_id) now t h =
    insert_user-HasDistinctNames username password_hash enabled category_id now t h
write-HasDistinctNames (update id hash enabled category) now t h =
    set_user-HasDistinctNames id hash enabled category now t h
write-HasDistinctNames (remove id) now t h =
    select-HasDistinctNames (λ u. not (numbered id u)) t.users h
write-HasDistinctNames (login username ip) now t h =
    update_where-HasDistinctNames
      (λ u. record u { last_login_at = some now; last_login_ip = some ip; updated_at = now })
      (λ u. refl) (named username) t.users h
write-HasDistinctNames (category_removal id) now t h = leave-HasDistinctNames id t.users h

-- Whatever statements reach the table of the users, in whatever order, no two users ever have one
-- name, if none had at first.
pub replay-HasDistinctNames :
    (writes : List (ℕ × UserWrite)) (t : Tables)
    → HasDistinctNames t.users
    → HasDistinctNames (replay writes t).users
unfolding replay
replay-HasDistinctNames [] t h = h
replay-HasDistinctNames ((now, w) ∷ writes) t h =
    replay-HasDistinctNames writes (write w now t) (write-HasDistinctNames w now t h)
