-- ===== src/Users/Table.antt =====
-- The names and the ids in the table of users.
use wtsl_app.Base.{
  ℕ, ◌+◌, ◌<◌, Bool, true, false, Option, none, some, List, [], ◌∷◌, ◌++◌, ◌≡◌, ◌≢◌, refl, ◌∙◌, sym,
  arith, if◌then◌else◌, ◌==◌, ◌||◌, length, Text, text_eq, text_eq_refl, Bool-cases, inl, inr,
}
use wtsl_app.Users.{
  User, UserDb, find_user, is_row, db_user_exists, db_register, update_rows, set_token,
  set_password, db_update_user_token, db_change_password,
}

-- No row has the name.
abbrev pub Unnamed : Text → List User → Type 0
Unnamed name [] = Unit
Unnamed name (u ∷ rows) = (u.username ≢ name) × Unnamed name rows

-- Names and ids are used once, and all ids are below the next one.
abbrev pub HasNoId : ℕ → List User → Type 0
HasNoId i [] = Unit
HasNoId i (u ∷ rows) = (u.id ≢ i) × HasNoId i rows

unfoldable pub IsRows : ℕ → List User → Type 0
IsRows next [] = Unit
IsRows next (u ∷ rows) =
    Unnamed u.username rows × HasNoId u.id rows × (u.id < next) × IsRows next rows

true_is_not : true ≢ false
true_is_not e = cc

same_text : (s t : Text) → s ≡ t → text_eq s t ≡ true
same_text s t e = rw e (text_eq_refl t)

less_differs : (a b : ℕ) → a < b → b ≢ a
less_differs a b lt = ground arith

found_row :
    (name : Text) (rows : List User) → is_row (find_user rows name) ≡ false → Unnamed name rows
unfolding find_user
found_row name [] e = tt
found_row name (u ∷ rows) e = elim (Bool-cases (text_eq u.username name)) [
  | inl is ↦ absurd (true_is_not (rw is at e))
  | inr is ↦
      (λ k. true_is_not (sym (same_text u.username name k) ∙ is), found_row name rows (rw is at e))
]

Unnamed-append :
    (name : Text) (rows : List User) (v : User)
    → Unnamed name rows
    → v.username ≢ name
    → Unnamed name (rows ++ v ∷ [])
Unnamed-append name [] v h ne = (ne, tt)
Unnamed-append name (u ∷ rows) v (k, h) ne = (k, Unnamed-append name rows v h ne)

HasNoId-append :
    (i : ℕ) (rows : List User) (v : User) → HasNoId i rows → v.id ≢ i → HasNoId i (rows ++ v ∷ [])
HasNoId-append i [] v h ne = (ne, tt)
HasNoId-append i (u ∷ rows) v (k, h) ne = (k, HasNoId-append i rows v h ne)

append-IsRows :
    (next : ℕ) (rows : List User) (v : User)
    → IsRows next rows
    → Unnamed v.username rows
    → v.id ≡ next
    → IsRows (next + 1) (rows ++ v ∷ [])
unfolding IsRows
append-IsRows next [] v h k e = (tt, tt, omega (arith, e), tt)
append-IsRows next (u ∷ rows) v (names, ids, lt, h) (ne, k) e = (
  Unnamed-append u.username rows v names (λ x. ne (sym x)),
  HasNoId-append u.id rows v ids (λ x. less_differs u.id next lt (sym e ∙ x)),
  omega arith,
  append-IsRows next rows v h k e,
)

-- A change that keeps the name and the id.
Keeps : (User → User) → Type 0
Keeps f = (u : User) → ((f u).username ≡ u.username) × ((f u).id ≡ u.id)

either-Keeps :
    (f : User → User) (b : Bool) (u : User)
    → Keeps f
    → ((if b then f u else u).username ≡ u.username) × ((if b then f u else u).id ≡ u.id)
unfolding Keeps
either-Keeps f true u k = k u
either-Keeps f false u k = (refl, refl)

Unnamed-update :
    (f : User → User) (name x : Text) (rows : List User)
    → Keeps f
    → Unnamed x rows
    → Unnamed x (update_rows f name rows)
unfolding update_rows
Unnamed-update f name x [] k h = tt
Unnamed-update f name x (u ∷ rows) k (ne, h) = (
  λ e. ne (sym (either-Keeps f (text_eq u.username name) u k).0 ∙ e),
  Unnamed-update f name x rows k h,
)

HasNoId-update :
    (f : User → User) (name : Text) (i : ℕ) (rows : List User)
    → Keeps f
    → HasNoId i rows
    → HasNoId i (update_rows f name rows)
unfolding update_rows
HasNoId-update f name i [] k h = tt
HasNoId-update f name i (u ∷ rows) k (ne, h) = (
  λ e. ne (sym (either-Keeps f (text_eq u.username name) u k).1 ∙ e),
  HasNoId-update f name i rows k h,
)

update-IsRows :
    (f : User → User) (name : Text) (next : ℕ) (rows : List User)
    → Keeps f
    → IsRows next rows
    → IsRows next (update_rows f name rows)
unfolding IsRows update_rows
update-IsRows f name next [] k h = tt
update-IsRows f name next (u ∷ rows) k (names, ids, lt, h) =
    let (same_name, same_id) = either-Keeps f (text_eq u.username name) u k in
    (
      rw same_name (Unnamed-update f name u.username rows k names),
      rw same_id (HasNoId-update f name u.id rows k ids),
      rw same_id lt,
      update-IsRows f name next rows k h,
    )

unfoldable pub IsDb : UserDb → Type 0
unfolding IsRows
IsDb db = IsRows db.next_id db.rows

either-IsDb : (b : Bool) (x y : UserDb) → IsDb x → IsDb y → IsDb (if b then x else y)
either-IsDb true x y hx hy = hx
either-IsDb false x y hx hy = hy

pub register-IsDb :
    (takes : Bool) (db : UserDb) (user : Text) (gid : ℕ) (pwd : Text)
    → IsDb db
    → db_user_exists db user ≡ false
    → IsDb (db_register takes db user gid pwd)
unfolding IsDb db_user_exists db_register
register-IsDb takes db user gid pwd h e =
    let row : User = record {
      id = db.next_id;
      username = user;
      password = pwd;
      gid = gid;
      token = none;
      expire = 1699999999;
    } in
    let larger : UserDb = record { rows = db.rows ++ row ∷ []; next_id = db.next_id + 1 } in
    either-IsDb ((length user == 0) || (length pwd == 0)) db (if takes then larger else db) h (
      either-IsDb takes larger db
        (append-IsRows db.next_id db.rows row h (found_row user db.rows e) refl) h)

pub token-IsDb :
    (takes : Bool) (db : UserDb) (user token : Text)
    → IsDb db
    → IsDb (db_update_user_token takes db user token)
unfolding IsDb db_update_user_token Keeps
token-IsDb true db user token h =
    update-IsRows (set_token token) user db.next_id db.rows (λ u. (refl, refl)) h
token-IsDb false db user token h = h

pub password-IsDb :
    (takes : Bool) (db : UserDb) (user : Text) (pwd : Option Text)
    → IsDb db
    → IsDb (db_change_password takes db user pwd)
unfolding IsDb db_change_password Keeps
password-IsDb takes db user none h = h
password-IsDb true db user (some pwd) h =
    update-IsRows (set_password pwd) user db.next_id db.rows (λ u. (refl, refl)) h
password-IsDb false db user (some pwd) h = h
