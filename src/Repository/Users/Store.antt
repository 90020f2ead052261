-- ===== src/Repository/Users/Store.antt =====
-- The repository of users keeps its users.
use estrys.Common.{
  String, Bool-cases, true, false, Option, none, some, to_lower, ◌≡◌, ◌⊎◌, refl, sym, ap, subst,
  ◌∙◌, inl, inr,
}
use estrys.Outcome.{Error, ok, err, pure, fail, wrapping, match_call, ◌>>=◌}
use estrys.Outcome.Errors.{is_no_rows}
use estrys.Outcome.Inversion.{
  run_cases, bind_run_ok, bind_done, pure_ok, wrapping_ok, match_call_ok, match_call_err,
}
use estrys.Outcome.Keeps.{Keeps}
use estrys.Models.{User}
use estrys.Ports.{Library, Database, CreateUserRequest}
use estrys.Repository.Users.{
  lower_username, new_user, create_user, get_by_id, or_by_username, get, new_user_repository,
}
use estrys.Repository.Users.Laws.{get-create_user, created_row}
use estrys.Domain.Users.Laws.{Has, IsUserStore}

module _ {W : Type 0} (db : Database W) where
  -- A row is found by its id, or by its name.
  abbrev pub HasId : String → W → Type 0
  HasId id w = (row : User) × (db.user_by_id id w ≡ (ok row, w))

  abbrev pub HasName : String → W → Type 0
  HasName name w = (row : User) × (db.user_by_username name w ≡ (ok row, w))

  -- What the table of users gives: looking up changes nothing, an id is found or unknown, a row that was
  -- inserted is found under its name, and inserting one removes none.
  pub record IsUserTable : Type 0 where
    pub by_id_answers :
        (id : String) (w : W)
        → HasId id w ⊎ ((e : Error) × (db.user_by_id id w ≡ (err e, w)) × (is_no_rows e ≡ true))
    pub by_username_reads : (name : String) (w : W) → (db.user_by_username name w).1 ≡ w
    pub insert_found :
        (row : User) (w u : W)
        → db.insert_user row w ≡ (ok tt, u)
        → db.user_by_username row.username u ≡ (ok row, u)
    pub insert_keeps_id : (row : User) (id : String) → Keeps (HasId id) (db.insert_user row)
    pub insert_keeps_name : (row : User) (name : String) → Keeps (HasName name) (db.insert_user row)

  module _ (library : Library) (table : IsUserTable) where
    -- A row is found under a name, which may be an id.
    Found : String → W → Type 0
    Found name w = ((library.parse_int name ≡ true) × HasId name w) ⊎ HasName name w

    -- The lookup by id ends without an error, and changes nothing.
    get_by_id_lem :
        (id : String) (w : W)
        → ((row : User) × (get_by_id library db id w ≡ (ok (some row), w))
            × (library.parse_int id ≡ true)
            × HasId id w)
          ⊎ (get_by_id library db id w ≡ (ok none, w))
    unfolding get_by_id pure fail
    get_by_id_lem id w = elim (Bool-cases (library.parse_int id)) [
      | inr word ↦ inr (rw word refl)
      | inl number ↦ elim (table.by_id_answers id w) [
        | inl (row, e) ↦ inl (row, rw number (match_call_ok _ _ _ w e), number, (row, e))
        | inr (why, e, unknown) ↦ inr (rw number (match_call_err _ _ _ w e ∙ rw unknown refl))
      ]
    ]

    get_run :
        (name : String) (o : Option User) (w : W)
        → get_by_id library db (to_lower name) w ≡ (ok o, w)
        → get library db name w
          ≡ (or_by_username library db (to_lower name) o >>= λ user. pure (lower_username user)) w
    unfolding get
    get_run name o w e = bind_run_ok _ _ w e

    get_found :
        (name : String) (row : User) (w : W)
        → get_by_id library db (to_lower name) w ≡ (ok (some row), w)
        → get library db name w ≡ (ok (lower_username row), w)
    unfolding or_by_username pure ◌>>=◌ match_call
    get_found name row w e = get_run name (some row) w e

    get_unknown :
        (name : String) (w : W)
        → get_by_id library db (to_lower name) w ≡ (ok none, w)
        → get library db name w
          ≡ (wrapping "unable to fetch user from database" (db.user_by_username (to_lower name))
                >>= λ user. pure (lower_username user))
              w
    unfolding or_by_username
    get_unknown name w e = get_run name none w e

    by_username_run :
        (name : String) (w : W)
        → ((wrapping "unable to fetch user from database" (db.user_by_username name) >>= λ user.
              pure (lower_username user))
            w).1
          ≡ w
    unfolding wrapping pure ◌>>=◌ match_call fail
    by_username_run name w = elim (run_cases (db.user_by_username name) w) [
      | inl (row, u, e) ↦ rw e (stays u (ap (λ p. p.1) e))
      | inr (inl (why, u, e)) ↦ rw e (stays u (ap (λ p. p.1) e))
      | inr (inr (why, u, e)) ↦ rw e (stays u (ap (λ p. p.1) e))
    ]
      where
        stays : (u : W) → (db.user_by_username name w).1 ≡ u → u ≡ w
        stays u e = sym e ∙ table.by_username_reads name w

    get_reads : (name : String) (w : W) → (get library db name w).1 ≡ w
    get_reads name w = elim (get_by_id_lem (to_lower name) w) [
      | inl (row, e, _, _) ↦ ap (λ p. p.1) (get_found name row w e)
      | inr e ↦ ap (λ p. p.1) (get_unknown name w e) ∙ by_username_run (to_lower name) w
    ]

    get_by_id_found :
        (id : String) (row : User) (w : W)
        → library.parse_int id ≡ true
        → db.user_by_id id w ≡ (ok row, w)
        → get_by_id library db id w ≡ (ok (some row), w)
    unfolding get_by_id pure
    get_by_id_found id row w number e = rw number (match_call_ok _ _ _ w e)

    by_username_found :
        (name : String) (row : User) (w : W)
        → db.user_by_username name w ≡ (ok row, w)
        → (wrapping "unable to fetch user from database" (db.user_by_username name) >>= λ user.
              pure (lower_username user))
            w
          ≡ (ok (lower_username row), w)
    unfolding wrapping pure ◌>>=◌ match_call
    by_username_found name row w e = rw e refl

    -- A user is found exactly when a row is.
    Has-of_Found :
        (name : String) (w : W)
        → Found (to_lower name) w
        → Has (new_user_repository library db) name w
    unfolding Found new_user_repository
    Has-of_Found name w (inl (number, (row, found))) = (
      lower_username row,
      get_found name row w (get_by_id_found (to_lower name) row w number found),
    )
    Has-of_Found name w (inr (row, found)) = elim (get_by_id_lem (to_lower name) w) [
      | inl (row', e, _, _) ↦ (lower_username row', get_found name row' w e)
      | inr e ↦
          (lower_username row, get_unknown name w e ∙ by_username_found (to_lower name) row w found)
    ]

    Found-of_Has :
        (name : String) (w : W)
        → Has (new_user_repository library db) name w
        → Found (to_lower name) w
    unfolding Found new_user_repository
    Found-of_Has name w (user, h) = elim (get_by_id_lem (to_lower name) w) [
      | inl (row, e, number, found) ↦ inl (number, found)
      | inr e ↦
          let (row, u, first, rest) = bind_done _ _ w (sym (get_unknown name w e) ∙ h) in
          let read = wrapping_ok _ _ w first in
          inr (
            row,
            read ∙ ap (λ v. (ok row, v)) (sym (ap (λ p. p.1) read) ∙ table.by_username_reads _ w),
          )
    ]

    create_user_inserts :
        (request : CreateUserRequest) (w : W)
        → (create_user library db request w).1 ≡ (db.insert_user (new_user library request) w).1
    unfolding create_user wrapping pure fail ◌>>=◌ match_call
    create_user_inserts request w = elim (run_cases (db.insert_user (new_user library request)) w) [
      | inl (done, u, e) ↦ rw e refl
      | inr (inl (why, u, e)) ↦ rw e refl
      | inr (inr (why, u, e)) ↦ rw e refl
    ]

    insert-Found :
        (row : User) (name : String) (w : W) → Found name w → Found name (db.insert_user row w).1
    unfolding Found
    insert-Found row name w (inl (number, found)) =
        inl (number, (table.insert_keeps_id row name).at w found)
    insert-Found row name w (inr found) = inr ((table.insert_keeps_name row name).at w found)

    create_user-Has :
        (request : CreateUserRequest) (name : String) (user : User) (w u : W)
        → create_user library db request w ≡ (ok user, u)
        → to_lower request.username ≡ to_lower name
        → Has (new_user_repository library db) name u
    unfolding create_user Found
    create_user-Has request name user w u h same =
        let (_, v, first, rest) = bind_done _ _ w h in
        let inserted = table.insert_found _ w v (wrapping_ok _ _ w first) in
        let row = new_user library request in
        let found : HasName (to_lower name) v =
          (row, subst (λ n. db.user_by_username n v ≡ (ok row, v)) same inserted) in
        subst (Has (new_user_repository library db) name) (pure_ok row user v rest).1
          (Has-of_Found name v (inr found))

    repository-IsUserStore : IsUserStore (new_user_repository library db)
    unfolding new_user_repository
    repository-IsUserStore = record {
      get_reads = get_reads;
      create_has = create_user-Has;
      create_keeps = λ request name. record {
        at = λ w h.
            subst (Has (new_user_repository library db) name) (sym (create_user_inserts request w))
              (Has-of_Found name _ (insert-Found _ (to_lower name) w (Found-of_Has name w h)));
      };
    }

    -- A repository that keeps its users, and finds the very user that was created, with the name, the
    -- id, the key and the time of the request, under its name in any case, unless the name is a number
    pub record IsExactStore : Type 0 where
      pub store : IsUserStore (new_user_repository library db)
      pub created_is_row :
          (request : CreateUserRequest) (user : User) (w u : W)
          → (new_user_repository library db).create_user request w ≡ (ok user, u)
          → user ≡ new_user library request
      pub created_is_found :
          (request : CreateUserRequest) (name : String) (user : User) (w u : W)
          → library.parse_int (to_lower name) ≡ false
          → to_lower name ≡ to_lower request.username
          → (new_user_repository library db).create_user request w ≡ (ok user, u)
          → (new_user_repository library db).get name u ≡ (ok user, u)

    -- Over a table of users that keeps its rows, finds a row that was inserted under its name, and answers
    -- every lookup by id, the repository of users keeps its users: looking up changes nothing, a user that
    -- was created has the name, in lower case, the id, the key and the time of the request, some user is
    -- found under its name in any case, and that very user unless the name is a number, and creating a user
    -- leaves no name without one that had one.
    pub new_user_repository-IsExactStore : IsExactStore
    unfolding new_user_repository
    new_user_repository-IsExactStore = record {
      store = repository-IsUserStore;
      created_is_row = λ request user w u h. sym (created_row library db request user w u h);
      created_is_found = λ request name user w u word same h.
          get-create_user library db request name user w u
            (λ row before after inserted. table.insert_found row before after inserted) word same h;
    }
