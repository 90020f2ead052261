-- ===== src/Repository/Users/Laws.antt =====
-- Names are case insensitive in the repository of users.
use estrys.Common.{String, false, to_lower, to_lower_idem, ◌≡◌, ap, subst, ◌∙◌, arith}
use estrys.Outcome.{ok, pure, ◌>>=◌}
use estrys.Outcome.Inversion.{bind_ok}
use estrys.Models.{User}
use estrys.Ports.{Library, Database, CreateUserRequest}
use estrys.Repository.Users.{lower_username, new_user, create_user, get_by_id, or_by_username, get}

module _ {W : Type 0} (library : Library) (db : Database W) where
  -- A user is found under a name in any case, and with the same effects.
  pub get-to_lower : (name : String) → get library db (to_lower name) ≡ get library db name
  unfolding get
  get-to_lower name = rw to_lower_idem

  -- The name of a user that is returned is in lower case.
  pub username-get :
      (name : String) (user : User) (w : W)
      → (get library db name w).0 ≡ ok user
      → to_lower user.username ≡ user.username
  unfolding get pure lower_username
  username-get name user w h =
      let (by_id, u, _, first) = bind_ok _ _ w h in
      let (found, v, _, second) = bind_ok _ _ u (rw first at h) in
      let named : (pure {S = W} (lower_username found) v).0 ≡ ok user = rw (first ∙ second) at h in
      let same : lower_username found ≡ user = ground arith in
      subst (λ x. to_lower x.username ≡ x.username) same (to_lower_idem found.username)

  create_user_inserts :
      (request : CreateUserRequest) (created : User) (w u : W)
      → create_user library db request w ≡ (ok created, u)
      → (db.insert_user (new_user library request) w ≡ (ok tt, u))
        × (new_user library request ≡ created)
  unfolding create_user ◌>>=◌
  create_user_inserts request created w u h = ground arith

  -- The user that is given for a request is its row.
  pub created_row :
      (request : CreateUserRequest) (created : User) (w u : W)
      → create_user library db request w ≡ (ok created, u)
      → new_user library request ≡ created
  created_row request created w u h = (create_user_inserts request created w u h).1

  get_by_username :
      (name : String) (user : User) (u : W)
      → library.parse_int (to_lower name) ≡ false
      → db.user_by_username (to_lower name) u ≡ (ok user, u)
      → get library db name u ≡ (ok (lower_username user), u)
  unfolding get get_by_id or_by_username ◌>>=◌
  get_by_username name user u text h = ground arith

  -- Where the database finds a row that it has inserted by its name, a user that was created is
  -- found under its name in any case, unless the name is a number.
  pub get-create_user :
      (request : CreateUserRequest) (name : String) (created : User) (w u : W)
      → ((user : User) (before after : W)
          → db.insert_user user before ≡ (ok tt, after)
          → db.user_by_username user.username after ≡ (ok user, after))
      → library.parse_int (to_lower name) ≡ false
      → to_lower name ≡ to_lower request.username
      → create_user library db request w ≡ (ok created, u)
      → get library db name u ≡ (ok created, u)
  unfolding lower_username
  get-create_user request name created w u inserts text same h =
      let (inserted, is_row) = create_user_inserts request created w u h in
      let row = new_user library request in
      let found : db.user_by_username (to_lower name) u ≡ (ok row, u) =
        rw same (inserts row w u inserted) in
      let lower : lower_username row ≡ row =
        ap (λ x. record row { username = x }) (to_lower_idem request.username) in
      get_by_username name row u text found ∙ ap (λ x. (ok x, u)) (lower ∙ is_row)
