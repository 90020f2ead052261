-- ===== src/Domain/Users/Registry.antt =====
-- `BatchCreateUsers` leaves every name that it was given with a row.
use estrys.Common.{
  String, Option, none, some, List, [], ◌∷◌, All, to_lower, ◌≡◌, refl, sym, subst, ap, ◌∙◌, arith,
}
use estrys.Outcome.{Result, ok, err, pure, fail, match_call}
use estrys.Outcome.Inversion.{bind_done, wrapping_ok}
use estrys.Outcome.Keeps.{
  Keeps, Keeps-pure, Keeps-fail, Keeps-lift, Keeps-wrapping, Keeps-if, Keeps-match_call, Keeps-bind,
}
use estrys.Models.{User, UserObj}
use estrys.Ports.{Library, TwitterClient, UserRepository, KeyManager}
use estrys.Domain.Users.{
  create_user_from_twitter, find_user, profile_of, create_if_missing, batch_create_users,
}
use estrys.Domain.Users.Laws.{Has, IsRegistry}

module _ {W : Type 0} (library : Library) (repo : UserRepository W) (keys : KeyManager W)
    (twitter : TwitterClient W) (registry : IsRegistry repo keys twitter) where
  module _ (name : String) where
    get-Keeps : (other : String) → Keeps (Has repo name) (repo.get other)
    get-Keeps other = record {
      at = λ w h. subst (Has repo name) (sym (registry.store.get_reads other w)) h;
    }

    create-Keeps :
        (obj : UserObj)
        → Keeps (Has repo name) (create_user_from_twitter library repo keys twitter obj)
    unfolding create_user_from_twitter
    create-Keeps obj = Keeps-bind _ _ (Keeps-wrapping _ _ (registry.generate_keeps name)) λ key.
        Keeps-bind _ _ (Keeps-wrapping _ _ (Keeps-lift _))
          λ created. Keeps-wrapping _ _ (registry.store.create_keeps _ name)

    profile_of-Keeps :
        (other : String) → Keeps (Has repo name) (profile_of library repo keys twitter other)
    unfolding profile_of
    profile_of-Keeps other =
        Keeps-match_call _ _ _ (registry.get_user_keeps name other) Keeps-pure
          (λ e. Keeps-if _ _ _ (Keeps-fail _) (Keeps-fail _))

    find_user-Keeps :
        (other : String) → Keeps (Has repo name) (find_user library repo keys twitter other)
    unfolding find_user
    find_user-Keeps other =
        Keeps-match_call _ _ _ (get-Keeps other) (λ user. Keeps-pure _)
          (λ e. Keeps-if _ _ _ (Keeps-pure _) (Keeps-fail _))

    create_if_missing-Keeps :
        (user : Option User) (obj : UserObj)
        → Keeps (Has repo name) (create_if_missing library repo keys twitter user obj)
    unfolding create_if_missing
    create_if_missing-Keeps none obj = Keeps-bind _ _ (create-Keeps obj) (λ _. Keeps-pure tt)
    create_if_missing-Keeps (some user) obj = Keeps-pure tt

    batch-Keeps :
        (names : List String)
        → Keeps (Has repo name) (batch_create_users library repo keys twitter names)
    unfolding batch_create_users
    batch-Keeps [] = Keeps-pure tt
    batch-Keeps (other ∷ names) =
        let rest = batch-Keeps names in
        Keeps-bind _ _ (find_user-Keeps other) λ user.
          Keeps-bind _ _ (profile_of-Keeps other)
            λ obj. Keeps-bind _ _ (create_if_missing-Keeps user obj) (λ _. rest)

  create_user_from_twitter-Has :
      (name : String) (obj : UserObj) (user : User) (w u : W)
      → to_lower obj.user_name ≡ to_lower name
      → create_user_from_twitter library repo keys twitter obj w ≡ (ok user, u)
      → Has repo name u
  unfolding create_user_from_twitter
  create_user_from_twitter-Has name obj user w u named h =
      let (key, v, _, rest) = bind_done _ _ w h in
      let (created, x, _, last) = bind_done _ _ v rest in
      registry.store.create_has _ name user x u (wrapping_ok _ _ x last) named

  find_user-some :
      (name : String) (user : User) (w u : W)
      → find_user library repo keys twitter name w ≡ (ok (some user), u)
      → Has repo name u
  unfolding find_user match_call pure fail
  find_user-some name user w u h = go (repo.get name w).0 (repo.get name w).1 refl
    where
      go : (r : Result User) (v : W) → repo.get name w ≡ (r, v) → Has repo name u
      go (ok found) v e =
          let run : ◌≡◌ {A = Result (Option User) × W} (ok (some found), v) (ok (some user), u) =
            rw e at h in
          let stays : v ≡ w = rw e at (registry.store.get_reads name w) in
          let end : v ≡ u = ap (λ r. r.1) run in
          subst (Has repo name) end (found, rw stays (e ∙ ap (λ x. (ok found, x)) stays))
      go (err why) v e = let no : ⊥ = ground (arith, rw e at h) in absurd no
      go (Result.panic why) v e = cc (rw e at h)

  profile_of_named :
      (name : String) (obj : UserObj) (w u : W)
      → profile_of library repo keys twitter name w ≡ (ok obj, u)
      → twitter.get_user name w ≡ (ok obj, u)
  unfolding profile_of match_call pure fail
  profile_of_named name obj w u h = ground arith

  -- One round of `BatchCreateUsers` leaves its name with a row.
  round-Has :
      (name : String) (user : Option User) (obj : UserObj) (w v x u : W)
      → find_user library repo keys twitter name w ≡ (ok user, v)
      → profile_of library repo keys twitter name v ≡ (ok obj, x)
      → create_if_missing library repo keys twitter user obj x ≡ (ok tt, u)
      → Has repo name u
  unfolding create_if_missing pure
  round-Has name (some user) obj w v x u found profile made =
      let has = (profile_of-Keeps name name).at v (find_user-some name user w v found) in
      let before : Has repo name x =
        subst (λ (r : Result UserObj × W). Has repo name r.1) profile has in
      subst (Has repo name) (ap (λ r. r.1) made) before
  round-Has name none obj w v x u found profile made =
      let (created, y, first, last) = bind_done _ _ x made in
      let named = registry.get_user_named name obj v x (profile_of_named name obj v x profile) in
      subst (Has repo name) (ap (λ r. r.1) last)
        (create_user_from_twitter-Has name obj created x y named first)

  -- Where a row that is created is found under its name, nothing removes a user, looking one up
  -- changes nothing, and Twitter answers for the name that was asked, a user is found after a
  -- batch that succeeds under every name that was asked for.
  pub batch_create_users-Has :
      (names : List String) (w u : W)
      → batch_create_users library repo keys twitter names w ≡ (ok tt, u)
      → All (λ name. Has repo name u) names
  unfolding batch_create_users
  batch_create_users-Has [] w u h = tt
  batch_create_users-Has (name ∷ names) w u h =
      let (user, v, found, rest1) = bind_done _ _ w h in
      let (obj, x, profile, rest2) = bind_done _ _ v rest1 in
      let (_, y, made, rest3) = bind_done _ _ x rest2 in
      let here = round-Has name user obj w v x y found profile made in
      (
        subst (λ (r : Result (Unit {0}) × W). Has repo name r.1) rest3
            ((batch-Keeps name names).at y here),
        batch_create_users-Has names y u rest3,
      )
