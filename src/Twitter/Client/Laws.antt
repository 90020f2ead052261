-- ===== src/Twitter/Client/Laws.antt =====
-- What the Twitter client does for its callers.
use estrys.Common.{
  String, str_eq, eq_iff, ◌≡◌, refl, ap, ap₂, ◌↔◌, ◌⊎◌, inl, inr, true, Bool-cases, List, [], ◌∷◌,
  Any, arith, eq_refl, ◌∙◌,
}
use estrys.Outcome.{Error, ok, err, panic, user_not_found, match_call, pure, fail, ◌>>=◌}
use estrys.Outcome.Inversion.{bind_ok, run_cases, match_call_ok, match_call_err, match_call_panic}
use estrys.Models.{UserObj, UserLookup}
use estrys.Ports.{Cache, Backend}
use estrys.Cache.Laws.{IsLawful}
use estrys.Twitter.Client.{
  error_type_not_found, get_uncached, remember, any_not_found, checked_user, cache_key_username,
  cache_key_id, ignoring, fetch_user, get_user,
}

any_not_found_iff :
    (errors : List String)
    → (any_not_found errors ≡ true) ↔ Any (λ e. e ≡ error_type_not_found) errors
unfolding any_not_found
any_not_found_iff [] = (λ h. cc, λ h. absurd h)
any_not_found_iff (e ∷ errors) = elim (Bool-cases (str_eq e error_type_not_found)) [
  | inl same ↦ (λ h. inl ((eq_iff _ _).0 same), λ h. rw same refl)
  | inr other ↦ rw other (
    λ h. inr ((any_not_found_iff errors).0 h),
    λ h. elim h [
      | inl same ↦ cc (other, (eq_iff e error_type_not_found).1 same)
      | inr later ↦ (any_not_found_iff errors).1 later
    ],
  )
]

-- The user of a lookup is taken exactly when there are no errors at all and there is a first user;
-- it is that user.
pub checked_user-eq-ok_iff :
    (username : String) (lookup : UserLookup) (user : UserObj)
    → (checked_user username lookup ≡ ok user)
      ↔ ((lookup.errors ≡ []) × ((users : List UserObj) × (lookup.users ≡ user ∷ users)))
unfolding checked_user
checked_user-eq-ok_iff username lookup user = ground arith

-- The user is reported as missing exactly when Twitter says so or sends no user.
pub checked_user-eq-not_found_iff :
    (username : String) (lookup : UserLookup)
    → (checked_user username lookup ≡ err (user_not_found username))
      ↔ (Any (λ e. e ≡ error_type_not_found) lookup.errors ⊎ (lookup.users ≡ []))
unfolding checked_user
checked_user-eq-not_found_iff username lookup = ground (arith, any_not_found_iff lookup.errors)

module _ {W : Type 0} (cache : Cache W UserObj) (L : IsLawful cache)
    (stores : (key : String) (v : UserObj) (w : W) → (cache.set key v w).0 ≡ ok tt) where
  -- Both entries of a fetched user
  saved : String → UserObj → W → W
  saved username user w =
      (cache.set (cache_key_id user.id) user (cache.set (cache_key_username username) user w).1).1

  get-saved :
      (username : String) (user : UserObj) (w : W)
      → cache.get (cache_key_username username) (saved username user w)
        ≡ (ok user, saved username user w)
  unfolding saved
  get-saved username user w =
      let k = cache_key_username username in
      let u = (cache.set k user w).1 in
      ground (
        arith,
        L.get_state k (cache.set (cache_key_id user.id) user u).1,
        L.get-set (cache_key_id user.id) k user u (stores _ user u),
        L.get-set k k user w (stores k user w),
        eq_refl k,
      )

  -- What is remembered is saved, and the caller gets it.
  remember_lem :
      (backend : Backend W) (username : String) (user : UserObj) (w : W)
      → remember backend cache username user w ≡ (ok user, saved username user w)
  unfolding remember saved ignoring ◌>>=◌
  remember_lem backend username user w =
      let k = cache_key_username username in
      ground (arith, stores k user w, stores (cache_key_id user.id) user (cache.set k user w).1)

  -- A fetch that returns a user has saved it.
  fetch_user_saves :
      (backend : Backend W) (username : String) (user : UserObj) (w : W)
      → (fetch_user backend cache username w).0 ≡ ok user
      → (u : W) × (fetch_user backend cache username w ≡ (ok user, saved username user u))
  unfolding fetch_user
  fetch_user_saves backend username user w h =
      let (lookup, u, _, first) = bind_ok _ _ w h in
      let (found, v, _, second) = bind_ok _ _ u (rw first at h) in
      let all = first ∙ second ∙ remember_lem backend username found v in
      let same : found ≡ user = ground (arith, all) in (v, rw same at all)

  get_user_hit :
      (backend : Backend W) (username : String) (user : UserObj) (w : W)
      → cache.get (cache_key_username username) w ≡ (ok user, w)
      → get_user backend cache username w ≡ (ok user, w)
  unfolding get_user match_call
  get_user_hit backend username user w h = rw h refl

  get_uncached_ok :
      (backend : Backend W) (username : String) {user : UserObj} (why : Error) (w : W)
      → (get_uncached backend cache username why w).0 ≡ ok user
      → get_uncached backend cache username why w ≡ fetch_user backend cache username w
  unfolding get_uncached fail
  get_uncached_ok backend username why w h = ground arith

  -- A user that is returned is in the cache afterwards.
  get_user_stores :
      (backend : Backend W) (username : String) (user : UserObj) (w : W)
      → (get_user backend cache username w).0 ≡ ok user
      → (u : W) × (get_user backend cache username w ≡ (ok user, u))
        × (cache.get (cache_key_username username) u ≡ (ok user, u))
  unfolding get_user pure
  get_user_stores backend username user w h =
      elim (run_cases (cache.get (cache_key_username username)) w) [
        | inl (found, u, e) ↦
            let run : get_user backend cache username w ≡ pure found u = match_call_ok _ _ _ w e in
            let returned : (pure {S = W} found u).0 ≡ ok user = rw run at h in
            let same : found ≡ user = ground arith in
            let stays : u ≡ w = rw e at (L.get_state (cache_key_username username) w) in
            (u, run ∙ ap (λ x. (ok x, u)) same, rw stays (e ∙ ap₂ (λ x v. (ok x, v)) same stays))
        | inr (inl (why, u, e)) ↦
            let run : get_user backend cache username w
                ≡ get_uncached backend cache username why u =
              match_call_err _ _ _ w e in
            let fetched = run ∙ get_uncached_ok backend username why u (rw run at h) in
            let (v, saves) = fetch_user_saves backend username user u (rw fetched at h) in
            (saved username user v, fetched ∙ saves, get-saved username user v)
        | inr (inr (why, u, e)) ↦
            let run : get_user backend cache username w ≡ (panic why, u) =
              match_call_panic _ _ _ w e in
            cc (rw run at h)
      ]

  -- Over a lawful cache that stores what it is given, a user that was fetched is served from the
  -- cache afterwards: asking again gives the same user, whatever Twitter would answer, and
  -- changes nothing.
  pub get_user_again :
      (backend again : Backend W) (username : String) (user : UserObj) (w : W)
      → (get_user backend cache username w).0 ≡ ok user
      → get_user again cache username (get_user backend cache username w).1
        ≡ (ok user, (get_user backend cache username w).1)
  get_user_again backend again username user w h =
      let (u, run, served) = get_user_stores backend username user w h in
      rw run (get_user_hit again username user u served)
