-- ===== src/Tests/Registering.antt =====
-- Users created in a batch, on concrete services.
use text.Mathlib.TextPositions.{eq_refl}
use estrys.Common.{
  String, str_eq, Bool-cases, [], ◌∷◌, All, to_lower, ◌≡◌, refl, inl, inr, arith, ap, sym, subst,
}
use estrys.Outcome.{Result, ok, pure, fail, lift, wrapping, match_call, ◌>>=◌}
use estrys.Outcome.Errors.{is_no_rows}
use estrys.Outcome.Keeps.{Keeps}
use estrys.Models.{User}
use estrys.Ports.{CreateUserRequest}
use estrys.Domain.Users.{
  get_full_user, create_user_from_twitter, get_or_create, get_or_create_all,
  batch_create_users_from_ids, find_user, profile_of, create_if_missing, batch_create_users,
}
use estrys.Domain.Users.Laws.{Has, IsRegistry}
use estrys.Domain.Users.Registry.{batch_create_users-Has}
use estrys.Tests.Services.{World, with_alice, profile, parser, twitter, row_of, users, keys}

unfoldable pub creating : Unit {0}
unfolding pure fail lift wrapping match_call ◌>>=◌ is_no_rows to_lower get_full_user
    create_user_from_twitter get_or_create get_or_create_all batch_create_users_from_ids find_user
    profile_of create_if_missing batch_create_users
creating = tt

create-Has :
    (request : CreateUserRequest) (name : String) (user : User) (w u : World)
    → users.create_user request w ≡ (ok user, u)
    → to_lower request.username ≡ to_lower name
    → Has users name u
create-Has request name user w u h same =
    subst (Has users name) (ap (λ r. r.1) h)
      (row_of request, rw same (rw (eq_refl (to_lower name)) refl))

create-Keeps :
    (request : CreateUserRequest) (name : String)
    → Keeps (Has users name) (users.create_user request)
create-Keeps request name = record {
  at = λ w h. elim (Bool-cases (str_eq (to_lower request.username) (to_lower name))) [
    | inl same ↦ (row_of request, rw same refl)
    | inr other ↦ (
      h.0,
      rw other (ap (λ (r : Result User × World). (r.0, (users.create_user request w).1)) h.1),
    )
  ];
}

pub registry : IsRegistry users keys twitter
unfolding pure
registry = record {
  store = record {
    get_reads = λ name w. refl;
    create_has = create-Has;
    create_keeps = create-Keeps;
  };
  generate_keeps = λ name. record { at = λ w h. h };
  get_user_keeps = λ name other. record { at = λ w h. h };
  get_user_named = λ name obj w u h.
      let same : profile name ≡ obj = ground arith in ap (λ x. to_lower x.user_name) (sym same);
}

abbrev after_batch : World
after_batch = (batch_create_users parser users keys twitter ("Alice" ∷ "Ada" ∷ []) with_alice).1

batch_create_users-Has_example : All (λ name. Has users name after_batch) ("Alice" ∷ "Ada" ∷ [])
unfolding creating
batch_create_users-Has_example =
    batch_create_users-Has parser users keys twitter registry ("Alice" ∷ "Ada" ∷ []) with_alice
      after_batch refl
