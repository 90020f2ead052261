-- ===== src/Outcome.antt =====
-- What a call of a Go function comes to, and actions on the state of the process and its services.
-- An `error` is a value (internal/domain/errors.go, internal/cache/cache.go and the error types of
-- the packages); `errors.Wrap` and `errors.WithStack` keep the error that they wrap, and
-- `errors.Is` and `errors.As` look through them. A task error (internal/worker/errors/errors.go) has
-- no `Unwrap`, so nothing looks through it.
pub mod Keeps
pub mod Errors
pub mod Inversion
pub mod Fails
pub mod Fallible
pub mod Texts
use estrys.Common.{String, ℕ, Bool, Option}

pub data Error : Type 0 where
  no_rows redis_nil cache_miss user_does_not_exist follow_mismatch_domain : Error
  no_user_to_poll no_callback_match skip_retry actor_not_allowed : Error
  twitter_user_does_not_exist user_not_found : String → Error
  unsupported_undo_object : Option String → Error
  inbox_not_accepted error_response : ℕ → Error
  -- `errors.New`, `errors.Errorf`, and any error of a library that the program does not inspect
  message : String → Error
  wrap : String → Error → Error
  with_stack : Error → Error
  task_error : Bool → Error → Error

-- A Go call returns a value, returns an error, or panics.
pub data Result {ℓ} (A : Type ℓ) : Type ℓ where
  ok : A → Result A
  err : Error → Result A
  panic : String → Result A

abbrev pub wrap_result {ℓ} : {A : Type ℓ} → String → Result A → Result A
wrap_result text (ok a) = ok a
wrap_result text (err e) = err (wrap text e)
wrap_result text (panic why) = panic why

-- An action on a state; the state that was reached comes back on every path.
abbrev pub Action {ℓ} : Type ℓ → Type ℓ → Type ℓ
Action S A = S → Result A × S

module _ {ℓ} {S A : Type ℓ} where
  unfoldable pub pure : A → Action S A
  pure a s = (ok a, s)

  unfoldable pub fail : Error → Action S A
  fail e s = (err e, s)

  unfoldable pub crash : String → Action S A
  crash why s = (panic why, s)

  unfoldable pub lift : Result A → Action S A
  lift r s = (r, s)

  -- `if err != nil { return errors.Wrap(err, text) }`
  unfoldable pub wrapping : String → Action S A → Action S A
  wrapping text m s = let (r, s') = m s in (wrap_result text r, s')

module _ {ℓ} {S A B : Type ℓ} where
  abbrev continue : Result A → (A → Action S B) → (Error → Action S B) → Action S B
  continue (ok a) f g s = f a s
  continue (err e) f g s = g e s
  continue (panic why) f g s = (panic why, s)

  -- `v, err := m` followed by the two branches on `err`
  unfoldable pub match_call : Action S A → (A → Action S B) → (Error → Action S B) → Action S B
  unfolding pure fail crash lift wrapping
  match_call m f g s = let (r, s') = m s in continue r f g s'

  infixl 10 ◌>>=◌ ◌>>◌
  unfoldable pub ◌>>=◌ : Action S A → (A → Action S B) → Action S B
  unfolding match_call fail
  m >>= f = match_call m f fail

  abbrev pub ◌>>◌ : Action S A → Action S B → Action S B
  m >> n = m >>= λ _. n
