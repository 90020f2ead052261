-- ===== src/Outcome/Fails.antt =====
-- What holds of every error that an action returns: one rule for each way to build an action.
use estrys.Common.{◌≡◌, refl, arith, subst}
use estrys.Outcome.{Error, Result, ok, err, panic, Action, pure, fail, match_call, continue, ◌>>=◌}

-- Every error of `m` satisfies `P`.
pub record Fails {ℓ} {S A : Type ℓ} (P : Error → Type ℓ) (m : Action S A) : Type ℓ where
  pub at : (s : S) (e : Error) → (m s).0 ≡ err e → P e

module _ {ℓ} {S A : Type ℓ} {P : Error → Type ℓ} where
  pub Fails-pure : (a : A) → Fails P (pure {S = S} a)
  unfolding pure
  Fails-pure a = record { at = λ s e h. cc h }

  pub Fails-fail : (why : Error) → P why → Fails P (fail {S = S} {A = A} why)
  unfolding fail
  Fails-fail why h = record { at = λ s e same. subst P (ground (arith, same)) h }

module _ {ℓ} {S A B : Type ℓ} {P : Error → Type ℓ} where
  continue-fails :
      (r : Result A) (f : A → Action S B) (g : Error → Action S B) (s : S) (e : Error)
      → ((a : A) → r ≡ ok a → Fails P (f a))
      → ((why : Error) → r ≡ err why → Fails P (g why))
      → (continue r f g s).0 ≡ err e
      → P e
  continue-fails (ok a) f g s e hf hg h = (hf a refl).at s e h
  continue-fails (err why) f g s e hf hg h = (hg why refl).at s e h
  continue-fails (panic why) f g s e hf hg h = cc h

  -- The errors of a call whose error is handled are those of its continuations.
  pub Fails-match_call :
      (m : Action S A) (f : A → Action S B) (g : Error → Action S B)
      → ((a : A) → Fails P (f a))
      → ((why : Error) (s : S) → (m s).0 ≡ err why → Fails P (g why))
      → Fails P (match_call m f g)
  unfolding match_call
  Fails-match_call m f g hf hg = record {
    at = λ s e h. continue-fails (m s).0 f g (m s).1 e (λ a _. hf a) (λ why same. hg why s same) h;
  }

  pub Fails-bind :
      (m : Action S A) (f : A → Action S B)
      → Fails P m
      → ((a : A) → Fails P (f a))
      → Fails P (m >>= f)
  unfolding ◌>>=◌ fail
  Fails-bind m f hm hf =
      Fails-match_call m f fail hf
        λ why s h. record { at = λ u e same. subst P (ground (arith, same)) (hm.at s why h) }
