-- ===== src/Outcome/Inversion.antt =====
-- What a run of a composed action says of the runs of its parts.
use estrys.Common.{◌≡◌, refl, sym, ap, subst, ◌∙◌, String, ◌⊎◌, inl, inr, arith}
use estrys.Outcome.{
  Error, Result, ok, err, panic, Action, pure, fail, lift, wrapping, match_call, ◌>>=◌,
}

module _ {ℓ} {S A : Type ℓ} where
  -- A call returns a value, an error, or panics, in some state.
  pub run_cases :
      (m : Action S A) (s : S)
      → ((a : A) × (u : S) × (m s ≡ (ok a, u)))
        ⊎ (((e : Error) × (u : S) × (m s ≡ (err e, u)))
            ⊎ ((why : String) × (u : S) × (m s ≡ (panic why, u))))
  run_cases m s = let (r, u) = m s in go r u refl
    where
      go :
          (r : Result A) (u : S)
          → m s ≡ (r, u)
          → ((a : A) × (u : S) × (m s ≡ (ok a, u)))
            ⊎ (((e : Error) × (u : S) × (m s ≡ (err e, u)))
                ⊎ ((why : String) × (u : S) × (m s ≡ (panic why, u))))
      go (ok a) u e = inl (a, u, e)
      go (err why) u e = inr (inl (why, u, e))
      go (panic why) u e = inr (inr (why, u, e))

  pub wrapping_ok :
      (text : String) (m : Action S A) (s : S) {a : A} {u : S}
      → wrapping text m s ≡ (ok a, u)
      → m s ≡ (ok a, u)
  unfolding wrapping
  wrapping_ok text m s h = ground arith

  pub pure_ok : (a b : A) (s : S) {u : S} → pure a s ≡ (ok b, u) → (a ≡ b) × (s ≡ u)
  unfolding pure
  pure_ok a b s h = ground (arith, h)

  pub lift_ok : (r : Result A) (s : S) {a : A} {u : S} → lift r s ≡ (ok a, u) → (r ≡ ok a) × (s ≡ u)
  unfolding lift
  lift_ok r s h = ground arith

-- The runs of calls that reach no state, once their results are known
module _ {ℓ} {S A : Type ℓ} where
  pub lift_run : (r : Result A) (s : S) {a : A} → r ≡ ok a → lift r s ≡ (ok a, s)
  unfolding lift
  lift_run r s h = rw h refl

  pub lifted_run :
      (text : String) (r : Result A) (s : S) {a : A}
      → r ≡ ok a
      → wrapping text (lift r) s ≡ (ok a, s)
  unfolding wrapping lift
  lifted_run text r s h = rw h refl

module _ {ℓ} {S A B : Type ℓ} (m : Action S A) where
  pub match_call_ok :
      (f : A → Action S B) (g : Error → Action S B) (s : S) {u : S} {a : A}
      → m s ≡ (ok a, u)
      → match_call m f g s ≡ f a u
  unfolding match_call
  match_call_ok f g s h = rw h refl

  pub match_call_err :
      (f : A → Action S B) (g : Error → Action S B) (s : S) {u : S} {e : Error}
      → m s ≡ (err e, u)
      → match_call m f g s ≡ g e u
  unfolding match_call
  match_call_err f g s h = rw h refl

  pub match_call_panic :
      (f : A → Action S B) (g : Error → Action S B) (s : S) {u : S} {why : String}
      → m s ≡ (panic why, u)
      → match_call m f g s ≡ (panic why, u)
  unfolding match_call
  match_call_panic f g s h = rw h refl

  pub bind_run_ok :
      (f : A → Action S B) (s : S) {u : S} {a : A} → m s ≡ (ok a, u) → (m >>= f) s ≡ f a u
  unfolding ◌>>=◌
  bind_run_ok f s h = rw h refl

  pub bind_run_err :
      (f : A → Action S B) (s : S) {u : S} {e : Error} → m s ≡ (err e, u) → (m >>= f) s ≡ (err e, u)
  unfolding ◌>>=◌
  bind_run_err f s h = rw h refl

  -- A block that returns a value has run its first call to a value, and goes on from there.
  pub bind_ok :
      (f : A → Action S B) (s : S) {b : B}
      → ((m >>= f) s).0 ≡ ok b
      → (a : A) × (u : S) × (m s ≡ (ok a, u)) × ((m >>= f) s ≡ f a u)
  unfolding ◌>>=◌
  bind_ok f s {b} h = elim (run_cases m s) [
    | inl (a, u, e) ↦ (a, u, e, rw e refl)
    | inr (inl (why, u, e)) ↦ cc (rw e at h)
    | inr (inr (why, u, e)) ↦ cc (rw e at h)
  ]

  -- The same for a run whose end is known
  pub bind_done :
      (f : A → Action S B) (s : S) {b : B} {v : S}
      → (m >>= f) s ≡ (ok b, v)
      → (a : A) × (u : S) × (m s ≡ (ok a, u)) × (f a u ≡ (ok b, v))
  bind_done f s h = let (a, u, e, rest) = bind_ok f s (ap (λ r. r.0) h) in (a, u, e, sym rest ∙ h)

-- The first calls of a block that returns, below the text that their errors would have: an action, and
-- a call that reaches no state
module _ {ℓ} {S A B : Type ℓ} where
  pub wrapped_done :
      (text : String) (m : Action S A) (f : A → Action S B) (s : S) {b : B} {v : S}
      → (wrapping text m >>= f) s ≡ (ok b, v)
      → (a : A) × (u : S) × (m s ≡ (ok a, u)) × (f a u ≡ (ok b, v))
  wrapped_done text m f s h =
      let (a, u, first, rest) = bind_done (wrapping text m) f s h in
      (a, u, wrapping_ok text m s first, rest)

  pub lifted_done :
      (text : String) (r : Result A) (f : A → Action S B) (s : S) {b : B} {v : S}
      → (wrapping text (lift r) >>= f) s ≡ (ok b, v)
      → (a : A) × (r ≡ ok a) × (f a s ≡ (ok b, v))
  lifted_done text r f s {b} {v} h =
      let (a, u, first, rest) = wrapped_done text (lift r) f s h in
      let (done, same) = lift_ok r s first in
      (a, done, subst (λ w. f a w ≡ (ok b, v)) (sym same) rest)

module _ {ℓ} {S A : Type ℓ} where
  -- A call whose error is replaced by another
  pub replacing_ok :
      (m : Action S A) (g : Error → Error) (s : S) {a : A} {u : S}
      → match_call m pure (λ e. fail (g e)) s ≡ (ok a, u)
      → m s ≡ (ok a, u)
  unfolding match_call pure fail
  replacing_ok m g s h = ground arith
