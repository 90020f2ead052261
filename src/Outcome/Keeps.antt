-- ===== src/Outcome/Keeps.antt =====
-- Invariants of actions, and actions that never panic: one rule for each way to build an action.
use estrys.Common.{◌≡◌, refl, String, Bool, true, false, if◌then◌else◌}
use estrys.Outcome.{
  Error, Result, ok, err, panic, Action, pure, fail, crash, lift, wrapping, wrap_result, match_call,
  continue, ◌>>=◌,
}

-- `m` keeps `P`, whether it returns, fails or panics.
pub record Keeps {ℓ} {S A : Type ℓ} (P : S → Type ℓ) (m : Action S A) : Type ℓ where
  pub at : (s : S) → P s → P (m s).1

-- `m` leads from `P` to `Q`, whether it returns, fails or panics.
pub record Leads {ℓ} {S A : Type ℓ} (P Q : S → Type ℓ) (m : Action S A) : Type ℓ where
  pub at : (s : S) → P s → Q (m s).1

abbrev pub IsReturn {ℓ} : {A : Type ℓ} → Result A → Type 0
IsReturn (panic why) = ⊥
IsReturn _ = Unit

module _ {ℓ} {S A : Type ℓ} {P : S → Type ℓ} where
  pub Keeps-pure : (a : A) → Keeps P (pure a)
  unfolding pure
  Keeps-pure a = record { at = λ s h. h }

  pub Keeps-fail : (e : Error) → Keeps P (fail {A = A} e)
  unfolding fail
  Keeps-fail e = record { at = λ s h. h }

  pub Keeps-crash : (why : String) → Keeps P (crash {A = A} why)
  unfolding crash
  Keeps-crash why = record { at = λ s h. h }

  pub Keeps-lift : (r : Result A) → Keeps P (lift r)
  unfolding lift
  Keeps-lift r = record { at = λ s h. h }

  pub Keeps-wrapping : (text : String) (m : Action S A) → Keeps P m → Keeps P (wrapping text m)
  unfolding wrapping
  Keeps-wrapping text m k = record { at = k.at }

  pub Keeps-if :
      (b : Bool) (m n : Action S A) → Keeps P m → Keeps P n → Keeps P (if b then m else n)
  Keeps-if true m n km kn = km
  Keeps-if false m n km kn = kn

module _ {ℓ} {S A B : Type ℓ} {P : S → Type ℓ} where
  continue-keeps :
      (r : Result A) (f : A → Action S B) (g : Error → Action S B) (s : S)
      → ((a : A) → Keeps P (f a))
      → ((e : Error) → Keeps P (g e))
      → P s
      → P (continue r f g s).1
  continue-keeps (ok a) f g s kf kg h = (kf a).at s h
  continue-keeps (err e) f g s kf kg h = (kg e).at s h
  continue-keeps (panic why) f g s kf kg h = h

  pub Keeps-match_call :
      (m : Action S A) (f : A → Action S B) (g : Error → Action S B)
      → Keeps P m
      → ((a : A) → Keeps P (f a))
      → ((e : Error) → Keeps P (g e))
      → Keeps P (match_call m f g)
  unfolding match_call
  Keeps-match_call m f g km kf kg = record {
    at = λ s h. continue-keeps (m s).0 f g (m s).1 kf kg (km.at s h);
  }

  pub Keeps-bind :
      (m : Action S A) (f : A → Action S B)
      → Keeps P m
      → ((a : A) → Keeps P (f a))
      → Keeps P (m >>= f)
  unfolding ◌>>=◌
  Keeps-bind m f km kf = Keeps-match_call m f fail km kf (λ e. Keeps-fail e)

  -- The rest of a block may use the value and the state that the first call came to.
  pub Keeps-bind_run :
      (m : Action S A) (f : A → Action S B)
      → Keeps P m
      → ((a : A) (s u : S) → m s ≡ (ok a, u) → P u → P (f a u).1)
      → Keeps P (m >>= f)
  unfolding ◌>>=◌ match_call fail
  Keeps-bind_run m f km kf = record { at = λ s h. go s (m s).0 (m s).1 refl (km.at s h) }
    where
      go : (s : S) (r : Result A) (u : S) → m s ≡ (r, u) → P u → P (continue r f fail u).1
      go s (ok a) u e h = kf a s u e h
      go s (err why) u e h = h
      go s (panic why) u e h = h

module _ {ℓ} {S A B : Type ℓ} {Q R : S → Type ℓ} where
  continue_leads :
      (r : Result A) (f : A → Action S B) (g : Error → Action S B) (s : S)
      → ((a : A) → Leads Q R (f a))
      → ((e : Error) → Leads Q R (g e))
      → (Q s → R s)
      → Q s
      → R (continue r f g s).1
  continue_leads (ok a) f g s kf kg weak h = (kf a).at s h
  continue_leads (err e) f g s kf kg weak h = (kg e).at s h
  continue_leads (panic why) f g s kf kg weak h = weak h

module _ {ℓ} {S A B : Type ℓ} {P Q R : S → Type ℓ} where
  pub Leads-match_call :
      (m : Action S A) (f : A → Action S B) (g : Error → Action S B)
      → Leads P Q m
      → ((a : A) → Leads Q R (f a))
      → ((e : Error) → Leads Q R (g e))
      → ((s : S) → Q s → R s)
      → Leads P R (match_call m f g)
  unfolding match_call
  Leads-match_call m f g km kf kg weak = record {
    at = λ s h. continue_leads (m s).0 f g (m s).1 kf kg (weak (m s).1) (km.at s h);
  }

  pub Leads-bind :
      (m : Action S A) (f : A → Action S B)
      → Leads P Q m
      → ((a : A) → Leads Q R (f a))
      → ((s : S) → Q s → R s)
      → Leads P R (m >>= f)
  unfolding ◌>>=◌ fail
  Leads-bind m f km kf weak =
      Leads-match_call m f fail km kf (λ e. record { at = λ s h. weak s h }) weak

pub ruleset keeps_rules = (
  Keeps-pure, Keeps-fail, Keeps-crash, Keeps-lift, Keeps-wrapping, Keeps-if, Keeps-match_call,
  Keeps-bind,
)

-- From `s`, `m` does not panic.
pub record Returns {ℓ} {S A : Type ℓ} (m : Action S A) (s : S) : Type ℓ where
  pub at : IsReturn (m s).0

module _ {ℓ} {S A : Type ℓ} where
  pub Returns-pure : (a : A) (s : S) → Returns (pure a) s
  unfolding pure
  Returns-pure a s = record { at = tt }

  pub Returns-fail : (e : Error) (s : S) → Returns (fail {A = A} e) s
  unfolding fail
  Returns-fail e s = record { at = tt }

  pub Returns-wrapping :
      (text : String) (m : Action S A) (s : S) → Returns m s → Returns (wrapping text m) s
  unfolding wrapping
  Returns-wrapping text m s h = record { at = go (m s).0 h.at }
    where
      go : (r : Result A) → IsReturn r → IsReturn (wrap_result text r)
      go (ok a) k = tt
      go (err e) k = tt
      go (panic why) k = absurd k

  pub Returns-if :
      (b : Bool) (m n : Action S A) (s : S)
      → Returns m s
      → Returns n s
      → Returns (if b then m else n) s
  Returns-if true m n s km kn = km
  Returns-if false m n s km kn = kn

module _ {ℓ} {S A B : Type ℓ} where
  -- The rest of a block may use the value and the state that the first call came to.
  pub Returns-match_call :
      (m : Action S A) (f : A → Action S B) (g : Error → Action S B) (s : S)
      → Returns m s
      → ((a : A) (u : S) → m s ≡ (ok a, u) → Returns (f a) u)
      → ((e : Error) (u : S) → m s ≡ (err e, u) → Returns (g e) u)
      → Returns (match_call m f g) s
  unfolding match_call
  Returns-match_call m f g s h kf kg = record { at = go (m s).0 (m s).1 refl h.at }
    where
      go : (r : Result A) (u : S) → m s ≡ (r, u) → IsReturn r → IsReturn (continue r f g u).0
      go (ok a) u e k = (kf a u e).at
      go (err why) u e k = (kg why u e).at
      go (panic why) u e k = absurd k

  pub Returns-bind :
      (m : Action S A) (f : A → Action S B) (s : S)
      → Returns m s
      → ((a : A) (u : S) → m s ≡ (ok a, u) → Returns (f a) u)
      → Returns (m >>= f) s
  unfolding ◌>>=◌
  Returns-bind m f s h kf = Returns-match_call m f fail s h kf (λ e u _. Returns-fail e u)
