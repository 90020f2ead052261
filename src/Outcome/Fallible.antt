-- ===== src/Outcome/Fallible.antt =====
-- Chains of fallible calls that reach no state.
use estrys.Common.{String, Option, none, some, ◌≡◌, refl, ap}
use estrys.Outcome.{Error, Result, ok, err, panic, wrap_result}

-- `v, _ := m`: the value is nil after an error.
abbrev pub or_nil {ℓ} : {A : Type ℓ} → Result A → Option A
or_nil (ok a) = some a
or_nil _ = none

pub ok_injective {ℓ} : {A : Type ℓ} {a b : A} → ok a ≡ ok b → a ≡ b
ok_injective {A} {a} {b} h = ap get h
  where
    get : Result A → A
    get (ok x) = x
    get _ = a

pub err_injective {ℓ} : {A : Type ℓ} {e e' : Error} → Path (Result A) (err e) (err e') → e ≡ e'
err_injective {A} {e} {e'} h = ap get h
  where
    get : Result A → Error
    get (err x) = x
    get _ = e

module _ {ℓ} {A B : Type ℓ} where
  infixl 10 ◌>>=◌ ◌>>◌
  unfoldable pub ◌>>=◌ : Result A → (A → Result B) → Result B
  first >>= next = elim first [ ok value ↦ next value | err e ↦ err e | panic why ↦ panic why ]

  abbrev pub ◌>>◌ : Result A → Result B → Result B
  m >> n = m >>= λ _. n

  -- A chain that succeeds has a first call that did, and goes on from its value.
  pub chain_ok :
      (first : Result A) (next : A → Result B) {end : B}
      → (first >>= next) ≡ ok end
      → (value : A) × (first ≡ ok value) × (next value ≡ ok end)
  unfolding ◌>>=◌
  chain_ok (panic why) f h = cc h
  chain_ok (err e) f h = cc h
  chain_ok (ok a) f h = (a, refl, h)

pub wrap_result-eq-ok {ℓ} :
    {A : Type ℓ} (text : String) (r : Result A) {a : A} → wrap_result text r ≡ ok a → r ≡ ok a
wrap_result-eq-ok text (ok a) h = h
wrap_result-eq-ok text (err e) h = cc
wrap_result-eq-ok text (panic why) h = cc

-- The first call of a chain that succeeds, below the text that its error would have
pub wrapped-eq-ok {ℓ} :
    {A B : Type ℓ} (text : String) (m : Result A) (f : A → Result B) {b : B}
    → (wrap_result text m >>= f) ≡ ok b
    → (a : A) × (m ≡ ok a) × (f a ≡ ok b)
wrapped-eq-ok text m f h =
    let (a, first, rest) = chain_ok (wrap_result text m) f h in
    (a, wrap_result-eq-ok text m first, rest)
