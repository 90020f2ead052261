-- ===== src/Dic/Laws.antt =====
-- What is registered stays so, and a block that asks only for what was registered ends well.
use estrys.Common.{
  String, str_eq, eq_refl, Bool, Bool-cases, true, false, if◌then◌else◌, List, [], ◌∷◌, Option,
  none, some, All, ◌≡◌, ◌⊎◌, inl, inr, refl, sym, ◌∙◌, subst, eq_iff,
}
use estrys.Outcome.{Result, ok, Action, pure, lift, wrapping, ◌>>=◌}
use estrys.Outcome.Inversion.{bind_run_ok}
use estrys.Dic.{Services, service_of, get_service, register}

unfoldable pub among : String → List String → Bool
among name [] = false
among name (n ∷ names) = let rest = among name names in if str_eq name n then true else rest

module _ {Any : Type 0} where
  abbrev pub Registered : String → Services Any → Type 0
  Registered name services = (service : Any) × (service_of name services ≡ some service)

  abbrev pub AllRegistered : List String → Services Any → Type 0
  AllRegistered names services = All (λ name. Registered name services) names

  option_cases : (o : Option Any) → (o ≡ none) ⊎ ((a : Any) × (o ≡ some a))
  option_cases none = inl refl
  option_cases (some a) = inr (a, refl)

  get_service-Registered :
      (name : String) (services : Services Any) (found : Registered name services)
      → get_service name services ≡ (ok found.0, services)
  unfolding get_service pure
  get_service-Registered name services (service, e) = rw e refl

  -- The first service of a type stays: what is registered after it is dropped.
  pub register_again :
      (name : String) (service : Any) (services : Services Any)
      → Registered name services
      → register name service services ≡ (ok tt, services)
  unfolding register pure
  register_again name service services (old, e) = rw e refl

  register_new :
      (name : String) (service : Any) (services : Services Any)
      → service_of name services ≡ none
      → register name service services ≡ (ok tt, (name, service) ∷ services)
  unfolding register pure
  register_new name service services e = rw e refl

  Registered-head :
      (name : String) (service : Any) (services : Services Any)
      → Registered name ((name, service) ∷ services)
  unfolding service_of
  Registered-head name service services = (service, rw (eq_refl name) refl)

  Registered-tail :
      (name n : String) (service : Any) (services : Services Any)
      → Registered name services
      → Registered name ((n, service) ∷ services)
  unfolding service_of
  Registered-tail name n service services (old, e) = elim (Bool-cases (str_eq name n)) [
    | inl same ↦ (service, rw same refl)
    | inr other ↦ (old, rw other e)
  ]

  AllRegistered-tail :
      (names : List String) (n : String) (service : Any) (services : Services Any)
      → AllRegistered names services
      → AllRegistered names ((n, service) ∷ services)
  AllRegistered-tail [] n service services all = tt
  AllRegistered-tail (name ∷ names) n service services (first, rest) = (
    Registered-tail name n service services first,
    AllRegistered-tail names n service services rest,
  )

  -- After a call of `Register`, the service's type is there, and what was there before is.
  pub register-AllRegistered :
      (name : String) (service : Any) (names : List String) (services : Services Any)
      → AllRegistered names services
      → (after : Services Any) × (register name service services ≡ (ok tt, after))
        × AllRegistered (name ∷ names) after
  register-AllRegistered name service names services all =
      elim (option_cases (service_of name services)) [
        | inl new ↦ (
          (name, service) ∷ services,
          register_new name service services new,
          (
            Registered-head name service services,
            AllRegistered-tail names name service services all,
          ),
        )
        | inr known ↦ (services, register_again name service services known, (known, all))
      ]

  -- Each of the names that are among the registered ones is registered.
  among-Registered :
      (name : String) (names : List String) (services : Services Any)
      → among name names ≡ true
      → AllRegistered names services
      → Registered name services
  unfolding among
  among-Registered name [] services h all = cc h
  among-Registered name (n ∷ names) services h (first, rest) = elim (Bool-cases (str_eq name n)) [
    | inl same ↦ subst (λ x. Registered x services) (sym ((eq_iff name n).0 same)) first
    | inr other ↦ among-Registered name names services (rw other at h) rest
  ]

-- From services that have the first names, the block ends without an error or a panic, in services
-- that have the second names.
pub record Builds {Any : Type 0} (before after : List String) (m : Action (Services Any) (Unit {0}))
    : Type 0 where
  pub run :
      (services : Services Any)
      → AllRegistered before services
      → (built : Services Any) × (m services ≡ (ok tt, built)) × AllRegistered after built

module _ {Any : Type 0} {names after : List String} where
  pub Builds-get_service :
      (name : String) {next : Any → Action (Services Any) (Unit {0})}
      → among name names ≡ true
      → ((service : Any) → Builds names after (next service))
      → Builds names after (get_service name >>= next)
  Builds-get_service name {next} h builds = record {
    run = λ services all.
        let found = among-Registered name names services h all in
        let (built, done, all') = (builds found.0).run services all in
        (
          built,
          bind_run_ok _ next services (get_service-Registered name services found) ∙ done,
          all',
        );
  }

  pub Builds-register :
      {name : String} (service : Any) {next : Action (Services Any) (Unit {0})}
      → Builds (name ∷ names) after next
      → Builds names after (register name service >>= λ _. next)
  Builds-register {name} service {next} builds = record {
    run = λ services all.
        let (middle, stored, all') = register-AllRegistered name service names services all in
        let (built, done, all'') = builds.run middle all' in
        (built, bind_run_ok _ (λ _. next) services stored ∙ done, all'');
  }

module _ {Any : Type 0} {before between after : List String} where
  pub Builds-bind :
      {m n : Action (Services Any) (Unit {0})}
      → Builds before between m
      → Builds between after n
      → Builds before after (m >>= λ _. n)
  Builds-bind {m} {n} first second = record {
    run = λ services all.
        let (middle, done, all') = first.run services all in
        let (built, done', all'') = second.run middle all' in
        (built, bind_run_ok m (λ _. n) services done ∙ done', all'');
  }

module _ {Any : Type 0} {names : List String} where
  pub Builds-pure : Builds {Any = Any} names names (pure tt)
  unfolding pure
  Builds-pure = record { run = λ services all. (services, refl, all) }

  pub Builds-lift :
      (text reason : String) {r : Result (Unit {0})}
      → r ≡ ok tt
      → Builds {Any = Any} names names (wrapping text (wrapping reason (lift r)))
  unfolding wrapping lift
  Builds-lift text reason h = record { run = λ services all. (services, rw h refl, all) }
