-- ===== src/Config/Laws.antt =====
-- What a configuration that was loaded satisfies, and when loading succeeds.
use estrys.Common.{
  Bool, false, if◌then◌else◌, String, str_eq, eq_iff, Bool-cases, true, ◌≡◌, ◌≢◌, ◌↔◌, ◌⊎◌, refl,
  sym, ap, subst, ◌∙◌, inl, inr,
}
use estrys.Outcome.{Error, Result, ok, err, panic, message}
use estrys.Outcome.Fallible.{◌>>=◌, chain_ok, wrapped-eq-ok, wrap_result-eq-ok, ok_injective}
use estrys.Config.{
  Duration, forward, Config, Settings, required, read_default, tweet_cache_timeout, load,
}

-- The default file was read, or, in the tests, it may be missing.
abbrev pub IsRead : Settings → Type 0
IsRead settings =
    (settings.read_in_config ≡ ok tt)
    ⊎ ((e : Error) × (settings.read_in_config ≡ err e) × (settings.is_test ≡ true))

-- Every value that is required is there and was parsed; the tweets' lifetime is zero without a value.
pub record IsLoaded (settings : Settings) (conf : Config) : Type 0 where
  pub is_read : IsRead settings
  pub is_fields : settings.unmarshal ≡ ok conf.fields
  pub has_token : conf.fields.token ≢ ""
  pub has_domain : settings.get_string "domain" ≢ ""
  pub is_domain : settings.parse_url (settings.get_string "domain") ≡ ok conf.domain
  pub has_log_level : settings.get_string "log_level" ≢ ""
  pub is_log_level : settings.parse_level (settings.get_string "log_level") ≡ ok conf.log_level
  pub has_db_url : settings.get_string "db_url" ≢ ""
  pub is_db_url : settings.parse_url (settings.get_string "db_url") ≡ ok conf.db_url
  pub has_user_timeout : settings.get_string "cache_twitter_user_ttl" ≢ ""
  pub is_user_timeout :
      settings.parse_duration (settings.get_string "cache_twitter_user_ttl")
      ≡ ok conf.twitter_user_cache_timeout
  pub is_tweet_timeout :
      ((settings.get_string "cache_tweet_ttl" ≡ "")
        × (conf.twitter_tweet_cache_timeout ≡ forward 0))
      ⊎ ((settings.get_string "cache_tweet_ttl" ≢ "")
          × (settings.parse_duration (settings.get_string "cache_tweet_ttl")
              ≡ ok conf.twitter_tweet_cache_timeout))

required-eq-ok : (text value v : String) → required text value ≡ ok v → (value ≢ "") × (v ≡ value)
unfolding required
required-eq-ok text value v h = elim (Bool-cases (str_eq value "")) [
  | inl empty ↦ cc (rw empty at h)
  | inr other ↦ (λ e. cc (sym ((eq_iff value "").1 e) ∙ other), sym (ok_injective (rw other at h)))
]

is_test_of_read :
    (test : Bool) (why : Error)
    → ◌≡◌ {A = Result (Unit {0})}
        (if test then ok tt else err (message "unable to read default config from .env"))
        (ok tt)
    → test ≡ true
is_test_of_read true why h = refl
is_test_of_read false why h = cc h

read_default-eq-ok : (settings : Settings) → read_default settings ≡ ok tt → IsRead settings
unfolding read_default
read_default-eq-ok settings h = go settings.read_in_config refl
  where
    go : (r : Result (Unit {0})) → settings.read_in_config ≡ r → IsRead settings
    go (ok done) e = inl e
    go (err why) e = inr (why, e, is_test_of_read settings.is_test why (rw (e, read_default) at h))
    go (panic why) e = cc (rw (e, read_default) at h)

tweet_cache_timeout-eq-ok :
    (settings : Settings) {n : Duration}
    → tweet_cache_timeout settings ≡ ok n
    → ((settings.get_string "cache_tweet_ttl" ≡ "") × (n ≡ forward 0))
      ⊎ ((settings.get_string "cache_tweet_ttl" ≢ "")
          × (settings.parse_duration (settings.get_string "cache_tweet_ttl") ≡ ok n))
unfolding tweet_cache_timeout
tweet_cache_timeout-eq-ok settings h =
    elim (Bool-cases (str_eq (settings.get_string "cache_tweet_ttl") "")) [
      | inl empty ↦ inl ((eq_iff _ _).0 empty, sym (ok_injective (rw empty at h)))
      | inr other ↦
          inr (λ e. cc (sym ((eq_iff _ "").1 e) ∙ other), wrap_result-eq-ok _ _ (rw other at h))
    ]

load_ok : (settings : Settings) (conf : Config) → load settings ≡ ok conf → IsLoaded settings conf
unfolding load
load_ok settings conf h =
    let (_, r0, h0) = chain_ok _ _ h in
    let (token, r1, h1) = wrapped-eq-ok _ _ _ h0 in
    let (domain_str, r2, h2) = chain_ok _ _ h1 in
    let (domain, r3, h3) = wrapped-eq-ok _ _ _ h2 in
    let (level_str, r4, h4) = chain_ok _ _ h3 in
    let (level, r5, h5) = wrapped-eq-ok _ _ _ h4 in
    let (db_str, r6, h6) = chain_ok _ _ h5 in
    let (db_url, r7, h7) = wrapped-eq-ok _ _ _ h6 in
    let (duration, r8, h8) = chain_ok _ _ h7 in
    let (user_timeout, r9, h9) = wrapped-eq-ok _ _ _ h8 in
    let (tweet_timeout, r10, h10) = chain_ok _ _ h9 in
    let (_, r11, h11) = chain_ok _ _ h10 in
    let (has_domain, s2) = required-eq-ok _ _ _ r2 in
    let (has_level, s4) = required-eq-ok _ _ _ r4 in
    let (has_db, s6) = required-eq-ok _ _ _ r6 in
    let (has_user, s8) = required-eq-ok _ _ _ r8 in
    let (has_token, _) = required-eq-ok _ _ _ r11 in
    subst (IsLoaded settings) (ok_injective h11) (record {
      is_read = read_default-eq-ok settings r0;
      is_fields = r1;
      has_token = has_token;
      has_domain = has_domain;
      is_domain = subst (λ s. settings.parse_url s ≡ ok domain) s2 r3;
      has_log_level = has_level;
      is_log_level = subst (λ s. settings.parse_level s ≡ ok level) s4 r5;
      has_db_url = has_db;
      is_db_url = subst (λ s. settings.parse_url s ≡ ok db_url) s6 r7;
      has_user_timeout = has_user;
      is_user_timeout = subst (λ s. settings.parse_duration s ≡ ok user_timeout) s8 r9;
      is_tweet_timeout = tweet_cache_timeout-eq-ok settings r10;
    })

required_of_ne : (text value : String) → value ≢ "" → required text value ≡ ok value
unfolding required
required_of_ne text value h = elim (Bool-cases (str_eq value "")) [
  | inl empty ↦ absurd (h ((eq_iff value "").0 empty))
  | inr other ↦ rw other refl
]

read_default_of_readable : (settings : Settings) → IsRead settings → read_default settings ≡ ok tt
unfolding read_default
read_default_of_readable settings (inl e) = rw (e, read_default) refl
read_default_of_readable settings (inr (why, e, test)) = rw (e, read_default) (rw test refl)

tweet_cache_timeout_of_value :
    (settings : Settings) (n : Duration)
    → ((settings.get_string "cache_tweet_ttl" ≡ "") × (n ≡ forward 0))
      ⊎ ((settings.get_string "cache_tweet_ttl" ≢ "")
          × (settings.parse_duration (settings.get_string "cache_tweet_ttl") ≡ ok n))
    → tweet_cache_timeout settings ≡ ok n
unfolding tweet_cache_timeout
tweet_cache_timeout_of_value settings n (inl (empty, zero_n)) =
    rw ((eq_iff (settings.get_string "cache_tweet_ttl") "").1 empty) (ap ok (sym zero_n))
tweet_cache_timeout_of_value settings n (inr (some_text, parsed)) =
    elim (Bool-cases (str_eq (settings.get_string "cache_tweet_ttl") "")) [
      | inl empty ↦ absurd (some_text ((eq_iff _ "").0 empty))
      | inr other ↦ rw other (rw parsed refl)
    ]

load_of_IsLoaded :
    (settings : Settings) (conf : Config) → IsLoaded settings conf → load settings ≡ ok conf
unfolding load ◌>>=◌
load_of_IsLoaded settings conf is = rw (read_default_of_readable settings is.is_read) (
    rw (tweet_cache_timeout_of_value settings _ is.is_tweet_timeout) (
      rw is.is_fields (
        rw (required_of_ne "You must define a domain" _ is.has_domain) (
          rw is.is_domain (
            rw (required_of_ne "You must define a log level" _ is.has_log_level) (
              rw is.is_log_level (
                rw (required_of_ne "You must define a database URL" _ is.has_db_url) (
                  rw is.is_db_url (
                    rw
                      (required_of_ne "You must define a twitter user cache duration" _
                        is.has_user_timeout)
                      (rw is.is_user_timeout (
                        rw (required_of_ne "you need to configure a token" _ is.has_token)
                          refl)))))))))))

-- A configuration is loaded exactly when the default file is read, outside the tests, every required
-- value is there and is parsed, the token is not empty, and a lifetime of cached tweets is parsed if
-- there is one; and then it holds those values.
pub load_iff :
    (settings : Settings) (conf : Config) → (load settings ≡ ok conf) ↔ IsLoaded settings conf
load_iff settings conf = (load_ok settings conf, load_of_IsLoaded settings conf)
