-- ===== src/Tests/Tables.antt =====
-- The repository of users over a table, and a configuration.
use estrys.Common.{
  [], String, str_eq, eq_refl, Bool-cases, false, if◌then◌else◌, List, ◌∷◌, ◌≡◌, ◌↔◌, refl, sym, ap,
  inl, inr,
}
use estrys.Outcome.{Result, ok, err, message, no_rows, pure, fail}
use estrys.Outcome.Errors.{is_no_rows}
use estrys.Outcome.Keeps.{Keeps}
use estrys.Models.{User}
use estrys.Repository.Users.Store.{
  IsUserTable, HasName, IsExactStore, new_user_repository-IsExactStore,
}
use estrys.Config.{
  forward, Fields, Config, Settings, required, read_default, tweet_cache_timeout, load, loaded,
}
use estrys.Config.Laws.{IsLoaded, load_iff}
use estrys.Tests.Services.{alice_url, parser}
use estrys.Tests.Storing.{table}

inserted :
    (row : User) (rows after : List User)
    → table.insert_user row rows ≡ (ok tt, after)
    → table.user_by_username row.username after ≡ (ok row, after)
inserted row rows after h =
    let same : row ∷ rows ≡ after = ap (λ p. p.1) h in
    rw (sym same) (rw (eq_refl row.username) refl)

insert-HasName : (row : User) (name : String) → Keeps (HasName table name) (table.insert_user row)
insert-HasName row name = record {
  at = λ w h. elim (Bool-cases (str_eq row.username name)) [
    | inl same ↦ (row, rw same refl)
    | inr other ↦ (h.0, rw other (ap (λ (r : Result User × List User). (r.0, row ∷ w)) h.1))
  ];
}

table-IsUserTable : IsUserTable table
unfolding fail is_no_rows
table-IsUserTable = record {
  by_id_answers = λ id w. inr (no_rows, refl, refl);
  by_username_reads = λ name w. refl;
  insert_found = inserted;
  insert_keeps_id = λ row id. record { at = λ w h. cc (h.1) };
  insert_keeps_name = insert-HasName;
}

new_user_repository-IsExactStore_example : IsExactStore table parser table-IsUserTable
new_user_repository-IsExactStore_example =
    new_user_repository-IsExactStore table parser table-IsUserTable

abbrev value : String → String
value key = if str_eq key "cache_tweet_ttl" then "" else "text"

abbrev pub values : Fields
values = record {
  address = ":8080";
  token = "token";
  redis_address = "redis";
  disable_http_signature_verify = false;
  disable_embed_worker = false;
  allowed_users = [];
  twitter_allowed_users = "alice" ∷ [];
  run_migrations = false;
  sentry_dsn = "";
}

abbrev pub settings : Settings
settings = record {
  read_in_config = ok tt;
  is_test = false;
  unmarshal = ok values;
  get_string = value;
  parse_url = λ s. ok alice_url;
  parse_level = λ s. ok 4;
  parse_duration = λ s. ok (forward 60);
}

abbrev pub conf : Config
conf = record {
  fields = values;
  domain = alice_url;
  log_level = 4;
  db_url = alice_url;
  twitter_user_cache_timeout = forward 60;
  twitter_tweet_cache_timeout = forward 0;
}

configuring : Unit {0}
unfolding required read_default tweet_cache_timeout load loaded estrys.Outcome.Fallible.◌>>=◌
configuring = tt

-- Without a token, the configuration stays as it was.
load_tests :
    (loaded conf (record settings { unmarshal = ok (record values { token = "" }) })
      ≡ (conf, err (message "you need to configure a token")))
    × (load (record settings { get_string = λ key. "" }) ≡ err (message "You must define a domain"))
unfolding configuring
load_tests = (refl, refl)

load_iff_example : (load settings ≡ ok conf) ↔ IsLoaded settings conf
load_iff_example = load_iff settings conf
