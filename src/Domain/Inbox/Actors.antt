-- ===== src/Domain/Inbox/Actors.antt =====
-- The actor of a request: `createActorIfNoExist` of internal/domain/inbox.go.
use estrys.Common.{String, List, Bool-cases, true, if◌then◌else◌, ◌≡◌, ◌⊎◌, sym, ◌∙◌, inl, inr}
use estrys.Outcome.{Error, ok, err, wrap, pure, fail}
use estrys.Outcome.Inversion.{
  run_cases, wrapping_ok, wrapped_done, pure_ok, match_call_ok, match_call_err, match_call_panic,
}
use estrys.Outcome.Errors.{is_no_rows}
use estrys.Models.{Url, PublicKey, Actor}
use estrys.Activity.{VocabLibrary}
use estrys.Ports.{Library, UserRepository, ActorRepository, KeyManager}
use estrys.Authorization.{Voter}
use estrys.Worker.Tasks.{WorkerClient}
use estrys.Domain.Inbox.{create_actor, create_actor_if_no_exist}

module _ {W : Type 0} (library : Library) (actors : ActorRepository W) (keys : KeyManager W) where
  -- The actor was unknown under the URL, and was created with the key that the URL's server gives.
  pub record IsNewActor (url : Url) (actor : Actor) (w u : W) : Type 0 where
    pub why : Error
    pub missing : W
    pub is_unknown : actors.get url w ≡ (err why, missing)
    pub is_no_row : is_no_rows why ≡ true
    pub key : PublicKey
    pub fetched : W
    pub is_key : keys.fetch_key (library.url_string url) missing ≡ (ok key, fetched)
    pub is_created : actors.create url key fetched ≡ (ok actor, u)

  -- The actor of the URL, known before or new
  abbrev pub IsActorOf : Url → Actor → W → W → Type 0
  IsActorOf url actor w u = (actors.get url w ≡ (ok actor, u)) ⊎ IsNewActor url actor w u

module _ {W : Type 0} (library : Library) (vocab : VocabLibrary) (actors : ActorRepository W)
    (users : UserRepository W) (keys : KeyManager W) (worker : WorkerClient W) (voters : List Voter)
    (domain : Url) (trace_id : String) where
  -- The actor that a request comes from was read under its URL, or created under it.
  pub create_actor_if_no_exist_ok :
      (url : Url) (actor : Actor) (w u : W)
      → create_actor_if_no_exist library vocab actors users keys worker voters domain trace_id url w
        ≡ (ok actor, u)
      → IsActorOf library actors keys url actor w u
  unfolding create_actor_if_no_exist create_actor pure fail
  create_actor_if_no_exist_ok url actor w u h = elim (run_cases (actors.get url) w) [
    | inl (found, v, e) ↦
        let (same, stays) = pure_ok found actor v (sym (match_call_ok _ _ _ w e) ∙ h) in
        inl (e ∙ cc (same, stays))
    | inr (inl (why, v, e)) ↦ inr (new why v e (sym (match_call_err _ _ _ w e) ∙ h))
    | inr (inr (why, v, e)) ↦ cc (sym (match_call_panic _ _ _ w e) ∙ h)
  ]
    where
      new :
          (why : Error) (v : W)
          → actors.get url w ≡ (err why, v)
          → (if is_no_rows why
                then create_actor library vocab actors users keys worker voters domain trace_id url
                else fail (wrap "unable to fetch actor from db" why))
              v
            ≡ (ok actor, u)
          → IsNewActor library actors keys url actor w u
      new why v e run = elim (Bool-cases (is_no_rows why)) [
        | inl unknown ↦
            let (key, k, is_key, rest) = wrapped_done _ _ _ v (rw unknown at run) in
            record {
              why = why;
              missing = v;
              is_unknown = e;
              is_no_row = unknown;
              key = key;
              fetched = k;
              is_key = is_key;
              is_created = wrapping_ok _ _ k rest;
            }
        | inr other ↦ cc (rw other at run)
      ]
