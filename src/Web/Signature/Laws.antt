-- ===== src/Web/Signature/Laws.antt =====
-- What an inbox request that was accepted has shown.
use estrys.Common.{
  String, str_eq, Bool, Bool-cases, true, Option, some, ◌≡◌, ◌⊎◌, refl, sym, ◌∙◌, inl, inr,
}
use estrys.Outcome.{Result, ok, err, panic, Action, crash}
use estrys.Outcome.Inversion.{run_cases, match_call_ok, match_call_err, match_call_panic}
use estrys.Models.{PublicKey}
use estrys.Ports.{KeyManager, TwitterClient, InboxService}
use estrys.Web.{Response, JsonResolver}
use estrys.Web.Laws.{Handled}
use estrys.Web.Replies.{inbox_accepted}
use estrys.Web.Signature.{
  Verifier, SignedRequest, is_request_signed, algorithm_of, serve_verified, verify_with,
  with_verifier, http_sig_middleware, inbox_route,
}

-- The request has a signature, which was verified with the key that its key id names.
pub record Verified {W : Type 0} (keys : KeyManager W) (request : SignedRequest) (w v : W)
    : Type 0 where
  pub verifier : Verifier
  pub is_verifier : request.new_verifier ≡ ok verifier
  pub key : PublicKey
  pub is_key : keys.fetch_key verifier.key_id w ≡ (ok key, v)
  pub is_verified : verifier.verify key (algorithm_of key.kind) ≡ ok tt

module _ {W A : Type 0} (disabled : Bool) (keys : KeyManager W)
    (next : Option Bool → Action W A) where
  -- The next handler ran after a verification, told of a signed request, or it was told what the
  -- configuration says.
  Served : SignedRequest → A → W → W → Type 0
  Served request a w u =
      ((v : W) × Verified keys request w v × (next (some true) v ≡ (ok a, u)))
      ⊎ ((v : W) × (next (some disabled) v ≡ (ok a, u)))

  serve_verified_ok :
      (request : SignedRequest) (verifier : Verifier) (key : PublicKey) (r : Result (Unit {0}))
      (a : A) (w v u : W)
      → request.new_verifier ≡ ok verifier
      → keys.fetch_key verifier.key_id w ≡ (ok key, v)
      → verifier.verify key (algorithm_of key.kind) ≡ r
      → serve_verified disabled keys next r v ≡ (ok a, u)
      → Served request a w u
  unfolding Served serve_verified crash
  serve_verified_ok request verifier key (ok tt) a w v u is_verifier is_key is_verified h = inl (
    v,
    record {
      verifier = verifier;
      is_verifier = is_verifier;
      key = key;
      is_key = is_key;
      is_verified = is_verified;
    },
    h,
  )
  serve_verified_ok request verifier key (err e) a w v u is_verifier is_key is_verified h =
      inr (v, h)
  serve_verified_ok request verifier key (panic why) a w v u is_verifier is_key is_verified h = cc h

  verify_with_ok :
      (request : SignedRequest) (verifier : Verifier) (a : A) (w u : W)
      → request.new_verifier ≡ ok verifier
      → verify_with disabled keys next verifier w ≡ (ok a, u)
      → Served request a w u
  unfolding Served verify_with
  verify_with_ok request verifier a w u is_verifier h =
      elim (run_cases (keys.fetch_key verifier.key_id) w) [
        | inl (key, v, e) ↦
            serve_verified_ok request verifier key (verifier.verify key (algorithm_of key.kind)) a w
              v u is_verifier e refl (sym (match_call_ok _ _ _ w e) ∙ h)
        | inr (inl (why, v, e)) ↦ inr (v, sym (match_call_err _ _ _ w e) ∙ h)
        | inr (inr (why, v, e)) ↦ cc (sym (match_call_panic _ _ _ w e) ∙ h)
      ]

  with_verifier_ok :
      (request : SignedRequest) (r : Result Verifier) (a : A) (w u : W)
      → request.new_verifier ≡ r
      → with_verifier disabled keys next r w ≡ (ok a, u)
      → Served request a w u
  unfolding Served with_verifier crash
  with_verifier_ok request (ok verifier) a w u e h = verify_with_ok request verifier a w u e h
  with_verifier_ok request (err why) a w u e h = inr (w, h)
  with_verifier_ok request (panic why) a w u e h = cc h

  http_sig_middleware_ok :
      (request : SignedRequest) (a : A) (w u : W)
      → http_sig_middleware disabled keys next request w ≡ (ok a, u)
      → Served request a w u
  unfolding Served http_sig_middleware
  http_sig_middleware_ok request a w u h = elim (Bool-cases (str_eq request.signature "")) [
    | inl empty ↦ inr (w, rw empty at h)
    | inr other ↦ with_verifier_ok request request.new_verifier a w u refl (rw other at h)
  ]

module _ {W : Type 0} (twitter : TwitterClient W) (inbox : InboxService W)
    (resolver : JsonResolver W) (disabled : Bool) (keys : KeyManager W) where
  -- A request to an inbox is answered as accepted only when the verification of signatures is disabled,
  -- or its signature was verified with the key that its key id names; and then Twitter knows the user,
  -- the body was decoded, and the activity was carried out.
  pub inbox_route_accepted :
      (hub : Bool) (request : SignedRequest) (username body : String) (response : Response)
      (w u : W)
      → inbox_route twitter inbox resolver disabled keys hub request username body w
        ≡ (ok response, u)
      → response.status ≡ 202
      → (v : W) × ((disabled ≡ true) ⊎ Verified keys request w v)
        × Handled twitter inbox resolver username body v u
  unfolding inbox_route is_request_signed Served
  inbox_route_accepted hub request username body response w u h s =
      elim (http_sig_middleware_ok disabled keys _ request response w u h) [
        | inl (v, verified, run) ↦ (
          v,
          inr verified,
          (inbox_accepted twitter inbox resolver hub true username body response v u run s).1,
        )
        | inr (v, run) ↦
            let (off, handled) =
              inbox_accepted twitter inbox resolver hub disabled username body response v u run s in
            (v, inl off, handled)
      ]
