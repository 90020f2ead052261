-- ===== src/Web/Signature.antt =====
-- internal/activitypub/auth/http.go: the middleware that verifies the signature of a request, and the
-- route of an inbox of internal/activitypub/routes/router.go, which stands behind it. The signature
-- library and the header of a request are parameters; logging and what is captured are left out.
pub mod Laws
use estrys.Common.{String, str_eq, Bool, true, false, if◌then◌else◌, Option, none, some}
use estrys.Outcome.{Result, ok, err, panic, Action, crash, match_call}
use estrys.Models.{KeyKind, rsa, ecdsa, ed25519, ed25519_pointer, other_kind, PublicKey}
use estrys.Ports.{KeyManager, TwitterClient, InboxService}
use estrys.Web.{Response, JsonResolver, http_error_handler, handle_inbox}

-- `httpsig.Algorithm`; the variable starts as the empty text.
pub data Algorithm : Type 0 where
  ecdsa_sha256 ed25519_signature rsa_sha256 no_algorithm : Algorithm

-- `httpsig.Verifier`
pub record Verifier : Type 0 where
  pub key_id : String
  pub verify : PublicKey → Algorithm → Result (Unit {0})

-- A request as the middleware reads it: its header `signature`, and `httpsig.NewVerifier`
pub record SignedRequest : Type 0 where
  pub signature : String
  pub new_verifier : Result Verifier

-- The value of `HTTPSignature` in the context of a request, if it is there
unfoldable pub is_request_signed : Option Bool → Bool
is_request_signed (some signed) = signed
is_request_signed none = false

-- The type assertions on a key: an Ed25519 key that was parsed is a value and fits none of them.
unfoldable pub algorithm_of : KeyKind → Algorithm
algorithm_of ecdsa = ecdsa_sha256
algorithm_of ed25519_pointer = ed25519_signature
algorithm_of rsa = rsa_sha256
algorithm_of ed25519 = no_algorithm
algorithm_of other_kind = no_algorithm

module _ {W A : Type 0} (disable_http_signature_verify : Bool) (keys : KeyManager W)
    (next : Option Bool → Action W A) where
  -- The end of the middleware, after the signature was verified or not
  unfoldable pub serve_verified : Result (Unit {0}) → Action W A
  serve_verified (ok done) = next (some true)
  serve_verified (err e) = next (some disable_http_signature_verify)
  serve_verified (panic why) = crash why

  unfoldable pub verify_with : Verifier → Action W A
  verify_with verifier =
      match_call (keys.fetch_key verifier.key_id)
        (λ key. serve_verified (verifier.verify key (algorithm_of key.kind)))
        (λ e. next (some disable_http_signature_verify))

  unfoldable pub with_verifier : Result Verifier → Action W A
  with_verifier (ok verifier) = verify_with verifier
  with_verifier (err e) = next (some disable_http_signature_verify)
  with_verifier (panic why) = crash why

  unfoldable pub http_sig_middleware : SignedRequest → Action W A
  http_sig_middleware request =
      if str_eq request.signature ""
      then next (some disable_http_signature_verify)
      else with_verifier request.new_verifier

module _ {W : Type 0} (twitter : TwitterClient W) (inbox : InboxService W)
    (resolver : JsonResolver W) (disable_http_signature_verify : Bool) (keys : KeyManager W) where
  -- The handlers of the route `user_inbox`, from the middleware inwards
  unfoldable pub inbox_route : Bool → SignedRequest → String → String → Action W Response
  inbox_route hub request username body =
      http_sig_middleware disable_http_signature_verify keys
        (λ context.
          http_error_handler hub
            (handle_inbox twitter inbox resolver (is_request_signed context) username body))
        request
