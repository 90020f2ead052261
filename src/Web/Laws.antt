-- ===== src/Web/Laws.antt =====
-- What the answers of the server say.
use estrys.Common.{
  ℕ, String, Bool, Bool-cases, true, false, ◌≡◌, ◌↔◌, ◌⊎◌, refl, sym, ap, ◌∙◌, subst, inl, inr,
  arith,
}
use estrys.Outcome.{Error, ok, panic, Action, pure}
use estrys.Outcome.Inversion.{
  run_cases, pure_ok, lift_ok, match_call_ok, match_call_err, match_call_panic,
}
use estrys.Outcome.Errors.{
  is_some, as_user_not_found, is_user_does_not_exist, is_actor_not_allowed, is_no_callback_match,
  is_follow_mismatch_domain, as_unsupported_undo_object,
}
use estrys.Models.{UserObj}
use estrys.Ports.{TwitterClient, InboxService}
use estrys.Web.{
  HandlerError, wrap_error, with_user_message, skip_capture, Reply, written, refused, respond,
  lookup_error, activity_error, JsonResolver, or_refuse, handle_signed, handle_inbox,
}

module _ {W A : Type 0} where
  -- A reply that was written comes from the rest of the handler.
  pub or_refuse_written :
      (judge : Error → HandlerError) (m : Action W A) (next : A → Action W Reply) (status : ℕ)
      (body : String) (w u : W)
      → or_refuse judge m next w ≡ (ok (written status body), u)
      → (a : A) × (v : W) × (m w ≡ (ok a, v)) × (next a v ≡ (ok (written status body), u))
  unfolding or_refuse pure
  or_refuse_written judge m next status body w u h = elim (run_cases m w) [
    | inl (a, v, e) ↦
        (a, v, e, sym (match_call_ok _ next (λ why. pure (refused (judge why))) w e) ∙ h)
    | inr (inl (why, v, e)) ↦
        let run : or_refuse judge m next w ≡ (ok (refused (judge why)), v) =
          match_call_err _ next (λ why. pure (refused (judge why))) w e in
        cc (run, h)
    | inr (inr (why, v, e)) ↦
        let run : or_refuse judge m next w ≡ (panic why, v) =
          match_call_panic _ next (λ why. pure (refused (judge why))) w e in
        cc (run, h)
  ]

module _ {W : Type 0} (twitter : TwitterClient W) (inbox : InboxService W)
    (resolver : JsonResolver W) where
  -- The steps of an inbox request that was accepted
  pub record Handled (username body : String) (w u : W) : Type 0 where
    pub user : UserObj
    pub known : W
    pub is_user : twitter.get_user username w ≡ (ok user, known)
    pub json : resolver.Json
    pub is_json : resolver.decode body ≡ ok json
    pub is_done : resolver.resolve inbox.follow inbox.un_follow (pure tt) json known ≡ (ok tt, u)

  handle_signed_written :
      (username body : String) (status : ℕ) (text : String) (w u : W)
      → handle_signed twitter inbox resolver username body w ≡ (ok (written status text), u)
      → Handled username body w u
  unfolding handle_signed
  handle_signed_written username body status text w u h =
      let (user, v, first, rest1) = or_refuse_written _ _ _ status text w u h in
      let (_, x, second, rest2) = or_refuse_written _ _ _ status text v u rest1 in
      let (json, y, third, rest3) = or_refuse_written _ _ _ status text x u rest2 in
      let (_, z, fourth, rest4) = or_refuse_written _ _ _ status text y u rest3 in
      let same1 = (lift_ok _ v second).1 in
      let (is_json, same2) = lift_ok _ x third in
      let at_known =
        subst (λ p. resolver.resolve inbox.follow inbox.un_follow (pure tt) json p ≡ (ok tt, z))
          (sym (same1 ∙ same2)) fourth in
      record {
        user = user;
        known = v;
        is_user = first;
        json = json;
        is_json = is_json;
        is_done = at_known ∙ ap (λ p. (ok tt, p)) (pure_ok _ _ z rest4).1;
      }

  -- An inbox request is answered without an error only when its signature was verified, Twitter knows
  -- the user, the body was decoded, and the activity was carried out.
  pub handle_inbox_written :
      (is_signed : Bool) (username body : String) (status : ℕ) (text : String) (w u : W)
      → handle_inbox twitter inbox resolver is_signed username body w
        ≡ (ok (written status text), u)
      → (is_signed ≡ true) × Handled username body w u
  unfolding handle_inbox pure
  handle_inbox_written true username body status text w u h =
      (refl, handle_signed_written username body status text w u h)
  handle_inbox_written false username body status text w u h = cc h

-- A page is answered as not found exactly for a user that Twitter or the database does not know.
pub respond-lookup_error-not_found_iff :
    (e : Error)
    → ((respond (refused (lookup_error e))).status ≡ 404)
      ↔ ((is_some (as_user_not_found e) ≡ true) ⊎ (is_user_does_not_exist e ≡ true))
unfolding respond lookup_error with_user_message wrap_error
respond-lookup_error-not_found_iff e = elim (Bool-cases (is_some (as_user_not_found e))) [
  | inl missing ↦ rw missing (λ h. inl refl, λ h. refl)
  | inr other ↦ rw other (ground arith)
]

-- An activity that was not carried out is answered as an error of the server exactly when the error
-- is none of those that the program gives back to the sender.
pub respond-activity_error-internal_iff :
    (e : Error)
    → ((respond (refused (activity_error e))).status ≡ 500) ↔ (
        (is_actor_not_allowed e ≡ false)
        × (is_no_callback_match e ≡ false)
        × (is_follow_mismatch_domain e ≡ false)
        × (is_some (as_unsupported_undo_object e) ≡ false)
        × (is_user_does_not_exist e ≡ false))
unfolding respond activity_error with_user_message skip_capture wrap_error
respond-activity_error-internal_iff e = ground arith
