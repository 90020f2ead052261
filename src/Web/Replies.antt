-- ===== src/Web/Replies.antt =====
-- The replies of an inbox with the status of an accepted activity.
use estrys.Common.{ℕ, String, Bool, true, false, ◌≡◌, ◌≢◌, sym, ap, ap₂, ◌∙◌, inl, inr, arith}
use estrys.Outcome.{Error, Result, ok, err, panic, Action, pure, fail}
use estrys.Outcome.Inversion.{run_cases, match_call_ok, match_call_err, match_call_panic}
use estrys.Ports.{TwitterClient, InboxService}
use estrys.Web.{
  HandlerError, Reply, written, refused, Response, respond, recovered, answering, JsonResolver,
  or_refuse, http_error_handler, handle_inbox, handle_signed, inbox_user_error, activity_error,
  internal_error, wrap_error, with_user_message, skip_capture, new_error,
}
use estrys.Web.Laws.{Handled, handle_inbox_written}

recovered_ok :
    (hub : Bool) (r : Result Response) (response : Response)
    → recovered hub r ≡ ok response
    → response.status ≡ 202
    → r ≡ ok response
recovered_ok true (ok a) response h s = h
recovered_ok true (err e) response h s = cc h
recovered_ok true (panic why) response h s = ground (arith, h, s)
recovered_ok false (ok a) response h s = h
recovered_ok false (err e) response h s = h
recovered_ok false (panic why) response h s = h

module _ {W : Type 0} where
  answering_ok :
      (m : Action W Reply) (response : Response) (w u : W)
      → answering m w ≡ (ok response, u)
      → (reply : Reply) × (m w ≡ (ok reply, u)) × (respond reply ≡ response)
  unfolding answering pure fail
  answering_ok m response w u h = elim (run_cases m w) [
    | inl (reply, v, e) ↦
        let run = sym (match_call_ok _ (λ x. pure (respond x)) fail w e) ∙ h in
        (reply, ground (arith, e, run), ground (arith, run))
    | inr (inl (why, v, e)) ↦ cc (sym (match_call_err _ (λ x. pure (respond x)) fail w e) ∙ h)
    | inr (inr (why, v, e)) ↦ cc (sym (match_call_panic _ (λ x. pure (respond x)) fail w e) ∙ h)
  ]

  http_error_handler_ok :
      (hub : Bool) (m : Action W Reply) (response : Response) (w u : W)
      → http_error_handler hub m w ≡ (ok response, u)
      → response.status ≡ 202
      → (reply : Reply) × (m w ≡ (ok reply, u)) × (respond reply ≡ response)
  unfolding http_error_handler
  http_error_handler_ok hub m response w u h s =
      let r : (answering m w).0 ≡ ok response = recovered_ok hub _ response (ap (λ p. p.0) h) s in
      answering_ok m response w u (ap₂ (λ a b. (a, b)) r (ap (λ p. p.1) h))

  -- The handler refuses nothing with the status of an accepted activity.
  record RefusesPlain (m : Action W Reply) : Type 0 where
    at : (w u : W) (e : HandlerError) → m w ≡ (ok (refused e), u) → e.http_code ≢ 202

  refused_plain : (e : HandlerError) → e.http_code ≢ 202 → RefusesPlain (pure (refused e))
  unfolding pure
  refused_plain e plain = record { at = λ w u x h code. ground (arith, plain, h, code) }

  written_plain : (status : ℕ) (body : String) → RefusesPlain (pure (written status body))
  unfolding pure
  written_plain status body = record { at = λ w u x h code. cc h }

  or_refuse_plain :
      {A : Type 0} (judge : Error → HandlerError) (m : Action W A) (next : A → Action W Reply)
      → ((e : Error) → (judge e).http_code ≢ 202)
      → ((a : A) → RefusesPlain (next a))
      → RefusesPlain (or_refuse judge m next)
  unfolding or_refuse
  or_refuse_plain judge m next plain rest = record {
    at = λ w u e h. elim (run_cases m w) [
      | inl (a, v, run) ↦ (rest a).at v u e (sym (match_call_ok _ _ _ w run) ∙ h)
      | inr (inl (why, v, run)) ↦
          (refused_plain (judge why) (plain why)).at v u e (sym (match_call_err _ _ _ w run) ∙ h)
      | inr (inr (why, v, run)) ↦ cc (sym (match_call_panic _ _ _ w run) ∙ h)
    ];
  }

inbox_user_error-plain : (e : Error) → (inbox_user_error e).http_code ≢ 202
unfolding inbox_user_error with_user_message wrap_error
inbox_user_error-plain e h = ground (arith, h)

activity_error-plain : (e : Error) → (activity_error e).http_code ≢ 202
unfolding activity_error with_user_message skip_capture wrap_error
activity_error-plain e h = ground (arith, h)

internal_error-plain : (e : Error) → (internal_error e).http_code ≢ 202
unfolding wrap_error
internal_error-plain e h = ground (arith, h)

refused_status :
    (e : HandlerError) (response : Response)
    → respond (refused e) ≡ response
    → response.status ≡ 202
    → e.http_code ≡ 202
unfolding respond
refused_status e response h s = ap (λ r. r.status) h ∙ s

module _ {W : Type 0} (twitter : TwitterClient W) (inbox : InboxService W)
    (resolver : JsonResolver W) where
  handle_inbox-plain :
      (is_signed : Bool) (username body : String)
      → RefusesPlain (handle_inbox twitter inbox resolver is_signed username body)
  unfolding handle_inbox handle_signed new_error wrap_error skip_capture
  handle_inbox-plain false username body = refused_plain _ (λ h. ground (arith, h))
  handle_inbox-plain true username body = or_refuse_plain _ _ _ inbox_user_error-plain λ _.
      or_refuse_plain _ _ _ internal_error-plain λ _.
        or_refuse_plain _ _ _ internal_error-plain
          λ json. or_refuse_plain _ _ _ activity_error-plain λ _. written_plain 202 ""

  -- An inbox is answered as accepted only for a signed request whose activity was carried out.
  pub inbox_accepted :
      (hub is_signed : Bool) (username body : String) (response : Response) (w u : W)
      → http_error_handler hub (handle_inbox twitter inbox resolver is_signed username body) w
        ≡ (ok response, u)
      → response.status ≡ 202
      → (is_signed ≡ true) × Handled twitter inbox resolver username body w u
  inbox_accepted hub is_signed username body response w u h s =
      let (reply, run, same) = http_error_handler_ok hub _ response w u h s in go reply run same
    where
      go :
          (reply : Reply)
          → handle_inbox twitter inbox resolver is_signed username body w ≡ (ok reply, u)
          → respond reply ≡ response
          → (is_signed ≡ true) × Handled twitter inbox resolver username body w u
      go (written status text) run same =
          handle_inbox_written twitter inbox resolver is_signed username body status text w u run
      go (refused e) run same = absurd (
          (handle_inbox-plain is_signed username body).at w u e run
            (refused_status e response same s))
