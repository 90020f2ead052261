-- ===== src/Web/Status.antt =====
-- internal/domain/status/handler.go: the page of a tweet. The template and the generator of URLs are
-- parameters.
use estrys.Common.{
  ℕ, String, str_eq, Bool, Bool-cases, true, false, ◌||◌, if◌then◌else◌, Option, none, some, ◌≡◌,
  refl, inl, inr,
}
use estrys.Outcome.{Result, ok, err, panic, Action, pure, crash, lift, match_call}
use estrys.Models.{Url, FullUser, Tweet, fields, is_authored_by, retweet}
use estrys.Ports.{TweetRepository, UserService}
use estrys.Web.{
  Reply, written, refused, new_error, wrap_error, with_user_message, HandlerError, or_refuse,
  internal_error,
}
use estrys.Web.Laws.{or_refuse_written}

-- The data of the template
pub record StatusPage : Type 0 where
  pub is_retweet : Bool
  pub url : Url
  pub tweet : Tweet
  pub user : FullUser
  pub original_user : Option FullUser

-- What `Execute` has written, and its error
abbrev pub Execution : Type 0
Execution = String × Option estrys.Outcome.Error

-- An error after some text leaves the answer that this text began, with its status 200.
unfoldable pub executed : Execution → Reply
executed (text, none) = written 200 text
executed (text, some e) = if str_eq text "" then refused (internal_error e) else written 200 text

abbrev not_found : String → ℕ → Option estrys.Outcome.Error → HandlerError
not_found text code e = with_user_message text (wrap_error e code)

module _ {W : Type 0} (repo : TweetRepository W) (users : UserService W)
    (status_url : String → String → Result Url) (execute : StatusPage → Execution) where
  unfoldable pub render : StatusPage → Action W Reply
  render page = pure (executed (execute page))

  -- A retweet is shown instead of the tweet when its author is known.
  unfoldable pub render_retweet : StatusPage → Option Tweet → Action W Reply
  render_retweet page none = render page
  render_retweet page (some t) =
      match_call (users.get_full_user (fields t).author_username)
        (λ user. render (record {
          is_retweet = true;
          url = page.url;
          tweet = t;
          user = user;
          original_user = some page.user;
        }))
        (λ e. render page)

  unfoldable pub show : String → Tweet → Action W Reply
  show id t =
      or_refuse (λ e. not_found "user not found" 404 (some e))
        (users.get_full_user (fields t).author_username)
        λ user.
          or_refuse (λ e. not_found "unable to generate status URL" 500 (some e))
            (lift (status_url (fields t).author_username id))
            λ url.
              render_retweet
                (record {
                  is_retweet = false;
                  url = url;
                  tweet = t;
                  user = user;
                  original_user = none;
                })
                (retweet t)

  -- The tweet that the repository gave, which is nil where there is none
  unfoldable pub show_found : String → String → Option Tweet → Action W Reply
  show_found username id none = crash "nil pointer dereference"
  show_found username id (some t) =
      if is_authored_by t username
      then show id t
      else pure (refused (not_found "tweet not found for this user" 400 none))

  unfoldable pub fetch : String → String → Action W Reply
  fetch username id =
      or_refuse (λ e. not_found "tweet not found" 404 (some e)) (repo.get_tweet id)
        (show_found username id)

  unfoldable pub handle_status : String → String → Action W Reply
  handle_status username id =
      if str_eq username "" || str_eq id ""
      then pure (refused (new_error "either username or id is not set" 400))
      else fetch username id

  show_found_written :
      (username id : String) (found : Option Tweet) (text : String) (w u : W)
      → show_found username id found w ≡ (ok (written 200 text), u)
      → (t : Tweet) × (found ≡ some t) × (is_authored_by t username ≡ true)
  unfolding show_found crash pure
  show_found_written username id none text w u h = cc h
  show_found_written username id (some t) text w u h =
      elim (Bool-cases (is_authored_by t username)) [
        | inl own ↦ (t, refl, own)
        | inr other ↦ cc (rw other at h)
      ]

  fetch_written :
      (username id text : String) (w u : W)
      → fetch username id w ≡ (ok (written 200 text), u)
      → (t : Tweet) × (v : W) × (repo.get_tweet id w ≡ (ok (some t), v))
        × (is_authored_by t username ≡ true)
  unfolding fetch
  fetch_written username id text w u h =
      let (found, v, first, rest) = or_refuse_written _ _ _ 200 text w u h in
      let (t, same, own) = show_found_written username id found text v u rest in
      (t, v, rw same at first, own)

  -- A page is shown only for a tweet that is stored, under the name of its author in any case.
  pub handle_status_written :
      (username id text : String) (w u : W)
      → handle_status username id w ≡ (ok (written 200 text), u)
      → (t : Tweet) × (v : W) × (repo.get_tweet id w ≡ (ok (some t), v))
        × (is_authored_by t username ≡ true)
  unfolding handle_status pure
  handle_status_written username id text w u h =
      elim (Bool-cases (str_eq username "" || str_eq id "")) [
        | inl missing ↦ cc (rw missing at h)
        | inr given ↦ fetch_written username id text w u (rw given at h)
      ]
