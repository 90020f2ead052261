-- ===== src/Web/Finger.antt =====
-- internal/activitypub/handlers/well_known.go: the web finger of a user, and the host meta. The
-- documents are printed by templates, which are parameters.
use estrys.Common.{
  String, str_eq, eq_iff, Bool-cases, if◌then◌else◌, some, List, [], ◌∷◌, split, ◌≡◌, refl, ap, inl,
  inr, arith,
}
use estrys.Outcome.{ok, Action, pure}
use estrys.Models.{Url, FullUser}
use estrys.Ports.{UserService}
use estrys.Web.{Reply, written, refused, new_error, wrap_error, with_user_message, or_refuse}
use estrys.Web.Laws.{or_refuse_written}

-- `HandleHostMeta`; the document is printed by a template.
unfoldable pub handle_host_meta : (Url → String) → (String → String) → Url → Reply
handle_host_meta url_string execute domain = written 200 (execute (url_string domain))

module _ {W : Type 0} (users : UserService W) (host : String) (render : FullUser → String) where
  unfoldable pub find : String → Action W Reply
  find username =
      or_refuse (λ e. with_user_message "user not found" (wrap_error (some e) 404))
        (users.get_full_user username) λ user. pure (written 200 (render user))

  -- The name and the instance of the address
  unfoldable pub find_address : List String → Action W Reply
  find_address (username ∷ instance ∷ []) =
      if str_eq instance host
      then find username
      else pure (refused (new_error "requested user is not on this instance" 404))
  find_address _ = pure (refused (new_error "username invalid" 400))

  unfoldable pub find_resource : List String → Action W Reply
  find_resource (scheme ∷ address ∷ []) = find_address (split b'@' address)
  find_resource _ = pure (refused (new_error "resource parameter should start with 'acct:'" 400))

  unfoldable pub handle_web_finger : String → Action W Reply
  handle_web_finger resource = find_resource (split b':' resource)

  -- The document of the user of a name
  abbrev pub Found : String → String → W → W → Type 0
  Found username text w u =
      (user : FullUser) × (users.get_full_user username w ≡ (ok user, u)) × (text ≡ render user)

  printed :
      (user : FullUser) (username text : String) (w v u : W)
      → users.get_full_user username w ≡ (ok user, v)
      → pure (written 200 (render user)) v ≡ (ok (written 200 text), u)
      → Found username text w u
  unfolding pure
  printed user username text w v u first rest =
      (user, ground (arith, first, rest), ground (arith, rest))

  find_written :
      (username text : String) (w u : W)
      → find username w ≡ (ok (written 200 text), u)
      → Found username text w u
  unfolding find
  find_written username text w u h =
      let (user, v, first, rest) = or_refuse_written _ _ _ 200 text w u h in
      printed user username text w v u first rest

  find_address_written :
      (parts : List String) (text : String) (w u : W)
      → find_address parts w ≡ (ok (written 200 text), u)
      → (username : String) × (parts ≡ username ∷ host ∷ []) × Found username text w u
  unfolding find_address pure
  find_address_written [] text w u h = cc h
  find_address_written (a ∷ []) text w u h = cc h
  find_address_written (a ∷ b ∷ c ∷ parts) text w u h = cc h
  find_address_written (a ∷ b ∷ []) text w u h = elim (Bool-cases (str_eq b host)) [
    | inl same ↦
        (a, ap (λ x. a ∷ x ∷ []) ((eq_iff _ _).0 same), find_written a text w u (rw same at h))
    | inr other ↦ cc (rw other at h)
  ]

  find_resource_written :
      (parts : List String) (text : String) (w u : W)
      → find_resource parts w ≡ (ok (written 200 text), u)
      → (scheme address : String) × (parts ≡ scheme ∷ address ∷ [])
        × (find_address (split b'@' address) w ≡ (ok (written 200 text), u))
  unfolding find_resource pure
  find_resource_written [] text w u h = cc h
  find_resource_written (a ∷ []) text w u h = cc h
  find_resource_written (a ∷ b ∷ []) text w u h = (a, b, refl, h)
  find_resource_written (a ∷ b ∷ c ∷ parts) text w u h = cc h

  -- A web finger is answered only for a resource of two parts, whatever the first of them is, whose
  -- second is the address of a known user on this instance, and it is the document of that user.
  pub handle_web_finger_written :
      (resource text : String) (w u : W)
      → handle_web_finger resource w ≡ (ok (written 200 text), u)
      → (scheme address username : String) × (split b':' resource ≡ scheme ∷ address ∷ [])
        × (split b'@' address ≡ username ∷ host ∷ [])
        × Found username text w u
  unfolding handle_web_finger
  handle_web_finger_written resource text w u h =
      let (scheme, address, two, rest) = find_resource_written _ text w u h in
      let (username, parts, found) = find_address_written _ text w u rest in
      (scheme, address, username, two, parts, found)
