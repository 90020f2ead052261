-- ===== src/Authorization/Laws.antt =====
-- Who may follow.
use Prim.Native.String.{◌++◌ as cat}
use estrys.Common.{
  String, Bool-cases, true, List, [], ◌∷◌, Any, split, has_suffix, has_suffix_iff, ◌≡◌, refl, ap,
  subst, ◌↔◌, inl, inr, arith,
}
use estrys.Outcome.{ok}
use estrys.Models.{Url}
use estrys.Activity.{iri, embedded, Property}
use estrys.Ports.{Library}
use estrys.Authorization.{
  Subject, actor_property, other_subject, can_follow_attribute, access_granted, is_granted,
  username_of, has_two_parts, decide, url_to_username, any_allowed, can_follow, vote_activity,
  supports_activity, new_activity_voter,
}

-- A name ends with an allowed one.
abbrev pub EndsWithAny : String → List String → Type 0
EndsWithAny username = Any (λ allowed. (p : String) × (username ≡ cat p allowed))

any_allowed_iff :
    (username : String) (users : List String)
    → (any_allowed username users ≡ access_granted) ↔ EndsWithAny username users
unfolding any_allowed
any_allowed_iff username [] = (λ h. cc, λ h. absurd h)
any_allowed_iff username (allowed ∷ users) = elim (Bool-cases (has_suffix username allowed)) [
  | inl ends ↦ rw ends (λ h. inl ((has_suffix_iff username allowed).0 ends), λ h. refl)
  | inr other ↦ rw other (
    λ h. inr ((any_allowed_iff username users).0 h),
    λ h. elim h [
      | inl ends ↦ cc (other, (has_suffix_iff username allowed).1 ends)
      | inr later ↦ (any_allowed_iff username users).1 later
    ],
  )
]

-- A link whose account may follow
abbrev pub MayFollow : Library → List String → Url → Type 0
MayFollow library allowed_users url =
    ((first second : String) × (rest : List String) × (split b'/' url.path ≡ first ∷ second ∷ rest))
    × EndsWithAny (username_of library url) allowed_users

has_two_parts_iff :
    (parts : List String)
    → (has_two_parts parts ≡ true)
      ↔ ((first second : String) × (rest : List String) × (parts ≡ first ∷ second ∷ rest))
unfolding has_two_parts
has_two_parts_iff parts = ground arith

decide_iff :
    (library : Library) (allowed_users : List String) (url : Url)
    → (decide allowed_users (url_to_username library url) ≡ ok access_granted)
      ↔ MayFollow library allowed_users url
unfolding url_to_username
decide_iff library allowed_users url = elim (Bool-cases (has_two_parts (split b'/' url.path))) [
  | inl two ↦ rw two (
    λ h. (
      (has_two_parts_iff _).0 two,
      (any_allowed_iff (username_of library url) allowed_users).0 (ground arith),
    ),
    λ h. ap ok ((any_allowed_iff (username_of library url) allowed_users).1 h.1),
  )
  | inr one ↦ rw one (λ h. cc, λ h. cc (one, (has_two_parts_iff _).1 h.0))
]

can_follow_iff :
    (library : Library) (allowed_users : List String) (actor : Property)
    → (can_follow library allowed_users actor ≡ ok access_granted)
      ↔ ((url : Url) × (actor ≡ iri url ∷ []) × MayFollow library allowed_users url)
unfolding can_follow
can_follow_iff library allowed_users [] = (λ h. cc, λ h. let (_, e, _) = h in cc e)
can_follow_iff library allowed_users (iri url ∷ []) = (
  λ h. (url, refl, (decide_iff library allowed_users url).0 h),
  λ h.
      let (found, e, may) = h in
      let same : found ≡ url = ground (arith, e) in
      (decide_iff library allowed_users url).1 (subst (MayFollow library allowed_users) same may),
)
can_follow_iff library allowed_users (embedded kind ∷ []) =
    (λ h. cc, λ h. let (_, e, _) = h in cc e)
can_follow_iff library allowed_users (iri url ∷ other ∷ items) =
    (λ h. cc, λ h. let (_, e, _) = h in cc e)
can_follow_iff library allowed_users (embedded kind ∷ other ∷ items) =
    (λ h. cc, λ h. let (_, e, _) = h in cc e)

vote_granted_iff :
    (library : Library) (allowed_users : List String) (actor : Property)
    → (is_granted
          (new_activity_voter library allowed_users ∷ [])
          (actor_property actor)
          can_follow_attribute
        ≡ ok true)
      ↔ (can_follow library allowed_users actor ≡ ok access_granted)
unfolding is_granted new_activity_voter vote_activity supports_activity
vote_granted_iff library allowed_users actor = ground arith

-- With the activity voter alone, as the program is set up, a follow is granted exactly when the
-- activity has one actor, it is a link whose path has a slash, and its fediverse name ends with one
-- of the allowed entries: one of them then grants every account of its instance whose name ends with it.
pub is_granted_iff :
    (library : Library) (allowed_users : List String) (subject : Subject)
    → (is_granted (new_activity_voter library allowed_users ∷ []) subject can_follow_attribute
        ≡ ok true)
      ↔ ((url : Url) × (subject ≡ actor_property (iri url ∷ []))
          × MayFollow library allowed_users url)
unfolding is_granted new_activity_voter supports_activity
is_granted_iff library allowed_users other_subject = (λ h. cc, λ h. let (_, e, _) = h in cc e)
is_granted_iff library allowed_users (actor_property actor) = (
  λ h.
      let (url, e, may) =
        (can_follow_iff library allowed_users actor).0
          ((vote_granted_iff library allowed_users actor).0 h) in
      (url, ap actor_property e, may),
  λ h.
      let (url, e, may) = h in
      let same : actor ≡ iri url ∷ [] = ground (arith, e) in
      (vote_granted_iff library allowed_users actor).1
        ((can_follow_iff library allowed_users actor).1 (url, same, may)),
)
