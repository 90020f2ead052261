-- ===== src/Common/Text.antt =====
-- The functions of Go's `strings` package that the program calls, over the native texts.
-- `to_lower` maps the ASCII letters, the only ones that Twitter names and host names hold.
use Prim.Native.Nat.{ℕ, zero, suc}
use Prim.Native.Char.{Char, code}
use Prim.Native.String
use Prim.Native.String.{String, [], ◌∷◌, count}
use mathlib.Core.Path.{◌≡◌, refl, sym, subst, ap, ap₂, ◌∙◌}
use mathlib.Core.Logic.{◌↔◌, ◌⊎◌, inl, inr}
use mathlib.Core.Bool.{Bool, true, ◌||◌, or-true}
use text.Mathlib.Text.{◌==◌ as str_eq, starts_with}
use text.Mathlib.TextEquality.{eq_iff}
use text.Mathlib.TextLemmas.{nil-append, cons-append}
use text.Mathlib.TextPositions.{eq_refl}
use estrys.Common.Tests.{◌==◌, if◌then◌else◌, Bool-cases}

-- `strings.ToLower`
translate : String → String → Char → Char
translate (u ∷ us) (l ∷ ls) c = if code c == code u then l else translate us ls c
translate _ _ c = c

abbrev uppers : String
uppers = "ABCDEFGHIJKLMNOPQRSTUVWXYZ"

abbrev lowers : String
lowers = "abcdefghijklmnopqrstuvwxyz"

-- The letters that `to_lower` maps to are mapped to themselves.
abbrev IsFixed : Char → Type 0
IsFixed c = translate uppers lowers c ≡ c

abbrev pub AllChars : (Char → Type 0) → String → Type 0
AllChars P [] = Unit
AllChars P (c ∷ s) = P c × AllChars P s

lowers-IsFixed : AllChars IsFixed lowers
unfolding translate
lowers-IsFixed = search refl

translate_cases :
    (P : Char → Type 0) (us ls : String) (c : Char)
    → AllChars P ls
    → (translate us ls c ≡ c) ⊎ P (translate us ls c)
unfolding translate
translate_cases P [] ls c h = inl refl
translate_cases P (u ∷ us) [] c h = inl refl
translate_cases P (u ∷ us) (l ∷ ls) c (p, h) = elim (Bool-cases (code c == code u)) [
  | inl same ↦ rw same (inr p)
  | inr other ↦ rw other (translate_cases P us ls c h)
]

translate-IsFixed : (c : Char) → IsFixed (translate uppers lowers c)
translate-IsFixed c = elim (translate_cases IsFixed uppers lowers c lowers-IsFixed) [
  | inl same ↦ ap (translate uppers lowers) same
  | inr fixed ↦ fixed
]

unfoldable pub to_lower : String → String
unfolding translate
to_lower [] = []
to_lower (c ∷ s) = translate uppers lowers c ∷ to_lower s

-- Lowering twice is lowering once.
pub to_lower_idem : (s : String) → to_lower (to_lower s) ≡ to_lower s
unfolding to_lower
to_lower_idem [] = refl
to_lower_idem (c ∷ s) = ap₂ String.◌∷◌ (translate-IsFixed c) (to_lower_idem s)

-- `strings.HasSuffix`
unfoldable pub has_suffix : String → String → Bool
has_suffix [] t = str_eq [] t
has_suffix (c ∷ s) t = str_eq (c ∷ s) t || has_suffix s t

has_suffix_sound : (s t : String) → has_suffix s t ≡ true → (p : String) × (s ≡ String.◌++◌ p t)
unfolding has_suffix
has_suffix_sound [] t h = ([], (eq_iff [] t).0 h ∙ sym (nil-append t))
has_suffix_sound (c ∷ s) t h = elim (Bool-cases (str_eq (c ∷ s) t)) [
  | inl same ↦ ([], (eq_iff (c ∷ s) t).0 same ∙ sym (nil-append t))
  | inr other ↦
      let (p, e) = has_suffix_sound s t (rw other at h) in
      (c ∷ p, ap (String.◌∷◌ c) e ∙ sym (cons-append c p t))
]

has_suffix_self : (t : String) → has_suffix t t ≡ true
unfolding has_suffix
has_suffix_self [] = eq_refl []
has_suffix_self (c ∷ t) = rw (eq_refl (c ∷ t))

has_suffix-cons : (c : Char) (s t : String) → has_suffix s t ≡ true → has_suffix (c ∷ s) t ≡ true
unfolding has_suffix
has_suffix-cons c s t h = rw h (or-true _)

has_suffix-append : (p t : String) → has_suffix (String.◌++◌ p t) t ≡ true
has_suffix-append [] t = rw (nil-append t) (has_suffix_self t)
has_suffix-append (c ∷ p) t =
    rw (cons-append c p t) (has_suffix-cons c (String.◌++◌ p t) t (has_suffix-append p t))

-- A text ends with another exactly when it is some text followed by the other.
pub has_suffix_iff :
    (s t : String) → (has_suffix s t ≡ true) ↔ ((p : String) × (s ≡ String.◌++◌ p t))
has_suffix_iff s t = (
  has_suffix_sound s t,
  λ h. subst (λ u. has_suffix u t ≡ true) (sym h.1) (has_suffix-append h.0 t),
)

-- `strings.ReplaceAll`: `skip` characters of a match are still to be dropped.
replace_from : ℕ → String → String → String → String
replace_from skip [] old new = []
replace_from (suc skip) (c ∷ s) old new = replace_from skip s old new
replace_from zero (c ∷ s) old new =
    let matched = String.◌++◌ new (replace_from (Prim.Native.Nat.pred (count old)) s old new) in
    let kept = c ∷ replace_from zero s old new in if starts_with (c ∷ s) old then matched else kept

unfoldable pub replace_all : String → String → String → String
unfolding replace_from
replace_all s old new = replace_from zero s old new
