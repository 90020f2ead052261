-- ===== src/Common/Parts.antt =====
-- `strings.Split` with a separator of one character, and the last of the parts.
use Prim.Native.Nat.{ℕ}
use Prim.Native.Char.{Char, code}
use Prim.Native.String
use Prim.Native.String.{String, [], ◌∷◌}
use mathlib.Core.Path.{◌≡◌, refl, ap, ◌∙◌}
use mathlib.Core.Logic.{◌≢◌, inl, inr}
use mathlib.Core.Bool.{true, false}
use mathlib.Core.List
use mathlib.Core.List.{List}
use text.Mathlib.TextLemmas.{nil-append, cons-append}
use estrys.Common.Tests.{◌==◌, if◌then◌else◌, Bool-cases}
use estrys.Common.Text.{AllChars}

prepend : Char → List String → List String
prepend c List.[] = List.◌∷◌ (c ∷ []) List.[]
prepend c (List.◌∷◌ p ps) = List.◌∷◌ (c ∷ p) ps

-- `strings.Split` with a separator of one character
unfoldable pub split : ℕ → String → List String
unfolding prepend
split sep [] = List.◌∷◌ [] List.[]
split sep (c ∷ s) =
    let rest = split sep s in if code c == sep then List.◌∷◌ [] rest else prepend c rest

prepend-ne-nil : (c : Char) (ps : List String) → prepend c ps ≢ List.[]
unfolding prepend
prepend-ne-nil c List.[] e = cc
prepend-ne-nil c (List.◌∷◌ p ps) e = cc

-- A split text has at least one part.
pub split-ne-nil : (sep : ℕ) (s : String) → split sep s ≢ List.[]
unfolding split
split-ne-nil sep [] e = cc
split-ne-nil sep (c ∷ s) e = elim (Bool-cases (code c == sep)) [
  | inl same ↦ cc (rw same at e)
  | inr other ↦ prepend-ne-nil c (split sep s) (rw other at e)
]

-- `parts[len(parts)-1]`, at a list that is not empty
unfoldable pub last_part : List String → String
last_part List.[] = []
last_part (List.◌∷◌ p List.[]) = p
last_part (List.◌∷◌ p ps) = last_part ps

-- No character of the text is the separator.
abbrev pub Lacks : ℕ → String → Type 0
Lacks sep s = AllChars (λ c. (code c == sep) ≡ false) s

-- The text ends with the separator.
abbrev EndsAt : ℕ → String → Type 0
EndsAt sep [] = ⊥
EndsAt sep (c ∷ []) = (code c == sep) ≡ true
EndsAt sep (c ∷ d ∷ s) = EndsAt sep (d ∷ s)

-- A text without the separator is one part.
pub split-Lacks : (sep : ℕ) (s : String) → Lacks sep s → split sep s ≡ List.◌∷◌ s List.[]
unfolding split prepend
split-Lacks sep [] h = refl
split-Lacks sep (c ∷ s) (other, h) = rw other (rw (split-Lacks sep s h) refl)

-- The parts after a text that ends with the separator are those of what follows it.
split-append :
    (sep : ℕ) (p s : String)
    → EndsAt sep p
    → (q : String) × (qs : List String) × (split sep (String.◌++◌ p s)
        ≡ List.◌∷◌ q (List.◌++◌ qs (split sep s)))
unfolding split prepend
split-append sep [] s h = absurd h
split-append sep (c ∷ []) s h =
    rw (cons-append c [] s) (rw (nil-append s) (rw h ([], List.[], refl)))
split-append sep (c ∷ d ∷ p) s h =
    let (q, qs, e) = split-append sep (d ∷ p) s h in
    elim (Bool-cases (code c == sep)) [
      | inl same ↦ rw (cons-append c (d ∷ p) s) (rw same (rw e ([], List.◌∷◌ q qs, refl)))
      | inr other ↦ rw (cons-append c (d ∷ p) s) (rw other (rw e (c ∷ q, qs, refl)))
    ]

last_part-append : (ps qs : List String) → qs ≢ List.[] → last_part (List.◌++◌ ps qs) ≡ last_part qs
unfolding last_part
last_part-append List.[] qs h = refl
last_part-append (List.◌∷◌ p List.[]) List.[] h = absurd (h refl)
last_part-append (List.◌∷◌ p List.[]) (List.◌∷◌ q qs) h = refl
last_part-append (List.◌∷◌ p (List.◌∷◌ r ps)) qs h = last_part-append (List.◌∷◌ r ps) qs h

-- The last part of a text after the separator, when the text lacks it
pub last_part-split :
    (sep : ℕ) (p s : String)
    → EndsAt sep p
    → Lacks sep s
    → last_part (split sep (String.◌++◌ p s)) ≡ s
unfolding last_part
last_part-split sep p s h lacks =
    let (q, qs, e) = split-append sep p s h in
    ap last_part e
    ∙ last_part-append (List.◌∷◌ q qs) (split sep s) (split-ne-nil sep s)
    ∙ ap last_part (split-Lacks sep s lacks)
