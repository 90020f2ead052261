-- ===== src/Domain/Tweets/Links.antt =====
-- The text of a tweet loses the link that Twitter appends: the regular expression
-- `\shttps://t\.co/.{10}$` of `convertTweet`, which matches at the first place from which it reaches
-- the end of the text.
use Prim.Native.Char.{code}
use Prim.Native.String.{String, [], ◌∷◌, count}
use text.Mathlib.Text.{starts_with}
use estrys.Common.{ℕ, zero, suc, Bool, true, false, not, ◌&&◌, ◌||◌, ◌==◌, if◌then◌else◌}

is_space : ℕ → Bool
is_space c = c == 9 || c == 10 || c == 12 || c == 13 || c == 32

-- `.{10}$` at the end of a text: so many characters, none of them a line feed
any_chars : ℕ → String → Bool
any_chars zero [] = true
any_chars zero (c ∷ s) = false
any_chars (suc n) [] = false
any_chars (suc n) (c ∷ s) = not (code c == 10) && any_chars n s

drop_chars : ℕ → String → String
drop_chars zero s = s
drop_chars (suc n) [] = []
drop_chars (suc n) (c ∷ s) = drop_chars n s

abbrev link_prefix : String
link_prefix = "https://t.co/"

-- The expression matches a whole text.
unfoldable pub is_last_link : String → Bool
unfolding is_space any_chars drop_chars
is_last_link [] = false
is_last_link (c ∷ s) =
    is_space (code c)
    && starts_with s link_prefix
    && any_chars 10 (drop_chars (count link_prefix) s)

unfoldable pub drop_last_link : String → String
unfolding is_last_link
drop_last_link [] = []
drop_last_link (c ∷ s) = if is_last_link (c ∷ s) then [] else c ∷ drop_last_link s
