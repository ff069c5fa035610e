-- ===== src/Finance/Text/Examples.antt =====
-- Text that is compared, at a concrete one, with the space as the one whitespace.
use cashcove.Base.{ℕ, ◌≡◌, refl, Bool, [], ◌∷◌, ◌==◌}
use cashcove.Base.Text.{Text}
use cashcove.Finance.Text.{space, text_key, column_key, join, split_from}
use cashcove.Finance.Text.Keys.{text_key-column_key}

abbrev blank : ℕ → Bool
blank c = c == space

abbrev as_is : Text → Text
as_is text = text

-- `"  a  bc "`
abbrev spaced : Text
spaced = 32 ∷ 32 ∷ 97 ∷ 32 ∷ 32 ∷ 98 ∷ 99 ∷ 32 ∷ []

text_key_test : text_key blank as_is spaced ≡ 97 ∷ 32 ∷ 98 ∷ 99 ∷ []
unfolding text_key join split_from
text_key_test = refl

text_key-column_key_example : text_key blank as_is spaced ≡ column_key blank as_is spaced
text_key-column_key_example = text_key-column_key blank refl as_is spaced
