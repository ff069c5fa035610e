-- ===== src/Finance/Text.antt =====
-- Text as it is compared (backend/app/finance/text.py): in Python, and by an expression that the
-- database evaluates. The letter-case and whitespace tables are parameters.
pub mod Keys
mod Examples
use cashcove.Base.{ℕ, Bool, true, false, ◌&&◌, List, [], ◌∷◌, ◌++◌, ◌==◌, if◌then◌else◌}
use cashcove.Base.Text.{Text}

abbrev pub space : ℕ
space = b' '

abbrev pub is_nil : Text → Bool
is_nil [] = true
is_nil (c ∷ text) = false

-- `" ".join(words)`
unfoldable pub join : List Text → Text
join [] = []
join (w ∷ []) = w
join (w ∷ v ∷ ws) = w ++ (space ∷ join (v ∷ ws))

-- The word read so far, where there is one.
abbrev pub flush : Text → List Text → List Text
flush [] words = words
flush (c ∷ word) words = (c ∷ word) ∷ words

-- `btrim(text)`, which takes spaces only.
unfoldable pub trim_start : Text → Text
trim_start [] = []
trim_start (c ∷ text) = let rest = trim_start text in if c == space then rest else c ∷ text

unfoldable pub trim_end : Text → Text
trim_end [] = []
trim_end (c ∷ text) = let rest = trim_end text in if c == space && is_nil rest then [] else c ∷ rest

module _ (is_space : ℕ → Bool) where
  -- `text.split()`, with the word read so far.
  unfoldable pub split_from : Text → Text → List Text
  split_from word [] = flush word []
  split_from word (c ∷ text) =
      let after = split_from [] text in
      let longer = split_from (word ++ (c ∷ [])) text in
      if is_space c then flush word after else longer

  -- `regexp_replace(text, '\s+', ' ', 'g')`; the flag says that the run has been replaced.
  unfoldable pub collapse : Bool → Text → Text
  collapse run [] = []
  collapse run (c ∷ text) =
      let inside = collapse true text in
      let outside = collapse false text in
      if is_space c then (if run then inside else space ∷ inside) else c ∷ outside

  module _ (lower : Text → Text) where
    unfoldable pub text_key : Text → Text
    text_key text = join (split_from [] (lower text))

    unfoldable pub column_key : Text → Text
    column_key text = trim_end (trim_start (collapse false (lower text)))
