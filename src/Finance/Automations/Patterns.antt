-- ===== src/Finance/Automations/Patterns.antt =====
-- What `LIKE` and regular expressions are relied on for, and what the patterns find.
use cashcove.Base.{
  ℕ, ◌≡◌, refl, ap, ◌∙◌, inl, inr, Bool, true, false, ◌&&◌, ◌||◌, List, [], ◌∷◌, ◌++◌, ◌==◌,
  if◌then◌else◌, Bool-cases, arith, any_b, map,
}
use mathlib.Core.List.{append_assoc}
use cashcove.Base.Text.{Text}
use cashcove.Finance.Text.{space, is_nil}
use cashcove.Finance.Automations.{
  Engine, percent, underscore, backslash, replace, like_pattern, pattern_of, alternatives,
}

abbrev pub begins : Text → Text → Bool
begins [] text = true
begins (c ∷ key) [] = false
begins (c ∷ key) (d ∷ text) = d == c && begins key text

-- Whether some end of the text passes, the whole of it and nothing included.
abbrev pub some_end : (Text → Bool) → Text → Bool
some_end test [] = test []
some_end test (c ∷ text) = test (c ∷ text) || some_end test text

abbrev pub has : Text → Text → Bool
has key text = some_end (begins key) text

-- Whether the text starts with the character and the rest of it passes.
abbrev pub follows : ℕ → (Text → Bool) → Text → Bool
follows c test [] = false
follows c test (d ∷ text) = d == c && test text

abbrev pub is_special : ℕ → Bool
is_special c = c == percent || c == underscore || c == backslash

-- How a regular expression is written for one of some patterns, as a group that is not captured:
-- `(?:`, the patterns with `|` between them, and `)`.
abbrev pub group_end : List Text → Text
group_end [] = b')' ∷ []
group_end (p ∷ ps) = b'|' ∷ (p ++ group_end ps)

abbrev pub group : Text → List Text → Text
group p ps = b'(' ∷ b'?' ∷ b':' ∷ (p ++ group_end ps)

-- The documented behaviour of an engine: a space is whitespace for Python; `LIKE` takes `%` for any
-- text, a character after the escape character and any other character but `_` for itself, and
-- covers the whole text; a search for a group finds it anywhere in the text, and with `^` before it
-- only at the start, where any one of the patterns is enough; an escaped text stands for itself.
pub record IsDocumented (e : Engine) : Type 0 where
  pub space_is : e.is_space space ≡ true
  pub like_end : (text : Text) → e.like text [] ≡ is_nil text
  pub like_any :
      (pattern text : Text)
      → e.like text (percent ∷ pattern) ≡ some_end (λ t. e.like t pattern) text
  pub like_escaped :
      (c : ℕ) (pattern text : Text)
      → e.like text (backslash ∷ c ∷ pattern) ≡ follows c (λ t. e.like t pattern) text
  pub like_itself :
      (c : ℕ) (pattern text : Text)
      → is_special c ≡ false
      → e.like text (c ∷ pattern) ≡ follows c (λ t. e.like t pattern) text
  pub search_anywhere :
      (key : Text) (keys : List Text) (text : Text)
      → e.re_search (group (e.re_escape key) (map e.re_escape keys)) text
        ≡ some_end (λ t. e.re_search (b'^' ∷ group (e.re_escape key) (map e.re_escape keys)) t) text
  pub search_one_of :
      (key : Text) (keys : List Text) (text : Text)
      → e.re_search (b'^' ∷ group (e.re_escape key) (map e.re_escape keys)) text
        ≡ any_b (λ k. e.re_search (b'^' ∷ group (e.re_escape k) []) text) (key ∷ keys)
  pub search_escaped :
      (key text : Text) → e.re_search (b'^' ∷ group (e.re_escape key) []) text ≡ begins key text

-- The expression that is built is such a group.
alternatives-group_end :
    (p : Text) (ps : List Text) → alternatives (p ∷ ps) ++ (b')' ∷ []) ≡ p ++ group_end ps
unfolding alternatives
alternatives-group_end p [] = refl
alternatives-group_end p (q ∷ ps) =
    append_assoc p (b'|' ∷ alternatives (q ∷ ps)) (b')' ∷ [])
    ∙ ap (λ l. p ++ (b'|' ∷ l)) (alternatives-group_end q ps)

pattern_of-group :
    (re_escape : Text → Text) (prefix : Bool) (key : Text) (keys : List Text)
    → pattern_of re_escape prefix (key ∷ keys)
      ≡ (if prefix then b'^' ∷ [] else []) ++ group (re_escape key) (map re_escape keys)
pattern_of-group re_escape prefix key keys =
    ap (λ l. (if prefix then b'^' ∷ [] else []) ++ (b'(' ∷ b'?' ∷ b':' ∷ l))
      (alternatives-group_end (re_escape key) (map re_escape keys))

pub some_end-cong :
    (p q : Text → Bool) (text : Text) → ((t : Text) → p t ≡ q t) → some_end p text ≡ some_end q text
some_end-cong p q [] h = h []
some_end-cong p q (c ∷ text) h = rw (h (c ∷ text), some_end-cong p q text h) refl

pub any_b-cong :
    (p q : Text → Bool) (l : List Text) → ((x : Text) → p x ≡ q x) → any_b p l ≡ any_b q l
any_b-cong p q [] h = refl
any_b-cong p q (x ∷ l) h = rw (h x, any_b-cong p q l h) refl

some_end-either :
    (p q : Text → Bool) (text : Text)
    → some_end (λ t. p t || q t) text ≡ (some_end p text || some_end q text)
some_end-either p q [] = refl
some_end-either p q (c ∷ text) =
    rw (some_end-either p q text)
      (shuffled (p (c ∷ text)) (q (c ∷ text)) (some_end p text) (some_end q text))
  where
    shuffled : (a b x y : Bool) → ((a || b) || (x || y)) ≡ ((a || x) || (b || y))
    shuffled a b x y = ground arith

some_end-never : (text : Text) → some_end (λ t. false) text ≡ false
some_end-never [] = refl
some_end-never (c ∷ text) = some_end-never text

-- Some end starts with one of the texts exactly if one of the texts is in it.
pub some_end-begins :
    (keys : List Text) (text : Text)
    → some_end (λ t. any_b (λ k. begins k t) keys) text ≡ any_b (λ k. has k text) keys
some_end-begins [] text = some_end-never text
some_end-begins (key ∷ keys) text =
    some_end-either (begins key) (λ t. any_b (λ k. begins k t) keys) text
    ∙ ap (λ b. has key text || b) (some_end-begins keys text)

-- Each special character with a backslash before it.
abbrev escape : Text → Text
escape [] = []
escape (c ∷ text) = (if is_special c then backslash ∷ c ∷ escape text else c ∷ escape text)

escape_once :
    (text : Text)
    → replace underscore (backslash ∷ underscore ∷ []) (
        replace percent
          (backslash ∷ percent ∷ [])
          (replace backslash (backslash ∷ backslash ∷ []) text))
      ≡ escape text
unfolding replace
escape_once [] = refl
escape_once (c ∷ text) = elim (Bool-cases (c == backslash)) [
  | inl e ↦
      let same : c ≡ backslash = ground arith in
      rw same (ap (λ l. backslash ∷ backslash ∷ l) (escape_once text))
  | inr slash ↦ elim (Bool-cases (c == percent)) [
    | inl e ↦
        let same : c ≡ percent = ground arith in
        rw same (ap (λ l. backslash ∷ percent ∷ l) (escape_once text))
    | inr any ↦ elim (Bool-cases (c == underscore)) [
      | inl e ↦
          let same : c ≡ underscore = ground arith in
          rw same (ap (λ l. backslash ∷ underscore ∷ l) (escape_once text))
      | inr one ↦ rw (slash, any, one) (ap (λ l. c ∷ l) (escape_once text))
    ]
  ]
]

follows-begins :
    (c : ℕ) (key : Text) (p : Text → Bool) (text : Text)
    → ((t : Text) → p t ≡ begins key t)
    → follows c p text ≡ begins (c ∷ key) text
follows-begins c key p [] h = refl
follows-begins c key p (d ∷ text) h = rw (h text) refl

some_end-is_nil : (text : Text) → some_end is_nil text ≡ true
some_end-is_nil [] = refl
some_end-is_nil (c ∷ text) = some_end-is_nil text

module _ (e : Engine) (laws : IsDocumented e) where
  -- A search for the group of some texts finds any of them: at the start, or anywhere.
  search-start :
      (key : Text) (keys : List Text) (text : Text)
      → e.re_search (b'^' ∷ group (e.re_escape key) (map e.re_escape keys)) text
        ≡ any_b (λ k. begins k text) (key ∷ keys)
  search-start key keys text =
      laws.search_one_of key keys text
      ∙ any_b-cong _ (λ k. begins k text) (key ∷ keys) (λ k. laws.search_escaped k text)

  search-any :
      (key : Text) (keys : List Text) (text : Text)
      → e.re_search (group (e.re_escape key) (map e.re_escape keys)) text
        ≡ any_b (λ k. has k text) (key ∷ keys)
  search-any key keys text =
      laws.search_anywhere key keys text
      ∙ some_end-cong _ (λ t. any_b (λ k. begins k t) (key ∷ keys)) text
          (λ t. search-start key keys t)
      ∙ some_end-begins (key ∷ keys) text

  pub search-pattern_of :
      (key : Text) (keys : List Text) (text : Text) (prefix : Bool)
      → e.re_search (pattern_of e.re_escape prefix (key ∷ keys)) text ≡ (
          if prefix
          then any_b (λ k. begins k text) (key ∷ keys)
          else any_b (λ k. has k text) (key ∷ keys))
  search-pattern_of key keys text true =
      ap (λ p. e.re_search p text) (pattern_of-group e.re_escape true key keys)
      ∙ search-start key keys text
  search-pattern_of key keys text false =
      ap (λ p. e.re_search p text) (pattern_of-group e.re_escape false key keys)
      ∙ search-any key keys text

  like_escape : (key text : Text) → e.like text (escape key ++ (percent ∷ [])) ≡ begins key text
  like_escape [] text =
      laws.like_any [] text
      ∙ some_end-cong (λ t. e.like t []) is_nil text laws.like_end
      ∙ some_end-is_nil text
  like_escape (c ∷ key) text = elim (Bool-cases (is_special c)) [
    | inl special ↦ rw special (
        laws.like_escaped c (escape key ++ (percent ∷ [])) text
        ∙ follows-begins c key (λ t. e.like t (escape key ++ (percent ∷ []))) text
            (like_escape key))
    | inr plain ↦ rw plain (
        laws.like_itself c (escape key ++ (percent ∷ [])) text plain
        ∙ follows-begins c key (λ t. e.like t (escape key ++ (percent ∷ []))) text
            (like_escape key))
  ]

  -- A text is `LIKE` the pattern made of another text exactly if it starts with that text, or has
  -- it in it, whichever of the special characters of `LIKE` the text itself contains.
  pub like-like_pattern :
      (key text : Text) (prefix_only : Bool)
      → e.like text (like_pattern key prefix_only)
        ≡ (if prefix_only then begins key text else has key text)
  unfolding like_pattern
  like-like_pattern key text true = rw (escape_once key) (like_escape key text)
  like-like_pattern key text false = rw (escape_once key) (
      laws.like_any (escape key ++ (percent ∷ [])) text
      ∙ some_end-cong (λ t. e.like t (escape key ++ (percent ∷ []))) (begins key) text
          (like_escape key))
