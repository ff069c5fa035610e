-- ===== src/Finance/Automations/Sample.antt =====
-- An engine for the tests: a space is whitespace, and for Python so is a no-break space; letters are
-- ASCII, a text is escaped by a backslash before every character, and patterns are read from left to
-- right.
use cashcove.Base.{
  ℕ, ◌≡◌, refl, ap, sym, or_false, ◌∙◌, ◌+◌, Bool, true, false, ◌&&◌, ◌||◌, List, [], ◌∷◌, ◌++◌,
  map, ◌==◌, if◌then◌else◌, leb, any_b, arith,
}
use mathlib.Core.List.{append_assoc, append-nil}
use cashcove.Base.Text.{Text}
use cashcove.Finance.Text.{space, is_nil}
use cashcove.Finance.Automations.{Engine, percent, underscore, backslash}
use cashcove.Finance.Automations.Patterns.{
  begins, has, some_end, follows, is_special, group_end, group, IsDocumented, any_b-cong,
  some_end-begins,
}

abbrev escape_all : Text → Text
escape_all [] = []
escape_all (c ∷ text) = backslash ∷ c ∷ escape_all text

-- The texts of a group, after its opening; the flag says that a backslash came before.
abbrev texts_of : Bool → Text → Text → List Text
texts_of slash word [] = word ∷ []
texts_of true word (c ∷ rest) = texts_of false (word ++ (c ∷ [])) rest
texts_of false word (c ∷ rest) =
    let escaped = texts_of true word rest in
    let next = texts_of false [] rest in
    if c == backslash then escaped else if c == b'|' then word ∷ next else word ∷ []

abbrev drop_three : Text → Text
drop_three (a ∷ b ∷ c ∷ rest) = rest
drop_three _ = []

abbrev search : Text → Text → Bool
search [] text = true
search (c ∷ pattern) text =
    if c == b'^'
    then any_b (λ k. begins k text) (texts_of false [] (drop_three pattern))
    else any_b (λ k. has k text) (texts_of false [] (drop_three (c ∷ pattern)))

-- The flag says that the escape character came before.
abbrev like_with : Bool → Text → Text → Bool
like_with slash [] text = is_nil text
like_with true (c ∷ pattern) text = follows c (like_with false pattern) text
like_with false (c ∷ pattern) text =
    if c == backslash
    then like_with true pattern text
    else if c == percent
    then some_end (like_with false pattern) text
    else if c == underscore
    then elim text [ [] ↦ false | d ∷ rest ↦ like_with false pattern rest ]
    else follows c (like_with false pattern) text

abbrev to_lower : ℕ → ℕ
to_lower c = if leb b'A' c && leb c b'Z' then c + 32 else c

abbrev no_break_space : ℕ
no_break_space = 160

abbrev pub plain : Engine
plain = record {
  is_space = λ c. c == space || c == no_break_space;
  lower = map to_lower;
  db_is_space = λ c. c == space;
  db_lower = map to_lower;
  like = λ text pattern. like_with false pattern text;
  re_escape = escape_all;
  re_search = search;
}

texts_of-escape_all :
    (word key rest : Text)
    → texts_of false word (escape_all key ++ rest) ≡ texts_of false (word ++ key) rest
texts_of-escape_all word [] rest = rw (append-nil word) refl
texts_of-escape_all word (c ∷ key) rest =
    texts_of-escape_all (word ++ (c ∷ [])) key rest
    ∙ ap (λ w. texts_of false w rest) (append_assoc word (c ∷ []) key)

texts_of-group_end :
    (key : Text) (keys : List Text)
    → texts_of false [] (escape_all key ++ group_end (map escape_all keys)) ≡ key ∷ keys
texts_of-group_end key [] = texts_of-escape_all [] key (b')' ∷ [])
texts_of-group_end key (next ∷ keys) =
    texts_of-escape_all [] key (group_end (map escape_all (next ∷ keys)))
    ∙ ap (λ l. key ∷ l) (texts_of-group_end next keys)

like-itself :
    (c : ℕ) (pattern text : Text)
    → is_special c ≡ false
    → like_with false (c ∷ pattern) text ≡ follows c (like_with false pattern) text
like-itself c pattern text h =
    let slash : (c == backslash) ≡ false = ground arith in
    let any : (c == percent) ≡ false = ground arith in
    let one : (c == underscore) ≡ false = ground arith in rw (slash, any, one) refl

search-start :
    (key : Text) (keys : List Text) (text : Text)
    → search (b'^' ∷ group (escape_all key) (map escape_all keys)) text
      ≡ any_b (λ k. begins k text) (key ∷ keys)
search-start key keys text = rw (texts_of-group_end key keys) refl

search-escaped :
    (key text : Text) → search (b'^' ∷ group (escape_all key) []) text ≡ begins key text
search-escaped key text = search-start key [] text ∙ or_false (begins key text)

search-one_of :
    (key : Text) (keys : List Text) (text : Text)
    → search (b'^' ∷ group (escape_all key) (map escape_all keys)) text
      ≡ any_b (λ k. search (b'^' ∷ group (escape_all k) []) text) (key ∷ keys)
search-one_of key keys text =
    search-start key keys text
    ∙ any_b-cong (λ k. begins k text) _ (key ∷ keys) (λ k. sym (search-escaped k text))

search-anywhere :
    (key : Text) (keys : List Text) (text : Text)
    → search (group (escape_all key) (map escape_all keys)) text
      ≡ some_end (λ t. search (b'^' ∷ group (escape_all key) (map escape_all keys)) t) text
search-anywhere key keys text =
    rw (texts_of-group_end key keys) (sym (some_end-begins (key ∷ keys) text))

pub plain-IsDocumented : IsDocumented plain
plain-IsDocumented = record {
  space_is = refl;
  like_end = λ text. refl;
  like_any = λ pattern text. refl;
  like_escaped = λ c pattern text. refl;
  like_itself = λ c pattern text h. like-itself c pattern text h;
  search_anywhere = λ key keys text. search-anywhere key keys text;
  search_one_of = λ key keys text. search-one_of key keys text;
  search_escaped = λ key text. search-escaped key text;
}
