-- ===== src/Finance/Text/Keys.antt =====
-- The two ways to compare text agree.
use cashcove.Base.{
  ℕ, ◌≡◌, refl, ap, sym, ◌∙◌, inl, inr, Bool, true, false, List, [], ◌∷◌, ◌++◌, ◌==◌, if◌then◌else◌,
  Bool-cases, arith, All,
}
use mathlib.Core.List.{append_assoc, append-nil}
use cashcove.Base.Text.{Text}
use cashcove.Finance.Text.{
  space, is_nil, join, flush, trim_start, trim_end, split_from, collapse, text_key, column_key,
}

-- No word is empty.
AreWords : List Text → Type 0
AreWords words = All (λ w. is_nil w ≡ false) words

flush-AreWords : (word : Text) (words : List Text) → AreWords words → AreWords (flush word words)
unfolding AreWords
flush-AreWords [] words h = h
flush-AreWords (c ∷ word) words h = (refl, h)

is_nil-append : (a b : Text) → is_nil a ≡ false → is_nil (a ++ b) ≡ false
is_nil-append [] b h = cc
is_nil-append (c ∷ a) b h = refl

join-cons :
    (w : Text) (words : List Text)
    → AreWords words
    → join (w ∷ words) ≡ w ++ (if is_nil (join words) then [] else space ∷ join words)
unfolding join AreWords
join-cons w [] h = sym (append-nil w)
join-cons w (v ∷ []) h = rw (h.0) refl
join-cons w (v ∷ u ∷ words) h = rw (is_nil-append v (space ∷ join (u ∷ words)) (h.0)) refl

split_from-AreWords :
    (is_space : ℕ → Bool) (word text : Text) → AreWords (split_from is_space word text)
unfolding split_from AreWords
split_from-AreWords is_space word [] = flush-AreWords word [] tt
split_from-AreWords is_space word (c ∷ text) = elim (Bool-cases (is_space c)) [
  | inl e ↦
      rw e
        (flush-AreWords word (split_from is_space [] text) (split_from-AreWords is_space [] text))
  | inr e ↦ rw e (split_from-AreWords is_space (word ++ (c ∷ [])) text)
]

module _ (is_space : ℕ → Bool) (space-IsSpace : is_space space ≡ true) where
  not_space : (c : ℕ) → is_space c ≡ false → (c == space) ≡ false
  not_space c h = elim (Bool-cases (c == space)) [
    | inl e ↦ let same : c ≡ space = ground arith in cc (h, ap is_space same, space-IsSpace)
    | inr e ↦ e
  ]

  -- A word that has begun is followed by the rest, and the next words after one space.
  mutual
    unfolding join split_from collapse trim_end

    word-rest :
        (c : ℕ) (word text : Text)
        → join (split_from is_space (c ∷ word) text)
          ≡ (c ∷ word) ++ trim_end (collapse is_space false text)
    word-rest c word [] = sym (append-nil (c ∷ word))
    word-rest c word (d ∷ text) = elim (Bool-cases (is_space d)) [
      | inl e ↦
          rw (e, ← words-rest text)
            (join-cons (c ∷ word) (split_from is_space [] text)
              (split_from-AreWords is_space [] text))
      | inr e ↦
          rw (e, not_space d e)
            (word-rest c (word ++ (d ∷ [])) text ∙ append_assoc (c ∷ word) (d ∷ []) _)
    ]

    words-rest :
        (text : Text) → join (split_from is_space [] text) ≡ trim_end (collapse is_space true text)
    words-rest [] = refl
    words-rest (d ∷ text) = elim (Bool-cases (is_space d)) [
      | inl e ↦ rw e (words-rest text)
      | inr e ↦ rw (e, not_space d e) (word-rest d [] text)
    ]

  trim_start-inside :
      (text : Text) → trim_start (collapse is_space true text) ≡ collapse is_space true text
  unfolding trim_start collapse
  trim_start-inside [] = refl
  trim_start-inside (c ∷ text) = elim (Bool-cases (is_space c)) [
    | inl e ↦ rw e (trim_start-inside text)
    | inr e ↦ rw (e, not_space c e) refl
  ]

  trim_start-collapse :
      (text : Text) → trim_start (collapse is_space false text) ≡ collapse is_space true text
  unfolding trim_start collapse
  trim_start-collapse [] = refl
  trim_start-collapse (c ∷ text) = elim (Bool-cases (is_space c)) [
    | inl e ↦ rw e (trim_start-inside text)
    | inr e ↦ rw (e, not_space c e) refl
  ]

  -- The text that Python compares by (`text_key`) is the one that the database compares by
  -- (`column_key`), whatever letter case means, where a space is whitespace and both agree on
  -- what whitespace and letter case are.
  pub text_key-column_key :
      (lower : Text → Text) (text : Text)
      → text_key is_space lower text ≡ column_key is_space lower text
  unfolding text_key column_key
  text_key-column_key lower text = rw (trim_start-collapse (lower text)) (words-rest (lower text))
