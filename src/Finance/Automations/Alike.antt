-- ===== src/Finance/Automations/Alike.antt =====
-- Where Python and the database read texts alike. They need not: `\s` and `lower` of the database
-- have tables of their own, where a no-break space, for one, can be no whitespace.
use cashcove.Base.{ℕ, ◌≡◌, sym, refl, Bool, true, false, Option, none, some, [], ◌∷◌, All}
use cashcove.Base.Text.{Text}
use cashcove.Finance.Text.{space, collapse, text_key, column_key}
use cashcove.Finance.Text.Keys.{text_key-column_key}
use cashcove.Finance.Store.{Transaction}
use cashcove.Finance.Automations.{Engine}

-- Python and the database read the text alike: letter case folds to the same text, and the same
-- characters of it are whitespace.
abbrev pub IsReadAlike : Engine → Text → Type 0
IsReadAlike e text =
    (e.db_lower text ≡ e.lower text) × All (λ c. e.db_is_space c ≡ e.is_space c) (e.lower text)

abbrev pub IsDescribedAlike : Engine → Option Text → Type 0
IsDescribedAlike e none = Unit
IsDescribedAlike e (some described) = IsReadAlike e described

-- They do for the payee of a transaction, and for its description where it has one.
abbrev pub AreReadAlike : Engine → Transaction → Type 0
AreReadAlike e t = IsReadAlike e t.payee × IsDescribedAlike e t.original_description

collapse-alike :
    (p q : ℕ → Bool) (run : Bool) (text : Text)
    → All (λ c. p c ≡ q c) text
    → collapse p run text ≡ collapse q run text
unfolding collapse
collapse-alike p q run [] h = refl
collapse-alike p q run (c ∷ text) h =
    rw (h.0, collapse-alike p q true text h.1, collapse-alike p q false text h.1) refl

pub column_key-text_key :
    (e : Engine) (text : Text)
    → e.is_space space ≡ true
    → IsReadAlike e text
    → column_key e.db_is_space e.db_lower text ≡ text_key e.is_space e.lower text
unfolding column_key
column_key-text_key e text space_is alike =
    rw (column_key, alike.0, collapse-alike e.db_is_space e.is_space false (e.lower text) alike.1)
      (sym (text_key-column_key e.is_space space_is e.lower text))
