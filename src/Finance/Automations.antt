-- ===== src/Finance/Automations.antt =====
-- What an automation looks for in a transaction (the first half of
-- backend/app/finance/automations.py, the table of backend/app/models/automation.py, and
-- `like_pattern` of backend/app/finance/transactions.py): as a condition of a query, and as a rule
-- that Python applies. Letter case, whitespace, `LIKE` and regular expressions are Python's and
-- the database's, a parameter.
pub mod Patterns
pub mod RuleBook
pub mod Alike
pub mod Covering
pub mod Order
pub mod Oldest
pub mod Sample
mod Examples
pub mod Sorting
pub mod Succeeded
pub mod Again
pub mod Agreement
pub mod Existing
pub mod Proposals
use cashcove.Base.{
  ℕ, Bool, true, false, not, ◌&&◌, ◌||◌, Option, none, some, List, [], ◌∷◌, ◌++◌, map, ◌==◌,
  if◌then◌else◌, any_b, ltb, leb, pos, ℤ, ltb_ℤ, leb_ℤ, abs_ℤ,
}
use cashcove.Base.Text.{Text, text_eq}
use cashcove.Finance.Text.{text_key, column_key}
use cashcove.Finance.Store.{Transaction}

-- The operations on text of Python, and those of the database, which has tables of its own for
-- whitespace (`\s`) and letter case. A regular expression comes first.
pub record Engine : Type 0 where
  pub is_space : ℕ → Bool
  pub lower : Text → Text
  pub db_is_space : ℕ → Bool
  pub db_lower : Text → Text
  -- `text LIKE pattern ESCAPE '\'`
  pub like : Text → Text → Bool
  -- `re.escape`, and `re.compile(pattern).search(text) is not None`
  pub re_escape : Text → Text
  pub re_search : Text → Text → Bool

pub data AutomationScope : Type 0 where
  all_of_them future : AutomationScope

pub data AutomationMatch : Type 0 where
  exact starts_with contains : AutomationMatch

pub data AutomationDirection : Type 0 where
  any_way money_in money_out : AutomationDirection

pub record Automation : Type 0 where
  pub id : ℕ
  pub created_at : ℕ
  pub name : Text
  pub payees : List Text
  pub match : AutomationMatch
  pub min_amount : Option ℕ
  pub max_amount : Option ℕ
  pub direction : AutomationDirection
  pub account_id : Option ℕ
  pub category_id : Option ℕ
  pub subscription_id : Option ℕ
  pub apply_to : AutomationScope
  pub active : Bool

pub record Looks : Type 0 where
  pub payees : List Text
  pub match : AutomationMatch
  pub account_id : Option ℕ
  pub min_amount : Option ℕ
  pub max_amount : Option ℕ
  pub direction : AutomationDirection

-- `Looks.of`
unfoldable pub looks_of : Automation → Looks
looks_of automation = record {
  payees = automation.payees;
  match = automation.match;
  account_id = automation.account_id;
  min_amount = automation.min_amount;
  max_amount = automation.max_amount;
  direction = automation.direction;
}

abbrev pub percent : ℕ
percent = b'%'

abbrev pub underscore : ℕ
underscore = b'_'

abbrev pub backslash : ℕ
backslash = 92

-- `text.replace(c, with)`, for one character.
unfoldable pub replace : ℕ → Text → Text → Text
replace c with [] = []
replace c with (d ∷ text) =
    let rest = replace c with text in if d == c then with ++ rest else d ∷ rest

unfoldable pub like_pattern : Text → Bool → Text
unfolding replace
like_pattern text prefix_only =
    let slashes = replace backslash (backslash ∷ backslash ∷ []) text in
    let percents = replace percent (backslash ∷ percent ∷ []) slashes in
    let escaped = replace underscore (backslash ∷ underscore ∷ []) percents in
    if prefix_only then escaped ++ (percent ∷ []) else percent ∷ (escaped ++ (percent ∷ []))

abbrev pub is_in : Text → List Text → Bool
is_in text keys = any_b (text_eq text) keys

-- `dict.setdefault`, where only whether the key is there matters, and the order of the items.
unfoldable pub set_default : Text → Text → List (Text × Text) → List (Text × Text)
set_default key value [] = (key, value) ∷ []
set_default key value (item ∷ items) =
    let rest = set_default key value items in
    if text_eq item.0 key then item ∷ items else item ∷ rest

-- `"|".join(keys)`
unfoldable pub alternatives : List Text → Text
alternatives [] = []
alternatives (w ∷ []) = w
alternatives (w ∷ v ∷ ws) = w ++ (b'|' ∷ alternatives (v ∷ ws))

-- `f"{start}(?:{'|'.join(map(re.escape, keys))})"`, where the match is not exact.
abbrev pub pattern_of : (Text → Text) → Bool → List Text → Text
pattern_of escape prefix keys =
    let start = if prefix then b'^' ∷ [] else [] in
    start ++ (b'(' ∷ b'?' ∷ b':' ∷ (alternatives (map escape keys) ++ (b')' ∷ [])))

-- A bound that may be left open.
abbrev pub at_least : Option ℕ → ℕ → Bool
at_least none amount = true
at_least (some least) amount = leb least amount

abbrev pub at_most : Option ℕ → ℕ → Bool
at_most none amount = true
at_most (some most) amount = leb amount most

-- The condition on the sign of the amount that a query has.
abbrev pub goes : AutomationDirection → ℤ → Bool
goes AutomationDirection.any_way amount = true
goes AutomationDirection.money_in amount = ltb_ℤ (pos 0) amount
goes AutomationDirection.money_out amount = ltb_ℤ amount (pos 0)

-- The one that a rule returns early on.
abbrev pub goes_against : AutomationDirection → ℤ → Bool
goes_against AutomationDirection.any_way amount = false
goes_against AutomationDirection.money_in amount = leb_ℤ amount (pos 0)
goes_against AutomationDirection.money_out amount = leb_ℤ (pos 0) amount

pub record Rule : Type 0 where
  pub compare : Text → Bool
  pub direction : AutomationDirection
  pub account_id : Option ℕ
  pub min_amount : Option ℕ
  pub max_amount : Option ℕ
  pub category_id : Option ℕ
  -- The object that the rule holds, by its id.
  pub subscription : Option ℕ

module _ (e : Engine) where
  -- `_by_key`, with the items so far.
  unfoldable pub by_key_from : List (Text × Text) → List Text → List (Text × Text)
  unfolding set_default
  by_key_from items [] = items
  by_key_from items (payee ∷ payees) =
      by_key_from (set_default (text_key e.is_space e.lower payee) payee items) payees

  unfoldable pub by_key : List Text → List (Text × Text)
  unfolding by_key_from
  by_key payees = by_key_from [] payees

  pub distinct_payees : List Text → List Text
  distinct_payees payees = map (λ item. item.1) (by_key payees)

  unfoldable pub payee_keys : List Text → List Text
  payee_keys payees = map (λ item. item.0) (by_key payees)

  abbrev pub columns : Transaction → List Text
  columns t =
      column_key e.db_is_space e.db_lower t.payee
      ∷ elim t.original_description [
        | none ↦ []
        | some described ↦ column_key e.db_is_space e.db_lower described
      ]
      ∷ []

  -- Whether the text of a column is, starts with or contains one of the texts.
  unfoldable pub text_matches : AutomationMatch → List Text → Text → Bool
  unfolding like_pattern
  text_matches AutomationMatch.exact wanted column = is_in column wanted
  text_matches AutomationMatch.starts_with wanted column =
      any_b (λ key. e.like column (like_pattern key true)) wanted
  text_matches AutomationMatch.contains wanted column =
      any_b (λ key. e.like column (like_pattern key false)) wanted

  -- Whether a row fulfils the conditions of `matching(looks, keys)`.
  unfoldable pub matching_keys : Looks → List Text → Transaction → Bool
  unfolding text_matches
  matching_keys looks wanted t =
      any_b (text_matches looks.match wanted) (columns t)
      && elim looks.account_id [ none ↦ true | some account ↦ t.account_id == account ]
      && goes looks.direction t.amount
      && at_least looks.min_amount (abs_ℤ t.amount)
      && at_most looks.max_amount (abs_ℤ t.amount)

  -- `matching(looks)`
  unfoldable pub matching : Looks → Transaction → Bool
  unfolding matching_keys payee_keys
  matching looks t = matching_keys looks (payee_keys looks.payees) t

  -- `_comparison`
  unfoldable pub comparison : List Text → AutomationMatch → Text → Bool
  unfolding alternatives
  comparison keys AutomationMatch.exact text = is_in text keys
  comparison keys AutomationMatch.starts_with text =
      e.re_search (pattern_of e.re_escape true keys) text
  comparison keys AutomationMatch.contains text =
      e.re_search (pattern_of e.re_escape false keys) text

  unfoldable pub covers : Rule → Transaction → Bool
  covers rule t =
      if elim rule.account_id [ none ↦ false | some account ↦ not (t.account_id == account) ]
      then false
      else if goes_against rule.direction t.amount
      then false
      else if elim rule.min_amount [ none ↦ false | some least ↦ ltb (abs_ℤ t.amount) least ]
          || elim rule.max_amount [ none ↦ false | some most ↦ ltb most (abs_ℤ t.amount) ]
      then false
      else rule.compare (text_key e.is_space e.lower t.payee) || elim t.original_description [
        | none ↦ false
        | some described ↦ rule.compare (text_key e.is_space e.lower described)
      ]
