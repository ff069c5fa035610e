-- ===== src/Imports/Preview/Shown.antt =====
-- What a preview shows of one row, and what its transaction has once it is imported.
use cashcove.Base.{
  ℕ, true, false, ◌&&◌, Option, none, some, List, [], ◌∷◌, if◌then◌else◌, is_none, ℤ, ◌≡◌, refl,
  ◌∙◌,
}
use cashcove.Calendar.{Date}
use cashcove.Finance.Store.{Transaction, TransactionSource, Subscription}
use cashcove.Finance.Subscriptions.{Outcome}
use cashcove.Base.Text.{Text}
use cashcove.Finance.Automations.{Engine, Rule, covers}
use cashcove.Finance.Automations.RuleBook.{
  RuleBook, Sorted, or_first, category_of, pick_from, pick, sorting, sort,
}
use cashcove.Finance.Automations.Sorting.{given, Sorts}
use cashcove.Finance.Automations.Succeeded.{sort-Sorted}
use cashcove.Finance.Automations.Again.{given_category-kept}
use cashcove.Imports.Rows.{or_empty, Reviewed}
use cashcove.Imports.Filing.{filed, is_importable}
use cashcove.Imports.Preview.{AutomationEffect, PreviewRow, unsaved, row_out, effect_of, effect}

-- A transaction as it is saved, with the columns that no rule reads.
abbrev saved : ℕ → ℕ → Option ℕ → Option Text → Option Text → Option ℕ → Transaction → Transaction
saved id now category_id notes external_id import_id t = record t {
  id = id;
  created_at = now;
  category_id = category_id;
  notes = notes;
  source = TransactionSource.file;
  external_id = external_id;
  import_id = import_id;
}

module _ (e : Engine) (id now : ℕ) (category_id : Option ℕ) (notes external_id : Option Text)
    (import_id : Option ℕ) where
  pick_from-saved :
      (rules : List Rule) (t : Transaction) (c s : Option ℕ)
      → pick_from e rules (saved id now category_id notes external_id import_id t) c s
        ≡ pick_from e rules t c s
  unfolding pick_from covers
  pick_from-saved [] t c s = refl
  pick_from-saved (rule ∷ rules) t c s = pick_from-saved rules t _ _

  pick-saved :
      (book : RuleBook) (t : Transaction)
      → pick e book (saved id now category_id notes external_id import_id t) ≡ pick e book t
  unfolding pick
  pick-saved book t = rw (pick_from-saved book.rules t none none) refl

  sorting-saved :
      (book : RuleBook) (t : Transaction) (subscriptions after : List Subscription)
      → ((i : ℕ) → category_of after i ≡ category_of subscriptions i)
      → sorting e book after (saved id now category_id notes external_id import_id t)
        ≡ sorting e book subscriptions t
  unfolding sorting
  sorting-saved book t subscriptions after kept =
      rw
        (sorting, pick-saved book t, given_category-kept subscriptions after (pick e book t).1 kept)
        refl

-- A day, an amount, a payee, a category and a subscription.
abbrev pub Shown : Type 0
Shown = Option Date × Option ℤ × Text × Option ℕ × Option ℕ

-- What a row of a preview shows, and what a transaction has.
abbrev pub subscription_given : Option AutomationEffect → Option ℕ
subscription_given none = none
subscription_given (some effect) = effect.subscription_id

unfoldable pub shown : PreviewRow → Shown
shown row =
    (row.date, row.amount, or_empty row.payee, row.category_id, subscription_given row.automation)

unfoldable pub had : Transaction → Shown
had t = (some t.on, some t.amount, t.payee, t.category_id, t.subscription_id)

-- The effect is left out just where the rules give nothing.
given_shown :
    (category subscription own : Option ℕ) (day on : Option Date) (amount paid : Option ℤ)
    (payee : Text) (effect : Option AutomationEffect)
    → effect ≡ (
        if is_none category && is_none subscription
        then none
        else some (record { category_id = category; subscription_id = subscription }))
    → on ≡ day
    → paid ≡ amount
    → ◌≡◌ {A = Shown}
        (day, amount, payee, or_first category own, or_first subscription none)
        (
          on,
          paid,
          payee,
          elim effect [ none ↦ own | some given ↦ or_first given.category_id own ],
          subscription_given effect,
        )
given_shown none none own day on amount paid payee effect h p q = rw (h, p, q) refl
given_shown none (some s) own day on amount paid payee effect h p q = rw (h, p, q) refl
given_shown (some c) none own day on amount paid payee effect h p q = rw (h, p, q) refl
given_shown (some c) (some s) own day on amount paid payee effect h p q = rw (h, p, q) refl

with_both :
    (f : ℤ → Date → Option AutomationEffect) (amount : Option ℤ) (day : Option Date) (a : ℤ)
    (d : Date)
    → amount ≡ some a
    → day ≡ some d
    → (elim amount [
      | none ↦ none
      | some a ↦ elim day as (λ d. Option AutomationEffect) [ none ↦ none | some d ↦ f a d ]
    ])
      ≡ f a d
with_both f amount day a d h k = rw (h, k) refl

module _ (e : Engine) (book : RuleBook) (account record_id id now : ℕ) (item : Reviewed)
    (day : Date) (amount : ℤ) (on : item.row.date ≡ some day) (paid : item.row.amount ≡ some amount)
    (importable : is_importable item.status ≡ true) where
  abbrev row : Transaction
  row =
      saved id now item.category_id item.row.memo item.row.external_id (some record_id)
        (unsaved account day amount item)

  filed-row : filed account record_id id now day item ≡ row
  unfolding filed unsaved
  filed-row = rw paid refl

  effect-sorting :
      (subscriptions : List Subscription)
      → effect e book subscriptions account item ≡ (
          let given = sorting e book subscriptions (unsaved account day amount item) in
          if is_none given.category_id && is_none given.subscription
          then none
          else some
              (record { category_id = given.category_id; subscription_id = given.subscription }))
  unfolding effect effect_of
  effect-sorting subscriptions =
      with_both (effect_of e book subscriptions account item) item.row.amount item.row.date amount
        day paid on
      ∙ rw importable refl

  had-shown :
      (subscriptions after : List Subscription) (first : Sorted)
      → ((i : ℕ) → category_of after i ≡ category_of subscriptions i)
      → Sorts e book false row after (Outcome.ok first)
      → had first.transaction ≡ shown (row_out item (effect e book subscriptions account item))
  unfolding Sorts had shown row_out unsaved
  had-shown subscriptions after first kept (left, _, _) =
      rw
        (
          left,
          sorting-saved e id now item.category_id item.row.memo item.row.external_id
              (some record_id) book (unsaved account day amount item) subscriptions after kept,
        )
        (given_shown _ _ _ _ _ _ _ _ _ (effect-sorting subscriptions) on paid)

  pub filed-shown :
      (subscriptions after : List Subscription) (first : Sorted)
      → ((i : ℕ) → category_of after i ≡ category_of subscriptions i)
      → sort e book false (filed account record_id id now day item) after ≡ Outcome.ok first
      → (had first.transaction ≡ shown (row_out item (effect e book subscriptions account item)))
        × ((i : ℕ) → category_of first.subscriptions i ≡ category_of subscriptions i)
  unfolding Sorts
  filed-shown subscriptions after first kept h =
      let sorts = sort-Sorted e book row after first (rw filed-row at h) in
      (had-shown subscriptions after first kept sorts, λ i. sorts.2 i ∙ kept i)
