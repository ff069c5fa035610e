-- ===== src/Imports/Preview/Imported.antt =====
-- What a preview shows of the rows, and what importing them gives the transactions.
use cashcove.Base.{
  ℕ, true, ◌&&◌, Option, none, some, List, [], ◌∷◌, ◌++◌, map, ◌==◌, is_some, select, any_b, ℤ, ◌≡◌,
  refl, sym, ap, ◌∙◌, arith, Bool-cases, inl, inr, All,
}
use cashcove.Finance.Store.{Transaction, Subscription}
use cashcove.Finance.Recurring.{ok, >>=-eq-ok, found_or-eq-ok}
use cashcove.Finance.Automations.{Engine}
use cashcove.Finance.Automations.RuleBook.{RuleBook, category_of, load}
use cashcove.Imports.Rows.{Reviewed}
use cashcove.Imports.Filing.{
  Added, Files, FileImport, ImportCreate, add_rows, import_file, chosen_rows, is_importable,
}
use cashcove.Imports.Filing.Sums.{or_fails-eq-ok, ok_inj, found_id}
use cashcove.Imports.Filing.Undone.{importable_account-find}
use cashcove.Imports.Preview.{AutomationEffect, PreviewRow, row_out, effect, preview_rows}
use cashcove.Imports.Preview.Shown.{shown, had, filed-shown}

-- Whether a row that can be imported has an amount, as each one that can be read does.
abbrev pub HasAmount : Reviewed → Type 0
HasAmount item = is_importable item.status ≡ true → is_some item.row.amount ≡ true

abbrev IsReady : Reviewed → Type 0
IsReady item = (is_importable item.status ≡ true) × (is_some item.row.amount ≡ true)

is_some-some : (o : Option ℤ) → is_some o ≡ true → (a : ℤ) × (o ≡ some a)
is_some-some none h = cc
is_some-some (some a) h = (a, refl)

add_rows-shown :
    (e : Engine) (book : RuleBook) (account record_id : ℕ) (id_of : ℕ → ℕ) (now : ℕ)
    (items : List Reviewed) (subscriptions after : List Subscription) (added : Added)
    → All IsReady items
    → ((i : ℕ) → category_of after i ≡ category_of subscriptions i)
    → add_rows e book account record_id id_of now items after ≡ ok added
    → map had added.transactions
      ≡ map (λ item. shown (row_out item (effect e book subscriptions account item))) items
unfolding add_rows
add_rows-shown e book account record_id id_of now [] subscriptions after added ready kept h =
    ap (λ (a : Added). map had a.transactions) (sym (ok_inj h))
add_rows-shown e book account record_id id_of now (item ∷ items) subscriptions after added ready
      kept h =
    let (day, on, h1) = >>=-eq-ok _ _ h in
    let (first, sorts, h2) = >>=-eq-ok _ _ h1 in
    let (more, adds, h3) = >>=-eq-ok _ _ h2 in
    let (amount, paid) = is_some-some item.row.amount ready.0.1 in
    let one =
      filed-shown e book account record_id (id_of item.row.line) now item day amount
        (found_or-eq-ok _ _ day on) paid ready.0.0 subscriptions after first kept
        (or_fails-eq-ok _ first sorts) in
    let rest =
      add_rows-shown e book account record_id id_of now items subscriptions first.subscriptions more
        ready.1 one.1 adds in
    ap (λ (a : Added). map had a.transactions) (sym (ok_inj h3)) ∙ (λ i. one.0 i ∷ rest i)

-- The rows of a preview that people chose and that can be imported.
unfoldable pub chosen_previews : List ℕ → List PreviewRow → List PreviewRow
chosen_previews lines rows =
    select
      (λ (row : PreviewRow). any_b (λ line. line == row.line) lines && is_importable row.status)
      rows

chosen_rows-AllReady :
    (lines : List ℕ) (reviewed : List Reviewed)
    → All HasAmount reviewed
    → All IsReady (chosen_rows lines reviewed)
unfolding chosen_rows
chosen_rows-AllReady lines [] all = tt
chosen_rows-AllReady lines (item ∷ items) all =
    elim (Bool-cases (any_b (λ line. line == item.row.line) lines && is_importable item.status)) [
      | inl hit ↦
          let importable : is_importable item.status ≡ true = ground arith in
          rw hit ((importable, all.0 importable), chosen_rows-AllReady lines items all.1)
      | inr miss ↦ rw miss (chosen_rows-AllReady lines items all.1)
    ]

chosen_previews-chosen_rows :
    (effect_on : Reviewed → Option AutomationEffect) (lines : List ℕ) (reviewed : List Reviewed)
    → map shown (chosen_previews lines (map (λ item. row_out item (effect_on item)) reviewed))
      ≡ map (λ item. shown (row_out item (effect_on item))) (chosen_rows lines reviewed)
unfolding chosen_previews chosen_rows row_out
chosen_previews-chosen_rows effect_on lines [] = refl
chosen_previews-chosen_rows effect_on lines (item ∷ items) =
    let rest = chosen_previews-chosen_rows effect_on lines items in
    elim (Bool-cases (any_b (λ line. line == item.row.line) lines && is_importable item.status)) [
      | inl hit ↦ rw hit (λ i. shown (row_out item (effect_on item)) ∷ rest i)
      | inr miss ↦ rw miss rest
    ]

-- What a preview shows is what importing gives: for the rows that people chose of those that can
-- be imported, in order, the new transactions have the days, amounts, payees, categories and
-- subscriptions that the preview of the same tables shows, where each row that can be imported has
-- an amount.
pub import_file-preview_rows :
    (e : Engine) (files : Files) (body : ImportCreate) (reviewed : List Reviewed)
    (closing : Option ℤ) (id : ℕ) (id_of : ℕ → ℕ) (now : ℕ) (entry : FileImport) (sorted : ℕ)
    (imported : Files)
    → All HasAmount reviewed
    → import_file e files body reviewed closing id id_of now ≡ ok (entry, sorted, imported)
    → (added : List Transaction) × (imported.ledger.db.transactions
        ≡ added ++ files.ledger.db.transactions)
      × (map had added
          ≡ map shown
              (chosen_previews body.lines (preview_rows e files.ledger body.account_id reviewed)))
unfolding import_file preview_rows
import_file-preview_rows e files body reviewed closing id id_of now entry sorted imported amounts
      h =
    let (account, finds, h1) = >>=-eq-ok _ _ h in
    let (_, _, h2) = >>=-eq-ok _ _ h1 in
    let (_, _, h3) = >>=-eq-ok _ _ h2 in
    let (added, adds, h4) = >>=-eq-ok _ _ h3 in
    let ledger = files.ledger in
    let book = load e ledger.automations ledger.db.subscriptions in
    let own : account.id ≡ body.account_id =
      found_id body.account_id ledger.accounts account
        (importable_account-find ledger.accounts body.account_id account finds) in
    (
      added.transactions,
      ap (λ (r : FileImport × ℕ × Files). r.2.ledger.db.transactions) (sym (ok_inj h4)),
      add_rows-shown e book account.id id id_of now (chosen_rows body.lines reviewed)
            ledger.db.subscriptions ledger.db.subscriptions added
            (chosen_rows-AllReady body.lines reviewed amounts) (λ i. refl) adds
          ∙ ap
              (λ (n : ℕ).
                map (λ item. shown (row_out item (effect e book ledger.db.subscriptions n item)))
                  (chosen_rows body.lines reviewed))
              own
          ∙ sym (
              chosen_previews-chosen_rows (effect e book ledger.db.subscriptions body.account_id)
                body.lines reviewed),
    )
