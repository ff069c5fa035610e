-- ===== src/Finance/Budget/Links.antt =====
-- What taking a transaction off a budget changes.
use cashcove.Base.{
  and_false, ℕ, ◌≡◌, refl, ap, sym, ◌∙◌, inl, inr, ◌⊎◌, true, false, not, none, List, [], ◌∷◌, ◌==◌,
  if◌then◌else◌, Bool-cases, Option-cases, arith, map, All, Any, All-select, select, is_some,
}
use cashcove.Finance.Store.{Transaction}
use cashcove.Finance.Automations.{Engine}
use cashcove.Finance.Budget.{
  Budget, BudgetLink, Tables, Hit, hit_by, joined, within, taken_off, joins_explicit, source_hits,
  hits, counts_as, counted, explicit,
}
use cashcove.Finance.Budget.Linking.{Refused, all_exist, only_ids, own_link_to, unlink_transaction}
use cashcove.Finance.Budget.Counts.{
  IsOneThing, sources, source_hits-sources, select-implied, counted_nothing,
}

module _ (e : Engine) (tables : Tables) (budget : Budget) (id : ℕ) where
  -- The tables without the link of the transaction's own.
  abbrev unlinked : Tables
  unlinked = record tables {
    links = select (λ link. not (own_link_to budget.id id link)) tables.links;
  }

  own_is_none_source :
      (link : BudgetLink)
      → not (is_some link.transaction_id) ≡ true
      → not (own_link_to budget.id id link) ≡ true
  own_is_none_source link h = elim (Option-cases link.transaction_id) [
    | inl nothing ↦ rw (nothing, and_false) refl
    | inr (i, owns) ↦ cc (rw owns at h)
  ]

  joins_other :
      (t : Transaction)
      → (t.id == id) ≡ false
      → (link : BudgetLink) → joins_explicit e budget.id t link ≡ true
      → not (own_link_to budget.id id link) ≡ true
  joins_other t other link h = elim (Option-cases link.transaction_id) [
    | inl nothing ↦ rw (nothing, and_false) refl
    | inr (i, owns) ↦ rw owns (let k = rw owns at h in ground arith)
  ]

  explicit-unlinked :
      (t : Transaction)
      → (t.id == id) ≡ false
      → joined t explicit (joins_explicit e budget.id t) unlinked.links
        ≡ joined t explicit (joins_explicit e budget.id t) tables.links
  unfolding joined
  explicit-unlinked t other = ap (map (hit_by t explicit)) (
      select-implied (joins_explicit e budget.id t) (λ l. not (own_link_to budget.id id l))
        tables.links (joins_other t other))

  sources-unlinked : sources unlinked.links ≡ sources tables.links
  sources-unlinked =
      select-implied (λ l. not (is_some l.transaction_id)) (λ l. not (own_link_to budget.id id l))
        tables.links own_is_none_source

  source_hits-unlinked :
      (t : Transaction)
      → All IsOneThing tables.links
      → source_hits e tables budget unlinked.links t ≡ source_hits e tables budget tables.links t
  source_hits-unlinked t one =
      source_hits-sources e tables budget unlinked.links t
        (All-select IsOneThing (λ l. not (own_link_to budget.id id l)) tables.links one)
      ∙ ap (λ l. source_hits e tables budget l t) sources-unlinked
      ∙ sym (source_hits-sources e tables budget tables.links t one)

  hits-unlinked :
      (t : Transaction)
      → All IsOneThing tables.links
      → (t.id == id) ≡ false
      → hits e unlinked budget t ≡ hits e tables budget t
  unfolding hits source_hits
  hits-unlinked t one other = rw (explicit-unlinked t other, source_hits-unlinked t one) refl

  -- The tables with the transaction remembered as taken off.
  abbrev remembered : Tables
  remembered = record unlinked {
    exclusions = record { budget_id = budget.id; transaction_id = id } ∷ tables.exclusions;
  }

  counts_as-unlinked :
      (t : Transaction)
      → All IsOneThing tables.links
      → (t.id == id) ≡ false
      → counts_as e unlinked budget false t ≡ counts_as e tables budget false t
  unfolding counts_as taken_off
  counts_as-unlinked t one other = rw (counts_as, hits-unlinked t one other) refl

  counts_as-remembered :
      (t : Transaction)
      → All IsOneThing tables.links
      → (t.id == id) ≡ false
      → counts_as e remembered budget false t ≡ counts_as e tables budget false t
  unfolding counts_as taken_off hits source_hits
  counts_as-remembered t one other =
      let off : (id == t.id) ≡ false = ground arith in
      rw (off, and_false) (counts_as-unlinked t one other)

  counts_as-off :
      (t : Transaction) → (t.id == id) ≡ true → counts_as e remembered budget false t ≡ none
  unfolding counts_as taken_off
  counts_as-off t same =
      let mine : (budget.id == budget.id) ≡ true = ground arith in
      let off : (id == t.id) ≡ true = ground arith in rw (mine, off) refl

  only_this : (t : Transaction) → (t.id == id) ≡ true → within (only_ids (id ∷ [])) t ≡ true
  unfolding within only_ids
  only_this t same = let it : (id == t.id) ≡ true = ground arith in rw it refl

  unlink_counts :
      (t : Transaction) (tables' : Tables) (counting : List Hit)
      → All IsOneThing tables.links
      → Any (λ u. u ≡ t) tables.db.transactions
      → counted e unlinked budget (only_ids (id ∷ [])) false tables.db.transactions ≡ counting
      → (elim counting as (λ c. Refused ⊎ Tables) [
        | [] ↦ inr unlinked
        | hit ∷ more ↦ inr remembered
      ])
        ≡ inr tables'
      → counts_as e tables' budget false t
        ≡ (if t.id == id then none else counts_as e tables budget false t)
  unlink_counts t tables' [] one here count h =
      let same : unlinked ≡ tables' = cc h in
      rw (← same) (elim (Bool-cases (t.id == id)) [
        | inl it ↦ rw it (
            counted_nothing e unlinked budget (only_ids (id ∷ [])) tables.db.transactions t here
              (only_this t it) count)
        | inr other ↦ rw other (counts_as-unlinked t one other)
      ])
  unlink_counts t tables' (hit ∷ more) one here count h =
      let same : remembered ≡ tables' = cc h in
      rw (← same) (elim (Bool-cases (t.id == id)) [
        | inl it ↦ rw it (counts_as-off t it)
        | inr other ↦ rw other (counts_as-remembered t one other)
      ])

-- Taking a transaction off a budget (`unlink_transaction`), where it succeeds, leaves it counting
-- no more, by whatever source the budget has, and every other transaction counting as before:
-- where a link to a transaction is to nothing else.
pub unlink_transaction-counts_as :
    (e : Engine) (tables tables' : Tables) (budget : Budget) (id : ℕ) (t : Transaction)
    → All IsOneThing tables.links
    → Any (λ u. u ≡ t) tables.db.transactions
    → unlink_transaction e tables budget id ≡ inr tables'
    → counts_as e tables' budget false t
      ≡ (if t.id == id then none else counts_as e tables budget false t)
unfolding unlink_transaction
unlink_transaction-counts_as e tables tables' budget id t one here h =
    elim (Bool-cases (all_exist tables (id ∷ []))) [
      | inr missing ↦ cc (rw missing at h)
      | inl exists ↦ unlink_counts e tables budget id t tables' _ one here refl (rw exists at h)
    ]
