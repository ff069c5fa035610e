-- ===== src/Finance/Budget/Linked.antt =====
-- Counting transactions toward a budget as income or as spending.
use cashcove.Base.{
  and_true, ℕ, ◌≡◌, refl, ap, sym, ◌∙◌, inl, inr, Bool, true, false, not, ◌&&◌, ◌||◌, some, List,
  [], ◌++◌, ◌==◌, Bool-cases, Option-cases, arith, any_b, map, All, select, select-append, is_some,
  find,
}
use mathlib.Core.List.{append-nil}
use cashcove.Finance.Store.{Transaction}
use cashcove.Finance.Automations.{Engine}
use cashcove.Finance.Budget.{
  BudgetKind, Budget, BudgetLink, Tables, Hit, hit_by, joined, taken_off, joins_explicit,
  source_hits, hits, counts_as, counted, explicit,
}
use cashcove.Finance.Budget.Linking.{
  all_exist, only_ids, is_one_of, own_link_to, counts_otherwise, linked_to, without_exclusions,
  link_transactions,
}
use cashcove.Finance.Budget.Counts.{IsOneThing, sources, source_hits-sources}
use cashcove.Finance.Budget.Adding.{All-append, explicit_counts, selected-nothing}
use cashcove.Finance.Budget.NewLinks.{
  any_b-append, select-All, rekinded, joins-rekinded, kinds-rekinded, sources-rekinded,
  rekinded-IsOneThing, created, joins-created, kinds-created, sources-created, created-IsOneThing,
}
use cashcove.Finance.Budget.Found.{neither_one, kind_eq→eq, still_off, find-counted}

module _ (e : Engine) (new_id : ℕ → ℕ) (tables : Tables) (budget : Budget) (wanted : List ℕ)
    (kind : BudgetKind) (one : All IsOneThing tables.links) where
  -- The tables with the transactions put back, and what they count as then.
  abbrev back : Tables
  back = record tables { exclusions = without_exclusions budget.id wanted tables.exclusions }

  abbrev counting : List Hit
  counting = counted e back budget (only_ids wanted) false tables.db.transactions

  abbrev after : Tables
  after = record back { links = linked_to new_id budget.id kind counting tables.links wanted }

  abbrev needs_link : ℕ → Bool
  needs_link id =
      not (any_b (own_link_to budget.id id) tables.links) && counts_otherwise counting kind id

  links-after :
      after.links
      ≡ map (rekinded e budget.id wanted kind) tables.links
        ++ created e budget.id wanted kind new_id needs_link wanted
  unfolding linked_to
  links-after = refl

  sources-after : sources after.links ≡ sources tables.links
  sources-after = rw links-after (
      select-append (λ l. not (is_some l.transaction_id))
        (map (rekinded e budget.id wanted kind) tables.links)
        (created e budget.id wanted kind new_id needs_link wanted)
      ∙ rw
          (
            sources-rekinded e budget.id wanted kind tables.links,
            sources-created e budget.id wanted kind new_id needs_link wanted,
          )
          (append-nil (sources tables.links)))

  joins-after :
      (t : Transaction)
      → is_one_of wanted t.id ≡ true
      → any_b (joins_explicit e budget.id t) after.links
        ≡ (any_b (own_link_to budget.id t.id) tables.links || needs_link t.id)
  joins-after t among = rw links-after (
      any_b-append (joins_explicit e budget.id t)
        (map (rekinded e budget.id wanted kind) tables.links)
        (created e budget.id wanted kind new_id needs_link wanted)
      ∙ rw
          (
            joins-rekinded e budget.id wanted kind t tables.links,
            joins-created e budget.id wanted kind new_id needs_link t wanted,
            among,
            and_true,
          )
          refl)

  IsOneThing-after : All IsOneThing after.links
  IsOneThing-after = rw links-after (
      All-append IsOneThing (map (rekinded e budget.id wanted kind) tables.links)
        (created e budget.id wanted kind new_id needs_link wanted)
        (rekinded-IsOneThing e budget.id wanted kind tables.links one)
        (created-IsOneThing e budget.id wanted kind new_id needs_link wanted))

  source_hits-after :
      (t : Transaction)
      → source_hits e tables budget after.links t ≡ source_hits e tables budget tables.links t
  source_hits-after t =
      source_hits-sources e tables budget after.links t IsOneThing-after
      ∙ ap (λ l. source_hits e tables budget l t) sources-after
      ∙ sym (source_hits-sources e tables budget tables.links t one)

  kinds-after :
      (t : Transaction)
      → is_one_of wanted t.id ≡ true
      → All (λ l. l.kind ≡ kind) (select (joins_explicit e budget.id t) after.links)
  kinds-after t among = rw links-after (
      select-All (λ l. l.kind ≡ kind) (joins_explicit e budget.id t)
        (map (rekinded e budget.id wanted kind) tables.links)
        (created e budget.id wanted kind new_id needs_link wanted)
        (kinds-rekinded e budget.id wanted kind t tables.links among)
        (kinds-created e budget.id wanted kind new_id needs_link (joins_explicit e budget.id t)
          wanted))

  no_explicit :
      (t : Transaction) (links : List BudgetLink)
      → any_b (joins_explicit e budget.id t) links ≡ false
      → joined t explicit (joins_explicit e budget.id t) links ≡ []
  unfolding joined
  no_explicit t links h =
      ap (map (hit_by t explicit)) (selected-nothing (joins_explicit e budget.id t) links h)

  -- Where no link of its own is there or added, it has the hits that it had.
  hits-after :
      (t : Transaction)
      → any_b (joins_explicit e budget.id t) after.links ≡ false
      → any_b (joins_explicit e budget.id t) tables.links ≡ false
      → hits e after budget t ≡ hits e back budget t
  unfolding hits source_hits
  hits-after t no_new no_old =
      rw (no_explicit t after.links no_new, no_explicit t tables.links no_old, source_hits-after t)
        refl

  linked_counts :
      (t : Transaction)
      → is_one_of wanted t.id ≡ true
      → All (λ (u : Transaction). u.id ≡ t.id → u ≡ t) tables.db.transactions
      → (h : Hit) × (counts_as e after budget false t ≡ some h) × (h.kind ≡ kind)
  unfolding counts_as taken_off counts_otherwise
  linked_counts t among key =
      let on = still_off budget.id wanted t tables.exclusions among in
      elim (Bool-cases (any_b (joins_explicit e budget.id t) after.links)) [
        | inl joins ↦
            let (h, first, right) =
              explicit_counts e after budget kind t joins (kinds-after t among) in
            (h, rw on first, right)
        | inr no_new ↦
            let neither = sym (joins-after t among) ∙ no_new in
            let no_old : any_b (own_link_to budget.id t.id) tables.links ≡ false =
              ground (arith, neither) in
            let counts : counts_otherwise counting kind t.id ≡ false =
              neither_one (any_b (own_link_to budget.id t.id) tables.links)
                (counts_otherwise counting kind t.id) neither in
            elim (Option-cases (find (λ hit. hit.transaction_id == t.id) counting)) [
              | inl missing ↦ cc (rw (counts_otherwise, missing) at counts)
              | inr (h, found) ↦ (
                h,
                rw (hits-after t no_new no_old) (
                    find-counted e back budget (only_ids wanted) tables.db.transactions t h key
                      found),
                kind_eq→eq h.kind kind (rw (counts_otherwise, found) at counts),
              )
            ]
      ]

-- Counting transactions toward a budget as income or as spending (`link_transactions`), where it
-- succeeds, leaves each of them counting as that, whatever the budget's sources would make of it
-- and whether or not it had been taken off: where a link to a transaction is to nothing else, and
-- no other transaction has its id.
pub link_transactions-counts_as :
    (e : Engine) (new_id : ℕ → ℕ) (tables tables' : Tables) (budget : Budget) (wanted : List ℕ)
    (kind : BudgetKind) (n : ℕ) (t : Transaction)
    → All IsOneThing tables.links
    → All (λ (u : Transaction). u.id ≡ t.id → u ≡ t) tables.db.transactions
    → is_one_of wanted t.id ≡ true
    → link_transactions e new_id tables budget wanted kind ≡ inr (n, tables')
    → (h : Hit) × (counts_as e tables' budget false t ≡ some h) × (h.kind ≡ kind)
unfolding link_transactions
link_transactions-counts_as e new_id tables tables' budget wanted kind n t one key among h =
    elim (Bool-cases (all_exist tables wanted)) [
      | inr missing ↦ cc (rw missing at h)
      | inl exist ↦
          let same : after e new_id tables budget wanted kind one ≡ tables' = cc (rw exist at h) in
          rw (← same) (linked_counts e new_id tables budget wanted kind one t among key)
    ]
