-- ===== src/Plaid/Changes.antt =====
-- Reading an account's changes page by page (`AccountChanges`, `_changed`, `_read_pages`,
-- `read_changes` and `_next_cursor` of backend/app/plaid/sync.py). Transactions and cursors are only
-- passed on, so numbers stand for them; the empty cursor is 0. What Plaid answers is the parameter
-- `answer`, of the number of requests made before and the cursor: it may answer the same request
-- differently later. The pages come from outside, so the loop over them has a bound.
pub mod Attempts
mod Examples
use cashcove.Base.{
  ℕ, zero, suc, ◌+◌, ◌-◌, Bool, true, false, not, ◌&&◌, ◌||◌, Option, none, some, List, [], ◌∷◌,
  ◌++◌, ◌==◌, if◌then◌else◌, is_none,
}
use cashcove.Plaid.Connection.{Code, mutated, PlaidError}
use cashcove.Plaid.Sync.{HistoryReply, unknown}

pub record AccountChanges : Type 0 where
  pub added : List ℕ
  pub modified : List ℕ
  pub removed : List ℕ
  pub cursor : ℕ
  pub history : HistoryReply

pub record Page : Type 0 where
  pub added : List ℕ
  pub modified : List ℕ
  pub removed : List ℕ
  pub next_cursor : ℕ
  pub status : HistoryReply
  pub has_more : Bool

pub data Answer : Type 0 where
  page : Page → Answer
  refuses : PlaidError → Answer

pub data Reading : Type 0 where
  done : AccountChanges → Reading
  fails : PlaidError → Reading
  unfinished : Reading

is_empty : List ℕ → Bool
is_empty [] = true
is_empty (x ∷ xs) = false

-- `_changed`
pub has_changed : AccountChanges → Bool
unfolding is_empty
has_changed c = not (is_empty c.added) || (not (is_empty c.modified) || not (is_empty c.removed))

-- `error.code == MUTATED`
pub is_mutated : Code → Bool
is_mutated mutated = true
is_mutated _ = false

-- `PAGE_ATTEMPTS`
abbrev pub page_attempts : ℕ
page_attempts = 3

abbrev pub with_page : AccountChanges → Page → AccountChanges
with_page changes p = record {
  added = changes.added ++ p.added;
  modified = changes.modified ++ p.modified;
  removed = changes.removed ++ p.removed;
  cursor = p.next_cursor;
  history = p.status;
}

-- What is made of an attempt, given what the attempts after it come to.
abbrev pub again : Reading × ℕ → Reading × ℕ → Reading × ℕ
again (fails e, after) rest = if is_mutated e.code then rest else (fails e, after)
again (done changes, after) rest = (done changes, after)
again (unfinished, after) rest = (unfinished, after)

module _ (answer : ℕ → ℕ → Answer) (bound : ℕ) where
  -- The loop of `_read_pages`, with the number of requests made before and after.
  pages_from : ℕ → ℕ → AccountChanges → Reading × ℕ
  pages_from zero requests changes = (unfinished, requests)
  pages_from (suc left) requests changes = elim (answer requests changes.cursor) [
    | refuses e ↦ (fails e, requests + 1)
    | page p ↦
        if p.has_more
        then pages_from left (requests + 1) (with_page changes p)
        else (done (with_page changes p), requests + 1)
  ]

  -- `_read_pages`
  pub read_pages : ℕ → ℕ → Reading × ℕ
  unfolding pages_from
  read_pages cursor requests =
      pages_from bound requests
        (record { added = []; modified = []; removed = []; cursor = cursor; history = unknown })

  -- One attempt and, if the changes moved under it, up to `left` more.
  attempts : ℕ → ℕ → ℕ → Reading × ℕ
  attempts zero cursor requests = read_pages cursor requests
  attempts (suc left) cursor requests =
      let first = read_pages cursor requests in again first (attempts left cursor first.1)

  pub read_changes : ℕ → ℕ → Reading × ℕ
  unfolding attempts
  read_changes cursor requests = attempts (page_attempts - 1) cursor requests

-- `_next_cursor`, where `none` is no cursor.
pub next_cursor : Option ℕ → AccountChanges → Option ℕ
next_cursor before changes =
    if is_none before && not (has_changed changes)
    then none
    else if changes.cursor == 0
    then none
    else some changes.cursor
