-- ===== src/Plaid/Changes/Examples.antt =====
-- The result on reading changes at a concrete input: the first request is refused because the changes
-- moved, and the next ones are answered with one page.
use cashcove.Base.{ℕ, zero, suc, ◌-◌, [], ◌∷◌, false}
use cashcove.Plaid.Connection.{api_error, mutated}
use cashcove.Plaid.Sync.{not_ready}
use cashcove.Plaid.Changes.{Answer, page, refuses, page_attempts, read_changes}
use cashcove.Plaid.Changes.Attempts.{IsAttempt, read_changes-IsAttempt}

abbrev answer : ℕ → ℕ → Answer
answer zero cursor = refuses (record { error_type = api_error; code = mutated; message = 0 })
answer (suc requests) cursor = page (record {
  added = 7 ∷ [];
  modified = [];
  removed = [];
  next_cursor = 5;
  status = not_ready;
  has_more = false;
})

read_changes-IsAttempt_example :
    IsAttempt answer 100 0 (page_attempts - 1) 0 (read_changes answer 100 0 0)
read_changes-IsAttempt_example = read_changes-IsAttempt answer 100 0 0
