-- ===== src/Plaid/Sync/Examples.antt =====
-- The results on syncs at concrete inputs.
use cashcove.Base.{ℕ, ◌+◌, ◌≤◌, ◌<◌, ◌≡◌, ◌↔◌, refl, true, none, some, []}
use cashcove.Plaid.Connection.{
  Connection, PlaidError, SyncPreferences, healthy, complete, manual, item_locked, other_type,
  unlock, login_message, next_sync,
}
use cashcove.Plaid.Sync.{lease, claim, release, Counts, finish}
use cashcove.Plaid.Sync.Lease.{claim-claim-lease, next_sync-finish}

abbrev bank : Connection
bank = record {
  status = healthy;
  error_code = none;
  error_message = none;
  history = complete;
  created_at = 0;
  last_synced_at = none;
  last_attempt_at = none;
  sync_started_at = none;
}

abbrev cut : ℕ → ℕ → ℕ
cut size text = text

abbrev no_changes : Counts
no_changes = record { added = 0; updated = 0; removed = 0 }

abbrev locked : PlaidError
locked = record { error_type = other_type 0; code = item_locked; message = 0 }

abbrev hourly : SyncPreferences
hourly = record { auto_sync = true; interval_hours = 1 }

claim-claim-lease_example :
    (((claim (claim bank 5).1 9).0 ≡ true) ↔ (5 + lease < 9))
    × (9 ≤ 5 + lease → (claim (claim bank 5).1 9).1 ≡ (claim bank 5).1)
    × ((claim (release (claim bank 5).1) 9).0 ≡ true)
unfolding claim
claim-claim-lease_example = claim-claim-lease bank 5 9 refl

next_sync-finish_example :
    next_sync
      (finish cut bank [] 1 manual 5 no_changes (some locked) 7).0
      hourly
      true
      9_000_000_000_000
    ≡ none
unfolding login_message
next_sync-finish_example =
    next_sync-finish cut bank [] 1 manual 5 no_changes locked unlock 7 9_000_000_000_000 hourly true
      refl
