-- ===== src/Alerts/Examples.antt =====
-- Alerts at concrete inputs: a mail server, a large purchase, and a wallet that runs low twice.
use cashcove.Base.{
  ℕ, true, false, Option, none, some, [], ◌∷◌, ◌≡◌, ◌↔◌, refl, map, select, pos, negsuc,
}
use cashcove.Base.Text.{Text}
use cashcove.Calendar.{date}
use cashcove.Finance.Store.{Transaction, TransactionSource}
use cashcove.Finance.Ledger.{AccountSource, LedgerAccount}
use cashcove.Alerts.Channels.{
  SmtpTransport, AlertSettings, AlertSettingsPatch, SmtpConnection, ChannelSettings, ok,
  save_settings, patched_row, new_settings, row_or_new, smtp_draft, validate_smtp, smtp_from_row,
  opened, validate_discord, smtp_credentials, draft_of, invalid, smtp_auth_requires_tls,
}
use cashcove.Alerts.Channels.Saved.{IsUsable, save_settings-IsUsable}
use cashcove.Alerts.Channels.Draft.{smtp_draft-saved}
use cashcove.Alerts.Delivery.{
  AlertPreferences, AlertChannel, email, EventKey, transaction_event, large_transaction, queue_all,
  queue_alert, large_transaction_alert, queue_channel, new_delivery,
  retry_pending_large_transactions, pending_transactions, retry_all, retry_one,
  deliver_large_transaction, deliver_alert, is_enabled, deliver_channel, deliver_row, attempt,
  answered, put, event_eq, channel_eq, Answer, sent, Outbox, enqueue_large_transactions, saved,
}
use cashcove.Alerts.Delivery.History.{IsHistory, entries}
use cashcove.Alerts.Worker.{
  Household, run_alert_checks, low_balance_notices, is_low, notices_of, look_at, state_of,
  state_or_new, crossed, put_state, recurring_notices, due_notices, budget_notices, sync_notices,
  deliver_all,
}
use cashcove.Alerts.Worker.Runs.{starts, queues, runs, Reaches-IsHistory}
use cashcove.Alerts.Worker.Episodes.{
  Check, states_after, falls, finds_low, fall_notice, low_balance_notices-falls,
}

-- A stand-in for encryption that marks the text.
abbrev encrypt : Text → Text
encrypt text = 7 ∷ text

abbrev decrypt : Text → Option Text
decrypt [] = none
decrypt (c ∷ text) = some text

abbrev mail : AlertSettingsPatch
mail = record {
  discord_enabled = none;
  discord_webhook_url = none;
  clear_discord_webhook = false;
  smtp_enabled = some true;
  smtp_host = some (104 ∷ []);
  smtp_port = some 465;
  smtp_security = some SmtpTransport.ssl;
  smtp_username = some (117 ∷ []);
  smtp_password = some (112 ∷ []);
  clear_smtp_credentials = false;
  smtp_from = some (102 ∷ []);
  smtp_to = some (116 ∷ []);
}

abbrev saved_mail : AlertSettings
saved_mail = record {
  discord_enabled = false;
  discord_webhook_url = none;
  smtp_enabled = true;
  smtp_host = some (104 ∷ []);
  smtp_port = 465;
  smtp_security = SmtpTransport.ssl;
  smtp_username = some (7 ∷ 117 ∷ []);
  smtp_password = some (7 ∷ 112 ∷ []);
  smtp_from = some (102 ∷ []);
  smtp_to = some (116 ∷ []);
  updated_by_id = some 1;
}

abbrev server : SmtpConnection
server = record {
  host = 104 ∷ [];
  port = 465;
  security = SmtpTransport.ssl;
  username = some (117 ∷ []);
  password = some (112 ∷ []);
  sender = 102 ∷ [];
  recipient = 116 ∷ [];
}

save_settings-IsUsable_example : (save_settings decrypt encrypt none mail 1 ≡ ok saved_mail) ↔ (
    (saved_mail ≡ patched_row decrypt encrypt (row_or_new none) mail 1)
    × IsUsable decrypt saved_mail)
save_settings-IsUsable_example = save_settings-IsUsable decrypt encrypt none mail 1 saved_mail

smtp_draft-saved_example : (smtp_draft decrypt none mail ≡ ok server) ↔ (
    (validate_smtp decrypt (patched_row decrypt encrypt (row_or_new none) mail 1) ≡ ok tt)
    × (smtp_from_row decrypt (some (patched_row decrypt encrypt (row_or_new none) mail 1))
        ≡ some server))
unfolding patched_row
smtp_draft-saved_example =
    smtp_draft-saved decrypt encrypt (λ t. refl) none mail 1 server refl refl refl

saved_mail_test : save_settings decrypt encrypt none mail 1 ≡ ok saved_mail
unfolding save_settings patched_row row_or_new new_settings validate_discord validate_smtp opened
saved_mail_test = refl

draft_test : smtp_draft decrypt none mail ≡ ok server
unfolding smtp_draft smtp_credentials draft_of row_or_new new_settings opened
draft_test = refl

-- Without TLS the credentials are refused.
plain_test :
    save_settings decrypt encrypt none (record mail { smtp_security = some SmtpTransport.plain }) 1
    ≡ invalid smtp_auth_requires_tls
unfolding save_settings patched_row row_or_new new_settings validate_discord validate_smtp opened
plain_test = refl

abbrev preferences : AlertPreferences
preferences = record {
  subscription_due_enabled = false;
  subscription_due_days_before = 3;
  bill_due_enabled = false;
  bill_due_days_before = 5;
  low_balance_enabled = true;
  low_balance_threshold = pos 10_000;
  large_transaction_enabled = true;
  large_transaction_threshold = 50_000;
  budget_threshold_enabled = true;
  budget_threshold_percent = 90;
  sync_failure_enabled = true;
}

abbrev mail_only : ChannelSettings
mail_only = record { discord_url = none; smtp = some server }

abbrev sofa : Transaction
sofa = record {
  id = 3;
  account_id = 5;
  on = date 2024 1 30;
  amount = negsuc 89_999;
  created_at = 20;
  payee = [];
  original_description = none;
  notes = none;
  source = TransactionSource.manual;
  external_id = none;
  import_id = none;
  category_id = none;
  category_chosen = false;
  subscription_id = none;
}

abbrev empty : Outbox
empty = record { deliveries = []; messages = [] }

-- Every message is taken at once.
abbrev answers : EventKey → AlertChannel → ℕ → Answer
answers key channel now = sent now

abbrev queued : Outbox
queued = record {
  deliveries =
      record {
        event_key = transaction_event 3;
        alert_type = large_transaction;
        channel = email;
        subject_id = some 3;
        attempts = 0;
        last_attempt_at = none;
        sent_at = none;
        last_error = none;
      }
      ∷ [];
  messages = [];
}

queued_test :
    enqueue_large_transactions preferences mail_only (5 ∷ []) (sofa ∷ []) empty ≡ (1, queued)
unfolding enqueue_large_transactions queue_all queue_alert large_transaction_alert queue_channel
    saved new_delivery
queued_test = refl

abbrev wallet : LedgerAccount
wallet = record {
  id = 5;
  source = AccountSource.manual;
  balance = pos 3_000;
  balance_updated_at = 20;
  closed_at = none;
}

abbrev household : Household
household = record {
  preferences = preferences;
  channels = mail_only;
  accounts = record wallet { balance = pos 30_000 } ∷ [];
  subscriptions = [];
  budgets = [];
  connections = [];
  transactions = sofa ∷ [];
}

-- The purchase is queued, and a run at 1,000 sends it.
abbrev delivered : Outbox
delivered = record {
  deliveries =
      record {
        event_key = transaction_event 3;
        alert_type = large_transaction;
        channel = email;
        subject_id = some 3;
        attempts = 1;
        last_attempt_at = some 1_000;
        sent_at = some 1_000;
        last_error = none;
      }
      ∷ [];
  messages =
      record { event_key = transaction_event 3; channel = email; at = 1_000; taken = true } ∷ [];
}

run_test :
    run_alert_checks answers household (date 2024 1 31) (λ key. 1_000) [] queued
    ≡ some (0, record { account_id = 5; active = false; episode = 0 } ∷ [], delivered)
unfolding run_alert_checks notices_of low_balance_notices look_at state_of state_or_new crossed
    put_state is_low recurring_notices due_notices budget_notices sync_notices deliver_all
    retry_pending_large_transactions pending_transactions retry_all retry_one
    deliver_large_transaction large_transaction_alert deliver_alert is_enabled deliver_channel saved
    deliver_row attempt answered put event_eq channel_eq
run_test = refl

Reaches-IsHistory_example :
    IsHistory
      (saved delivered.deliveries (transaction_event 3) email)
      (entries (transaction_event 3) email delivered.messages)
Reaches-IsHistory_example =
    Reaches-IsHistory answers
      (runs household (date 2024 1 31) (λ key. 1_000) []
        (record { account_id = 5; active = false; episode = 0 } ∷ []) 0
        (queues preferences mail_only (5 ∷ []) (sofa ∷ []) 1 (starts {out = empty} refl)
          queued_test)
        run_test)
      (transaction_event 3) email

abbrev check : LedgerAccount → Check
check account = record { accounts = account ∷ []; threshold = pos 10_000; enabled = true }

abbrev rich : LedgerAccount
rich = record wallet { balance = pos 30_000 }

low_balance_notices-falls_example :
    (low_balance_notices
      (wallet ∷ [])
      (pos 10_000)
      true
      (states_after (check rich ∷ check wallet ∷ []))).0
    ≡ map
        (λ (a : LedgerAccount).
          fall_notice a.id (falls (check wallet ∷ check rich ∷ check wallet ∷ []) a.id))
        (select (is_low (pos 10_000) true) (wallet ∷ []))
low_balance_notices-falls_example =
    low_balance_notices-falls (check wallet) (check rich ∷ check wallet ∷ [])
      ((refl, tt), ((refl, tt), ((refl, tt), tt)))

falls_test : falls (check wallet ∷ check wallet ∷ check rich ∷ check wallet ∷ []) 5 ≡ 2
unfolding falls finds_low is_low
falls_test = refl
