-- ===== src/Plaid/Connection.antt =====
-- A bank connection: what Plaid's errors mean for it (backend/app/plaid/errors.py) and when it syncs
-- next (backend/app/plaid/schedule.py). A moment is a number of microseconds. A message to people is
-- named by what it is about; an error code that the tables do not list is a number.
use cashcove.Base.{
  ℕ, ◌+◌, ◌*◌, Bool, true, false, not, ◌&&◌, ◌||◌, Option, none, some, ltb, if◌then◌else◌,
}

pub data ConnectionStatus : Type 0 where
  healthy login_required error : ConnectionStatus

pub data HistoryStatus : Type 0 where
  pending recent complete : HistoryStatus

pub data SyncTrigger : Type 0 where
  linked scheduled manual reconnected : SyncTrigger

pub data Code : Type 0 where
  item_login_required invalid_credentials invalid_mfa invalid_otp invalid_send_method : Code
  invalid_updated_username insufficient_credentials mfa_not_supported : Code
  user_input_timeout item_locked password_reset_required user_setup_required : Code
  access_not_granted no_accounts : Code
  plaid_unreachable invalid_api_keys invalid_access_token item_not_found : Code
  institution_no_longer_supported institution_not_enabled_in_environment : Code
  unauthorized_institution bank_data_unavailable product_not_ready : Code
  -- `MUTATED` of backend/app/plaid/sync.py.
  mutated : Code
  other_code : ℕ → Code

pub data ErrorType : Type 0 where
  institution_error api_error rate_limit_exceeded bank_error : ErrorType
  other_type : ℕ → ErrorType

pub data Message : Type 0 where
  sign_in_again unlock take_care allow_access share_accounts : Message
  check_network check_keys connect_again unsupported_bank other_environment not_approved : Message
  try_again could_not_sync : Message
  -- The error's own message.
  own : ℕ → Message

pub record PlaidError : Type 0 where
  pub error_type : ErrorType
  pub code : Code
  pub message : ℕ

-- `_LOGIN_REQUIRED`
unfoldable pub login_message : Code → Option Message
login_message item_login_required = some sign_in_again
login_message invalid_credentials = some sign_in_again
login_message invalid_mfa = some sign_in_again
login_message invalid_otp = some sign_in_again
login_message invalid_send_method = some sign_in_again
login_message invalid_updated_username = some sign_in_again
login_message insufficient_credentials = some sign_in_again
login_message mfa_not_supported = some sign_in_again
login_message user_input_timeout = some sign_in_again
login_message item_locked = some unlock
login_message password_reset_required = some take_care
login_message user_setup_required = some take_care
login_message access_not_granted = some allow_access
login_message no_accounts = some share_accounts
login_message _ = none

-- `_NEEDS_ATTENTION`
pub attention_message : Code → Option Message
attention_message plaid_unreachable = some check_network
attention_message invalid_api_keys = some check_keys
attention_message invalid_access_token = some connect_again
attention_message item_not_found = some connect_again
attention_message institution_no_longer_supported = some unsupported_bank
attention_message institution_not_enabled_in_environment = some other_environment
attention_message unauthorized_institution = some not_approved
attention_message _ = none

-- `_TEMPORARY_TYPES`
pub is_temporary : ErrorType → Bool
is_temporary institution_error = true
is_temporary api_error = true
is_temporary rate_limit_exceeded = true
is_temporary _ = false

pub is_not_ready : Code → Bool
is_not_ready product_not_ready = true
is_not_ready _ = false

unfoldable pub is_unavailable : Code → Bool
is_unavailable bank_data_unavailable = true
is_unavailable _ = false

unfoldable pub diagnose : PlaidError → ConnectionStatus × Message
diagnose e = if is_unavailable e.code then (error, own e.message) else elim (login_message e.code) [
  | some message ↦ (login_required, message)
  | none ↦ elim (attention_message e.code) [
    | some message ↦ (error, message)
    | none ↦
        if is_temporary e.error_type || is_not_ready e.code
        then (error, try_again)
        else (error, could_not_sync)
  ]
]

-- The columns of `connections` that a sync's state is in.
pub record Connection : Type 0 where
  pub status : ConnectionStatus
  pub error_code : Option Code
  pub error_message : Option Message
  pub history : HistoryStatus
  pub created_at : ℕ
  pub last_synced_at : Option ℕ
  pub last_attempt_at : Option ℕ
  pub sync_started_at : Option ℕ

pub record SyncPreferences : Type 0 where
  pub auto_sync : Bool
  pub interval_hours : ℕ

abbrev pub minute : ℕ
minute = 60_000_000

abbrev pub import_interval : ℕ
import_interval = 2 * minute

abbrev pub import_window : ℕ
import_window = 24 * 60 * minute

abbrev pub needs_login : ConnectionStatus → Bool
needs_login login_required = true
needs_login healthy = false
needs_login error = false

abbrev pub is_complete : HistoryStatus → Bool
is_complete complete = true
is_complete pending = false
is_complete recent = false

-- `now - created_at < IMPORT_WINDOW` is written without the subtraction.
unfoldable pub is_importing : Connection → ℕ → Bool
is_importing c now =
    not (is_complete c.history)
    && (not (elim c.error_code [ none ↦ false | some code ↦ is_unavailable code ])
        && ltb now (c.created_at + import_window))

abbrev from_last : Connection → ℕ → ℕ → ℕ
from_last c interval now = elim c.last_attempt_at [ none ↦ now | some last ↦ last + interval ]

unfoldable pub next_sync : Connection → SyncPreferences → Bool → ℕ → Option (ℕ × SyncTrigger)
next_sync c preferences has_accounts now =
    if not has_accounts || needs_login c.status
    then none
    else if is_importing c now
    then some (from_last c import_interval now, linked)
    else if preferences.auto_sync
    then some (from_last c (preferences.interval_hours * 60 * minute) now, scheduled)
    else none
