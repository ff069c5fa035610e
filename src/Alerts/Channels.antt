-- ===== src/Alerts/Channels.antt =====
-- The settings of the channels that alerts go through: Discord and email (the parts of
-- backend/app/alerts/service.py about `AlertSettings`). Encryption and decryption
-- of a text are the parameters `encrypt` and `decrypt`, where `none` is a `DecryptionError`. An
-- encrypted value is only decrypted and never compared, so the randomness in it is left out. The
-- checks of a body's texts by pydantic are done before.
pub mod Saved
pub mod Draft
use cashcove.Base.{
  ℕ, Bool, true, false, not, ◌&&◌, ◌||◌, Option, none, some, [], ◌∷◌, if◌then◌else◌, is_some,
  is_none,
}
use cashcove.Base.Text.{Text}

pub data SmtpTransport : Type 0 where
  starttls ssl plain : SmtpTransport

-- The `code` of an `ApiError`.
pub data Problem : Type 0 where
  discord_webhook_required smtp_settings_required smtp_credentials_unreadable : Problem
  smtp_credentials_incomplete smtp_auth_requires_tls : Problem

pub data Result {ℓ} (A : Type ℓ) : Type ℓ where
  ok : A → Result A
  invalid : Problem → Result A

infixl 5 ◌>>=◌
abbrev pub ◌>>=◌ {ℓ κ} : {A : Type ℓ} {B : Type κ} → Result A → (A → Result B) → Result B
ok a >>= f = f a
invalid p >>= f = invalid p

-- `if test: raise`
abbrev pub unless : Bool → Problem → Result (Unit {0})
unless true p = invalid p
unless false p = ok tt

pub record AlertSettings : Type 0 where
  pub discord_enabled : Bool
  pub discord_webhook_url : Option Text
  pub smtp_enabled : Bool
  pub smtp_host : Option Text
  pub smtp_port : ℕ
  pub smtp_security : SmtpTransport
  pub smtp_username : Option Text
  pub smtp_password : Option Text
  pub smtp_from : Option Text
  pub smtp_to : Option Text
  pub updated_by_id : Option ℕ

-- A field that the body leaves out is `none`.
pub record AlertSettingsPatch : Type 0 where
  pub discord_enabled : Option Bool
  pub discord_webhook_url : Option Text
  pub clear_discord_webhook : Bool
  pub smtp_enabled : Option Bool
  pub smtp_host : Option Text
  pub smtp_port : Option ℕ
  pub smtp_security : Option SmtpTransport
  pub smtp_username : Option Text
  pub smtp_password : Option Text
  pub clear_smtp_credentials : Bool
  pub smtp_from : Option Text
  pub smtp_to : Option Text

pub record SmtpConnection : Type 0 where
  pub host : Text
  pub port : ℕ
  pub security : SmtpTransport
  pub username : Option Text
  pub password : Option Text
  pub sender : Text
  pub recipient : Text

pub record ChannelSettings : Type 0 where
  pub discord_url : Option Text
  pub smtp : Option SmtpConnection

-- `bool(value)`
abbrev pub is_given : Option Text → Bool
is_given none = false
is_given (some []) = false
is_given (some (c ∷ text)) = true

-- `a or b`
abbrev pub or_else : Option Text → Option Text → Option Text
or_else a b = if is_given a then a else b

abbrev pub is_plain : SmtpTransport → Bool
is_plain SmtpTransport.plain = true
is_plain SmtpTransport.starttls = false
is_plain SmtpTransport.ssl = false

-- `bool(username) != bool(password)`
abbrev pub differ : Bool → Bool → Bool
differ true b = not b
differ false b = b

-- A value of the body, where it has one, over the row's.
abbrev pub patched {ℓ} : {A : Type ℓ} → Option A → A → A
patched none old = old
patched (some new) old = new

abbrev pub patched_option {ℓ} : {A : Type ℓ} → Option A → Option A → Option A
patched_option none old = old
patched_option (some new) old = some new

-- A new row, with the defaults of its columns.
unfoldable pub new_settings : AlertSettings
new_settings = record {
  discord_enabled = false;
  discord_webhook_url = none;
  smtp_enabled = false;
  smtp_host = none;
  smtp_port = 587;
  smtp_security = SmtpTransport.starttls;
  smtp_username = none;
  smtp_password = none;
  smtp_from = none;
  smtp_to = none;
  updated_by_id = none;
}

-- `_row(db) or AlertSettings(...)`
unfoldable pub row_or_new : Option AlertSettings → AlertSettings
row_or_new none = new_settings
row_or_new (some row) = row

-- What is set, without the secrets.
pub record AlertSettingsOut : Type 0 where
  pub discord_enabled : Bool
  pub discord_configured : Bool
  pub discord_webhook_set : Bool
  pub smtp_enabled : Bool
  pub smtp_configured : Bool
  pub smtp_host : Option Text
  pub smtp_port : ℕ
  pub smtp_security : SmtpTransport
  pub smtp_username_set : Bool
  pub smtp_password_set : Bool
  pub smtp_from : Option Text
  pub smtp_to : Option Text

-- How a request to send a test message ends: the server's answer is a parameter.
pub data AlertTestOut : Type 0 where
  sent failed : AlertTestOut

module _ (decrypt : Text → Option Text) where
  -- `_decrypt`
  unfoldable pub opened : Option Text → Option Text
  opened none = none
  opened (some value) = decrypt value

  -- A value is saved and can't be decrypted.
  abbrev pub is_unreadable : Option Text → Bool
  is_unreadable value = is_some value && is_none (opened value)

  -- The checks of `_smtp_from_row` that follow the one of the three texts.
  abbrev pub has_bad_credentials : AlertSettings → Bool
  has_bad_credentials row =
      is_unreadable row.smtp_username
      || (is_unreadable row.smtp_password
          || differ (is_given (opened row.smtp_username)) (is_given (opened row.smtp_password)))

  -- The connection of three texts that are set and not empty.
  unfoldable pub connection_of :
      AlertSettings → Option Text → Option Text → Option Text → Option SmtpConnection
  connection_of row (some (h ∷ host)) (some (s ∷ sender)) (some (r ∷ recipient)) =
      if has_bad_credentials row
      then none
      else some (record {
        host = h ∷ host;
        port = row.smtp_port;
        security = row.smtp_security;
        username = opened row.smtp_username;
        password = opened row.smtp_password;
        sender = s ∷ sender;
        recipient = r ∷ recipient;
      })
  connection_of row host sender recipient = none

  -- `_smtp_from_row`
  unfoldable pub smtp_from_row : Option AlertSettings → Option SmtpConnection
  smtp_from_row none = none
  smtp_from_row (some row) =
      if not row.smtp_enabled
      then none
      else connection_of row row.smtp_host row.smtp_from row.smtp_to

  discord_from_row : Option AlertSettings → Option Text
  discord_from_row none = none
  discord_from_row (some row) = if row.discord_enabled then opened row.discord_webhook_url else none

  -- `_channels`
  unfoldable pub channels : Option AlertSettings → ChannelSettings
  unfolding discord_from_row
  channels row = record { discord_url = discord_from_row row; smtp = smtp_from_row row }

  -- `_validate_discord`
  unfoldable pub validate_discord : AlertSettings → Result (Unit {0})
  validate_discord row =
      unless (row.discord_enabled && not (is_given (opened row.discord_webhook_url)))
        discord_webhook_required

  -- `_validate_smtp`
  unfoldable pub validate_smtp : AlertSettings → Result (Unit {0})
  validate_smtp row =
      let username = opened row.smtp_username in
      let password = opened row.smtp_password in
      let checks : Result (Unit {0}) = do
        _ ←
            unless
              (not (is_given row.smtp_host)
                || (not (is_given row.smtp_from) || not (is_given row.smtp_to)))
              smtp_settings_required
        _ ←
            unless (is_unreadable row.smtp_username || is_unreadable row.smtp_password)
              smtp_credentials_unreadable
        _ ← unless (differ (is_given username) (is_given password)) smtp_credentials_incomplete
        unless (is_given username && is_plain row.smtp_security) smtp_auth_requires_tls
      in if not row.smtp_enabled then ok tt else checks

  pub settings_out : Option AlertSettings → AlertSettingsOut
  settings_out saved =
      let row = row_or_new saved in
      let used = channels saved in
      record {
        discord_enabled = row.discord_enabled;
        discord_configured = is_some used.discord_url;
        discord_webhook_set = is_some (opened row.discord_webhook_url);
        smtp_enabled = row.smtp_enabled;
        smtp_configured = is_some used.smtp;
        smtp_host = row.smtp_host;
        smtp_port = row.smtp_port;
        smtp_security = row.smtp_security;
        smtp_username_set = is_some (opened row.smtp_username);
        smtp_password_set = is_some (opened row.smtp_password);
        smtp_from = row.smtp_from;
        smtp_to = row.smtp_to;
      }

  -- `_smtp_credentials`
  unfoldable pub smtp_credentials :
      Option AlertSettings → AlertSettingsPatch → Result (Option Text × Option Text)
  smtp_credentials saved body =
      let from_row = λ (row : AlertSettings).
        let username = or_else body.smtp_username (opened row.smtp_username) in
        let password = or_else body.smtp_password (opened row.smtp_password) in
        if is_some row.smtp_username && is_none username
          || (is_some row.smtp_password && is_none password)
        then invalid smtp_credentials_unreadable
        else ok (username, password) in
      if body.clear_smtp_credentials then ok (none, none) else elim saved [
        | none ↦ ok (body.smtp_username, body.smtp_password)
        | some row ↦ from_row row
      ]

  -- `_smtp_connection_fields` and the end of `_smtp_draft`. Every column that it checks the type
  -- of has that type.
  unfoldable pub draft_of :
      AlertSettings
      → AlertSettingsPatch
      → Option Text × Option Text
      → Option Text
      → Option Text
      → Option Text
      → Result SmtpConnection
  draft_of row body (username, password) (some (h ∷ host)) (some (s ∷ sender))
        (some (r ∷ recipient)) =
      do
        _ ← unless (differ (is_given username) (is_given password)) smtp_credentials_incomplete
        _ ←
            unless (is_given username && is_plain (patched body.smtp_security row.smtp_security))
              smtp_auth_requires_tls
        ok (record {
          host = h ∷ host;
          port = patched body.smtp_port row.smtp_port;
          security = patched body.smtp_security row.smtp_security;
          username = username;
          password = password;
          sender = s ∷ sender;
          recipient = r ∷ recipient;
        })
  draft_of row body credentials host sender recipient = invalid smtp_settings_required

  -- `_smtp_draft`
  unfoldable pub smtp_draft : Option AlertSettings → AlertSettingsPatch → Result SmtpConnection
  smtp_draft saved body = do
    credentials ← smtp_credentials saved body
    let row = row_or_new saved
    draft_of row body credentials (patched_option body.smtp_host row.smtp_host)
        (patched_option body.smtp_from row.smtp_from) (patched_option body.smtp_to row.smtp_to)

  -- `test_smtp`, where `works` tells whether the server takes the message.
  pub test_smtp :
      (SmtpConnection → Bool) → Option AlertSettings → AlertSettingsPatch → Result AlertTestOut
  test_smtp works saved body = do
    connection ← smtp_draft saved body
    ok (if works connection then sent else failed)

  -- The webhook that `test_discord` posts to.
  pub test_url : Option AlertSettings → AlertSettingsPatch → Option Text
  test_url saved body =
      let kept : Option Text = elim body.discord_webhook_url [
        | some url ↦ some url
        | none ↦ opened (row_or_new saved).discord_webhook_url
      ] in
      if body.clear_discord_webhook then none else kept

  -- `test_discord`
  pub test_discord :
      (Option Text → Bool) → Option AlertSettings → AlertSettingsPatch → Result AlertTestOut
  unfolding test_url
  test_discord works saved body = do
    _ ← unless (not (is_given (test_url saved body))) discord_webhook_required
    ok (if works (test_url saved body) then sent else failed)

  module _ (encrypt : Text → Text) where
    abbrev pub sealed : Option Text → Option Text → Option Text
    sealed none old = old
    sealed (some text) old = some (encrypt text)

    -- `save_settings` up to its checks.
    unfoldable pub patched_row : AlertSettings → AlertSettingsPatch → ℕ → AlertSettings
    patched_row row body user = record row {
      discord_webhook_url =
          if body.clear_discord_webhook
          then none
          else sealed body.discord_webhook_url row.discord_webhook_url;
      discord_enabled = patched body.discord_enabled row.discord_enabled;
      smtp_username =
          if body.clear_smtp_credentials then none else sealed body.smtp_username row.smtp_username;
      smtp_password =
          if body.clear_smtp_credentials then none else sealed body.smtp_password row.smtp_password;
      smtp_enabled = patched body.smtp_enabled row.smtp_enabled;
      smtp_host = patched_option body.smtp_host row.smtp_host;
      smtp_port = patched body.smtp_port row.smtp_port;
      smtp_security = patched body.smtp_security row.smtp_security;
      smtp_from = patched_option body.smtp_from row.smtp_from;
      smtp_to = patched_option body.smtp_to row.smtp_to;
      updated_by_id = some user;
    }

    -- The row that is saved; where this is `invalid`, nothing is.
    unfoldable pub save_settings :
        Option AlertSettings → AlertSettingsPatch → ℕ → Result AlertSettings
    save_settings saved body user = do
      let row = patched_row (row_or_new saved) body user
      _ ← validate_discord row
      _ ← validate_smtp row
      ok row
