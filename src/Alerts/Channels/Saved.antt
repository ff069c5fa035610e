-- ===== src/Alerts/Channels/Saved.antt =====
-- What saving the settings of the channels checks.
use cashcove.Base.{
  ℕ, true, false, not, ◌&&◌, ◌||◌, Option, none, some, [], ◌∷◌, is_some, is_none, ◌≡◌, ◌↔◌, arith,
}
use cashcove.Base.Text.{Text}
use cashcove.Alerts.Channels.{
  is_plain, AlertSettings, AlertSettingsPatch, SmtpConnection, is_given, Result, ok, unless, ◌>>=◌,
  differ, opened, connection_of, channels, validate_discord, validate_smtp, row_or_new, patched_row,
  save_settings, smtp_from_row, smtp_settings_required, smtp_credentials_unreadable,
  smtp_credentials_incomplete, smtp_auth_requires_tls,
}

-- Credentials come in pairs, and go through TLS.
abbrev pub IsSafe : SmtpConnection → Type 0
IsSafe c =
    (is_given c.username ≡ is_given c.password)
    × ((is_given c.username && is_plain c.security) ≡ false)

abbrev pub OnSome {ℓ} : {A : Type ℓ} → (A → Type 0) → Option A → Type 0
OnSome P none = Unit
OnSome P (some a) = P a

-- Every channel that is on can be used, and no other.
abbrev pub IsUsable : (Text → Option Text) → AlertSettings → Type 0
IsUsable decrypt row =
    (is_given (channels decrypt (some row)).discord_url ≡ row.discord_enabled)
    × (is_some (channels decrypt (some row)).smtp ≡ row.smtp_enabled)
    × OnSome IsSafe (channels decrypt (some row)).smtp

module _ (decrypt : Text → Option Text) where
  validate_discord-usable :
      (row : AlertSettings)
      → (validate_discord decrypt row ≡ ok tt)
        ↔ (is_given (channels decrypt (some row)).discord_url ≡ row.discord_enabled)
  unfolding validate_discord channels
  validate_discord-usable row = ground arith

  -- The checks of email that are on, given the three texts.
  unfoldable pub checks :
      AlertSettings → Option Text → Option Text → Option Text → Result (Unit {0})
  checks row host sender recipient = do
    _ ←
        unless (not (is_given host) || (not (is_given sender) || not (is_given recipient)))
          smtp_settings_required
    _ ←
        unless
          ((is_some row.smtp_username && is_none (opened decrypt row.smtp_username))
            || (is_some row.smtp_password && is_none (opened decrypt row.smtp_password)))
          smtp_credentials_unreadable
    _ ←
        unless
          (differ (is_given (opened decrypt row.smtp_username))
            (is_given (opened decrypt row.smtp_password)))
          smtp_credentials_incomplete
    unless (is_given (opened decrypt row.smtp_username) && is_plain row.smtp_security)
        smtp_auth_requires_tls

  abbrev IsGood : AlertSettings → Option Text → Option Text → Option Text → Type 0
  IsGood row h s r =
      (is_some (connection_of decrypt row h s r) ≡ true)
      × OnSome IsSafe (connection_of decrypt row h s r)

  checks-IsGood :
      (row : AlertSettings) (h s r : Option Text) → (checks row h s r ≡ ok tt) ↔ IsGood row h s r
  unfolding checks connection_of
  checks-IsGood row none s r = ground arith
  checks-IsGood row (some []) s r = ground arith
  checks-IsGood row (some (c ∷ h)) none r = ground arith
  checks-IsGood row (some (c ∷ h)) (some []) r = ground arith
  checks-IsGood row (some (c ∷ h)) (some (d ∷ s)) none = ground arith
  checks-IsGood row (some (c ∷ h)) (some (d ∷ s)) (some []) = ground arith
  checks-IsGood row (some (c ∷ h)) (some (d ∷ s)) (some (e ∷ r)) = ground arith

  validate_smtp-IsUsable :
      (row : AlertSettings)
      → (validate_smtp decrypt row ≡ ok tt) ↔ (
          (is_some (channels decrypt (some row)).smtp ≡ row.smtp_enabled)
          × OnSome IsSafe (channels decrypt (some row)).smtp)
  unfolding validate_smtp channels smtp_from_row checks
  validate_smtp-IsUsable row =
      ground (arith, checks-IsGood row row.smtp_host row.smtp_from row.smtp_to)

  -- `save_settings` saves exactly the row that the body's values give over the saved one, and
  -- exactly if each of the row's channels can be used if it is on and isn't used otherwise: Discord
  -- has a webhook, email has a host, a sender, a recipient and credentials that can be decrypted,
  -- which are a pair or missing, and which only go through TLS.
  pub save_settings-IsUsable :
      (encrypt : Text → Text) (saved : Option AlertSettings) (body : AlertSettingsPatch) (user : ℕ)
      (row : AlertSettings)
      → (save_settings decrypt encrypt saved body user ≡ ok row)
        ↔ ((row ≡ patched_row decrypt encrypt (row_or_new saved) body user) × IsUsable decrypt row)
  unfolding save_settings
  save_settings-IsUsable encrypt saved body user row = ground (
    arith,
    validate_discord-usable (patched_row decrypt encrypt (row_or_new saved) body user),
    validate_smtp-IsUsable (patched_row decrypt encrypt (row_or_new saved) body user),
  )
