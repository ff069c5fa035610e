-- ===== src/Alerts/Channels/Draft.antt =====
-- The connection that a test of the email settings uses, and the one that saving them gives.
use cashcove.Base.{
  ℕ, true, false, ◌&&◌, ◌||◌, Option, none, some, [], ◌∷◌, if◌then◌else◌, is_some, is_none, ◌≡◌,
  ◌≢◌, ◌↔◌, refl, arith, Bool-cases, inl, inr,
}
use cashcove.Base.Text.{Text}
use cashcove.Alerts.Channels.{
  AlertSettings, AlertSettingsPatch, SmtpConnection, is_given, ok, invalid, opened, is_unreadable,
  connection_of, smtp_from_row, patched, or_else, sealed, new_settings, validate_smtp, row_or_new,
  patched_row, smtp_credentials, draft_of, smtp_draft, smtp_credentials_unreadable,
}
use cashcove.Alerts.Channels.Saved.{checks}

module _ (decrypt : Text → Option Text) where
  draft_of-checks :
      (row : AlertSettings) (body : AlertSettingsPatch) (new : AlertSettings) (u p : Option Text)
      (h s r : Option Text) (c : SmtpConnection)
      → opened decrypt new.smtp_username ≡ u
      → opened decrypt new.smtp_password ≡ p
      → (is_unreadable decrypt new.smtp_username || is_unreadable decrypt new.smtp_password) ≡ false
      → patched body.smtp_security row.smtp_security ≡ new.smtp_security
      → patched body.smtp_port row.smtp_port ≡ new.smtp_port
      → (draft_of decrypt row body (u, p) h s r ≡ ok c)
        ↔ ((checks decrypt new h s r ≡ ok tt) × (connection_of decrypt new h s r ≡ some c))
  unfolding checks connection_of draft_of
  draft_of-checks row body new u p none s r c a b d e f = ground arith
  draft_of-checks row body new u p (some []) s r c a b d e f = ground arith
  draft_of-checks row body new u p (some (c ∷ h)) none r x a b d e f = ground arith
  draft_of-checks row body new u p (some (c ∷ h)) (some []) r x a b d e f = ground arith
  draft_of-checks row body new u p (some (c ∷ h)) (some (k ∷ s)) none x a b d e f = ground arith
  draft_of-checks row body new u p (some (c ∷ h)) (some (k ∷ s)) (some []) x a b d e f =
      ground arith
  draft_of-checks row body new u p (some (c ∷ h)) (some (k ∷ s)) (some (l ∷ r)) x a b d e f =
      ground arith

  checks-unreadable :
      (new : AlertSettings) (h s r : Option Text)
      → (is_unreadable decrypt new.smtp_username || is_unreadable decrypt new.smtp_password) ≡ true
      → checks decrypt new h s r ≢ ok tt
  unfolding checks
  checks-unreadable new h s r e = ground arith

  module _ (encrypt : Text → Text) (opens : (t : Text) → decrypt (encrypt t) ≡ some t) where
    -- A secret that the body sends, or else the saved one, is what saving and opening it gives.
    opened-sealed :
        (o : Option Text) (old : Option Text)
        → is_some o ≡ is_given o
        → (or_else o (opened decrypt old) ≡ opened decrypt (sealed decrypt encrypt o old))
          × ((is_some old && is_none (or_else o (opened decrypt old)))
              ≡ is_unreadable decrypt (sealed decrypt encrypt o old))
    unfolding opened
    opened-sealed none old h = (refl, refl)
    opened-sealed (some []) old h = cc
    opened-sealed (some (c ∷ t)) old h = ground (arith, opens (c ∷ t))

    opened-sealed_new :
        (o : Option Text)
        → (opened decrypt (sealed decrypt encrypt o none) ≡ o)
          × (is_unreadable decrypt (sealed decrypt encrypt o none) ≡ false)
    unfolding opened
    opened-sealed_new none = (refl, refl)
    opened-sealed_new (some t) = ground (arith, opens t)

    smtp_credentials-opened :
        (saved : Option AlertSettings) (body : AlertSettingsPatch) (user : ℕ)
        → is_some body.smtp_username ≡ is_given body.smtp_username
        → is_some body.smtp_password ≡ is_given body.smtp_password
        → smtp_credentials decrypt saved body ≡ (
            let new = patched_row decrypt encrypt (row_or_new saved) body user in
            if is_unreadable decrypt new.smtp_username || is_unreadable decrypt new.smtp_password
            then invalid smtp_credentials_unreadable
            else ok (opened decrypt new.smtp_username, opened decrypt new.smtp_password))
    unfolding smtp_credentials patched_row row_or_new new_settings opened
    smtp_credentials-opened none body user hu hp = elim (Bool-cases body.clear_smtp_credentials) [
      | inl e ↦ ground arith
      | inr e ↦
          ground (arith, opened-sealed_new body.smtp_username, opened-sealed_new body.smtp_password)
    ]
    smtp_credentials-opened (some row) body user hu hp =
        elim (Bool-cases body.clear_smtp_credentials) [
          | inl e ↦ ground arith
          | inr e ↦ ground (
            arith,
            opened-sealed body.smtp_username row.smtp_username hu,
            opened-sealed body.smtp_password row.smtp_password hp,
          )
        ]

    -- Where email is on after the change, a test of settings uses a connection exactly if saving
    -- them passes the checks of email and alerts then go through that same connection; for a body
    -- whose secrets are not empty and an encryption that is undone by decryption.
    pub smtp_draft-saved :
        (saved : Option AlertSettings) (body : AlertSettingsPatch) (user : ℕ) (c : SmtpConnection)
        → is_some body.smtp_username ≡ is_given body.smtp_username
        → is_some body.smtp_password ≡ is_given body.smtp_password
        → (patched_row decrypt encrypt (row_or_new saved) body user).smtp_enabled ≡ true
        → (smtp_draft decrypt saved body ≡ ok c) ↔ (
            (validate_smtp decrypt (patched_row decrypt encrypt (row_or_new saved) body user)
              ≡ ok tt)
            × (smtp_from_row decrypt
                  (some (patched_row decrypt encrypt (row_or_new saved) body user))
                ≡ some c))
    unfolding smtp_draft validate_smtp smtp_from_row checks patched_row
    smtp_draft-saved saved body user c hu hp on =
        let row = row_or_new saved in
        let new = patched_row decrypt encrypt row body user in
        ground (
          arith,
          smtp_credentials-opened saved body user hu hp,
          checks-unreadable new new.smtp_host new.smtp_from new.smtp_to,
          draft_of-checks row body new (opened decrypt new.smtp_username)
              (opened decrypt new.smtp_password) new.smtp_host new.smtp_from new.smtp_to c refl
              refl,
        )
