-- ===== src/Accounts/Cleanup.antt =====
-- app/routers/cron.py (cleanup_expired_invites): the DELETE of the invites that ran out.
use legal_ai_copilot.Prelude.{ℕ, Bool, not, ◌&&◌, length, ltb}
use legal_ai_copilot.Prelude.Table.{select}
use legal_ai_copilot.Accounts.Rows.{Invite}
use legal_ai_copilot.Accounts.Session.{Session, ◌>>=◌, ◌>>◌, pure, gets, modify, transaction}

-- WHERE expires_at < NOW() AND is_accepted = FALSE
abbrev pub has_run_out : ℕ → Invite → Bool
has_run_out now i = ltb i.expires_at now && not i.is_accepted

-- It answers with the count of the rows that it deleted.
unfoldable pub cleanup_expired_invites : ℕ → Session ℕ
cleanup_expired_invites now = transaction do
  rows ← gets (λ d. select (has_run_out now) d.invites)
  modify (λ d. record d { invites = select (λ i. not (has_run_out now i)) d.invites })
  pure (length rows)
