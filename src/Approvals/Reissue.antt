-- ===== src/Approvals/Reissue.antt =====
-- What the token of reissue_token in app/routers/approvals.py is good for.
use legal_ai_copilot.Prelude.{
  ℕ, zero, suc, ◌+◌, ◌-◌, ◌*◌, pos, negsuc, none, String, Option, some, ◌≡◌, ℤ, Among,
}
use legal_ai_copilot.Prelude.Table.{update_where}
use legal_ai_copilot.Models.{ApprovalRequest}
use legal_ai_copilot.Database.{Db}
use legal_ai_copilot.Http.{Request}
use legal_ai_copilot.Services.{Services}
use legal_ai_copilot.Approvals.Endpoints.{reopen, same_approval, add_hours, expiry_hours}

-- the token of a request
abbrev pub token_of : Services → String → ApprovalRequest → String
token_of sv secret a = sv.hmac_sha256 secret (sv.token_data a.workflow_id a.org_id a.id)

abbrev reopening :
    Services → Request → String → Option ℤ → ApprovalRequest → ApprovalRequest → ApprovalRequest
reopening sv req secret hours a =
    reopen (sv.sha256 (sv.hmac_sha256 secret (sv.token_data a.workflow_id req.org_id a.id)))
      (add_hours req.now (expiry_hours hours))

-- The time at which a request expires: the hours asked for after `now`, before it if they are
-- negative, and 168 hours after it where no number or 0 is asked for.
unfoldable pub ExpiresAt : ℕ → Option ℤ → ℕ → Type 0
ExpiresAt now none expires = expires ≡ now + 168 * 3600
ExpiresAt now (some (pos zero)) expires = expires ≡ now + 168 * 3600
ExpiresAt now (some (pos (suc h))) expires = expires ≡ now + (h + 1) * 3600
ExpiresAt now (some (negsuc h)) expires = expires ≡ now - (h + 1) * 3600

-- the row that was reissued
record Reissued (sv : Services) (req : Request) (id : ℕ) (hours : Option ℤ) (secret : String)
    (d d' : Db) (a : ApprovalRequest) : Type 0 where
  pub before : ApprovalRequest
  pub there : Among before d.approvals
  pub own : before.org_id ≡ req.org_id
  pub new : a ≡ reopening sv req secret hours before before
  pub table :
      d'.approvals
      ≡ update_where (same_approval before) (reopening sv req secret hours before) d.approvals
