-- ===== src/Cron/Expiry.antt =====
-- What the sweeps of app/routers/cron.py leave behind.
use legal_ai_copilot.Prelude.{ℕ, ◌≤◌, ◌≡◌, true, arith, Among, ◌==◌, ◌&&◌}
use legal_ai_copilot.Prelude.Table.{update_where, Among-update_where, exists_where-hit}
use legal_ai_copilot.Models.{Workflow, ApprovalRequest, is_pending}
use legal_ai_copilot.Database.{Db}
use legal_ai_copilot.Cron.Sweeps.{is_overdue, expire, all_expired, escalate, expire_stale_approvals}

-- A workflow with a pending approval request that has not run out is not touched by the sweep of
-- the approvals.
pub sweep-pending :
    (now : ℕ) (d : Db) (w : Workflow) (a : ApprovalRequest)
    → Among w d.workflows
    → Among a d.approvals
    → a.workflow_id ≡ w.id
    → is_pending a.status ≡ true
    → now ≤ a.expires_at
    → Among w (expire_stale_approvals now d).1.workflows
unfolding expire_stale_approvals all_expired
sweep-pending now d w a mw ma owner waits later =
    let approvals = update_where (is_overdue now) expire d.approvals in
    let kept : Among a approvals =
      Among-update_where (is_overdue now) expire d.approvals a ma (ground arith) in
    let shows =
      exists_where-hit (λ a. a.workflow_id == w.id && is_pending a.status) approvals a kept
        (ground arith) in
    Among-update_where (all_expired approvals) escalate d.workflows w mw (ground (arith, shows))
