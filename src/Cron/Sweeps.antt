-- ===== src/Cron/Sweeps.antt =====
-- app/routers/cron.py: expire-stale-approvals and expire-stale-ambiguity. The SQL commands run in
-- one transaction, at the time `now`.
use legal_ai_copilot.Prelude.{ℕ, ◌+◌, Bool, not, ◌&&◌, List, length, ltb, ◌==◌}
use legal_ai_copilot.Prelude.Table.{select, exists_where, update_where}
use legal_ai_copilot.Models.{
  Workflow, ApprovalRequest, WorkflowStatus, ApprovalStatus, is_awaiting_approval,
  is_awaiting_intent, is_pending, is_expired,
}
use legal_ai_copilot.Database.{Db}

-- WHERE status = 'PENDING' AND expires_at < NOW()
abbrev pub is_overdue : ℕ → ApprovalRequest → Bool
is_overdue now a = is_pending a.status && ltb a.expires_at now

abbrev pub expire : ApprovalRequest → ApprovalRequest
expire a = record a { status = ApprovalStatus.expired }

-- the WHERE clause of the second command, with its two subqueries
unfoldable pub all_expired : List ApprovalRequest → Workflow → Bool
all_expired approvals w =
    is_awaiting_approval w.status
    && not (exists_where (λ a. a.workflow_id == w.id && is_pending a.status) approvals)
    && exists_where (λ a. a.workflow_id == w.id && is_expired a.status) approvals

abbrev pub escalate : Workflow → Workflow
escalate w = record w { status = WorkflowStatus.escalated }

-- POST /expire-stale-approvals: the counts that it reports, and the new state
unfoldable pub expire_stale_approvals : ℕ → Db → (ℕ × ℕ) × Db
expire_stale_approvals now d =
    let approvals = update_where (is_overdue now) expire d.approvals in
    (
      (
        length (select (is_overdue now) d.approvals),
        length (select (all_expired approvals) d.workflows),
      ),
      record d {
        approvals = approvals;
        workflows = update_where (all_expired approvals) escalate d.workflows;
      },
    )

-- WHERE status = 'AWAITING_INTENT_CONFIRMATION' AND created_at < NOW() - INTERVAL '10 minutes'
abbrev pub is_stale_ambiguity : ℕ → Workflow → Bool
is_stale_ambiguity now w = is_awaiting_intent w.status && ltb (w.created_at + 600) now

-- POST /expire-stale-ambiguity
unfoldable pub expire_stale_ambiguity : ℕ → Db → ℕ × Db
expire_stale_ambiguity now d = (
  length (select (is_stale_ambiguity now) d.workflows),
  record d {
    workflows =
        update_where (is_stale_ambiguity now) (λ w. record w { status = WorkflowStatus.cancelled })
          d.workflows;
  },
)
