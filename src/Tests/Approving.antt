-- ===== src/Tests/Approving.antt =====
-- The theorems on approvals at concrete requests.
use legal_ai_copilot.Prelude.{
  ℕ, String, true, none, [], ◌∷◌, ◌≡◌, ◌≢◌, ◌↔◌, refl, arith, Among, inl, ◌≤◌,
}
use legal_ai_copilot.Prelude.Table.{select, select_one, update_where}
use legal_ai_copilot.Cron.{expire_stale_ambiguity}
use legal_ai_copilot.Lifecycle.OpenChange.{is_decided}
use legal_ai_copilot.Models.{ApprovalRequest, WorkflowStatus, ApprovalStatus}
use legal_ai_copilot.Database.{Db}
use legal_ai_copilot.Http.{ok, Request}
use legal_ai_copilot.Approvals.{
  approve_via_token, reject_via_token, pass_gate, hmac_secret, is_ascii, list_pending_approvals,
}
use legal_ai_copilot.Approvals.Gate.{Passed}
use legal_ai_copilot.Approvals.Outcomes.{decision}
use legal_ai_copilot.Approvals.Rejection.{moved, moved_status, refused, reject_exact}
use legal_ai_copilot.Approvals.Listing.{is_listed, list_pending-page}
use legal_ai_copilot.Lifecycle.{Op, run, perform}
use legal_ai_copilot.Lifecycle.Decisions.{run-decided}
use legal_ai_copilot.Lifecycle.Replay.{approve_once}
use legal_ai_copilot.Tests.Fixtures.{
  services, services-IsSelecting, lawyer, token, reason, waiting, approval, IsKey-two,
}

-- the newer of two requests runs out first
abbrev newer : ApprovalRequest
newer = record (approval 2 ApprovalStatus.pending) { expires_at = 1500 }

abbrev two_requests : Db
two_requests = record waiting { approvals = newer ∷ approval 1 ApprovalStatus.pending ∷ [] }

abbrev newer_token : String
newer_token = "key|::|::||"

abbrev later : Request
later = record lawyer { now = 2000 }

two≢one : ◌≢◌ {A = ℕ} 2 1
two≢one e = absurd (omega (arith, e))

approve_once_example : ◌≢◌ {A = ℕ} 1 2
unfolding approve_via_token pass_gate run perform expire_stale_ambiguity select select_one
    update_where hmac_secret is_ascii
approve_once_example =
    approve_once services lawyer later 1 1 newer_token token two_requests
      (Op.expire_ambiguity 1200 ∷ []) (decision 1 newer WorkflowStatus.executing)
      (decision 1 (approval 1 ApprovalStatus.pending) WorkflowStatus.executing) services-IsSelecting
      (IsKey-two (λ a. a.id) newer (approval 1 ApprovalStatus.pending) two≢one) refl refl

reject_exact_example :
    (reject_via_token services lawyer 1 token reason waiting ≡ (
      ok (decision 1 (approval 1 ApprovalStatus.pending) WorkflowStatus.revising),
      moved lawyer 1 reason (refused lawyer (approval 1 ApprovalStatus.pending) reason waiting),
    ))
    ↔ ((a : ApprovalRequest) × Passed services lawyer 1 token waiting a
        × (decision 1 (approval 1 ApprovalStatus.pending) WorkflowStatus.revising
            ≡ decision 1 a (moved_status 1 waiting))
        × (moved lawyer 1 reason (refused lawyer (approval 1 ApprovalStatus.pending) reason waiting)
            ≡ moved lawyer 1 reason (refused lawyer a reason waiting)))
reject_exact_example =
    reject_exact services lawyer 1 token reason waiting
      (decision 1 (approval 1 ApprovalStatus.pending) WorkflowStatus.revising)
      (moved lawyer 1 reason (refused lawyer (approval 1 ApprovalStatus.pending) reason waiting))
      (omega arith)

-- the request of the other test, once it is spent
abbrev spent : Db
spent = record two_requests {
  approvals =
      record newer { status = ApprovalStatus.used } ∷ approval 1 ApprovalStatus.pending ∷ [];
}

run-decided_example :
    Among
      (record newer { status = ApprovalStatus.used })
      (run services (Op.reissue lawyer true 2 none ∷ Op.approve later 1 token ∷ []) spent).approvals
unfolding is_decided
run-decided_example =
    run-decided services (Op.reissue lawyer true 2 none ∷ Op.approve later 1 token ∷ []) spent
      (record newer { status = ApprovalStatus.used }) services-IsSelecting
      (IsKey-two (λ a. a.id) (record newer { status = ApprovalStatus.used })
        (approval 1 ApprovalStatus.pending) two≢one)
      (inl refl) refl

-- the request that a reissue for two hours gives
abbrev reissued_row : ApprovalRequest
reissued_row = record (approval 1 ApprovalStatus.pending) { expires_at = 8200 }

list_pending-page_example :
    (1 ≤ 10)
    × Among (approval 1 ApprovalStatus.pending) waiting.approvals
    × (is_listed lawyer (approval 1 ApprovalStatus.pending) ≡ true)
unfolding list_pending_approvals select
list_pending-page_example =
    list_pending-page services lawyer 10 0 waiting (approval 1 ApprovalStatus.pending ∷ []) 1 refl
      (approval 1 ApprovalStatus.pending) services-IsSelecting (inl refl)
