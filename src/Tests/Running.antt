-- ===== src/Tests/Running.antt =====
-- The theorems on sequences of operations at concrete sequences.
use legal_ai_copilot.Prelude.{ℕ, none, [], ◌∷◌, ◌≡◌, ◌≢◌, refl, arith}
use legal_ai_copilot.Prelude.Table.{select_one}
use legal_ai_copilot.Models.{WorkflowStatus}
use legal_ai_copilot.Approvals.{pass_gate, approve_via_token}
use legal_ai_copilot.Lifecycle.{Op, run, perform}
use legal_ai_copilot.Lifecycle.Atomic.{refusal, HasBroker, perform-refused}
use legal_ai_copilot.Lifecycle.Revisions.{IsBounded}
use legal_ai_copilot.Lifecycle.Bounds.{run-bound}
use legal_ai_copilot.Lifecycle.OwnChange.{rows_of}
use legal_ai_copilot.Lifecycle.Tenancy.{IsRequestOf, run-others}
use legal_ai_copilot.Tests.Fixtures.{
  services, services-IsSelecting, lawyer, stranger, token, reason, waiting, workflow, foreign,
  IsKey-two, outside,
}

one≢two : ◌≢◌ {A = ℕ} 1 2
one≢two e = absurd (omega (arith, e))

two≢one : ◌≢◌ {A = ℕ} 2 1
two≢one e = absurd (omega (arith, e))

run-others_example :
    rows_of 2
      (run services
        (Op.reject lawyer 1 token reason
          ∷ Op.reject_draft lawyer 2 reason
          ∷ Op.cancel lawyer 1 1
          ∷ [])
        waiting).workflows
    ≡ rows_of 2 waiting.workflows
unfolding IsRequestOf
run-others_example =
    run-others services 1 2
      (Op.reject lawyer 1 token reason
        ∷ Op.reject_draft lawyer 2 reason
        ∷ Op.cancel lawyer 1 1
        ∷ [])
      waiting services-IsSelecting
      (IsKey-two (λ w. w.id) (workflow 1 WorkflowStatus.awaiting_approval) foreign one≢two)
      (refl, (refl, (refl, tt))) two≢one

-- another organisation asks to approve workflow 1
perform-refused_example : perform services (Op.approve stranger 1 token) waiting ≡ waiting
unfolding HasBroker refusal approve_via_token pass_gate select_one
perform-refused_example =
    perform-refused services (Op.approve stranger 1 token) waiting 404 refl refl

run-bound_example :
    IsBounded
      (run services
        (Op.reject lawyer 1 token reason
          ∷ Op.process (outside none none) 1 none
          ∷ Op.reject_draft lawyer 1 reason
          ∷ [])
        waiting).actions
run-bound_example =
    run-bound services
      (Op.reject lawyer 1 token reason
        ∷ Op.process (outside none none) 1 none
        ∷ Op.reject_draft lawyer 1 reason
        ∷ [])
      waiting (omega arith, tt)
