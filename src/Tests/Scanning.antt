-- ===== src/Tests/Scanning.antt =====
-- The theorems on deadlines and slots at concrete inputs.
use legal_ai_copilot.Prelude.{ℕ, some, [], ◌∷◌, ◌≢◌, refl, arith, inl, Among, ◌==◌, if◌then◌else◌}
use legal_ai_copilot.Models.{Deadline, DeadlineStatus}
use legal_ai_copilot.Database.{Db}
use legal_ai_copilot.Deadlines.{deadline_scanner}
use legal_ai_copilot.Deadlines.Urgency.{urgency_at}
use legal_ai_copilot.Deadlines.Scanned.{deadline_scanner-scored}
use legal_ai_copilot.Slots.{Redis, Step, run}
use legal_ai_copilot.Slots.Capacity.{IsWithin, run-IsWithin}
use legal_ai_copilot.Slots.Holding.{lease_of, IsHeld, IsHarmless, run-IsHeld}
use legal_ai_copilot.Tests.Fixtures.{waiting, IsKey-two}

abbrev filing : Deadline
filing = record {
  id = 1;
  workspace_id = 1;
  org_id = 1;
  obligation_description = "File the response";
  resolved_deadline = some 80000;
  status = DeadlineStatus.active;
  urgency_score = 100000;
}

abbrev payment : Deadline
payment = record filing { id = 2; resolved_deadline = some 900000 }

abbrev dated : Db
dated = record waiting { deadlines = filing ∷ payment ∷ [] }

one≢two : ◌≢◌ {A = ℕ} 1 2
one≢two e = absurd (omega (arith, e))

deadline_scanner-scored_example :
    Among
      (record filing { urgency_score = 1000000; status = DeadlineStatus.overdue })
      (deadline_scanner 1000 dated).1.deadlines
unfolding urgency_at
deadline_scanner-scored_example =
    deadline_scanner-scored 1000 dated (IsKey-two (λ x. x.id) filing payment one≢two) filing 80000
      (inl refl) refl refl

-- organisation 1 holds lease 9, taken at 100; the others hold none
abbrev held : Redis
held org =
    if org == 1
    then record { leases = lease_of 9 100 ∷ []; expires_at = 400 }
    else record { leases = []; expires_at = 0 }

held-IsWithin : IsWithin 2 held
held-IsWithin org = ground arith

run-IsWithin_example :
    IsWithin 2 (run 2 (Step.acquire 1 110 10 ∷ Step.acquire 1 111 11 ∷ Step.release 1 9 ∷ []) held)
run-IsWithin_example =
    run-IsWithin 2 (Step.acquire 1 110 10 ∷ Step.acquire 1 111 11 ∷ Step.release 1 9 ∷ []) held
      held-IsWithin

run-IsHeld_example : IsHeld 1 9 100 (run 2 (Step.acquire 1 110 10 ∷ Step.release 1 10 ∷ []) held)
unfolding IsHarmless
run-IsHeld_example =
    run-IsHeld 2 1 9 100 (Step.acquire 1 110 10 ∷ Step.release 1 10 ∷ []) held
      ((omega arith, omega arith, λ e. omega (arith, e)), (refl, tt)) (inl refl, omega arith)
