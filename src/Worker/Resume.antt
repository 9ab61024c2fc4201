-- ===== src/Worker/Resume.antt =====
-- Where a run of `process_workflow` on a paused workflow ends.
use legal_ai_copilot.Prelude.{ℕ, ◌≡◌, true, false, Option, none, some, List, ◌==◌, ◌&&◌, ◌⊎◌}
use legal_ai_copilot.Prelude.Table.{select, update_where}
use legal_ai_copilot.Models.{
  Workflow, Action, DraftPayload, WorkflowStatus, ActionStatus, is_draft_waiting,
}
use legal_ai_copilot.Database.{Db}
use legal_ai_copilot.Services.{Services}
use legal_ai_copilot.Worker.Node.{Outside}

module _ (sv : Services) (o : Outside) (k : ℕ) (d : Db) where
  -- the first action of the workflow that awaits approval
  abbrev pub first_waiting : Option Action
  first_waiting =
      sv.first_action (select (λ a. a.workflow_id == k && is_draft_waiting a.status) d.actions)

  -- that action, which has a draft, when the DOCX is built and uploaded
  unfoldable pub Exports : Action → Type 0
  Exports a =
      (first_waiting ≡ some a)
      × ((p : DraftPayload) × (a.draft_payload ≡ some p))
      × (o.docx_built ≡ true)
      × (o.uploaded ≡ true)

  -- why nothing is exported
  pub IsBlocked : Type 0
  IsBlocked =
      (first_waiting ≡ none)
      ⊎ (((a : Action) × (first_waiting ≡ some a) × (a.draft_payload ≡ none))
          ⊎ (o.docx_built && o.uploaded ≡ false))

  abbrev exported : Workflow → Action → Workflow
  exported w a = record w {
    status = WorkflowStatus.completed;
    completed_at = some o.now;
    result_ref = some (sv.r2_key k a.id);
  }

  abbrev executed : Action → List Action
  executed a =
      update_where (λ x. x.id == a.id) (λ x. record x { status = ActionStatus.executed }) d.actions
