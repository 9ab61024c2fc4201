-- ===== src/Worker/Drafting.antt =====
-- Where a run of `process_workflow` on a confirmed brief or a rejected draft ends.
use legal_ai_copilot.Prelude.{
  ℕ, ◌≡◌, refl, Bool, true, false, Option, none, some, arith, ap, ◌∙◌, ◌||◌, if◌then◌else◌, is_some,
  Option-cases, inl, inr,
}
use legal_ai_copilot.Models.{Workflow, Brief, DraftPayload, WorkflowStatus}
use legal_ai_copilot.Database.{Db}
use legal_ai_copilot.Services.{Services}
use legal_ai_copilot.Workflows.{set_workflow_status}
use legal_ai_copilot.Workflows.Rows.{row, with_status, row_laws}
use legal_ai_copilot.Worker.Node.{Draft, Outside, returned, ◌>>=◌}
use legal_ai_copilot.Worker.Nodes.{set_wf_status}
use legal_ai_copilot.Worker.Act.{
  draft_node, draft_from, finish_draft, draft_of, save_actions, write_draft, insert_actions,
}
use legal_ai_copilot.Worker.Process.{
  reports, run_from, run_row, resume_draft, safely, draft_report, process_workflow,
}
use legal_ai_copilot.Worker.Paths.{status_of}

-- the statuses from which the task writes a draft
abbrev pub is_drafted_from : WorkflowStatus → Bool
is_drafted_from WorkflowStatus.awaiting_brief_confirmation = true
is_drafted_from WorkflowStatus.revising = true
is_drafted_from _ = false

-- how the drafting ends, by whether one of the three attempts gave a draft
abbrev pub drafting_result : Option Draft → WorkflowStatus
drafting_result none = WorkflowStatus.failed
drafting_result (some t) = WorkflowStatus.awaiting_approval

report_of_result :
    (t : Option Draft) → draft_report (drafting_result t) ≡ reports (drafting_result t)
report_of_result none = refl
report_of_result (some t) = refl

module _ (sv : Services) (o : Outside) (k : ℕ) where
  write_draft-workflows :
      (p : DraftPayload) (d : Db) → (write_draft sv k p d).workflows ≡ d.workflows
  unfolding write_draft
  write_draft-workflows p d = ground arith

  finish_draft-result :
      (b : Brief) (t : Option Draft) (d : Db) (w : Workflow)
      → row k d.workflows ≡ some w
      → ((finish_draft sv k b t d).0 ≡ returned (drafting_result t))
        × (status_of k (finish_draft sv k b t d).1 ≡ some (drafting_result t))
  unfolding finish_draft set_wf_status ◌>>=◌
  finish_draft-result b none d w found = (refl, simp row_laws (rw found))
  finish_draft-result b (some t) d w found =
      (refl, simp (row_laws, write_draft-workflows) (rw found))

  draft_node-result :
      (d : Db) (w : Workflow) (b : Brief)
      → row k d.workflows ≡ some w
      → w.decision_brief_payload ≡ some b
      → ((draft_node sv o k d).0 ≡ returned (drafting_result (draft_of o)))
        × (status_of k (draft_node sv o k d).1 ≡ some (drafting_result (draft_of o)))
  unfolding draft_node draft_from set_wf_status ◌>>=◌ insert_actions
  draft_node-result d w b found saved =
      let d₁ = set_workflow_status k WorkflowStatus.drafting d in
      let found₁ : row k d₁.workflows ≡ some (with_status WorkflowStatus.drafting w) =
        simp row_laws (rw found) in
      rw (found₁, saved)
        (finish_draft-result b (draft_of o)
          (save_actions (with_status WorkflowStatus.drafting w) o.fresh_id b.recommended_actions d₁)
          (with_status WorkflowStatus.drafting w) found₁)

  resume_draft-result :
      (d : Db) (w : Workflow) (b : Brief)
      → row k d.workflows ≡ some w
      → w.decision_brief_payload ≡ some b
      → ((resume_draft sv o k d).0 ≡ returned (reports (drafting_result (draft_of o))))
        × (status_of k (resume_draft sv o k d).1 ≡ some (drafting_result (draft_of o)))
  unfolding resume_draft ◌>>=◌
  resume_draft-result d w b found saved =
      let (e, s) = draft_node-result d w b found saved in
      rw (e, report_of_result (draft_of o)) (refl, s)

  -- the task's last step on a node that returned
  safely-resume :
      (d : Db) (w : Workflow) (b : Brief)
      → row k d.workflows ≡ some w
      → w.decision_brief_payload ≡ some b
      → let (r, d') = safely k (resume_draft sv o k d) in
        (r ≡ reports (drafting_result (draft_of o)))
        × (status_of k d' ≡ some (drafting_result (draft_of o)))
  safely-resume d w b found saved =
      let (e, s) = resume_draft-result d w b found saved in rw e (refl, s)

  run_from-result :
      (s : WorkflowStatus) (d : Db) (w : Workflow) (b : Brief)
      → is_drafted_from s ≡ true
      → row k d.workflows ≡ some w
      → w.decision_brief_payload ≡ some b
      → let (r, d') = safely k (run_from sv o k none s d) in
        (r ≡ reports (drafting_result (draft_of o)))
        × (status_of k d' ≡ some (drafting_result (draft_of o)))
  unfolding run_from set_wf_status ◌>>=◌
  run_from-result WorkflowStatus.awaiting_brief_confirmation d w b from found saved =
      safely-resume d w b found saved
  run_from-result WorkflowStatus.revising d w b from found saved =
      safely-resume (set_workflow_status k WorkflowStatus.drafting d)
        (with_status WorkflowStatus.drafting w) b (simp row_laws (rw found)) saved
  run_from-result other d w b from found saved = absurd (cc from)

  process_draft-result :
      (d : Db) (w : Workflow) (b : Brief)
      → row k d.workflows ≡ some w
      → w.decision_brief_payload ≡ some b
      → is_drafted_from w.status ≡ true
      → let (r, d') = process_workflow sv o k none d in
        (r ≡ reports (drafting_result (draft_of o)))
        × (status_of k d' ≡ some (drafting_result (draft_of o)))
  unfolding process_workflow run_row
  process_draft-result d w b found saved from =
      rw found (run_from-result w.status d w b from found saved)

  -- some attempt gave a draft: the structured output, what is recovered from it, or the plain text
  abbrev pub has_draft : Bool
  has_draft = is_some o.draft_structured || is_some o.draft_recovered || is_some o.draft_plain

  abbrev pub drafting_status : WorkflowStatus
  drafting_status = if has_draft then WorkflowStatus.awaiting_approval else WorkflowStatus.failed

  drafting_result-lem : drafting_result (draft_of o) ≡ drafting_status
  unfolding draft_of
  drafting_result-lem = elim (Option-cases o.draft_structured) [
    | inr (t, structured) ↦ rw structured refl
    | inl unstructured ↦ elim (Option-cases o.draft_recovered) [
      | inr (t, recovered) ↦ rw (unstructured, recovered) refl
      | inl unrecovered ↦ elim (Option-cases o.draft_plain) [
        | inr (t, plain) ↦ rw (unstructured, unrecovered, plain) refl
        | inl absent ↦ rw (unstructured, unrecovered, absent) refl
      ]
    ]
  ]

  -- A workflow with a saved brief, which awaits its confirmation or is to be revised: if any of
  -- the three attempts gives a draft, the task reports AWAITING_APPROVAL, otherwise FAILED, and the
  -- row has the status that it reports.
  pub process_draft :
      (d : Db) (w : Workflow) (b : Brief)
      → row k d.workflows ≡ some w
      → w.decision_brief_payload ≡ some b
      → is_drafted_from w.status ≡ true
      → let (r, d') = process_workflow sv o k none d in
        (r ≡ reports drafting_status) × (status_of k d' ≡ some drafting_status)
  process_draft d w b found saved from =
      let (reported, saved_status) = process_draft-result d w b found saved from in
      (
        reported ∙ ap reports drafting_result-lem,
        saved_status ∙ ap (λ s. some s) drafting_result-lem,
      )
