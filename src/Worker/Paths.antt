-- ===== src/Worker/Paths.antt =====
-- Where a run of `process_workflow` on a fresh workflow ends.
use legal_ai_copilot.Prelude.{
  ℕ, ◌≡◌, true, false, Option, none, some, List, arith, ◌≤◌, ◌<◌, Bool, refl,
}
use legal_ai_copilot.Prelude.Table.{map_row}
use legal_ai_copilot.Models.{Workflow, IntentType, WorkflowStatus, is_paused}
use legal_ai_copilot.Database.{Db}
use legal_ai_copilot.Services.{Services}
use legal_ai_copilot.Workflows.{set_workflow_status}
use legal_ai_copilot.Workflows.Rows.{row, row_laws}
use legal_ai_copilot.Worker.Node.{Outside, returned, crashed, ◌>>=◌}
use legal_ai_copilot.Worker.Nodes.{
  set_wf_status, intent_node, save_log, record_retrieval, lacks_evidence, retrieved_from,
  ambiguity_gate_node,
}
use legal_ai_copilot.Worker.Act.{brief_of, save_brief}
use legal_ai_copilot.Worker.Process.{
  reports, classify, gate, reason_path, act_path, analyze_path, start_workflow, run_from,
  process_workflow, run_row, intent_path, safely,
}

-- the status of a workflow's row
abbrev pub status_of : ℕ → Db → Option WorkflowStatus
status_of k d = map_row (λ w. w.status) (row k d.workflows)

-- the intents that only search and answer
abbrev pub is_search : IntentType → Bool
is_search IntentType.analyze = true
is_search IntentType.reason = true
is_search _ = false

record_retrieval-workflows :
    (reranked : Bool) (k : ℕ) (found : Option (List ℕ)) (d : Db)
    → (record_retrieval reranked k found d).workflows ≡ d.workflows
unfolding record_retrieval
record_retrieval-workflows reranked k found d = ground arith

record_retrieval-actions :
    (reranked : Bool) (k : ℕ) (found : Option (List ℕ)) (d : Db)
    → (record_retrieval reranked k found d).actions ≡ d.actions
unfolding record_retrieval
record_retrieval-actions reranked k found d = ground arith

module _ (o : Outside) (k : ℕ) where
  -- the database after the search
  abbrev searched : Db → Db
  searched d =
      record_retrieval o.reranked k o.retrieval (set_workflow_status k WorkflowStatus.retrieving d)

  searched-workflows :
      (d : Db)
      → (searched d).workflows ≡ (set_workflow_status k WorkflowStatus.retrieving d).workflows
  searched-workflows d = record_retrieval-workflows o.reranked k o.retrieval _

  searched-actions : (d : Db) → (searched d).actions ≡ d.actions
  searched-actions d = record_retrieval-actions o.reranked k o.retrieval _

  gate_passes :
      (i : IntentType) (c : ℕ) (d : Db) → 800000 ≤ c → gate o k (i, c) d ≡ intent_path o k i d
  unfolding gate
  gate_passes i c d sure = ground arith

  start_classified :
      (i : IntentType) (c : ℕ) (d : Db)
      → o.classification ≡ some (i, c)
      → start_workflow o k none d
        ≡ gate o k (i, c) (save_log k i (set_workflow_status k WorkflowStatus.classifying d))
  unfolding start_workflow classify intent_node set_wf_status ◌>>=◌
  start_classified i c d e = ground arith

  reason_path_crashes :
      (d : Db) (scores : List ℕ)
      → o.retrieval ≡ some scores
      → lacks_evidence scores ≡ false
      → intent_path o k IntentType.reason d
        ≡ (crashed, set_workflow_status k WorkflowStatus.expanding (searched d))
  unfolding intent_path reason_path set_wf_status ◌>>=◌
  reason_path_crashes d scores ret enough = ground arith

  gate_pauses :
      (i : IntentType) (c : ℕ) (d : Db)
      → c < 800000
      → gate o k (i, c) d ≡ (
        returned (reports WorkflowStatus.awaiting_intent_confirmation),
        set_workflow_status k WorkflowStatus.awaiting_intent_confirmation d,
      )
  unfolding gate ambiguity_gate_node set_wf_status ◌>>=◌
  gate_pauses i c d unsure = ground arith

  search_lacks :
      (i : IntentType) (d : Db)
      → is_search i ≡ true
      → (retrieved_from o.retrieval).retrieval_aborted ≡ true
      → intent_path o k i d ≡ (returned (reports WorkflowStatus.completed), searched d)
  unfolding intent_path analyze_path reason_path set_wf_status ◌>>=◌
  search_lacks i d searches lacks = ground arith

  analyze_path_completes :
      (d : Db)
      → (retrieved_from o.retrieval).retrieval_aborted ≡ false
      → (intent_path o k IntentType.analyze d).0 ≡ returned (reports WorkflowStatus.completed)
  unfolding intent_path analyze_path set_wf_status ◌>>=◌
  analyze_path_completes d enough = ground arith

  act_path_pauses :
      (d : Db)
      → intent_path o k IntentType.act d ≡ (
        returned (reports WorkflowStatus.awaiting_brief_confirmation),
        save_brief k (brief_of o) (set_workflow_status k WorkflowStatus.briefing (searched d)),
      )
  unfolding intent_path act_path set_wf_status ◌>>=◌
  act_path_pauses d = refl

module _ (sv : Services) (o : Outside) (k : ℕ) (d : Db) (w : Workflow)
    (found : row k d.workflows ≡ some w) (fresh : is_paused w.status ≡ false) where
  process_fresh : process_workflow sv o k none d ≡ safely k (start_workflow o k none d)
  unfolding process_workflow run_row run_from
  process_fresh = rw found (ground arith)

  -- A workflow that is not paused, is classified REASON with a confidence of at least 0.80, and
  -- whose search finds enough evidence ends FAILED: its nodes read a member that the enumeration
  -- of statuses lacks.
  pub process_reason :
      (c : ℕ) (scores : List ℕ)
      → o.classification ≡ some (IntentType.reason, c)
      → 800000 ≤ c
      → o.retrieval ≡ some scores
      → lacks_evidence scores ≡ false
      → ((process_workflow sv o k none d).0 ≡ reports WorkflowStatus.failed)
        × (status_of k (process_workflow sv o k none d).1 ≡ some WorkflowStatus.failed)
  process_reason c scores class sure ret enough =
      rw
        (
          process_fresh,
          start_classified o k IntentType.reason c d class,
          gate_passes o k IntentType.reason c _ sure,
          reason_path_crashes o k _ scores ret enough,
        )
        (refl, simp (row_laws, record_retrieval-workflows) (rw found))

  -- A workflow that is not paused and is classified ACT with a confidence of at least 0.80 stops
  -- for the lawyer to confirm the brief, whatever the search and the brief's models answer: its
  -- row has the brief, and no action is written.
  pub process_act :
      (c : ℕ)
      → o.classification ≡ some (IntentType.act, c)
      → 800000 ≤ c
      → let (r, d') = process_workflow sv o k none d in
        (r ≡ reports WorkflowStatus.awaiting_brief_confirmation)
        × (row k d'.workflows
            ≡ some (record w {
              decision_brief_payload = some (brief_of o);
              status = WorkflowStatus.awaiting_brief_confirmation;
            }))
        × (d'.actions ≡ d.actions)
  process_act c class sure =
      rw
        (
          process_fresh,
          start_classified o k IntentType.act c d class,
          gate_passes o k IntentType.act c _ sure,
          act_path_pauses o k,
        )
        (refl, simp (row_laws, record_retrieval-workflows) (rw found), searched-actions o k _)

  -- A workflow that is not paused and is classified with a confidence below 0.80 stops for the
  -- intent to be confirmed: nothing else of its row has changed, and no action and no approval
  -- request has.
  pub process_unsure :
      (i : IntentType) (c : ℕ)
      → o.classification ≡ some (i, c)
      → c < 800000
      → let (r, d') = process_workflow sv o k none d in
        (r ≡ reports WorkflowStatus.awaiting_intent_confirmation)
        × (row k d'.workflows
            ≡ some (record w { status = WorkflowStatus.awaiting_intent_confirmation }))
        × (d'.actions ≡ d.actions)
        × (d'.approvals ≡ d.approvals)
  process_unsure i c class unsure =
      rw (process_fresh, start_classified o k i c d class, gate_pauses o k i c _ unsure)
        (refl, simp row_laws (rw found), refl, refl)

  -- A workflow that is not paused and is classified ANALYZE or REASON with a confidence of at
  -- least 0.80: where the search fails or finds fewer than three chunks above 0.5, the task
  -- reports COMPLETED and leaves the row at RETRIEVING.
  pub process_lacking :
      (i : IntentType) (c : ℕ)
      → o.classification ≡ some (i, c)
      → 800000 ≤ c
      → is_search i ≡ true
      → (retrieved_from o.retrieval).retrieval_aborted ≡ true
      → let (r, d') = process_workflow sv o k none d in
        (r ≡ reports WorkflowStatus.completed) × (status_of k d' ≡ some WorkflowStatus.retrieving)
  process_lacking i c class sure searches lacks =
      rw
        (
          process_fresh,
          start_classified o k i c d class,
          gate_passes o k i c _ sure,
          search_lacks o k i _ searches lacks,
        )
        (refl, simp (row_laws, record_retrieval-workflows) (rw found))
