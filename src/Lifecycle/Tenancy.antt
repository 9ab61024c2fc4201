-- ===== src/Lifecycle/Tenancy.antt =====
-- What a request of one organisation does to the workflows of the others.
use Prim.Native.String.{count}
use legal_ai_copilot.Prelude.{
  ℕ, String, Bool, some, List, [], ◌∷◌, ◌≡◌, ◌≢◌, refl, arith, All, Bool-cases, Option-cases, inl,
  inr, ◌==◌, ◌&&◌, ltb, leb, not, subst, ◌∙◌,
}
use legal_ai_copilot.Prelude.Table.{select, select_one, Among-select}
use legal_ai_copilot.Models.{
  Workflow, Goal, WorkflowStatus, is_awaiting_brief, is_ended, is_closed_goal, IntentType,
}
use legal_ai_copilot.Database.{Db}
use legal_ai_copilot.Http.{Request, Reply-cases}
use legal_ai_copilot.Services.{Services, IsSelecting}
use legal_ai_copilot.Workflows.{current_revision}
use legal_ai_copilot.Workflows.Rows.{with_status}
use legal_ai_copilot.Approvals.{approve_via_token, reject_via_token, reissue_token, pass_gate}
use legal_ai_copilot.Approvals.Gate.{pass_gate_state, pass_gate-Passed}
use legal_ai_copilot.Approvals.Rejection.{reject-short, reject-refused, reject-passed, moved_status}
use legal_ai_copilot.ActionAgent.{
  confirm_brief, approve_workflow, persist_edits, reject_workflow, annotate_primary, strip,
}
use legal_ai_copilot.Goals.{
  confirm_intent, intent_of, override_intent, set_goal_intent, confirm_plan, consume_token,
  cancel_goal,
}
use legal_ai_copilot.Lifecycle.Ops.{Op, perform, run}
use legal_ai_copilot.Lifecycle.OwnChange.{
  OwnChange, same, update, HasWorkflowKey, OwnChange-IsKey, OwnChange-others, rows_of, update_row,
  update_found,
}

-- the operation is a request of the organisation
unfoldable pub IsRequestOf : ℕ → Op → Type 0
IsRequestOf org (Op.approve req wf token) = req.org_id ≡ org
IsRequestOf org (Op.reject req wf token reason) = req.org_id ≡ org
IsRequestOf org (Op.reissue req is_admin id hours) = req.org_id ≡ org
IsRequestOf org (Op.confirm_brief_op req wf proceed) = req.org_id ≡ org
IsRequestOf org (Op.approve_draft req wf draft answers) = req.org_id ≡ org
IsRequestOf org (Op.reject_draft req wf reason) = req.org_id ≡ org
IsRequestOf org (Op.confirm_intent_op req ws goal text) = req.org_id ≡ org
IsRequestOf org (Op.confirm_plan_op req ws goal token) = req.org_id ≡ org
IsRequestOf org (Op.cancel req ws goal) = req.org_id ≡ org
IsRequestOf org (Op.expire_approvals now) = ⊥
IsRequestOf org (Op.expire_ambiguity now) = ⊥
IsRequestOf org (Op.process o wf pre) = ⊥

module _ (sv : Services) (req : Request) (d : Db) (key : HasWorkflowKey d.workflows) where
  override_intent-own :
      (sel : IsSelecting sv) (goal : ℕ) (i : IntentType)
      → let chosen =
          sv.newest_workflow
            (select (λ w. w.goal_id == goal && w.org_id == req.org_id) d.workflows) in
        OwnChange req.org_id d.workflows (override_intent i chosen d).workflows
  override_intent-own sel goal i =
      let mine = λ (w : Workflow). w.goal_id == goal && w.org_id == req.org_id in
      elim (Option-cases (sv.newest_workflow (select mine d.workflows))) [
        | inl absent ↦ rw absent (same refl)
        | inr (w, found) ↦
            let (m, hit) =
              Among-select mine d.workflows w
                (sel.newest_workflow-Among (select mine d.workflows) w found) in
            rw found (
              update_row req.org_id d.workflows _ w w.id _ key m refl (ground arith)
                (λ x. (refl, refl)) refl)
      ]

module _ (sv : Services) (req : Request) (d : Db) (key : HasWorkflowKey d.workflows) where
  reject-own :
      (wf : ℕ) (token reason : String)
      → OwnChange req.org_id d.workflows (reject_via_token sv req wf token reason d).1.workflows
  reject-own wf token reason = elim (Bool-cases (ltb (count reason) 20)) [
    | inl short ↦ rw (reject-short sv req wf token reason d short) (same refl)
    | inr long ↦ elim (Reply-cases (pass_gate sv req wf token d).0) [
      | inl (a, e) ↦
          let passed = pass_gate-Passed sv req wf token d a e in
          rw (reject-passed sv req wf token reason d a e long) (
            update_found req.org_id d.workflows _ passed.workflow wf
              (with_status (moved_status wf d)) key passed.found (λ x. (refl, refl)) (ground arith))
      | inr (code, e) ↦ rw (reject-refused sv req wf token reason d code e) (same refl)
    ]
  ]

  confirm_brief-own :
      (wf : ℕ) (proceed : Bool)
      → OwnChange req.org_id d.workflows (confirm_brief req wf proceed d).1.workflows
  unfolding confirm_brief
  confirm_brief-own wf proceed =
      elim (Option-cases (select_one (λ w. w.id == wf && w.org_id == req.org_id) d.workflows)) [
        | inl absent ↦ same (ground arith)
        | inr (w, found) ↦ elim (Bool-cases (is_awaiting_brief w.status && not proceed)) [
          | inl cancels ↦
              update_found req.org_id d.workflows _ w wf (with_status WorkflowStatus.cancelled) key
                found (λ x. (refl, refl)) (ground arith)
          | inr other ↦ same (ground arith)
        ]
      ]

  reject_workflow-own :
      (wf : ℕ) (reason : String)
      → OwnChange req.org_id d.workflows (reject_workflow sv req wf reason d).1.workflows
  unfolding reject_workflow annotate_primary
  reject_workflow-own wf reason =
      elim (Option-cases (select_one (λ w. w.id == wf && w.org_id == req.org_id) d.workflows)) [
        | inl absent ↦ same (ground arith)
        | inr (w, found) ↦ elim (Bool-cases (ltb (count (strip reason)) 20)) [
          | inl short ↦ same (ground arith)
          | inr long ↦ elim (Bool-cases (leb 3 (current_revision wf d.actions))) [
            | inl spent ↦
                update_found req.org_id d.workflows _ w wf (with_status WorkflowStatus.escalated)
                  key found (λ x. (refl, refl)) (ground arith)
            | inr left ↦
                update_found req.org_id d.workflows _ w wf (with_status WorkflowStatus.revising) key
                  found (λ x. (refl, refl)) (ground arith)
          ]
        ]
      ]

  confirm_intent-workflows :
      (ws goal : ℕ) (text : String) (i : IntentType) (g : Goal)
      → intent_of (sv.upper text) ≡ some i
      → select_one (λ g. g.id == goal && g.workspace_id == ws && g.org_id == req.org_id) d.goals
        ≡ some g
      → let chosen =
          sv.newest_workflow
            (select (λ w. w.goal_id == goal && w.org_id == req.org_id) d.workflows) in
        (confirm_intent sv req ws goal text d).1.workflows
        ≡ (override_intent i chosen (set_goal_intent g.id i d)).workflows
  unfolding confirm_intent
  confirm_intent-workflows ws goal text i g known found = ground arith

  confirm_intent-own :
      (sel : IsSelecting sv) (ws goal : ℕ) (text : String)
      → OwnChange req.org_id d.workflows (confirm_intent sv req ws goal text d).1.workflows
  unfolding confirm_intent
  confirm_intent-own sel ws goal text = elim (Option-cases (intent_of (sv.upper text))) [
    | inl unknown ↦ rw unknown (same (ground arith))
    | inr (i, known) ↦
        elim (Option-cases (
          select_one (λ g. g.id == goal && g.workspace_id == ws && g.org_id == req.org_id)
            d.goals)) [
              | inl absent ↦ same (ground arith)
              | inr (g, found) ↦
                  rw (confirm_intent-workflows ws goal text i g known found)
                    (override_intent-own sv req (set_goal_intent g.id i d) key sel goal i)
            ]
  ]

  cancel_goal-own :
      (ws goal : ℕ) → OwnChange req.org_id d.workflows (cancel_goal req ws goal d).1.workflows
  unfolding cancel_goal
  cancel_goal-own ws goal =
      elim (Option-cases (
        select_one (λ g. g.id == goal && g.workspace_id == ws && g.org_id == req.org_id) d.goals)) [
          | inl absent ↦ same (ground arith)
          | inr (g, found) ↦ elim (Bool-cases (is_closed_goal g.status)) [
            | inl closed ↦ same (ground arith)
            | inr live ↦
                update (λ w. w.goal_id == goal && w.org_id == req.org_id && not (is_ended w.status))
                  (λ w. record w { status = WorkflowStatus.cancelled; completed_at = some req.now })
                  (λ x m hit. ground arith) (λ x. (refl, refl)) (ground arith)
          ]
        ]

approve-workflows :
    (sv : Services) (req : Request) (wf : ℕ) (token : String) (d : Db)
    → (approve_via_token sv req wf token d).1.workflows ≡ d.workflows
unfolding approve_via_token
approve-workflows sv req wf token d = ground (arith, pass_gate_state sv req wf token d)

perform-own :
    (sv : Services) (sel : IsSelecting sv) (org : ℕ) (op : Op) (d : Db)
    → IsRequestOf org op
    → HasWorkflowKey d.workflows
    → OwnChange org d.workflows (perform sv op d).workflows
unfolding perform IsRequestOf
perform-own sv sel org (Op.approve req wf token) d mine key =
    same (approve-workflows sv req wf token d)
perform-own sv sel org (Op.reject req wf token reason) d mine key =
    subst (λ o. OwnChange o d.workflows (reject_via_token sv req wf token reason d).1.workflows)
      mine (reject-own sv req d key wf token reason)
perform-own sv sel org (Op.reissue req is_admin id hours) d mine key =
    same (unfold reissue_token in ground arith)
perform-own sv sel org (Op.confirm_brief_op req wf proceed) d mine key =
    subst (λ o. OwnChange o d.workflows (confirm_brief req wf proceed d).1.workflows) mine
      (confirm_brief-own sv req d key wf proceed)
perform-own sv sel org (Op.approve_draft req wf draft answers) d mine key =
    same (unfold approve_workflow persist_edits in ground arith)
perform-own sv sel org (Op.reject_draft req wf reason) d mine key =
    subst (λ o. OwnChange o d.workflows (reject_workflow sv req wf reason d).1.workflows) mine
      (reject_workflow-own sv req d key wf reason)
perform-own sv sel org (Op.confirm_intent_op req ws goal text) d mine key =
    subst (λ o. OwnChange o d.workflows (confirm_intent sv req ws goal text d).1.workflows) mine
      (confirm_intent-own sv req d key sel ws goal text)
perform-own sv sel org (Op.confirm_plan_op req ws goal token) d mine key =
    same (unfold confirm_plan consume_token in ground arith)
perform-own sv sel org (Op.cancel req ws goal) d mine key =
    subst (λ o. OwnChange o d.workflows (cancel_goal req ws goal d).1.workflows) mine
      (cancel_goal-own sv req d key ws goal)
perform-own sv sel org (Op.expire_approvals now) d mine key = absurd mine
perform-own sv sel org (Op.expire_ambiguity now) d mine key = absurd mine
perform-own sv sel org (Op.process o wf pre) d mine key = absurd mine

-- Any sequence of requests of one organisation leaves the workflows of every other organisation
-- as they are, where workflow ids are unique and the database returns rows of its queries.
pub run-others :
    (sv : Services) (org other : ℕ) (ops : List Op) (d : Db)
    → IsSelecting sv
    → HasWorkflowKey d.workflows
    → All (IsRequestOf org) ops
    → other ≢ org
    → rows_of other (run sv ops d).workflows ≡ rows_of other d.workflows
unfolding run
run-others sv org other [] d sel key mine differ = refl
run-others sv org other (op ∷ ops) d sel key mine differ =
    let step = perform-own sv sel org op d mine.0 key in
    run-others sv org other ops (perform sv op d) sel
      (OwnChange-IsKey org d.workflows (perform sv op d).workflows step key) mine.1 differ
    ∙ OwnChange-others org other d.workflows (perform sv op d).workflows differ step
