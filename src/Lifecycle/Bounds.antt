-- ===== src/Lifecycle/Bounds.antt =====
-- The bound on revisions, kept by every sequence of operations.
use Prim.Native.String.{count}
use legal_ai_copilot.Prelude.{
  ℕ, String, Option, List, [], ◌∷◌, ◌≡◌, refl, arith, Bool-cases, Option-cases, inl, inr, ◌==◌,
  ◌&&◌, ltb,
}
use legal_ai_copilot.Prelude.Table.{select}
use legal_ai_copilot.Models.{is_draft_waiting}
use legal_ai_copilot.Database.{Db}
use legal_ai_copilot.Http.{Request, Reply-cases}
use legal_ai_copilot.Services.{Services}
use legal_ai_copilot.Workflows.{current_revision}
use legal_ai_copilot.Approvals.{approve_via_token, reject_via_token, reissue_token, pass_gate}
use legal_ai_copilot.Approvals.Gate.{pass_gate_state}
use legal_ai_copilot.Approvals.Rejection.{
  reject-short, reject-refused, reject-passed, moved, refused, revisions-lem,
}
use legal_ai_copilot.ActionAgent.{
  Answers, confirm_brief, approve_workflow, persist_edits, edited, reject_workflow,
  annotate_primary, annotated,
}
use legal_ai_copilot.Goals.{confirm_intent, confirm_plan, consume_token, cancel_goal}
use legal_ai_copilot.Cron.{expire_stale_approvals, expire_stale_ambiguity}
use legal_ai_copilot.Worker.{record_retrieval, write_draft, drafted}
use legal_ai_copilot.Worker.Invariant.{KeptByWrites, process_workflow-keeps}
use legal_ai_copilot.Lifecycle.Ops.{Op, perform, run}
use legal_ai_copilot.Lifecycle.Revisions.{
  IsBounded, bump-IsBounded, current_revision-update_where, update-IsBounded,
  insert_actions-IsBounded,
}

abbrev pub HasBound : Db → Type 0
HasBound d = IsBounded d.actions

module _ (sv : Services) (req : Request) (wf : ℕ) (d : Db) (h : HasBound d) where
  moved-bound : (reason : String) → HasBound (moved req wf reason d)
  moved-bound reason = ground (arith, bump-IsBounded wf d.actions, revisions-lem wf d.actions)

  approve-bound : (token : String) → HasBound (approve_via_token sv req wf token d).1
  unfolding approve_via_token
  approve-bound token = ground (arith, pass_gate_state sv req wf token d)

  persist_edits-bound :
      (draft : Option String) (answers : Option Answers)
      → HasBound (persist_edits sv wf draft answers d)
  unfolding persist_edits
  persist_edits-bound draft answers =
      elim (Option-cases (
        sv.first_action
          (select (λ a. a.workflow_id == wf && is_draft_waiting a.status) d.actions))) [
            | inl absent ↦ rw (persist_edits, absent) h
            | inr (a, found) ↦
                rw (persist_edits, found)
                  (update-IsBounded _ (edited draft answers) d.actions (λ x. refl) h)
          ]

  annotate_primary-bound :
      (reason : String) (revision : ℕ) → HasBound (annotate_primary sv wf reason revision d)
  unfolding annotate_primary
  annotate_primary-bound reason revision =
      elim (Option-cases (sv.first_action (select (λ a. a.workflow_id == wf) d.actions))) [
        | inl absent ↦ rw (annotate_primary, absent) h
        | inr (a, found) ↦
            rw (annotate_primary, found)
              (update-IsBounded _ (annotated reason revision) d.actions (λ x. refl) h)
      ]

  annotate_primary-revision :
      (reason : String) (revision : ℕ)
      → current_revision wf (annotate_primary sv wf reason revision d).actions
        ≡ current_revision wf d.actions
  unfolding annotate_primary
  annotate_primary-revision reason revision =
      elim (Option-cases (sv.first_action (select (λ a. a.workflow_id == wf) d.actions))) [
        | inl absent ↦ rw (annotate_primary, absent) refl
        | inr (a, found) ↦
            rw (annotate_primary, found)
              (current_revision-update_where wf _ (annotated reason revision) d.actions (λ x. refl)
                (λ x. refl))
      ]

  reject_workflow-bound : (reason : String) → HasBound (reject_workflow sv req wf reason d).1
  unfolding reject_workflow
  reject_workflow-bound reason =
      let revision = current_revision wf d.actions in
      let d₁ = annotate_primary sv wf reason revision d in
      ground (
        arith,
        bump-IsBounded wf d₁.actions,
        annotate_primary-bound reason revision,
        annotate_primary-revision reason revision,
      )

reject-bound :
    (sv : Services) (req : Request) (wf : ℕ) (token reason : String) (d : Db)
    → HasBound d
    → HasBound (reject_via_token sv req wf token reason d).1
reject-bound sv req wf token reason d h = elim (Bool-cases (ltb (count reason) 20)) [
  | inl short ↦ rw (reject-short sv req wf token reason d short) h
  | inr long ↦ elim (Reply-cases (pass_gate sv req wf token d).0) [
    | inl (a, e) ↦
        rw (reject-passed sv req wf token reason d a e long)
          (moved-bound sv req wf (refused req a reason d) h reason)
    | inr (code, e) ↦ rw (reject-refused sv req wf token reason d code e) h
  ]
]

bound-writes : (sv : Services) → KeptByWrites HasBound sv
unfolding write_draft
bound-writes sv = record {
  status = λ wf s d h. h;
  log = λ wf i d h. h;
  retrieval = λ reranked wf found d h. unfold record_retrieval in ground arith;
  brief = λ wf b d h. h;
  rows = λ w fresh recs d h. insert_actions-IsBounded w fresh 0 recs d.actions h;
  draft = λ wf p d h.
      elim (Option-cases (sv.first_action (select (λ a. a.workflow_id == wf) d.actions))) [
        | inl absent ↦ rw (write_draft, absent) h
        | inr (a, found) ↦
            rw (write_draft, found) (update-IsBounded _ (drafted p) d.actions (λ x. refl) h)
      ];
  export = λ wf now action d h. update-IsBounded _ _ d.actions (λ x. refl) h;
  failure = λ wf d h. h;
}

perform-bound : (sv : Services) (op : Op) (d : Db) → HasBound d → HasBound (perform sv op d)
unfolding perform
perform-bound sv (Op.approve req wf token) d h = approve-bound sv req wf d h token
perform-bound sv (Op.reject req wf token reason) d h = reject-bound sv req wf token reason d h
perform-bound sv (Op.reissue req is_admin id hours) d h = unfold reissue_token in ground arith
perform-bound sv (Op.confirm_brief_op req wf proceed) d h = unfold confirm_brief in ground arith
perform-bound sv (Op.approve_draft req wf draft answers) d h =
    unfold approve_workflow in ground (arith, persist_edits-bound sv req wf d h draft answers)
perform-bound sv (Op.reject_draft req wf reason) d h = reject_workflow-bound sv req wf d h reason
perform-bound sv (Op.confirm_intent_op req ws goal text) d h = unfold confirm_intent in ground arith
perform-bound sv (Op.confirm_plan_op req ws goal token) d h =
    unfold confirm_plan consume_token in ground arith
perform-bound sv (Op.cancel req ws goal) d h = unfold cancel_goal in ground arith
perform-bound sv (Op.expire_approvals now) d h = unfold expire_stale_approvals in h
perform-bound sv (Op.expire_ambiguity now) d h = unfold expire_stale_ambiguity in h
perform-bound sv (Op.process o wf pre) d h =
    process_workflow-keeps HasBound sv (bound-writes sv) o wf pre d h

-- No sequence of operations revises an action more than three times, where none had been before.
pub run-bound :
    (sv : Services) (ops : List Op) (d : Db)
    → IsBounded d.actions
    → IsBounded (run sv ops d).actions
unfolding run
run-bound sv [] d h = h
run-bound sv (op ∷ ops) d h = run-bound sv ops (perform sv op d) (perform-bound sv op d h)
