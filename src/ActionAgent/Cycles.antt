-- ===== src/ActionAgent/Cycles.antt =====
-- What repeated rejections of app/routers/action_agent.py lead to.
use Prim.Native.String.{count}
use legal_ai_copilot.Prelude.{
  ℕ, zero, suc, false, ◌+◌, ◌≤◌, ◌<◌, String, true, some, List, [], ◌∷◌, ◌≡◌, refl, ◌∙◌, arith, inl,
  inr, ◌==◌, ◌&&◌, ltb, if◌then◌else◌, Option-cases, ap, Bool-cases, subst, Bool,
}
use legal_ai_copilot.Prelude.Table.{select, select_one, exists_where, update_where}
use legal_ai_copilot.Models.{Workflow, Action, WorkflowStatus}
use legal_ai_copilot.Database.{Db}
use legal_ai_copilot.Http.{Request}
use legal_ai_copilot.Services.{Services}
use legal_ai_copilot.Workflows.{current_revision, bump_revisions, set_workflow_status}
use legal_ai_copilot.Workflows.Rows.{row, row_laws, update_row, with_status}
use legal_ai_copilot.Lifecycle.Revisions.{current_revision-update_where}
use legal_ai_copilot.ActionAgent.Revision.{revising-workflows, escalated_result}
use legal_ai_copilot.ActionAgent.Endpoints.{reject_workflow, strip, annotate_primary, annotated}

-- the workflow has an action
abbrev pub has_action : ℕ → List Action → Bool
has_action k = exists_where (λ a. a.workflow_id == k)

has_action-update_where :
    (k : ℕ) (p : Action → Bool) (f : Action → Action) (rows : List Action)
    → ((a : Action) → (f a).workflow_id ≡ a.workflow_id)
    → has_action k (update_where p f rows) ≡ has_action k rows
unfolding exists_where update_where
has_action-update_where k p f [] owner = refl
has_action-update_where k p f (a ∷ rows) owner =
    ground (arith, owner a, has_action-update_where k p f rows owner)

no_action-current_revision :
    (k : ℕ) (rows : List Action) → has_action k rows ≡ false → current_revision k rows ≡ 0
unfolding current_revision exists_where
no_action-current_revision k [] e = refl
no_action-current_revision k (a ∷ rows) e = ground (arith, no_action-current_revision k rows)

bump-current_revision :
    (k : ℕ) (rows : List Action)
    → current_revision k (
        update_where
          (λ a. a.workflow_id == k)
          (λ a. record a { revision_count = a.revision_count + 1 })
          rows)
      ≡ (if has_action k rows then current_revision k rows + 1 else 0)
unfolding current_revision update_where exists_where
bump-current_revision k [] = refl
bump-current_revision k (a ∷ rows) =
    ground (arith, bump-current_revision k rows, no_action-current_revision k rows)

find-with_status :
    (k org : ℕ) (s : WorkflowStatus) (rows : List Workflow) (w : Workflow)
    → select_one (λ w. w.id == k && w.org_id == org) rows ≡ some w
    → select_one (λ w. w.id == k && w.org_id == org) (update_row k (with_status s) rows)
      ≡ some (with_status s w)
unfolding select_one update_where
find-with_status k org s [] w found = absurd (ground arith)
find-with_status k org s (x ∷ rows) w found = ground (arith, find-with_status k org s rows w)

-- the tables after `n` rejections
unfoldable pub rejections : Services → Request → ℕ → String → ℕ → Db → Db
rejections sv req k reason zero d = d
rejections sv req k reason (suc n) d =
    (reject_workflow sv req k reason (rejections sv req k reason n d)).1

module _ (sv : Services) (req : Request) (k : ℕ) (reason : String)
    (long : 20 ≤ count (strip reason)) where
  abbrev once : Db → Db
  once d = (reject_workflow sv req k reason d).1

  abbrev after : ℕ → Db → Db
  after = rejections sv req k reason

  -- the workflow is one of the organisation, and its actions were revised `n` times
  record InCycle (n : ℕ) (w : Workflow) (d : Db) : Type 0 where
    pub found : select_one (λ w. w.id == k && w.org_id == req.org_id) d.workflows ≡ some w
    pub listed : row k d.workflows ≡ some w
    pub acted : has_action k d.actions ≡ true
    pub counted : current_revision k d.actions ≡ n

  annotated_actions :
      (revision : ℕ) (d : Db)
      → (current_revision k (annotate_primary sv k reason revision d).actions
          ≡ current_revision k d.actions)
        × (has_action k (annotate_primary sv k reason revision d).actions ≡ has_action k d.actions)
  unfolding annotate_primary
  annotated_actions revision d =
      elim (Option-cases (sv.first_action (select (λ a. a.workflow_id == k) d.actions))) [
        | inl absent ↦
            let e : annotate_primary sv k reason revision d ≡ d = ground arith in
            (ap (λ x. current_revision k x.actions) e, ap (λ x. has_action k x.actions) e)
        | inr (a, first) ↦
            let e : (annotate_primary sv k reason revision d).actions
                ≡ update_where (λ x. x.id == a.id) (annotated reason revision) d.actions =
              ground arith in
            (
              ap (current_revision k) e
                  ∙ current_revision-update_where k (λ x. x.id == a.id) (annotated reason revision)
                      d.actions (λ x. refl) (λ x. refl),
              ap (has_action k) e
                  ∙ has_action-update_where k (λ x. x.id == a.id) (annotated reason revision)
                      d.actions (λ x. refl),
            )
      ]

  revising-actions :
      (w : Workflow) (d : Db)
      → select_one (λ w. w.id == k && w.org_id == req.org_id) d.workflows ≡ some w
      → current_revision k d.actions < 3
      → (once d).actions
        ≡ (bump_revisions k (annotate_primary sv k reason (current_revision k d.actions) d)).actions
  unfolding reject_workflow
  revising-actions w d found left = ground arith

  once-revises :
      (n : ℕ) (w : Workflow) (d : Db)
      → n < 3
      → InCycle n w d
      → InCycle (n + 1) (with_status WorkflowStatus.revising w) (once d)
  once-revises n w d left c =
      let revision = current_revision k d.actions in
      let (same, kept) = annotated_actions revision d in
      let noted = annotate_primary sv k reason revision d in
      let workflows : (once d).workflows
          ≡ update_row k (with_status WorkflowStatus.revising) d.workflows =
        revising-workflows sv req k reason d w c.found c.listed long
          (omega (arith, left, c.counted)) in
      let actions : (once d).actions ≡ (bump_revisions k noted).actions =
        revising-actions w d c.found (omega (arith, left, c.counted)) in
      let more = λ (a : Action). record a { revision_count = a.revision_count + 1 } in
      let bumped = bump-current_revision k noted.actions in
      record {
        found =
            rw workflows
              (find-with_status k req.org_id WorkflowStatus.revising d.workflows w c.found);
        listed = rw workflows (simp row_laws (rw c.listed));
        acted =
            ap (has_action k) actions
            ∙ has_action-update_where k (λ a. a.workflow_id == k) more noted.actions (λ a. refl)
            ∙ kept
            ∙ c.acted;
        counted =
            ap (current_revision k) actions
            ∙ bumped
            ∙ ground (arith, same, kept, c.acted, c.counted);
      }

  once-escalates :
      (n : ℕ) (w : Workflow) (d : Db)
      → 3 ≤ n
      → InCycle n w d
      → InCycle n (with_status WorkflowStatus.escalated w) (once d)
  once-escalates n w d spent c =
      let e : once d ≡ set_workflow_status k WorkflowStatus.escalated d =
        ap (λ x. x.1)
          (escalated_result sv req k reason d w c.found c.listed long
            (omega (arith, spent, c.counted))) in
      record {
        found = rw e (find-with_status k req.org_id WorkflowStatus.escalated d.workflows w c.found);
        listed = rw e (simp row_laws (rw c.listed));
        acted = rw e c.acted;
        counted = rw e c.counted;
      }

  abbrev revised : ℕ → ℕ
  revised n = if ltb n 3 then n else 3

  after_rejections :
      (w : Workflow) (d : Db) (n : ℕ)
      → InCycle 0 w d
      → (v : Workflow) × InCycle (revised n) v (after n d)
        × ((s : WorkflowStatus) → with_status s v ≡ with_status s w)
  unfolding rejections
  after_rejections w d zero c = (w, c, λ s. refl)
  after_rejections w d (suc n) c =
      let (v, cycle, same) = after_rejections w d n c in
      elim (Bool-cases (ltb n 3)) [
        | inl left ↦ (
          with_status WorkflowStatus.revising v,
          subst (λ m. InCycle m (with_status WorkflowStatus.revising v) (once (after n d)))
              (ground arith) (once-revises (revised n) v (after n d) (ground arith) cycle),
          λ s. same s,
        )
        | inr spent ↦ (
          with_status WorkflowStatus.escalated v,
          subst (λ m. InCycle m (with_status WorkflowStatus.escalated v) (once (after n d)))
              (ground arith) (once-escalates (revised n) v (after n d) (ground arith) cycle),
          λ s. same s,
        )
      ]

  -- A workflow of the organisation that has an action, and whose actions were never revised: the
  -- first three rejections with a reason of at least 20 characters put it to REVISING, and every
  -- later one to ESCALATED; the revisions that are counted go up by one each time, and stay at
  -- three.
  pub reject_workflow-cycle :
      (w : Workflow) (d : Db) (n : ℕ)
      → select_one (λ w. w.id == k && w.org_id == req.org_id) d.workflows ≡ some w
      → row k d.workflows ≡ some w
      → has_action k d.actions ≡ true
      → current_revision k d.actions ≡ 0
      → let d' = rejections sv req k reason (suc n) d in
        (row k d'.workflows
          ≡ some (record w {
            status = if ltb n 3 then WorkflowStatus.revising else WorkflowStatus.escalated;
          }))
        × (current_revision k d'.actions ≡ (if ltb n 3 then suc n else 3))
  unfolding rejections
  reject_workflow-cycle w d n found listed acted fresh =
      let start : InCycle 0 w d = record {
        found = found;
        listed = listed;
        acted = acted;
        counted = fresh;
      } in
      let (v, cycle, same) = after_rejections w d n start in
      elim (Bool-cases (ltb n 3)) [
        | inl left ↦
            let c = once-revises (revised n) v (after n d) (ground arith) cycle in
            rw left
              (c.listed ∙ ap (λ x. some x) (same WorkflowStatus.revising), c.counted ∙ ground arith)
        | inr spent ↦
            let c = once-escalates (revised n) v (after n d) (ground arith) cycle in
            rw spent (
              c.listed ∙ ap (λ x. some x) (same WorkflowStatus.escalated),
              c.counted ∙ ground arith,
            )
      ]
