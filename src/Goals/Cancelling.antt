-- ===== src/Goals/Cancelling.antt =====
-- What cancelling a goal does to its workflows, in app/routers/goals.py.
use legal_ai_copilot.Prelude.{
  ℕ, ◌≡◌, refl, ap, sym, subst, ◌∙◌, true, arith, Among, inl, inr, Bool-cases, ◌==◌, ◌&&◌, not,
  some, if◌then◌else◌, Bool,
}
use legal_ai_copilot.Prelude.Table.{update_where, update_where_source}
use legal_ai_copilot.Models.{Workflow, WorkflowStatus, GoalStatus, is_ended}
use legal_ai_copilot.Database.{Db}
use legal_ai_copilot.Http.{Request, ok}
use legal_ai_copilot.Goals.Endpoints.{cancel_goal}

-- the workflows of the goal, of the organisation
abbrev pub is_of_goal : ℕ → ℕ → Workflow → Bool
is_of_goal goal org w = w.goal_id == goal && w.org_id == org

-- the live ones among them
abbrev is_live : ℕ → ℕ → Workflow → Bool
is_live goal org w = w.goal_id == goal && w.org_id == org && not (is_ended w.status)

abbrev closed : ℕ → Workflow → Workflow
closed now w = record w { status = WorkflowStatus.cancelled; completed_at = some now }

module _ (req : Request) (ws goal : ℕ) (d : Db) (s : GoalStatus)
    (succeeds : (cancel_goal req ws goal d).0 ≡ ok s) where
  cancel_goal-workflows :
      (cancel_goal req ws goal d).1.workflows
      ≡ update_where (is_live goal req.org_id) (closed req.now) d.workflows
  unfolding cancel_goal
  cancel_goal-workflows = ground arith

  closed-ends :
      (w v : Workflow)
      → w ≡ (if is_live goal req.org_id v then closed req.now v else v)
      → is_of_goal goal req.org_id w ≡ true
      → is_ended w.status ≡ true
  closed-ends w v e mine = elim (Bool-cases (is_live goal req.org_id v)) [
    | inl live ↦ rw (e, live) refl
    | inr dead ↦
        let same : w ≡ v = e ∙ ap (λ b. if b then closed req.now v else v) dead in
        let v_mine : is_of_goal goal req.org_id v ≡ true =
          ap (is_of_goal goal req.org_id) (sym same) ∙ mine in
        ap (λ x. is_ended x.status) same ∙ ground (arith, v_mine, dead)
  ]

  -- Once a goal has been cancelled with success, every workflow of that goal and organisation has
  -- ended.
  pub cancel_goal-ends :
      (w : Workflow)
      → Among w (cancel_goal req ws goal d).1.workflows
      → is_of_goal goal req.org_id w ≡ true
      → is_ended w.status ≡ true
  cancel_goal-ends w m mine =
      let (v, there, e) =
        update_where_source (is_live goal req.org_id) (closed req.now) d.workflows w
          (subst (Among w) cancel_goal-workflows m) in
      closed-ends w v e mine
