-- ===== src/Lifecycle/Revisions.antt =====
-- The bound on the revisions of an action, which both rejection endpoints guard.
use legal_ai_copilot.Prelude.{ℕ, ◌+◌, ◌≤◌, ◌<◌, List, [], ◌∷◌, ◌≡◌, refl, arith, Bool, All, ◌==◌}
use legal_ai_copilot.Prelude.Table.{update_where, All-update_where}
use legal_ai_copilot.Models.{Workflow, Action, Recommendation}
use legal_ai_copilot.Workflows.{current_revision}
use legal_ai_copilot.Worker.{insert_action, insert_actions, action_row}

-- no action has been revised more than three times
abbrev pub IsBounded : List Action → Type 0
IsBounded = All (λ a. a.revision_count ≤ 3)

pub bump-IsBounded :
    (wf : ℕ) (rows : List Action)
    → current_revision wf rows < 3
    → IsBounded rows
    → IsBounded (
        update_where
          (λ a. a.workflow_id == wf)
          (λ a. record a { revision_count = a.revision_count + 1 })
          rows)
unfolding current_revision update_where
bump-IsBounded wf [] small h = h
bump-IsBounded wf (a ∷ rows) small h = ground (arith, bump-IsBounded wf rows)

-- An update that keeps the workflow and the count keeps the current revision.
pub current_revision-update_where :
    (wf : ℕ) (p : Action → Bool) (f : Action → Action) (rows : List Action)
    → ((a : Action) → (f a).workflow_id ≡ a.workflow_id)
    → ((a : Action) → (f a).revision_count ≡ a.revision_count)
    → current_revision wf (update_where p f rows) ≡ current_revision wf rows
unfolding current_revision update_where
current_revision-update_where wf p f [] owner count = refl
current_revision-update_where wf p f (a ∷ rows) owner count =
    ground (arith, owner a, count a, current_revision-update_where wf p f rows owner count)

pub update-IsBounded :
    (p : Action → Bool) (f : Action → Action) (rows : List Action)
    → ((a : Action) → (f a).revision_count ≡ a.revision_count)
    → IsBounded rows
    → IsBounded (update_where p f rows)
update-IsBounded p f rows count = All-update_where _ p f rows (λ a hit h. rw (count a) h)

pub insert_actions-IsBounded :
    (w : Workflow) (fresh : ℕ → ℕ) (k : ℕ) (recs : List Recommendation) (rows : List Action)
    → IsBounded rows
    → IsBounded (insert_actions w fresh k recs rows)
unfolding insert_actions insert_action
insert_actions-IsBounded w fresh k [] rows h = h
insert_actions-IsBounded w fresh k (rec ∷ recs) rows h =
    insert_actions-IsBounded w fresh (k + 1) recs (insert_action (action_row w (fresh k) rec) rows)
      (ground arith)
