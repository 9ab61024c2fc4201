-- ===== src/Lifecycle/OwnChange.antt =====
-- The way in which a request changes the table of workflows: rows of its own organisation.
use legal_ai_copilot.Prelude.{
  ℕ, Bool, true, false, some, List, ◌≡◌, ◌≢◌, arith, Among, eq_of_test, ◌==◌, ◌&&◌,
}
use legal_ai_copilot.Prelude.Table.{
  select, select_one, update_where, IsKey, Among-select_one, select-update_where,
  update_where-IsKey,
}
use legal_ai_copilot.Models.{Workflow}

abbrev pub Workflows : Type 0
Workflows = List Workflow

abbrev pub HasWorkflowKey : Workflows → Type 0
HasWorkflowKey = IsKey (λ w. w.id)

-- The table is as before, or one UPDATE that keeps keys and owners has run on rows of `org`.
pub data OwnChange (org : ℕ) (before after : Workflows) : Type 0 where
  same : after ≡ before → OwnChange org before after
  update :
      (p : Workflow → Bool) (f : Workflow → Workflow)
      → ((x : Workflow) → Among x before → p x ≡ true → x.org_id ≡ org)
      → ((x : Workflow) → ((f x).id ≡ x.id) × ((f x).org_id ≡ x.org_id))
      → after ≡ update_where p f before
      → OwnChange org before after

pub OwnChange-IsKey :
    (org : ℕ) (before after : Workflows)
    → OwnChange org before after
    → HasWorkflowKey before
    → HasWorkflowKey after
OwnChange-IsKey org before after (same e) key = rw e key
OwnChange-IsKey org before after (update p f own keep e) key =
    rw e (update_where-IsKey (λ w. w.id) p f before (λ x. (keep x).0) key)

-- the rows of an organisation
unfoldable pub rows_of : ℕ → Workflows → Workflows
rows_of org = select (λ w. w.org_id == org)

other-test : (a org other : ℕ) → a ≡ org → other ≢ org → (a == other) ≡ false
other-test a org other own differ = ground (arith, differ)

pub OwnChange-others :
    (org other : ℕ) (before after : Workflows)
    → other ≢ org
    → OwnChange org before after
    → rows_of other after ≡ rows_of other before
unfolding rows_of
OwnChange-others org other before after differ (same e) = rw e (λ i. rows_of other before)
OwnChange-others org other before after differ (update p f own keep e) = rw e (
    select-update_where (λ w. w.org_id == other) p f before
      (λ x m hit. other-test x.org_id org other (own x m hit) differ)
      (λ x m hit. rw (keep x).1 (other-test x.org_id org other (own x m hit) differ)))

-- the update, by its key, of a row of the organisation
pub update_row :
    (org : ℕ) (before after : Workflows) (b : Workflow) (k : ℕ) (f : Workflow → Workflow)
    → HasWorkflowKey before
    → Among b before
    → b.id ≡ k
    → b.org_id ≡ org
    → ((x : Workflow) → ((f x).id ≡ x.id) × ((f x).org_id ≡ x.org_id))
    → after ≡ update_where (λ w. w.id == k) f before
    → OwnChange org before after
update_row org before after b k f key m named own keep e =
    update (λ w. w.id == k) f
      (λ x mx hit. let eq : x ≡ b = key x b mx m (cc (eq_of_test x.id k hit, named)) in rw eq own)
      keep e

-- … where the row is the one that `_get_workflow_for_org` finds
pub update_found :
    (org : ℕ) (before after : Workflows) (b : Workflow) (k : ℕ) (f : Workflow → Workflow)
    → HasWorkflowKey before
    → select_one (λ w. w.id == k && w.org_id == org) before ≡ some b
    → ((x : Workflow) → ((f x).id ≡ x.id) × ((f x).org_id ≡ x.org_id))
    → after ≡ update_where (λ w. w.id == k) f before
    → OwnChange org before after
update_found org before after b k f key found keep e =
    let (m, hit) = Among-select_one (λ w. w.id == k && w.org_id == org) before b found in
    update_row org before after b k f key m (ground arith) (ground arith) keep e
