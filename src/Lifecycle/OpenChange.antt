-- ===== src/Lifecycle/OpenChange.antt =====
-- The one way in which the table of approval requests changes: open requests are updated.
use legal_ai_copilot.Prelude.{
  Bool, true, false, List, ◌≡◌, Among, Bool-cases, inl, inr, eq_of_test, ◌==◌,
}
use legal_ai_copilot.Prelude.Table.{update_where, IsKey, Among-update_where, update_where-IsKey}
use legal_ai_copilot.Models.{ApprovalRequest, ApprovalStatus}

-- USED and REJECTED
unfoldable pub is_decided : ApprovalStatus → Bool
is_decided ApprovalStatus.used = true
is_decided ApprovalStatus.rejected = true
is_decided _ = false

abbrev pub Approvals : Type 0
Approvals = List ApprovalRequest

-- The table of approvals is as before, or one UPDATE that keeps the keys has run on rows that
-- were not decided.
pub data OpenChange (before after : Approvals) : Type 0 where
  same : after ≡ before → OpenChange before after
  update :
      (p : ApprovalRequest → Bool) (f : ApprovalRequest → ApprovalRequest)
      → ((x : ApprovalRequest) → Among x before → p x ≡ true → is_decided x.status ≡ false)
      → ((x : ApprovalRequest) → (f x).id ≡ x.id)
      → after ≡ update_where p f before
      → OpenChange before after

pub OpenChange-IsKey :
    (before after : Approvals)
    → OpenChange before after
    → IsKey (λ a. a.id) before
    → IsKey (λ a. a.id) after
OpenChange-IsKey before after (same e) key = rw e key
OpenChange-IsKey before after (update p f undecided keep e) key =
    rw e (update_where-IsKey (λ a. a.id) p f before keep key)

pub OpenChange-decided :
    (before after : Approvals)
    → OpenChange before after
    → (a : ApprovalRequest) → Among a before
    → is_decided a.status ≡ true
    → Among a after
OpenChange-decided before after (same e) a m dec = rw e m
OpenChange-decided before after (update p f undecided keep e) a m dec = rw e (
    Among-update_where p f before a m (elim (Bool-cases (p a)) [
      | inl hit ↦ absurd (cc (undecided a m hit, dec))
      | inr miss ↦ miss
    ]))

-- the update of one open row by its key
pub update_row :
    (before after : Approvals) (b : ApprovalRequest) (f : ApprovalRequest → ApprovalRequest)
    → IsKey (λ a. a.id) before
    → Among b before
    → is_decided b.status ≡ false
    → ((x : ApprovalRequest) → (f x).id ≡ x.id)
    → after ≡ update_where (λ r. r.id == b.id) f before
    → OpenChange before after
update_row before after b f key m undecided keep e =
    update (λ r. r.id == b.id) f
      (λ x mx hit. let eq : x ≡ b = key x b mx m (eq_of_test x.id b.id hit) in rw eq undecided) keep
      e
