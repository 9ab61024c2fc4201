-- ===== src/Deadlines/Scanner.antt =====
-- app/tasks.py: `calculate_urgency` and `deadline_scanner`. Scores are in millionths, times in
-- seconds.
use legal_ai_copilot.Prelude.{
  ℕ, ◌-◌, ◌/◌, Bool, true, false, ◌&&◌, none, some, List, [], ◌∷◌, ◌++◌, ℤ, pos, negsuc, leb, ◌==◌,
  if◌then◌else◌,
}
use legal_ai_copilot.Prelude.Table.{select, exists_where, update_where}
use legal_ai_copilot.Models.{Deadline, Action, DeadlineStatus, ActionStatus, is_draft_waiting}
use legal_ai_copilot.Database.{Db}

-- `(resolved - now).days`, which rounds down
unfoldable pub days_remaining : ℕ → ℕ → ℤ
days_remaining now resolved =
    if leb now resolved
    then pos ((resolved - now) / 86400)
    else negsuc ((now - resolved - 1) / 86400)

unfoldable pub calculate_urgency : ℤ → ℕ
calculate_urgency (negsuc days) = 1000000
calculate_urgency (pos days) =
    if leb days 0
    then 1000000
    else if leb days 1
    then 950000
    else if leb days 3
    then 850000
    else if leb days 7
    then 700000
    else if leb days 14
    then 500000
    else if leb days 30
    then 300000
    else 100000

-- `days_remaining <= 0`
unfoldable pub is_due : ℤ → Bool
is_due (negsuc days) = true
is_due (pos days) = leb days 0

abbrev pub is_active : DeadlineStatus → Bool
is_active DeadlineStatus.active = true
is_active _ = false

-- what the loop over the rows finds out about one deadline
pub record ScanRow : Type 0 where
  pub id : ℕ
  pub score : ℕ
  pub overdue : Bool

unfoldable pub scan_row : ℕ → ℕ → ℕ → ScanRow
scan_row now id resolved = record {
  id = id;
  score = calculate_urgency (days_remaining now resolved);
  overdue = is_due (days_remaining now resolved);
}

-- the rows WHERE status = 'ACTIVE' AND resolved_deadline IS NOT NULL, scored
unfoldable pub scan_rows : ℕ → List Deadline → List ScanRow
scan_rows now [] = []
scan_rows now (d ∷ rows) =
    let rest = scan_rows now rows in
    elim d.resolved_deadline [
      | none ↦ rest
      | some resolved ↦ if is_active d.status then scan_row now d.id resolved ∷ rest else rest
    ]

abbrev pub with_urgency : ℕ → Deadline → Deadline
with_urgency score d = record d { urgency_score = score }

-- one UPDATE for each scored row
unfoldable pub write_urgencies : List ScanRow → List Deadline → List Deadline
write_urgencies [] rows = rows
write_urgencies (r ∷ scanned) rows =
    write_urgencies scanned (update_where (λ d. d.id == r.id) (with_urgency r.score) rows)

-- WHERE id = ANY(overdue_ids)
abbrev pub is_overdue_id : List ScanRow → Deadline → Bool
is_overdue_id scanned d = exists_where (λ r. r.overdue && r.id == d.id) scanned

abbrev pub overdue : Deadline → Deadline
overdue d = record d { status = DeadlineStatus.overdue }

unfoldable pub mark_overdue : List ScanRow → List Deadline → List Deadline
mark_overdue scanned = update_where (is_overdue_id scanned) overdue

-- status IN ('DETECTED', 'CONFIRMED', 'AWAITING_APPROVAL')
abbrev pub is_linked_status : ActionStatus → Bool
is_linked_status ActionStatus.detected = true
is_linked_status ActionStatus.confirmed = true
is_linked_status ActionStatus.awaiting_approval = true
is_linked_status _ = false

-- an action joined with its deadline
pub record Link : Type 0 where
  pub action_id : ℕ
  pub status : ActionStatus
  pub deadline_id : ℕ
  pub urgency : ℕ

unfoldable pub links_of : Action → ℕ → List Deadline → List Link
links_of a k [] = []
links_of a k (d ∷ rows) =
    let rest = links_of a k rows in
    if d.id == k && leb 850000 d.urgency_score && is_linked_status a.status
    then record {
      action_id = a.id;
      status = a.status;
      deadline_id = d.id;
      urgency = d.urgency_score;
    }
      ∷ rest
    else rest

-- actions JOIN deadline_registry
unfoldable pub linked_actions : List Action → List Deadline → List Link
unfolding links_of
linked_actions [] deadlines = []
linked_actions (a ∷ rows) deadlines =
    let rest = linked_actions rows deadlines in
    elim a.deadline_id [ none ↦ rest | some k ↦ links_of a k deadlines ++ rest ]

unfoldable pub push_urgencies : List Link → List Action → List Action
push_urgencies [] rows = rows
push_urgencies (l ∷ links) rows =
    push_urgencies links
      (update_where (λ a. a.id == l.action_id) (λ a. record a { urgency_score = l.urgency }) rows)

-- the approvers of these drafts are notified
unfoldable pub notified : List Link → List Link
notified = select (λ l. is_draft_waiting l.status && leb 850000 l.urgency)

-- what the task reports: the rows it scored, the overdue ones, and the notified approvers
pub record Scan : Type 0 where
  pub scanned : List ScanRow
  pub notifications : List Link

-- without scored rows nothing is written and nobody is notified
unfoldable pub scan_writes : List ScanRow → Db → Scan × Db
unfolding write_urgencies mark_overdue linked_actions push_urgencies notified
scan_writes [] d = (record { scanned = []; notifications = [] }, d)
scan_writes (r ∷ rest) d =
    let deadlines = mark_overdue (r ∷ rest) (write_urgencies (r ∷ rest) d.deadlines) in
    let links = linked_actions d.actions deadlines in
    (
      record { scanned = r ∷ rest; notifications = notified links },
      record d { deadlines = deadlines; actions = push_urgencies links d.actions },
    )

unfoldable pub deadline_scanner : ℕ → Db → Scan × Db
unfolding scan_rows scan_writes
deadline_scanner now d = scan_writes (scan_rows now d.deadlines) d
