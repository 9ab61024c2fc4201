-- ===== src/Deadlines/Scanned.antt =====
-- What the scan does to each row of the table, for ids that are unique.
use legal_ai_copilot.Prelude.{
  ℕ, Bool, true, false, ◌&&◌, some, List, [], ◌∷◌, ◌≡◌, refl, ap, subst, arith, Among, inl, inr,
  Bool-cases, eq_of_test, eq_self, ◌==◌, if◌then◌else◌, ltb, ◌+◌, ◌*◌,
}
use legal_ai_copilot.Prelude.Table.{
  IsKey, Among-update_where, Among-update_where-hit, exists_where-hit, exists_where-miss,
}
use legal_ai_copilot.Models.{Deadline, DeadlineStatus}
use legal_ai_copilot.Database.{Db}
use legal_ai_copilot.Deadlines.Scanner.{
  ScanRow, scan_row, scan_rows, is_active, is_due, calculate_urgency, days_remaining, with_urgency,
  write_urgencies, is_overdue_id, overdue, mark_overdue, scan_writes, deadline_scanner,
}
use legal_ai_copilot.Deadlines.Rows.{scan_rows-Source, scan_rows-Among, write_urgencies-hit}
use legal_ai_copilot.Deadlines.Urgency.{urgency_at, is_due-lem, calculate_urgency-lem}

module _ (now : ℕ) (d : Db) (key : IsKey (λ (x : Deadline). x.id) d.deadlines) where
  -- a row that the scan has scored
  abbrev scanned_row : Deadline → ℕ → Deadline
  scanned_row x resolved =
      let days = days_remaining now resolved in
      let scored = with_urgency (calculate_urgency days) x in
      if is_due days then overdue scored else scored

  -- what becomes of a row, by the seconds that are left
  abbrev rescored : Deadline → ℕ → Deadline
  rescored x resolved =
      let scored = record x { urgency_score = urgency_at now resolved } in
      if ltb resolved (now + 1 * 86400)
      then record scored { status = DeadlineStatus.overdue }
      else scored

  scanned_row-rescored :
      (x : Deadline) (resolved : ℕ) → scanned_row x resolved ≡ rescored x resolved
  scanned_row-rescored x resolved =
      rw (is_due-lem now resolved, calculate_urgency-lem now resolved) refl

  module _ (x : Deadline) (resolved : ℕ) (there : Among x d.deadlines)
      (active : is_active x.status ≡ true) (dated : x.resolved_deadline ≡ some resolved) where
    -- every scored row with the id of `x` is that of `x`
    scored_alike :
        (r : ScanRow)
        → Among r (scan_rows now d.deadlines)
        → r.id ≡ x.id
        → r ≡ scan_row now x.id resolved
    unfolding scan_row
    scored_alike r m same =
        let s = scan_rows-Source now d.deadlines r m in
        let row : s.deadline ≡ x = key s.deadline x s.there there (cc (s.scored, same)) in
        cc (s.scored, row, s.dated, dated)

    scan_writes-Among :
        (scanned : List ScanRow) (r : ScanRow) (y : Deadline)
        → Among r scanned
        → Among y (mark_overdue scanned (write_urgencies scanned d.deadlines))
        → Among y (scan_writes scanned d).1.deadlines
    unfolding scan_writes
    scan_writes-Among [] r y m h = absurd m
    scan_writes-Among (q ∷ scanned) r y m h = h

    mark_scored :
        (b : Bool) (rows : List Deadline)
        → is_due (days_remaining now resolved) ≡ b
        → let y = with_urgency (calculate_urgency (days_remaining now resolved)) x in
          Among y rows
          → Among (if b then overdue y else y) (mark_overdue (scan_rows now d.deadlines) rows)
    unfolding mark_overdue scan_row
    mark_scored true rows due m =
        let scanned = scan_rows now d.deadlines in
        let y = with_urgency (calculate_urgency (days_remaining now resolved)) x in
        Among-update_where-hit (is_overdue_id scanned) overdue rows y m (
          exists_where-hit (λ r. r.overdue && r.id == x.id) scanned (scan_row now x.id resolved)
            (scan_rows-Among now d.deadlines x resolved there active dated)
            (ground (arith, due, eq_self x.id)))
    mark_scored false rows due m =
        let scanned = scan_rows now d.deadlines in
        let y = with_urgency (calculate_urgency (days_remaining now resolved)) x in
        Among-update_where (is_overdue_id scanned) overdue rows y m (
          exists_where-miss (λ r. r.overdue && r.id == x.id) scanned
            (λ r mr. elim (Bool-cases (r.id == x.id)) [
              | inl hit ↦
                  let alike = scored_alike r mr (eq_of_test r.id x.id hit) in
                  ground (arith, ap (λ q. q.overdue) alike, due)
              | inr miss ↦ ground arith
            ]))

    score_alike :
        (r : ScanRow)
        → r ≡ scan_row now x.id resolved
        → r.score ≡ calculate_urgency (days_remaining now resolved)
    unfolding scan_row
    score_alike r e = ap (λ q. q.score) e

    deadline_scanner-Among : Among (scanned_row x resolved) (deadline_scanner now d).1.deadlines
    unfolding deadline_scanner scan_row
    deadline_scanner-Among =
        let scanned = scan_rows now d.deadlines in
        let mine = scan_rows-Among now d.deadlines x resolved there active dated in
        scan_writes-Among scanned (scan_row now x.id resolved) (scanned_row x resolved) mine (
          mark_scored (is_due (days_remaining now resolved)) (write_urgencies scanned d.deadlines)
            refl
            (write_urgencies-hit scanned d.deadlines x
              (calculate_urgency (days_remaining now resolved))
              (λ r m e. score_alike r (scored_alike r m e))
              (inl (scan_row now x.id resolved, mine, refl)) there))

    -- After a scan, an ACTIVE deadline with a resolved time has the urgency of the seconds that are
    -- left: 1.0 below one day, 0.95 below 2, 0.85 below 4, 0.7 below 8, 0.5 below 15, 0.3 below 31
    -- and 0.1 otherwise, whatever its urgency was; and it is OVERDUE exactly if less than one day
    -- is left. The ids of the table must be unique.
    pub deadline_scanner-scored : Among (rescored x resolved) (deadline_scanner now d).1.deadlines
    deadline_scanner-scored =
        subst (λ y. Among y (deadline_scanner now d).1.deadlines) (scanned_row-rescored x resolved)
          deadline_scanner-Among
