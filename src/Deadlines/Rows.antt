-- ===== src/Deadlines/Rows.antt =====
-- Which rows the scan scores, and what its updates leave in a row.
use legal_ai_copilot.Prelude.{
  ℕ, true, false, none, some, List, [], ◌∷◌, ◌≡◌, refl, sym, ap, ◌∙◌, subst, arith, Among, inl, inr,
  Bool-cases, Option-cases, eq_of_test, test_of_eq, ◌==◌, ◌⊎◌,
}
use legal_ai_copilot.Prelude.Table.{update_where, Among-update_where, Among-update_where-hit}
use legal_ai_copilot.Models.{Deadline}
use legal_ai_copilot.Deadlines.Scanner.{
  ScanRow, scan_row, scan_rows, is_active, with_urgency, write_urgencies,
}

-- a scored row comes from an active deadline with a resolved time
pub record Source (now : ℕ) (rows : List Deadline) (r : ScanRow) : Type 0 where
  pub deadline : Deadline
  pub there : Among deadline rows
  pub active : is_active deadline.status ≡ true
  pub resolved : ℕ
  pub dated : deadline.resolved_deadline ≡ some resolved
  pub scored : r ≡ scan_row now deadline.id resolved

Source-later :
    {now : ℕ} {d : Deadline} {rows : List Deadline} {r : ScanRow}
    → Source now rows r
    → Source now (d ∷ rows) r
Source-later s = record {
  deadline = s.deadline;
  there = inr s.there;
  active = s.active;
  resolved = s.resolved;
  dated = s.dated;
  scored = s.scored;
}

module _ (now : ℕ) (d : Deadline) (rows : List Deadline) where
  scan_scored :
      (resolved : ℕ)
      → is_active d.status ≡ true
      → d.resolved_deadline ≡ some resolved
      → scan_rows now (d ∷ rows) ≡ scan_row now d.id resolved ∷ scan_rows now rows
  unfolding scan_rows
  scan_scored resolved active dated = rw (dated, active) refl

  scan_undated : d.resolved_deadline ≡ none → scan_rows now (d ∷ rows) ≡ scan_rows now rows
  unfolding scan_rows
  scan_undated undated = rw undated refl

  scan_inactive : is_active d.status ≡ false → scan_rows now (d ∷ rows) ≡ scan_rows now rows
  unfolding scan_rows
  scan_inactive inactive = ground arith

pub scan_rows-Source :
    (now : ℕ) (rows : List Deadline) (r : ScanRow)
    → Among r (scan_rows now rows)
    → Source now rows r
unfolding scan_rows
scan_rows-Source now [] r m = absurd m
scan_rows-Source now (d ∷ rows) r m = elim (Option-cases d.resolved_deadline) [
  | inl undated ↦
      Source-later
        (scan_rows-Source now rows r (subst (Among r) (scan_undated now d rows undated) m))
  | inr (resolved, dated) ↦ elim (Bool-cases (is_active d.status)) [
    | inr inactive ↦
        Source-later
          (scan_rows-Source now rows r (subst (Among r) (scan_inactive now d rows inactive) m))
    | inl active ↦ elim (subst (Among r) (scan_scored now d rows resolved active dated) m) [
      | inl e ↦ record {
        deadline = d;
        there = inl refl;
        active = active;
        resolved = resolved;
        dated = dated;
        scored = e;
      }
      | inr later ↦ Source-later (scan_rows-Source now rows r later)
    ]
  ]
]

scan_rows_grow :
    (now : ℕ) (x : Deadline) (rows : List Deadline) (r : ScanRow)
    → Among r (scan_rows now rows)
    → Among r (scan_rows now (x ∷ rows))
scan_rows_grow now x rows r m = elim (Option-cases x.resolved_deadline) [
  | inl undated ↦ rw (scan_undated now x rows undated) m
  | inr (resolved, dated) ↦ elim (Bool-cases (is_active x.status)) [
    | inr inactive ↦ rw (scan_inactive now x rows inactive) m
    | inl active ↦ rw (scan_scored now x rows resolved active dated) (inr m)
  ]
]

pub scan_rows-Among :
    (now : ℕ) (rows : List Deadline) (d : Deadline) (resolved : ℕ)
    → Among d rows
    → is_active d.status ≡ true
    → d.resolved_deadline ≡ some resolved
    → Among (scan_row now d.id resolved) (scan_rows now rows)
scan_rows-Among now [] d resolved m active dated = absurd m
scan_rows-Among now (x ∷ rows) d resolved (inl e) active dated =
    rw
      (scan_scored now x rows resolved (ap (λ y. is_active y.status) (sym e) ∙ active)
        (ap (λ y. y.resolved_deadline) (sym e) ∙ dated))
      (inl (ap (λ y. scan_row now y.id resolved) e))
scan_rows-Among now (x ∷ rows) d resolved (inr m) active dated =
    scan_rows_grow now x rows (scan_row now d.id resolved)
      (scan_rows-Among now rows d resolved m active dated)

-- the updates leave in a row the score that all the scored rows with its id have
pub write_urgencies-hit :
    (scanned : List ScanRow) (rows : List Deadline) (x : Deadline) (score : ℕ)
    → ((r : ScanRow) → Among r scanned → r.id ≡ x.id → r.score ≡ score)
    → ((r : ScanRow) × Among r scanned × (r.id ≡ x.id)) ⊎ (x.urgency_score ≡ score)
    → Among x rows
    → Among (with_urgency score x) (write_urgencies scanned rows)
unfolding write_urgencies
write_urgencies-hit [] rows x score agree (inl (r, m, e)) there = absurd m
write_urgencies-hit [] rows x score agree (inr e) there =
    subst (λ y. Among y rows) (ap (λ n. with_urgency n x) e) there
write_urgencies-hit (r ∷ scanned) rows x score agree some_hit there =
    elim (Bool-cases (x.id == r.id)) [
      | inl hit ↦
          let same : r.id ≡ x.id = sym (eq_of_test x.id r.id hit) in
          let now_scored =
            Among-update_where-hit (λ d. d.id == r.id) (with_urgency r.score) rows x there hit in
          write_urgencies-hit scanned (update_where (λ d. d.id == r.id) (with_urgency r.score) rows)
            (with_urgency score x) score (λ q m e. agree q (inr m) e) (inr refl)
            (subst
              (λ n.
                Among (with_urgency n x)
                  (update_where (λ d. d.id == r.id) (with_urgency r.score) rows))
              (agree r (inl refl) same) now_scored)
      | inr miss ↦
          write_urgencies-hit scanned (update_where (λ d. d.id == r.id) (with_urgency r.score) rows)
            x score (λ q m e. agree q (inr m) e) (rest_hit miss some_hit)
            (Among-update_where (λ d. d.id == r.id) (with_urgency r.score) rows x there miss)
    ]
  where
    rest_hit :
        (x.id == r.id) ≡ false
        → ((q : ScanRow) × Among q (r ∷ scanned) × (q.id ≡ x.id)) ⊎ (x.urgency_score ≡ score)
        → ((q : ScanRow) × Among q scanned × (q.id ≡ x.id)) ⊎ (x.urgency_score ≡ score)
    rest_hit miss (inl (q, inl e, same)) =
        absurd (cc (miss, test_of_eq x.id r.id (sym same ∙ ap (λ p. p.id) e)))
    rest_hit miss (inl (q, inr m, same)) = inl (q, m, same)
    rest_hit miss (inr e) = inr e

-- … and leave any other row as it is
pub write_urgencies-miss :
    (scanned : List ScanRow) (rows : List Deadline) (x : Deadline)
    → ((r : ScanRow) → Among r scanned → (x.id == r.id) ≡ false)
    → Among x rows
    → Among x (write_urgencies scanned rows)
unfolding write_urgencies
write_urgencies-miss [] rows x misses there = there
write_urgencies-miss (r ∷ scanned) rows x misses there =
    write_urgencies-miss scanned (update_where (λ d. d.id == r.id) (with_urgency r.score) rows) x
      (λ s m. misses s (inr m))
      (Among-update_where (λ d. d.id == r.id) (with_urgency r.score) rows x there
        (misses r (inl refl)))
