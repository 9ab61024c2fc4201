-- ===== src/Escalation/Fired.antt =====
-- Which triggers fire, whatever the classifier answers.
use legal_ai_copilot.Prelude.{
  ℕ, String, Bool, true, false, List, [], ◌∷◌, ◌++◌, ◌≡◌, ◌||◌, not, length, leb, ltb, refl, arith,
  Bool-cases, inl, inr, All,
}
use legal_ai_copilot.Prelude.Table.{exists_where}
use legal_ai_copilot.Escalation.Justified.{Stands, each-Stands}
use legal_ai_copilot.Escalation.Triggers.{
  DefinitionalConflict, Citation, Finding, Trigger, insufficient_coverage, definitional_conflict,
  structural_ambiguity, Escalation, Verdict, failed, answered, conflicts_of,
  check_insufficient_coverage, check_definitional_conflict, check_structural_ambiguity, highest,
  ambiguity_of, conflict_escalation, ambiguity_escalation, appended, evaluate_finding,
}

abbrev pub is_coverage : Trigger → Bool
is_coverage insufficient_coverage = true
is_coverage definitional_conflict = false
is_coverage structural_ambiguity = false

abbrev pub is_conflict : Trigger → Bool
is_conflict insufficient_coverage = false
is_conflict definitional_conflict = true
is_conflict structural_ambiguity = false

abbrev pub is_empty : List DefinitionalConflict → Bool
is_empty [] = true
is_empty (dc ∷ rest) = false

-- whether a trigger of the kind is among them
abbrev pub fires : {Score : Type 0} → (Trigger → Bool) → List (Escalation Score) → Bool
fires kind = exists_where (λ e. kind e.trigger)

exists_where-append :
    {A : Type 0} (p : A → Bool) (xs ys : List A)
    → exists_where p (xs ++ ys) ≡ (exists_where p xs || exists_where p ys)
unfolding exists_where
exists_where-append p [] ys = refl
exists_where-append p (x ∷ xs) ys = ground (arith, exists_where-append p xs ys)

module _ {Score : Type 0} (above : Score → Score → Bool) (str : ℕ → String)
    (classify : String → Verdict) (f : Finding Score) where
  coverage-fires :
      (fires is_coverage (appended (check_insufficient_coverage str f))
        ≡ ltb (length f.supporting_citations) 3)
      × (fires is_conflict (appended (check_insufficient_coverage str f)) ≡ false)
  unfolding check_insufficient_coverage exists_where
  coverage-fires = elim (Bool-cases (leb 3 (length f.supporting_citations))) [
    | inl e ↦ rw (e) (ground arith, refl)
    | inr e ↦ rw (e) (ground arith, refl)
  ]

  conflict-fires :
      (rows : List DefinitionalConflict)
      → (fires is_coverage (appended (conflict_escalation str f rows)) ≡ false)
        × (fires is_conflict (appended (conflict_escalation str f rows)) ≡ not (is_empty rows))
  unfolding exists_where
  conflict-fires [] = (refl, refl)
  conflict-fires (dc ∷ rest) = (refl, refl)

  verdict-fires :
      (c : Citation Score) (v : Verdict)
      → (fires is_coverage (appended (ambiguity_escalation f c v)) ≡ false)
        × (fires is_conflict (appended (ambiguity_escalation f c v)) ≡ false)
  unfolding exists_where
  verdict-fires c failed = (refl, refl)
  verdict-fires c (answered false explanation) = (refl, refl)
  verdict-fires c (answered true explanation) = (refl, refl)

  ambiguity-fires :
      (rows : List (Citation Score))
      → (fires is_coverage (appended (ambiguity_of above classify f rows)) ≡ false)
        × (fires is_conflict (appended (ambiguity_of above classify f rows)) ≡ false)
  unfolding exists_where
  ambiguity-fires [] = (refl, refl)
  ambiguity-fires (c ∷ rest) =
      verdict-fires (highest above c rest) (classify (highest above c rest).clause_text)

  joined-fires :
      (kind : Trigger → Bool)
      → fires kind (evaluate_finding above str classify f) ≡ (
          fires kind (appended (check_insufficient_coverage str f))
          || fires kind (appended (check_definitional_conflict str f))
          || fires kind (appended (check_structural_ambiguity above classify f)))
  unfolding evaluate_finding
  joined-fires kind =
      let a = appended (check_insufficient_coverage str f) in
      let b = appended (check_definitional_conflict str f) in
      let c = appended (check_structural_ambiguity above classify f) in
      ground (
        arith,
        exists_where-append (λ (e : Escalation Score). kind e.trigger) (a ++ b) c,
        exists_where-append (λ (e : Escalation Score). kind e.trigger) a b,
      )

  two-fire :
      (fires is_coverage (evaluate_finding above str classify f)
        ≡ ltb (length f.supporting_citations) 3)
      × (fires is_conflict (evaluate_finding above str classify f)
          ≡ not (is_empty (conflicts_of f.definitional_conflicts)))
  unfolding check_definitional_conflict check_structural_ambiguity
  two-fire =
      let rows = conflicts_of f.definitional_conflicts in
      let last = ambiguity-fires f.supporting_citations in
      (
        ground (arith, joined-fires is_coverage, coverage-fires.0, (conflict-fires rows).0, last.0),
        ground (arith, joined-fires is_conflict, coverage-fires.1, (conflict-fires rows).1, last.1),
      )

-- Each escalation of evaluate_finding is about the finding, hands over all its citations, and has a
-- reason: fewer than three citations, conflicting definitions, or a citation of the highest score
-- whose clause the classifier finds ambiguous. Whatever the classifier answers, and also when it
-- fails, insufficient coverage is reported exactly when there are fewer than three citations, and a
-- conflict exactly when the finding lists one. The comparison of scores is that of a total preorder,
-- as `>` is on floats that are not NaN.
pub evaluate_finding-Stands :
    {Score : Type 0} (above : Score → Score → Bool)
    → ((a b : Score) → above a b ≡ true → above b a ≡ false)
    → ((a b c : Score) → above a b ≡ false → above b c ≡ false → above a c ≡ false)
    → (str : ℕ → String) (classify : String → Verdict) (f : Finding Score)
    → All (Stands above classify f) (evaluate_finding above str classify f)
      × (fires is_coverage (evaluate_finding above str classify f)
          ≡ ltb (length f.supporting_citations) 3)
      × (fires is_conflict (evaluate_finding above str classify f)
          ≡ not (is_empty (conflicts_of f.definitional_conflicts)))
evaluate_finding-Stands above asym negtrans str classify f =
    let (coverage, conflict) = two-fire above str classify f in
    (each-Stands above asym negtrans str classify f, coverage, conflict)
