-- ===== src/Tests/Escalating.antt =====
-- Findings with citations at concrete scores.
use legal_ai_copilot.Prelude.{
  ℕ, String, Bool, true, false, none, some, [], ◌∷◌, ◌≡◌, not, length, ltb, refl, arith, All,
}
use legal_ai_copilot.Escalation.{
  Citation, Finding, Verdict, answered, evaluate_finding, conflicts_of, highest,
}
use legal_ai_copilot.Escalation.Justified.{Stands}
use legal_ai_copilot.Escalation.Alerts.{check_for_escalations}
use legal_ai_copilot.Escalation.Fired.{
  is_coverage, is_conflict, is_empty, fires, evaluate_finding-Stands,
}

abbrev higher : ℕ → ℕ → Bool
higher a b = ltb b a

higher-asym : (a b : ℕ) → higher a b ≡ true → higher b a ≡ false
higher-asym a b e = ground arith

higher-negtrans : (a b c : ℕ) → higher a b ≡ false → higher b c ≡ false → higher a c ≡ false
higher-negtrans a b c e h = ground arith

abbrev citation : String → ℕ → Citation ℕ
citation text score = record {
  document_name = "lease.pdf";
  clause_reference = "4.2";
  clause_text = text;
  relevance_score = score;
}

abbrev finding : Finding ℕ
finding = record {
  task_id = "t1";
  task_description = "notice";
  supporting_citations = citation "in writing" 3 ∷ citation "reasonable efforts" 8 ∷ [];
  definitional_conflicts = none;
}

abbrev two : ℕ → String
two n = "2"

abbrev vague : String → Verdict
vague text = answered true none

evaluate_finding-Stands_example :
    All (Stands higher vague finding) (evaluate_finding higher two vague finding)
    × (fires is_coverage (evaluate_finding higher two vague finding)
        ≡ ltb (length finding.supporting_citations) 3)
    × (fires is_conflict (evaluate_finding higher two vague finding)
        ≡ not (is_empty (conflicts_of finding.definitional_conflicts)))
evaluate_finding-Stands_example =
    evaluate_finding-Stands higher higher-asym higher-negtrans two vague finding

-- the clause of the highest score is the second
second_is_highest :
    highest higher (citation "in writing" 3) (citation "reasonable efforts" 8 ∷ [])
    ≡ citation "reasonable efforts" 8
unfolding highest
second_is_highest = refl

-- a node without a score has the score 0
unscored_node :
    check_for_escalations
      (λ a b. ltb a b)
      two
      0
      5
      (record { node_id = some "n1"; rerank_score = none; edge_type = none } ∷ [])
    ≡ record {
      trigger_type = "LOW_CONFIDENCE";
      reason = "Cross-Encoder score (2) below threshold (2).";
      flagged_nodes = "n1" ∷ [];
    }
      ∷ []
unfolding check_for_escalations
unscored_node = refl
