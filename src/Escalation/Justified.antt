-- ===== src/Escalation/Justified.antt =====
-- Why a finding is escalated.
use legal_ai_copilot.Prelude.{
  ℕ, ◌<◌, String, Bool, true, false, Option, List, [], ◌∷◌, ◌++◌, ◌≡◌, ◌≢◌, length, refl, sym,
  subst, arith, Among, inl, inr, Bool-cases, if◌then◌else◌, All, leb,
}
use legal_ai_copilot.Escalation.Triggers.{
  DefinitionalConflict, Citation, Finding, Trigger, insufficient_coverage, definitional_conflict,
  structural_ambiguity, Escalation, Verdict, failed, answered, conflicts_of,
  check_insufficient_coverage, check_definitional_conflict, check_structural_ambiguity, highest,
  ambiguity_of, conflict_escalation, ambiguity_escalation, appended, evaluate_finding,
}

module _ {Score : Type 0} (above : Score → Score → Bool) where
  -- no other citation has a higher score
  pub IsHighest : Citation Score → List (Citation Score) → Type 0
  IsHighest c rows =
      (x : Citation Score) → Among x rows → above x.relevance_score c.relevance_score ≡ false

  -- what each trigger stands for
  pub Justifies : (String → Verdict) → Trigger → Finding Score → Type 0
  Justifies classify insufficient_coverage f = length f.supporting_citations < 3
  Justifies classify definitional_conflict f = conflicts_of f.definitional_conflicts ≢ []
  Justifies classify structural_ambiguity f =
      (c : Citation Score) × Among c f.supporting_citations
      × IsHighest c f.supporting_citations
      × ((explanation : Option String) × (classify c.clause_text ≡ answered true explanation))

  -- an escalation that says why, about the finding and with its citations
  pub Stands : (String → Verdict) → Finding Score → Escalation Score → Type 0
  Stands classify f e =
      (e.task_id ≡ f.task_id)
      × (e.retrieved_chunks ≡ f.supporting_citations)
      × Justifies classify e.trigger f

All-append : {A : Type 0} (P : A → Type 0) (xs ys : List A) → All P xs → All P ys → All P (xs ++ ys)
All-append P [] ys here there = there
All-append P (x ∷ xs) ys (p, here) there = (p, All-append P xs ys here there)

module _ {Score : Type 0} (above : Score → Score → Bool)
    (asym : (a b : Score) → above a b ≡ true → above b a ≡ false)
    (negtrans : (a b c : Score) → above a b ≡ false → above b c ≡ false → above a c ≡ false) where
  irrefl : (a : Score) → above a a ≡ false
  irrefl a = elim (Bool-cases (above a a)) [ inl e ↦ asym a a e | inr e ↦ e ]

  highest-Among :
      (best : Citation Score) (rows : List (Citation Score))
      → Among (highest above best rows) (best ∷ rows)
  unfolding highest
  highest-Among best [] = inl refl
  highest-Among best (c ∷ rest) = elim (Bool-cases (above c.relevance_score best.relevance_score)) [
    | inl e ↦ ground (arith, highest-Among c rest)
    | inr e ↦ ground (arith, highest-Among best rest)
  ]

  -- a step of `max` does not go down
  abbrev better : Citation Score → Citation Score → Citation Score
  better best c = if above c.relevance_score best.relevance_score then c else best

  better-above :
      (best c : Citation Score)
      → (above best.relevance_score (better best c).relevance_score ≡ false)
        × (above c.relevance_score (better best c).relevance_score ≡ false)
  better-above best c = elim (Bool-cases (above c.relevance_score best.relevance_score)) [
    | inl e ↦
        ground (arith, asym c.relevance_score best.relevance_score e, irrefl c.relevance_score)
    | inr e ↦ ground (arith, irrefl best.relevance_score)
  ]

  below :
      (x y top : Citation Score)
      → x ≡ y
      → above y.relevance_score top.relevance_score ≡ false
      → above x.relevance_score top.relevance_score ≡ false
  below x y top same e =
      subst (λ (z : Citation Score). above z.relevance_score top.relevance_score ≡ false) (sym same)
        e

  highest-IsHighest :
      (best : Citation Score) (rows : List (Citation Score))
      → IsHighest above (highest above best rows) (best ∷ rows)
  unfolding highest IsHighest
  highest-IsHighest best [] x (inl same) = below x best best same (irrefl best.relevance_score)
  highest-IsHighest best [] x (inr m) = absurd m
  highest-IsHighest best (c ∷ rest) x m =
      let top = highest above (better best c) rest in
      let tops = highest-IsHighest (better best c) rest in
      let over =
        λ (y : Citation Score)
            (e : above y.relevance_score (better best c).relevance_score ≡ false).
          negtrans y.relevance_score (better best c).relevance_score top.relevance_score e
            (tops (better best c) (inl refl)) in
      elim m [
        | inl same ↦ below x best top same (over best (better-above best c).0)
        | inr (inl same) ↦ below x c top same (over c (better-above best c).1)
        | inr (inr there) ↦ tops x (inr there)
      ]

  module _ (str : ℕ → String) (classify : String → Verdict) (f : Finding Score) where
    coverage-Stands : All (Stands above classify f) (appended (check_insufficient_coverage str f))
    unfolding check_insufficient_coverage Stands Justifies
    coverage-Stands = elim (Bool-cases (leb 3 (length f.supporting_citations))) [
      | inl e ↦ rw (e) tt
      | inr e ↦ rw (e) ((refl, refl, ground arith), tt)
    ]

    conflict-Stands :
        (rows : List DefinitionalConflict)
        → rows ≡ conflicts_of f.definitional_conflicts
        → All (Stands above classify f) (appended (conflict_escalation str f rows))
    unfolding Stands Justifies
    conflict-Stands [] same = tt
    conflict-Stands (dc ∷ rest) same = ((refl, refl, λ h. cc (same, h)), tt)

    verdict-Stands :
        (c : Citation Score) (v : Verdict)
        → Among c f.supporting_citations
        → IsHighest above c f.supporting_citations
        → classify c.clause_text ≡ v
        → All (Stands above classify f) (appended (ambiguity_escalation f c v))
    unfolding Stands Justifies
    verdict-Stands c failed m top said = tt
    verdict-Stands c (answered false explanation) m top said = tt
    verdict-Stands c (answered true explanation) m top said =
        ((refl, refl, (c, m, top, (explanation, said))), tt)

    ambiguity-Stands :
        (rows : List (Citation Score))
        → rows ≡ f.supporting_citations
        → All (Stands above classify f) (appended (ambiguity_of above classify f rows))
    ambiguity-Stands [] same = tt
    ambiguity-Stands (c ∷ rest) same =
        let top = highest above c rest in
        verdict-Stands top (classify top.clause_text)
          (subst (Among top) same (highest-Among c rest))
          (subst (IsHighest above top) same (highest-IsHighest c rest)) refl

    pub each-Stands : All (Stands above classify f) (evaluate_finding above str classify f)
    unfolding evaluate_finding check_definitional_conflict check_structural_ambiguity
    each-Stands =
        All-append _ _ _
          (All-append _ _ _ coverage-Stands
            (conflict-Stands (conflicts_of f.definitional_conflicts) refl))
          (ambiguity-Stands f.supporting_citations refl)
