-- ===== src/Escalation/Triggers.antt =====
-- due_diligence/escalation/triggers.py: the three triggers of `EscalationManager` and
-- `evaluate_finding`, on the rows of due_diligence/output/schemas.py without the fields that they do
-- not read. A score is a float, of which the code only uses `>`. The printing of an int and the
-- classifier, a language model that is asked about the text of a clause, are parameters.
use Prim.Native.String.{◌++◌ as ◌&◌}
use legal_ai_copilot.Prelude.{
  ℕ, String, Bool, true, false, Option, none, some, List, [], ◌∷◌, ◌++◌, length, leb, if◌then◌else◌,
}
use legal_ai_copilot.Prelude.Text.{slice}

pub record TermDefinition : Type 0 where
  pub definition : String
  pub document_name : String
  pub hierarchy_path : String

pub record DefinitionalConflict : Type 0 where
  pub term : String
  pub definitions : List TermDefinition

pub record Citation (Score : Type 0) : Type 0 where
  pub document_name : String
  pub clause_reference : String
  pub clause_text : String
  pub relevance_score : Score

pub record Finding (Score : Type 0) : Type 0 where
  pub task_id : String
  pub task_description : String
  pub supporting_citations : List (Citation Score)
  pub definitional_conflicts : Option (List DefinitionalConflict)

pub data Trigger : Type 0 where
  insufficient_coverage definitional_conflict structural_ambiguity : Trigger

pub record Escalation (Score : Type 0) : Type 0 where
  pub task_id : String
  pub trigger : Trigger
  pub context : String
  pub retrieved_chunks : List (Citation Score)
  pub reviewer_note : String

-- what the model answers, or an exception of the call or of `json.loads`
pub data Verdict : Type 0 where
  failed : Verdict
  answered : Bool → Option String → Verdict

abbrev pub insufficient_coverage_threshold : ℕ
insufficient_coverage_threshold = 3

-- `for td in dc.definitions`
unfoldable pub definition_lines : List TermDefinition → List String
definition_lines [] = []
definition_lines (td ∷ rest) =
    ("  [" & td.document_name & " | " & td.hierarchy_path & "]: " & slice 200 td.definition)
    ∷ definition_lines rest

-- `for dc in finding.definitional_conflicts`
unfoldable pub conflict_lines : List DefinitionalConflict → List String
conflict_lines [] = []
conflict_lines (dc ∷ rest) =
    (("\nTerm: '" & dc.term & "'") ∷ definition_lines dc.definitions) ++ conflict_lines rest

-- `"\n".join(…)`
unfoldable pub join_lines : List String → String
join_lines [] = ""
join_lines (line ∷ []) = line
join_lines (line ∷ next ∷ rest) = line & "\n" & join_lines (next ∷ rest)

-- a list that is None or empty is falsy
abbrev pub conflicts_of : Option (List DefinitionalConflict) → List DefinitionalConflict
conflicts_of none = []
conflicts_of (some rows) = rows

module _ {Score : Type 0} (str : ℕ → String) where
  unfoldable pub check_insufficient_coverage : Finding Score → Option (Escalation Score)
  check_insufficient_coverage f =
      let n = length f.supporting_citations in
      if leb insufficient_coverage_threshold n
      then none
      else some (record {
        task_id = f.task_id;
        trigger = insufficient_coverage;
        context =
            "Task: "
            & f.task_description
            & ". "
            & (if leb 1 n then str n & " chunk(s) retrieved" else "No chunks retrieved")
            & ".";
        retrieved_chunks = f.supporting_citations;
        reviewer_note =
            "Only "
            & str n
            & " clause(s) retrieved for task '"
            & f.task_description
            & "'. The document set may not explicitly address this obligation, or the retrieval "
            & "model may have missed relevant clauses. Manually check: definitions sections, "
            & "any schedules or exhibits referenced in the main body, and any side letters "
            & "or amendments that may address this topic directly.";
      })

  abbrev pub conflict_escalation :
      Finding Score → List DefinitionalConflict → Option (Escalation Score)
  conflict_escalation f [] = none
  conflict_escalation f (dc ∷ rest) =
      let n = str (length (dc ∷ rest)) in
      some (record {
        task_id = f.task_id;
        trigger = definitional_conflict;
        context =
            "Task: " & f.task_description & ". " & n
            & " conflicting term(s) detected in retrieved clauses.";
        retrieved_chunks = f.supporting_citations;
        reviewer_note =
            "The finding for task '"
            & f.task_description
            & "' depends on "
            & n
            & " term(s) that are defined differently across documents. The interpretation of this "
            & "finding changes depending on which definition governs. "
            & "Review the governing law clause and precedence order to resolve:\n"
            & join_lines (conflict_lines (dc ∷ rest));
      })

  unfoldable pub check_definitional_conflict : Finding Score → Option (Escalation Score)
  check_definitional_conflict f = conflict_escalation f (conflicts_of f.definitional_conflicts)

module _ {Score : Type 0} (above : Score → Score → Bool) where
  -- `max(…, key=…)` keeps the first of several
  unfoldable pub highest : Citation Score → List (Citation Score) → Citation Score
  highest best [] = best
  highest best (c ∷ rest) =
      highest (if above c.relevance_score best.relevance_score then c else best) rest

abbrev pub explained : Option String → String
explained none = "Clause is underspecified."
explained (some text) = text

module _ {Score : Type 0} where
  abbrev pub ambiguity_escalation :
      Finding Score → Citation Score → Verdict → Option (Escalation Score)
  ambiguity_escalation f primary failed = none
  ambiguity_escalation f primary (answered false explanation) = none
  ambiguity_escalation f primary (answered true explanation) = some (record {
    task_id = f.task_id;
    trigger = structural_ambiguity;
    context =
        "Task: " & f.task_description & ". Clause [" & primary.clause_reference
        & "] classified as structurally ambiguous.";
    retrieved_chunks = f.supporting_citations;
    reviewer_note =
        "The primary clause for task '"
        & f.task_description
        & "' contains language that is intrinsically ambiguous. No additional retrieval "
        & "will resolve this — it requires legal judgment or renegotiation.\n\nClause: ["
        & primary.clause_reference
        & "] in "
        & primary.document_name
        & "\n\nWhy it is ambiguous: "
        & explained explanation;
  })

  -- `if e: escalations.append(e)`
  abbrev pub appended : Option (Escalation Score) → List (Escalation Score)
  appended none = []
  appended (some e) = e ∷ []

module _ {Score : Type 0} (above : Score → Score → Bool) (classify : String → Verdict) where
  abbrev pub ambiguity_of : Finding Score → List (Citation Score) → Option (Escalation Score)
  ambiguity_of f [] = none
  ambiguity_of f (c ∷ rest) =
      let primary = highest above c rest in
      ambiguity_escalation f primary (classify primary.clause_text)

  unfoldable pub check_structural_ambiguity : Finding Score → Option (Escalation Score)
  check_structural_ambiguity f = ambiguity_of f f.supporting_citations

module _ {Score : Type 0} (above : Score → Score → Bool) (str : ℕ → String)
    (classify : String → Verdict) where
  unfoldable pub evaluate_finding : Finding Score → List (Escalation Score)
  evaluate_finding f =
      appended (check_insufficient_coverage str f)
      ++ appended (check_definitional_conflict str f)
      ++ appended (check_structural_ambiguity above classify f)
