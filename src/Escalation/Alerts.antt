-- ===== src/Escalation/Alerts.antt =====
-- due_diligence/escalation/triggers.py: `check_for_escalations`, which /query calls. Scores are
-- floats; their comparison and their printing are parameters.
use Prim.Native.String.{◌++◌ as ◌&◌}
use legal_ai_copilot.Prelude.{
  String, Bool, Option, none, some, List, [], ◌∷◌, ◌++◌, if◌then◌else◌, str_eq, false,
}

-- a node of the dictionaries, with the keys that may be missing
pub record Node (Score : Type 0) : Type 0 where
  pub node_id : Option String
  pub rerank_score : Option Score
  pub edge_type : Option String

pub record EscalationAlert : Type 0 where
  pub trigger_type : String
  pub reason : String
  pub flagged_nodes : List String

-- `node.get(key, default)`
abbrev pub get : {A : Type 0} → Option A → A → A
get none default = default
get (some a) default = a

abbrev pub is_unknown : Option String → Bool
is_unknown none = false
is_unknown (some edge) = str_eq edge "UNKNOWN"

module _ {Score : Type 0} (below : Score → Score → Bool) (show : Score → String) (zero : Score)
    (confidence_threshold : Score) where
  abbrev pub low_confidence : Node Score → List EscalationAlert
  low_confidence node =
      if below (get node.rerank_score zero) confidence_threshold
      then record {
        trigger_type = "LOW_CONFIDENCE";
        reason =
            "Cross-Encoder score ("
            & show (get node.rerank_score zero)
            & ") below threshold ("
            & show confidence_threshold
            & ").";
        flagged_nodes = get node.node_id "" ∷ [];
      }
        ∷ []
      else []

  abbrev pub unknown_edge : Node Score → List EscalationAlert
  unknown_edge node =
      if is_unknown node.edge_type
      then record {
        trigger_type = "UNKNOWN_EDGE";
        reason = "LLM failed to classify the legal relationship of this cross-reference.";
        flagged_nodes = get node.node_id "" ∷ [];
      }
        ∷ []
      else []

  unfoldable pub check_for_escalations : List (Node Score) → List EscalationAlert
  check_for_escalations [] = []
  check_for_escalations (node ∷ rest) =
      low_confidence node ++ unknown_edge node ++ check_for_escalations rest
