-- ===== src/Tests/Starting.antt =====
-- A goal is created and its task runs, at a concrete request.
use legal_ai_copilot.Prelude.{ℕ, pos, Option, none, some, List}
use legal_ai_copilot.Goals.Create.{absent, Surroundings, CreateGoalRequest}

abbrev surroundings : Option (List ℕ) → Surroundings
surroundings files = record {
  lower = λ text. text;
  upper = λ text. text;
  raw_intent = some (record { primary_intent = some "ACT"; confidence = some (pos 950000) });
  redis_session = λ session_id. files;
  workspace_session = λ session_id. absent;
  final_answer = none;
  goal_id = 50;
  workflow_id = 60;
}

abbrev goal_request : CreateGoalRequest
goal_request = record { workspace_id = 1; goal_text = "Send the notice"; session_id = some "s" }
