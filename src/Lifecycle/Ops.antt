-- ===== src/Lifecycle/Ops.antt =====
-- The operations as data, and the sequences of them.
use legal_ai_copilot.Prelude.{ℕ, String, Bool, Option, List, [], ◌∷◌, ℤ}
use legal_ai_copilot.Models.{IntentType}
use legal_ai_copilot.Database.{Db}
use legal_ai_copilot.Http.{Request}
use legal_ai_copilot.Services.{Services}
use legal_ai_copilot.Approvals.{approve_via_token, reject_via_token, reissue_token}
use legal_ai_copilot.ActionAgent.{Answers, confirm_brief, approve_workflow, reject_workflow}
use legal_ai_copilot.Goals.{confirm_intent, confirm_plan, cancel_goal}
use legal_ai_copilot.Cron.{expire_stale_approvals, expire_stale_ambiguity}
use legal_ai_copilot.Worker.{Outside, process_workflow}

pub data Op : Type 0 where
  approve : Request → ℕ → String → Op
  reject : Request → ℕ → String → String → Op
  reissue : Request → Bool → ℕ → Option ℤ → Op
  confirm_brief_op : Request → ℕ → Bool → Op
  approve_draft : Request → ℕ → Option String → Option Answers → Op
  reject_draft : Request → ℕ → String → Op
  confirm_intent_op : Request → ℕ → ℕ → String → Op
  confirm_plan_op : Request → ℕ → ℕ → Option String → Op
  cancel : Request → ℕ → ℕ → Op
  expire_approvals : ℕ → Op
  expire_ambiguity : ℕ → Op
  process : Outside → ℕ → Option (IntentType × ℕ) → Op

-- the database after an operation, whether it succeeded or not
unfoldable pub perform : Services → Op → Db → Db
perform sv (approve req wf token) d = (approve_via_token sv req wf token d).1
perform sv (reject req wf token reason) d = (reject_via_token sv req wf token reason d).1
perform sv (reissue req is_admin id hours) d = (reissue_token sv req is_admin id hours d).1
perform sv (confirm_brief_op req wf proceed) d = (confirm_brief req wf proceed d).1
perform sv (approve_draft req wf draft answers) d = (approve_workflow sv req wf draft answers d).1
perform sv (reject_draft req wf reason) d = (reject_workflow sv req wf reason d).1
perform sv (confirm_intent_op req ws goal text) d = (confirm_intent sv req ws goal text d).1
perform sv (confirm_plan_op req ws goal token) d = (confirm_plan sv req ws goal token d).1
perform sv (cancel req ws goal) d = (cancel_goal req ws goal d).1
perform sv (expire_approvals now) d = (expire_stale_approvals now d).1
perform sv (expire_ambiguity now) d = (expire_stale_ambiguity now d).1
perform sv (process o wf pre) d = (process_workflow sv o wf pre d).1

unfoldable pub run : Services → List Op → Db → Db
run sv [] d = d
run sv (op ∷ ops) d = run sv ops (perform sv op d)
