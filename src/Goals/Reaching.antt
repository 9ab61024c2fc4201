-- ===== src/Goals/Reaching.antt =====
-- From the goal to the brief: `create_goal`, and the task that it queues.
use legal_ai_copilot.Services.{Services}
