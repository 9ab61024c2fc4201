-- ===== src/ActionAgent/Endpoints.antt =====
-- app/routers/action_agent.py: confirm-brief, approve and reject.
use Prim.Native.Char.{code}
use Prim.Native.String.{◌++◌, count}
use legal_ai_copilot.Prelude.{
  ℕ, ◌+◌, String, Bool, true, false, not, ◌&&◌, ◌||◌, Option, none, some, List, [], ◌∷◌, ltb, leb,
  ◌==◌, str_eq, if◌then◌else◌,
}
use legal_ai_copilot.Prelude.Table.{select, update_where, exists_where}
use legal_ai_copilot.Models.{
  Action, DraftPayload, WorkflowStatus, is_awaiting_approval, is_awaiting_brief, is_draft_waiting,
}
use legal_ai_copilot.Database.{Db}
use legal_ai_copilot.Http.{
  Request, Handler, send_task, pure, gets, raise_if, raise_unless, modify, ◌>>=◌, ◌>>◌,
}
use legal_ai_copilot.Services.{Services}
use legal_ai_copilot.Workflows.{
  get_workflow_for_org, current_revision, set_workflow_status, bump_revisions,
}

-- the `status` of a response; "EXPORTING" is not a status of the table
pub data Answer : Type 0 where
  cancelled drafting exporting escalated revising : Answer

-- POST /agent/confirm-brief/{workflow_id}
unfoldable pub confirm_brief : Request → ℕ → Bool → Handler Answer
unfolding get_workflow_for_org
confirm_brief req workflow_id proceed = do
  wf ← get_workflow_for_org workflow_id req.org_id
  raise_unless (is_awaiting_brief wf.status) 409
  if proceed
      then (do send_task req workflow_id; pure drafting)
      else (do modify (set_workflow_status workflow_id WorkflowStatus.cancelled); pure cancelled)

-- a text or a dict that is absent or empty is falsy
abbrev pub text_given : Option String → Bool
text_given none = false
text_given (some t) = not (str_eq t "")

abbrev pub Answers : Type 0
Answers = List (String × String)

abbrev pub answers_given : Option Answers → Bool
answers_given none = false
answers_given (some []) = false
answers_given (some (x ∷ xs)) = true

abbrev pub answers_of : Option Answers → Answers
answers_of none = []
answers_of (some xs) = xs

-- the loop that appends `f"{field}: {value}\n"` to the notes
unfoldable pub append_answers : String → Answers → String
append_answers notes [] = notes
append_answers notes ((field, value) ∷ rest) =
    append_answers (notes ++ field ++ ": " ++ value ++ "\n") rest

unfoldable pub resolved_notes : Answers → String
unfolding append_answers
resolved_notes = append_answers "\n\n--- SUPPLEMENTARY INFORMATION ---\n"

-- `[item for item in missing_info if item not in resolved_missing]`
unfoldable pub remaining_missing : Answers → List String → List String
remaining_missing answers =
    select (λ item. not (exists_where (λ (entry : String × String). str_eq entry.0 item) answers))

abbrev pub with_draft : Option String → DraftPayload → DraftPayload
with_draft none p = p
with_draft (some t) p = if str_eq t "" then p else record p { draft_text = t }

abbrev pub with_answers : Option Answers → DraftPayload → DraftPayload
with_answers none p = p
with_answers (some []) p = p
with_answers (some (x ∷ xs)) p = record p {
  draft_text = p.draft_text ++ resolved_notes (x ∷ xs);
  missing_info = remaining_missing (x ∷ xs) p.missing_info;
}

abbrev pub edited : Option String → Option Answers → Action → Action
edited draft answers a = record a {
  draft_payload = elim a.draft_payload [
    | none ↦ none
    | some p ↦ some (with_answers answers (with_draft draft p))
  ];
}

-- The lawyer's edits go into the draft that waits, if there is one with a payload.
unfoldable pub persist_edits : Services → ℕ → Option String → Option Answers → Db → Db
persist_edits sv workflow_id draft answers d =
    let waiting =
      select (λ a. a.workflow_id == workflow_id && is_draft_waiting a.status) d.actions in
    elim (sv.first_action waiting) [
      | none ↦ d
      | some action ↦ record d {
        actions = update_where (λ a. a.id == action.id) (edited draft answers) d.actions;
      }
    ]

-- POST /agent/approve/{workflow_id}
unfoldable pub approve_workflow :
    Services → Request → ℕ → Option String → Option Answers → Handler Answer
unfolding get_workflow_for_org
approve_workflow sv req workflow_id draft answers = do
  wf ← get_workflow_for_org workflow_id req.org_id
  raise_unless (is_awaiting_approval wf.status) 409
  modify (λ d.
      if text_given draft || answers_given answers
      then persist_edits sv workflow_id draft answers d
      else d)
  send_task req workflow_id
  pure exporting

-- `str.isspace` of one character
abbrev pub is_space : ℕ → Bool
is_space c =
    (leb 9 c && leb c 13)
    || (leb 28 c && leb c 32)
    || c == 133
    || c == 160
    || c == 5760
    || (leb 8192 c && leb c 8202)
    || c == 8232
    || c == 8233
    || c == 8239
    || c == 8287
    || c == 12288

-- `str.lstrip`, `str.rstrip` and `str.strip`
unfoldable pub lstrip : String → String
lstrip String.[] = String.[]
lstrip (String.◌∷◌ c s) = let rest = lstrip s in if is_space (code c) then rest else String.◌∷◌ c s

abbrev pub is_blank : String → Bool
is_blank String.[] = true
is_blank (String.◌∷◌ c s) = is_space (code c) && is_blank s

unfoldable pub rstrip : String → String
rstrip String.[] = String.[]
rstrip (String.◌∷◌ c s) =
    let rest = rstrip s in if is_space (code c) && is_blank s then String.[] else String.◌∷◌ c rest

unfoldable pub strip : String → String
unfolding lstrip rstrip
strip s = rstrip (lstrip s)

abbrev pub annotated : String → ℕ → Action → Action
annotated reason revision a = record a {
  draft_payload = elim a.draft_payload [
    | none ↦ none
    | some p ↦
        some (record p {
          rejection_reason = some (strip reason);
          revision_number = some (revision + 1);
        })
  ];
}

-- the rejection reason goes into the payload of the first action of the workflow
unfoldable pub annotate_primary : Services → ℕ → String → ℕ → Db → Db
annotate_primary sv workflow_id reason revision d =
    elim (sv.first_action (select (λ a. a.workflow_id == workflow_id) d.actions)) [
      | none ↦ d
      | some action ↦ record d {
        actions = update_where (λ a. a.id == action.id) (annotated reason revision) d.actions;
      }
    ]

-- POST /agent/reject/{workflow_id}
unfoldable pub reject_workflow : Services → Request → ℕ → String → Handler Answer
unfolding get_workflow_for_org
reject_workflow sv req workflow_id reason = do
  wf ← get_workflow_for_org workflow_id req.org_id
  raise_if (ltb (count (strip reason)) 20) 400
  revision ← gets (λ d. current_revision workflow_id d.actions)
  if leb 3 revision
      then (do modify (set_workflow_status workflow_id WorkflowStatus.escalated); pure escalated)
      else (do
        modify (annotate_primary sv workflow_id reason revision)
        modify (bump_revisions workflow_id)
        modify (set_workflow_status workflow_id WorkflowStatus.revising)
        send_task req workflow_id
        pure revising)
