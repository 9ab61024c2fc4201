-- ===== src/Approvals/Endpoints.antt =====
-- app/routers/approvals.py: the helpers and the endpoints.
use Prim.Native.Char.{code}
use Prim.Native.String.{count}
use legal_ai_copilot.Prelude.{
  ℕ, ◌+◌, ◌-◌, ◌*◌, String, Bool, true, ◌&&◌, ◌||◌, Option, none, some, List, length, take, drop,
  ltb, leb, ◌==◌, str_eq, if◌then◌else◌, ℤ, pos, negsuc,
}
use legal_ai_copilot.Prelude.Table.{select, select_one, update_where}
use legal_ai_copilot.Models.{
  ApprovalRequest, WorkflowStatus, ApprovalStatus, is_awaiting_approval, is_pending, is_used,
  is_expired,
}
use legal_ai_copilot.Database.{approval_approved, approval_escalated, approval_rejected, emit}
use legal_ai_copilot.Http.{
  Request, Handler, send_task, pure, gets, or_raise, raise_if, raise_unless, modify, ◌>>=◌, ◌>>◌,
}
use legal_ai_copilot.Services.{Services}
use legal_ai_copilot.Workflows.{
  get_workflow_for_org, current_revision, set_workflow_status, bump_revisions,
}

pub record Decision : Type 0 where
  pub workflow_id : ℕ
  pub approval_id : ℕ
  pub status : WorkflowStatus

unfoldable pub get_approval_for_org : ℕ → ℕ → Handler ApprovalRequest
get_approval_for_org approval_id org_id =
    gets (λ d. select_one (λ a. a.id == approval_id && a.org_id == org_id) d.approvals) >>= λ found.
    or_raise found 404

-- the requests of a workflow that have not run out, whatever their status
abbrev pub unexpired_for : ℕ → ℕ → ℕ → ApprovalRequest → Bool
unexpired_for workflow_id org_id now a =
    a.workflow_id == workflow_id && a.org_id == org_id && ltb now a.expires_at

-- the row of an object that the session holds
abbrev pub same_approval : ApprovalRequest → ApprovalRequest → Bool
same_approval a r = r.id == a.id

abbrev pub consume : Option ℕ → ℕ → ApprovalRequest → ApprovalRequest
consume actor now a = record a {
  status = ApprovalStatus.used;
  decision_timestamp = some now;
  actor = actor;
}

abbrev pub refuse : Option ℕ → ℕ → String → ApprovalRequest → ApprovalRequest
refuse actor now reason a = record a {
  status = ApprovalStatus.rejected;
  decision_timestamp = some now;
  actor = actor;
  rejection_reason = some reason;
}

-- GET /approvals: the page and the total
unfoldable pub list_pending_approvals :
    Services → Request → ℕ → ℕ → Handler (List ApprovalRequest × ℕ)
list_pending_approvals sv req limit offset =
    raise_if (ltb limit 1 || ltb 200 limit) 422
    >> gets (λ d.
      let open_rows =
        select (λ a. a.org_id == req.org_id && is_pending a.status && ltb req.now a.expires_at)
          d.approvals in
      (take limit (drop offset (sv.newest_first open_rows)), length open_rows))

-- GET /approvals/{approval_id}
unfoldable pub get_approval_detail : Request → ℕ → Handler ApprovalRequest
unfolding get_approval_for_org
get_approval_detail req approval_id = get_approval_for_org approval_id req.org_id

-- `_get_hmac_secret`: a secret that is not set or empty raises, which ends in a status of 500
unfoldable pub hmac_secret : Request → Option String
hmac_secret req = elim req.secret [ none ↦ none | some s ↦ if str_eq s "" then none else some s ]

-- `_generate_token`
unfoldable pub generate_token : Services → Request → ℕ → ℕ → Handler String
generate_token sv req workflow_id approval_id = do
  secret ← or_raise (hmac_secret req) 500
  pure (sv.hmac_sha256 secret (sv.token_data workflow_id req.org_id approval_id))

-- `hmac.compare_digest` of two texts takes ASCII only, any other raises
unfoldable pub is_ascii : String → Bool
is_ascii String.[] = true
is_ascii (String.◌∷◌ c s) = ltb (code c) 128 && is_ascii s

unfoldable pub verify_token : Services → Request → String → ℕ → ℕ → Handler Bool
unfolding generate_token
verify_token sv req token workflow_id approval_id = do
  expected ← generate_token sv req workflow_id approval_id
  raise_unless (is_ascii token) 500
  pure (str_eq expected token)

-- The gate that approve and reject share: the workflow waits for approval, the newest request of
-- the workflow that has not run out is pending, and the token is its token.
unfoldable pub pass_gate : Services → Request → ℕ → String → Handler ApprovalRequest
unfolding get_workflow_for_org verify_token
pass_gate sv req workflow_id token = do
  wf ← get_workflow_for_org workflow_id req.org_id
  raise_unless (is_awaiting_approval wf.status) 409
  found ←
      gets (λ d.
        sv.newest_approval (select (unexpired_for workflow_id req.org_id req.now) d.approvals))
  approval ← or_raise found 404
  raise_if (is_used approval.status) 410
  raise_unless (is_pending approval.status) 403
  valid ← verify_token sv req token workflow_id approval.id
  raise_unless valid 403
  pure approval

-- POST /approvals/workflows/{workflow_id}/approve
unfoldable pub approve_via_token : Services → Request → ℕ → String → Handler Decision
approve_via_token sv req workflow_id token = do
  approval ← pass_gate sv req workflow_id token
  modify (λ d. record d {
    approvals = update_where (same_approval approval) (consume req.user_id req.now) d.approvals;
  })
  send_task req workflow_id
  modify (emit (approval_approved workflow_id req.org_id req.user_id))
  pure (record {
    workflow_id = workflow_id;
    approval_id = approval.id;
    status = WorkflowStatus.executing;
  })

-- POST /approvals/workflows/{workflow_id}/reject
unfoldable pub reject_via_token : Services → Request → ℕ → String → String → Handler Decision
reject_via_token sv req workflow_id token reason = do
  raise_if (ltb (count reason) 20) 422
  approval ← pass_gate sv req workflow_id token
  modify (λ d. record d {
    approvals =
        update_where (same_approval approval) (refuse req.user_id req.now reason) d.approvals;
  })
  revision ← gets (λ d. current_revision workflow_id d.actions)
  if leb 3 revision
      then (do
        modify (set_workflow_status workflow_id WorkflowStatus.escalated)
        modify (emit (approval_escalated workflow_id req.org_id req.user_id))
        pure (record {
          workflow_id = workflow_id;
          approval_id = approval.id;
          status = WorkflowStatus.escalated;
        }))
      else (do
        modify (bump_revisions workflow_id)
        modify (set_workflow_status workflow_id WorkflowStatus.revising)
        modify (emit (approval_rejected workflow_id req.org_id req.user_id reason))
        pure (record {
          workflow_id = workflow_id;
          approval_id = approval.id;
          status = WorkflowStatus.revising;
        }))

abbrev pub default_token_ttl_hours : ℕ
default_token_ttl_hours = 168

-- `req.expires_in_hours or DEFAULT_TOKEN_TTL_HOURS`
abbrev pub expiry_hours : Option ℤ → ℤ
expiry_hours none = pos default_token_ttl_hours
expiry_hours (some (pos h)) = if h == 0 then pos default_token_ttl_hours else pos h
expiry_hours (some (negsuc h)) = negsuc h

-- `now + timedelta(hours=h)`
abbrev pub add_hours : ℕ → ℤ → ℕ
add_hours now (pos h) = now + h * 3600
add_hours now (negsuc h) = now - (h + 1) * 3600

abbrev pub reopen : String → ℕ → ApprovalRequest → ApprovalRequest
reopen token_hash expires_at a = record a {
  token_hash = token_hash;
  status = ApprovalStatus.pending;
  expires_at = expires_at;
}

-- `status in (PENDING, EXPIRED)`
abbrev pub is_reissuable : ApprovalStatus → Bool
is_reissuable status = is_pending status || is_expired status

-- POST /approvals/{approval_id}/reissue; `is_admin` is what `get_admin_auth_context` decides
unfoldable pub reissue_token : Services → Request → Bool → ℕ → Option ℤ → Handler ApprovalRequest
unfolding get_approval_for_org generate_token
reissue_token sv req is_admin approval_id hours = do
  raise_unless is_admin 403
  approval ← get_approval_for_org approval_id req.org_id
  raise_unless (is_reissuable approval.status) 409
  token ← generate_token sv req approval.workflow_id approval.id
  let reopened = reopen (sv.sha256 token) (add_hours req.now (expiry_hours hours))
  modify (λ d. record d { approvals = update_where (same_approval approval) reopened d.approvals })
  pure (reopened approval)
