-- ===== src/Accounts/Requests.antt =====
-- The endpoints with the dependencies that they name, and any sequence of requests. The role that
-- `get_supabase_auth_context` sets is written by the endpoint's commit, and dropped if there is none.
use legal_ai_copilot.Prelude.{ℕ, String, Option, List, [], ◌∷◌}
use legal_ai_copilot.Models.{UserRole}
use legal_ai_copilot.Accounts.Rows.{Accounts, Crypto, Fresh}
use legal_ai_copilot.Accounts.Session.{Session, ◌>>=◌, ◌>>◌, pure, transaction}
use legal_ai_copilot.Accounts.Context.{
  Claims, SupabaseAuthContext, get_admin_auth_context, build_supabase_auth_context, switch_org,
  require_admin,
}
use legal_ai_copilot.Accounts.Signup.{
  SignupRequest, LoginRequest, SetupOrgRequest, signup, login, setup_org,
}
use legal_ai_copilot.Accounts.Invites.{
  Environment, Mail, invite_user, store_invite, send_invite, generate_invite,
}
use legal_ai_copilot.Accounts.Keys.{revoke_key, remove_member}
use legal_ai_copilot.Accounts.Accepting.{Acceptance, accept}
use legal_ai_copilot.Accounts.Cleanup.{cleanup_expired_invites}

pub data Call : Type 0 where
  sign_up : SignupRequest → Call
  log_in : LoginRequest → Call
  set_up_org : Claims → SetupOrgRequest → Call
  -- an endpoint that reads, such as /auth/me
  enter : Claims → Call
  -- by API key: POST /auth/invite, /orgs/{org_id}/invites and /auth/revoke
  invite : String → String → Call
  create_invite : String → ℕ → String → UserRole → Call
  revoke : String → String → Call
  -- by token: POST /auth/invite-by-email and DELETE /auth/members/{user_id}
  invite_by_email : Claims → Option String → Environment → Mail → String → Call
  remove : Claims → Option String → ℕ → Call
  join : Acceptance → String → Call
  -- from the clock: POST /cron/cleanup-expired-invites
  clean_up : Call

-- `get_supabase_admin_context`, and what the endpoint does up to its commit
abbrev pub as_admin :
    {A : Type 0}
    → Option String
    → SupabaseAuthContext
    → (SupabaseAuthContext → Session A)
    → Session A
as_admin x_active_org ctx body = transaction do
  switched ← switch_org x_active_org ctx
  require_admin switched.user.id switched.org_id
  body switched

unfoldable pub handle : Crypto → Fresh → Call → Session Unit
handle c f (sign_up p) = signup c f p >> pure tt
handle c f (log_in p) = login c f p >> pure tt
handle c f (set_up_org claims p) = setup_org c f claims p >> pure tt
handle c f (enter claims) = build_supabase_auth_context c f claims >> pure tt
handle c f (invite key email) = do
  ctx ← get_admin_auth_context c key
  invite_user f ctx email
  pure tt
handle c f (create_invite key org_id email role) = do
  ctx ← get_admin_auth_context c key
  generate_invite c f ctx org_id email role
  pure tt
handle c f (revoke key prefix) = do ctx ← get_admin_auth_context c key; revoke_key ctx prefix
handle c f (invite_by_email claims x_active_org env mail email) = do
  ctx ← build_supabase_auth_context c f claims
  as_admin x_active_org ctx (λ switched. store_invite c env f switched email)
  send_invite env mail f
  pure tt
handle c f (remove claims x_active_org target) = do
  ctx ← build_supabase_auth_context c f claims
  as_admin x_active_org ctx (λ switched. remove_member switched target)
handle c f (join acceptance token) = accept c f acceptance token
handle c f clean_up = cleanup_expired_invites f.now >> pure tt

pub data Request : Type 0 where
  request : Fresh → Call → Request

unfoldable pub serve : Crypto → List Request → Accounts → Accounts
serve c [] d = d
serve c (request f call ∷ rest) d = serve c rest (handle c f call d).1
