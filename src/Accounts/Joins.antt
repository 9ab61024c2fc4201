-- ===== src/Accounts/Joins.antt =====
-- Accepting an invite: `accept_invite_by_token` and `accept_invite` of app/routers/auth.py and
-- `accept_invite` of app/routers/invites.py.
use legal_ai_copilot.Prelude.{ℕ, String, true, false, Option, none, some, ◌&&◌, str_eq, is_some}
use legal_ai_copilot.Prelude.Table.{select_one}
use legal_ai_copilot.Models.{UserRole}
use legal_ai_copilot.Accounts.Rows.{User, Invite, Accounts, Crypto, Fresh}
use legal_ai_copilot.Accounts.Session.{
  Session, ◌>>=◌, ◌>>◌, pure, gets, or_raise, raise_if, raise_unless, modify, transaction,
}
use legal_ai_copilot.Accounts.Context.{
  Claims, SupabaseAuthContext, build_supabase_auth_context, switch_org, find_email, find_membership,
  insert_user, insert_membership, member_row, mark_accepted, update_user, or_org,
}
use legal_ai_copilot.Accounts.Signup.{Issued, issue_key, text_or}
use legal_ai_copilot.Accounts.Invites.{find_invite, has_token, Environment}

pub record AcceptInviteRequest : Type 0 where
  pub email : String
  pub token : String

abbrev pub keep_personal : ℕ → User → User
keep_personal org_id u = record u { personal_org_id = some (or_org u.personal_org_id org_id) }

-- what follows the dependency `get_supabase_auth_context`
unfoldable pub join_by_token : Crypto → Fresh → SupabaseAuthContext → String → Session ℕ
join_by_token c f ctx token = do
  row ← gets (find_invite c token f.now)
  i ← or_raise row 400
  raise_unless (str_eq (c.lower i.email) (c.lower (text_or ctx.claims.email ""))) 403
  modify (update_user ctx.user.id (keep_personal i.org_id))
  modify (mark_accepted i.id)
  insert_membership (member_row ctx.user.id i.org_id UserRole.member)
  pure i.org_id

unfoldable pub accept_invite_by_token : Crypto → Fresh → Claims → Option String → String → Session ℕ
unfolding build_supabase_auth_context switch_org join_by_token
accept_invite_by_token c f claims x_active_org token = do
  ctx ← build_supabase_auth_context c f claims
  transaction do switched ← switch_org x_active_org ctx; join_by_token c f switched token

abbrev pub joined_user : Fresh → String → Option String → Option String → UserRole → ℕ → User
joined_user f email sub full_name role org_id = record {
  id = f.user_id;
  email = email;
  supabase_user_id = sub;
  hashed_password = f.hashed_password;
  org_id = org_id;
  role = role;
  personal_org_id = some org_id;
  full_name = full_name;
}

abbrev pub find_sent : Crypto → String → String → ℕ → Accounts → Option Invite
find_sent c token email now d =
    select_one (λ i. has_token (c.sha256 token) now i && str_eq i.email email) d.invites

-- `accept_invite` of auth.py: a new user with an API key
unfoldable pub accept_invite : Crypto → Fresh → AcceptInviteRequest → Session Issued
unfolding issue_key
accept_invite c f p = transaction do
  row ← gets (find_sent c p.token p.email f.now)
  i ← or_raise row 400
  existing ← gets (find_email p.email)
  raise_if (is_some existing) 400
  insert_user (joined_user f p.email none none UserRole.member i.org_id)
  modify (mark_accepted i.id)
  insert_membership (member_row f.user_id i.org_id UserRole.member)
  issue_key c f f.user_id i.org_id

-- what `admin.create_user` of Supabase returns: the user's id, or an exception
abbrev pub create_supabase_user : Environment → Option String → Session (Option String)
create_supabase_user env answer d = elim (env.supabase_url && env.service_role_key) [
  | true ↦ (or_raise answer 500 >>= λ sub. pure (some sub)) d
  | false ↦ pure none d
]

-- the membership, where there is none yet
abbrev pub ensure_membership : ℕ → ℕ → UserRole → Session Unit
ensure_membership user_id org_id role = do
  membership ← gets (find_membership user_id org_id)
  elim membership [ none ↦ insert_membership (member_row user_id org_id role) | some m ↦ pure tt ]

-- `accept_invite` of invites.py: a new user with the invite's role
unfoldable pub consume_invite :
    Crypto → Environment → Option String → Fresh → String → String → Session User
consume_invite c env answer f token full_name = transaction do
  row ← gets (find_invite c token f.now)
  i ← or_raise row 400
  existing ← gets (find_email i.email)
  raise_if (is_some existing) 401
  sub ← create_supabase_user env answer
  insert_user (joined_user f i.email sub (some full_name) i.role i.org_id)
  ensure_membership f.user_id i.org_id i.role
  modify (mark_accepted i.id)
  pure (joined_user f i.email sub (some full_name) i.role i.org_id)
