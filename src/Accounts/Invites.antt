-- ===== src/Accounts/Invites.antt =====
-- app/routers/auth.py (invite_user, invite_user_by_email, invite_info) and app/routers/invites.py
-- (generate_invite, verify_token): making an invite and looking it up by its token.
use legal_ai_copilot.Prelude.{
  ℕ, String, Bool, true, false, Option, none, some, ◌+◌, ◌&&◌, str_eq, ◌==◌,
}
use legal_ai_copilot.Prelude.Table.{select_one}
use legal_ai_copilot.Models.{UserRole}
use legal_ai_copilot.Accounts.Rows.{Invite, Accounts, Crypto, Fresh, invite_clash, Organization}
use legal_ai_copilot.Accounts.Session.{
  Session, ◌>>=◌, ◌>>◌, pure, raise, gets, or_raise, raise_unless, transaction, insert,
}
use legal_ai_copilot.Accounts.Context.{AuthContext, SupabaseAuthContext, is_open_invite}

-- `timedelta(days=7)`
abbrev pub invite_days : ℕ
invite_days = 604800

abbrev pub invite_row : Fresh → String → ℕ → UserRole → String → Invite
invite_row f email org_id role token = record {
  id = f.invite_id;
  email = email;
  org_id = org_id;
  role = role;
  token = token;
  expires_at = f.now + invite_days;
  is_accepted = false;
  created_at = f.now;
}

abbrev pub insert_invite : Invite → Session Unit
insert_invite = insert invite_clash (λ d. d.invites) (λ rows d. record d { invites = rows })

-- POST /auth/invite stores the token itself, and not its hash. It returns the token.
unfoldable pub invite_user : Fresh → AuthContext → String → Session String
invite_user f ctx email =
    transaction
      do insert_invite (invite_row f email ctx.org_id UserRole.member f.token); pure f.token

-- what `admin.invite_user_by_email` of Supabase does
pub data Mail : Type 0 where
  sent already_registered refused : Mail

-- the answer to a mail: the link's token where the email already has an account
abbrev pub mailed : Mail → String → Session (Option String)
mailed sent token = pure none
mailed already_registered token = pure (some token)
mailed refused token = raise 502

-- SUPABASE_SERVICE_ROLE_KEY and SUPABASE_URL, where they are set
pub record Environment : Type 0 where
  pub service_role_key : Bool
  pub supabase_url : Bool

-- up to the commit
unfoldable pub store_invite :
    Crypto → Environment → Fresh → SupabaseAuthContext → String → Session Unit
store_invite c env f ctx email = do
  raise_unless env.service_role_key 503
  insert_invite (invite_row f email ctx.org_id UserRole.member (c.sha256 f.token))

-- after the commit
unfoldable pub send_invite : Environment → Mail → Fresh → Session (Option String)
send_invite env mail f = do raise_unless env.supabase_url 503; mailed mail f.token

unfoldable pub invite_user_by_email :
    Crypto → Environment → Mail → Fresh → SupabaseAuthContext → String → Session (Option String)
unfolding store_invite send_invite
invite_user_by_email c env mail f ctx email = do
  transaction (store_invite c env f ctx email)
  send_invite env mail f

-- A mail that fails is logged, and the invite stands.
unfoldable pub generate_invite :
    Crypto → Fresh → AuthContext → ℕ → String → UserRole → Session String
generate_invite c f ctx org_id email role = transaction do
  raise_unless (ctx.org_id == org_id) 403
  insert_invite (invite_row f email ctx.org_id role (c.sha256 f.token))
  pure f.token

-- an open invite whose stored token is the hash of the one that was sent
abbrev pub has_token : String → ℕ → Invite → Bool
has_token hash now i = str_eq i.token hash && is_open_invite now i

abbrev pub find_invite : Crypto → String → ℕ → Accounts → Option Invite
find_invite c token now d = select_one (has_token (c.sha256 token) now) d.invites

-- the answer of invite_info
pub record InviteInfo : Type 0 where
  pub email : String
  pub org_id : ℕ
  pub valid : Bool

unfoldable pub invite_info : Crypto → ℕ → String → Session InviteInfo
invite_info c now token = do
  row ← gets (find_invite c token now)
  i ← or_raise row 400
  pure (record { email = i.email; org_id = i.org_id; valid = true })

-- the join with `organizations`
unfoldable pub verify_token : Crypto → ℕ → String → Session (Invite × Organization)
verify_token c now token = do
  row ← gets (find_invite c token now)
  i ← or_raise row 400
  joined ← gets (λ d. select_one (λ o. o.id == i.org_id) d.organizations)
  org ← or_raise joined 400
  pure (i, org)
