-- ===== src/Accounts/Context.antt =====
-- app/dependencies.py: the account behind an API key and behind a verified Supabase token.
use legal_ai_copilot.Prelude.{
  ℕ, String, Bool, true, false, not, Option, none, some, ◌&&◌, str_eq, ◌==◌, ltb,
}
use legal_ai_copilot.Prelude.Table.{select, select_one, update_where}
use legal_ai_copilot.Models.{UserRole, is_admin}
use legal_ai_copilot.Accounts.Rows.{
  Organization, User, Membership, ApiKey, Invite, Accounts, Crypto, Fresh, is_text, user_clash,
  membership_clash, truthy,
}
use legal_ai_copilot.Accounts.Session.{
  Session, ◌>>=◌, ◌>>◌, pure, gets, or_raise, raise_unless, modify, transaction, insert,
}

pub record AuthContext : Type 0 where
  pub org_id : ℕ
  pub user : User
  pub api_key : ApiKey

pub record Claims : Type 0 where
  pub sub : Option String
  pub email : Option String

pub record SupabaseAuthContext : Type 0 where
  pub org_id : ℕ
  pub user : User
  pub claims : Claims

abbrev pub has_key : String → ApiKey → Bool
has_key hash k = str_eq k.key_hash hash && k.is_active

abbrev pub find_key : String → Accounts → Option ApiKey
find_key hash d = select_one (has_key hash) d.api_keys

abbrev pub find_user : ℕ → Accounts → Option User
find_user id d = select_one (λ u. u.id == id) d.users

abbrev pub find_sub : String → Accounts → Option User
find_sub sub d = select_one (λ u. is_text u.supabase_user_id sub) d.users

abbrev pub find_email : String → Accounts → Option User
find_email email d = select_one (λ u. str_eq u.email email) d.users

abbrev pub find_org : String → Accounts → Option Organization
find_org slug d = select_one (λ o. str_eq o.slug slug) d.organizations

abbrev pub is_member : ℕ → ℕ → Membership → Bool
is_member user_id org_id m = m.user_id == user_id && m.org_id == org_id

abbrev pub find_membership : ℕ → ℕ → Accounts → Option Membership
find_membership user_id org_id d = select_one (is_member user_id org_id) d.memberships

abbrev pub insert_user : User → Session Unit
insert_user = insert user_clash (λ d. d.users) (λ rows d. record d { users = rows })

abbrev pub insert_membership : Membership → Session Unit
insert_membership =
    insert membership_clash (λ d. d.memberships) (λ rows d. record d { memberships = rows })

abbrev pub update_user : ℕ → (User → User) → Accounts → Accounts
update_user id f d = record d { users = update_where (λ u. u.id == id) f d.users }

abbrev pub accepted : Invite → Invite
accepted i = record i { is_accepted = true }

abbrev pub mark_accepted : ℕ → Accounts → Accounts
mark_accepted id d = record d { invites = update_where (λ i. i.id == id) accepted d.invites }

-- `user.personal_org_id or user.org_id`
abbrev pub or_org : Option ℕ → ℕ → ℕ
or_org none org = org
or_org (some personal) org = personal

abbrev pub resolved_org : User → ℕ
resolved_org u = or_org u.personal_org_id u.org_id

abbrev pub context_of : Claims → User → SupabaseAuthContext
context_of claims u = record { org_id = resolved_org u; user = u; claims = claims }

abbrev pub is_open_invite : ℕ → Invite → Bool
is_open_invite now i = not i.is_accepted && ltb now i.expires_at

-- an invite that is not accepted and has not expired
abbrev pub is_invite_for : String → ℕ → Invite → Bool
is_invite_for email now i = str_eq i.email email && is_open_invite now i

abbrev pub invited_user : Fresh → String → String → Invite → User
invited_user f sub email i = record {
  id = f.user_id;
  email = email;
  supabase_user_id = some sub;
  hashed_password = f.hashed_password;
  org_id = i.org_id;
  role = UserRole.member;
  personal_org_id = some i.org_id;
  full_name = none;
}

abbrev pub member_row : ℕ → ℕ → UserRole → Membership
member_row user_id org_id role = record { user_id = user_id; org_id = org_id; role = role }

-- `get_auth_context` and `_get_auth_context_from_key`
unfoldable pub get_auth_context : Crypto → String → Session AuthContext
get_auth_context c api_key_value = do
  row ← gets (find_key (c.hash_api_key api_key_value))
  api_key ← or_raise row 401
  joined ← gets (find_user api_key.user_id)
  user ← or_raise joined 401
  pure (record { org_id = api_key.org_id; user = user; api_key = api_key })

abbrev pub role_of : Option Membership → Option UserRole
role_of none = none
role_of (some m) = some m.role

abbrev pub is_admin_role : Option UserRole → Bool
is_admin_role none = false
is_admin_role (some role) = is_admin role

unfoldable pub require_admin : ℕ → ℕ → Session Unit
require_admin user_id org_id = do
  membership ← gets (find_membership user_id org_id)
  raise_unless (is_admin_role (role_of membership)) 403

unfoldable pub get_admin_auth_context : Crypto → String → Session AuthContext
unfolding get_auth_context require_admin
get_admin_auth_context c api_key_value = do
  ctx ← get_auth_context c api_key_value
  require_admin ctx.user.id ctx.org_id
  pure ctx

-- a first login by an email that has an account links the two
unfoldable pub link_account : Claims → String → User → Session SupabaseAuthContext
link_account claims sub u = do
  modify (update_user u.id (λ x. record x { supabase_user_id = some sub }))
  pure (context_of claims (record u { supabase_user_id = some sub }))

-- a first login by an email that has a pending invite accepts the invite
unfoldable pub auto_accept : Fresh → Claims → String → String → Invite → Session SupabaseAuthContext
auto_accept f claims sub email i = transaction do
  insert_user (invited_user f sub email i)
  insert_membership (member_row f.user_id i.org_id UserRole.member)
  modify (mark_accepted i.id)
  pure (context_of claims (invited_user f sub email i))

unfoldable pub first_login : Crypto → Fresh → Claims → String → String → Session SupabaseAuthContext
unfolding auto_accept
first_login c f claims sub email = do
  rows ← gets (λ d. select (is_invite_for email f.now) d.invites)
  i ← or_raise (c.newest_invite rows) 403
  auto_accept f claims sub email i

unfoldable pub build_supabase_auth_context : Crypto → Fresh → Claims → Session SupabaseAuthContext
unfolding link_account first_login
build_supabase_auth_context c f claims = do
  sub ← or_raise (truthy claims.sub) 400
  email ← or_raise (truthy claims.email) 400
  by_sub ← gets (find_sub sub)
  elim by_sub [
    | some u ↦ pure (context_of claims u)
    | none ↦ do
      by_email ← gets (find_email email)
      elim by_email [ some u ↦ link_account claims sub u | none ↦ first_login c f claims sub email ]
  ]

abbrev pub with_role : ℕ → UserRole → SupabaseAuthContext → SupabaseAuthContext
with_role org_id role ctx = record {
  org_id = org_id;
  user = record ctx.user { role = role };
  claims = ctx.claims;
}

-- The role goes into the ORM object, so it is written when the endpoint commits.
abbrev pub adopt : ℕ → SupabaseAuthContext → Option Membership → Session SupabaseAuthContext
adopt org_id ctx none = pure ctx
adopt org_id ctx (some m) = do
  modify (update_user ctx.user.id (λ u. record u { role = m.role }))
  pure (with_role org_id m.role ctx)

-- the role in the resolved organisation
unfoldable pub keep_org : SupabaseAuthContext → Session SupabaseAuthContext
keep_org ctx = do
  membership ← gets (find_membership ctx.user.id ctx.org_id)
  adopt ctx.org_id ctx membership

-- the membership in the organisation that X-Active-Org names
abbrev pub requested : Option String → ℕ → Accounts → Option Membership
requested none user_id d = none
requested (some slug) user_id d = elim (find_org slug d) [
  | none ↦ none
  | some org ↦ find_membership user_id org.id d
]

-- An unknown slug, or one of another organisation, is passed over.
unfoldable pub switch_org : Option String → SupabaseAuthContext → Session SupabaseAuthContext
unfolding keep_org
switch_org x_active_org ctx = do
  membership ← gets (requested (truthy x_active_org) ctx.user.id)
  elim membership [ none ↦ keep_org ctx | some m ↦ adopt m.org_id ctx (some m) ]

unfoldable pub get_supabase_auth_context :
    Crypto → Fresh → Claims → Option String → Session SupabaseAuthContext
unfolding build_supabase_auth_context switch_org
get_supabase_auth_context c f claims x_active_org = do
  ctx ← build_supabase_auth_context c f claims
  switch_org x_active_org ctx

unfoldable pub get_supabase_admin_context :
    Crypto → Fresh → Claims → Option String → Session SupabaseAuthContext
unfolding get_supabase_auth_context require_admin
get_supabase_admin_context c f claims x_active_org = do
  ctx ← get_supabase_auth_context c f claims x_active_org
  require_admin ctx.user.id ctx.org_id
  pure ctx
