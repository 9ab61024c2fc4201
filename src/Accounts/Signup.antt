-- ===== src/Accounts/Signup.antt =====
-- app/routers/auth.py: `check_org`, `signup`, `login` and `setup_org`.
use legal_ai_copilot.Prelude.{ℕ, String, Bool, not, Option, none, some, ◌==◌, ltb, is_some}
use legal_ai_copilot.Prelude.Table.{select_one}
use legal_ai_copilot.Models.{UserRole}
use legal_ai_copilot.Http.{ok, http}
use legal_ai_copilot.Accounts.Rows.{
  Organization, User, DefaultWorkspace, Accounts, Crypto, Fresh, ApiKey, organization_clash,
  workspace_clash, key_clash, key_row, raw_key, slice, truthy,
}
use legal_ai_copilot.Accounts.Session.{
  Session, ◌>>=◌, ◌>>◌, pure, gets, or_raise, raise_if, raise_unless, transaction, insert,
}
use legal_ai_copilot.Accounts.Context.{
  Claims, find_org, find_email, find_sub, insert_user, insert_membership, member_row,
}

pub record SignupRequest : Type 0 where
  pub email : String
  pub password : String
  pub org_id : String

pub record LoginRequest : Type 0 where
  pub email : String
  pub password : String

pub record SetupOrgRequest : Type 0 where
  pub org_id : String
  pub org_name : Option String

-- what signup, login and acceptance return: the raw key, its prefix, and the organisation
pub record Issued : Type 0 where
  pub api_key : String
  pub prefix : String
  pub org_id : ℕ

abbrev pub insert_org : Organization → Session Unit
insert_org =
    insert organization_clash (λ d. d.organizations) (λ rows d. record d { organizations = rows })

abbrev pub insert_key : ApiKey → Session Unit
insert_key = insert key_clash (λ d. d.api_keys) (λ rows d. record d { api_keys = rows })

abbrev pub insert_workspace : DefaultWorkspace → Session Unit
insert_workspace =
    insert workspace_clash (λ d. d.workspaces) (λ rows d. record d { workspaces = rows })

-- a new key for a user, stored by its hash
unfoldable pub issue_key : Crypto → Fresh → ℕ → ℕ → Session Issued
issue_key c f user_id org_id = do
  insert_key (key_row c f user_id org_id)
  pure (record { api_key = raw_key f; prefix = slice 12 (raw_key f); org_id = org_id })

unfoldable pub check_org : Crypto → String → Session Bool
check_org c org_id = gets (λ d. not (is_some (find_org (c.lower org_id) d)))

abbrev pub signed_up : Fresh → SignupRequest → User
signed_up f p = record {
  id = f.user_id;
  email = p.email;
  supabase_user_id = none;
  hashed_password = f.hashed_password;
  org_id = f.org_id;
  role = UserRole.admin;
  personal_org_id = some f.org_id;
  full_name = none;
}

abbrev pub new_org : Fresh → String → Option String → Organization
new_org f slug name = record { id = f.org_id; slug = slug; name = name }

-- An `IntegrityError` of the user's INSERT ends in 400; the checks above it have ruled out all but
-- a clash of the random id.
abbrev pub caught : ℕ → Session Unit → Session Unit
caught code m d = let (r, d') = m d in elim r [ ok a ↦ (ok a, d') | http _ ↦ (http code, d') ]

unfoldable pub signup : Crypto → Fresh → SignupRequest → Session Issued
unfolding issue_key
signup c f p = transaction do
  by_email ← gets (find_email p.email)
  raise_if (is_some by_email) 400
  by_slug ← gets (find_org p.org_id)
  raise_if (is_some by_slug) 400
  raise_if (ltb 72 (c.utf8_length p.password)) 400
  insert_org (new_org f p.org_id none)
  caught 400 (insert_user (signed_up f p))
  insert_membership (member_row f.user_id f.org_id UserRole.admin)
  issue_key c f f.user_id f.org_id

-- the join with `organizations`
abbrev pub user_with_org : String → Accounts → Option User
user_with_org email d = elim (find_email email d) [
  | none ↦ none
  | some u ↦ elim (select_one (λ o. o.id == u.org_id) d.organizations) [
    | none ↦ none
    | some org ↦ some u
  ]
]

unfoldable pub login : Crypto → Fresh → LoginRequest → Session Issued
unfolding issue_key
login c f p = transaction do
  row ← gets (user_with_org p.email)
  u ← or_raise row 401
  raise_unless (c.verify_password p.password u.hashed_password) 401
  issue_key c f u.id u.org_id

abbrev pub set_up : Fresh → String → String → User
set_up f sub email = record {
  id = f.user_id;
  email = email;
  supabase_user_id = some sub;
  hashed_password = "!";
  org_id = f.org_id;
  role = UserRole.admin;
  personal_org_id = some f.org_id;
  full_name = none;
}

abbrev pub default_workspace : Fresh → DefaultWorkspace
default_workspace f = record {
  id = f.workspace_id;
  org_id = f.org_id;
  name = "Default Workspace";
  description = "Default workspace created during setup";
}

abbrev pub text_or : Option String → String → String
text_or none t = t
text_or (some s) t = s

-- `users.org_id` is NOT NULL, so an account that exists always has an organisation: the two
-- branches that would link the new one to an account are not reached.
unfoldable pub setup_org : Crypto → Fresh → Claims → SetupOrgRequest → Session User
setup_org c f claims p = transaction do
  sub ← or_raise (truthy claims.sub) 400
  email ← or_raise (truthy claims.email) 400
  slug ← or_raise (truthy (some (c.lower (c.trim p.org_id)))) 400
  existing_org ← gets (find_org slug)
  raise_if (is_some existing_org) 400
  user_by_sub ← gets (find_sub sub)
  raise_if (is_some user_by_sub) 409
  user_by_email ← gets (find_email email)
  raise_if (is_some user_by_email) 409
  insert_org (new_org f slug (some (text_or (truthy p.org_name) slug)))
  insert_user (set_up f sub email)
  insert_membership (member_row f.user_id f.org_id UserRole.admin)
  insert_workspace (default_workspace f)
  pure (set_up f sub email)
