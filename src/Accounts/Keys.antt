-- ===== src/Accounts/Keys.antt =====
-- app/routers/auth.py: `revoke_key`, `my_org_members`, `remove_member` and `list_my_orgs`. The time
-- at which a member joined is left out of the list of members.
use legal_ai_copilot.Prelude.{
  ℕ, String, Bool, false, not, Option, none, some, List, [], ◌∷◌, ◌&&◌, str_eq, ◌==◌,
}
use legal_ai_copilot.Prelude.Table.{select, select_one, update_where}
use legal_ai_copilot.Models.{UserRole}
use legal_ai_copilot.Accounts.Rows.{Organization, User, Membership, ApiKey, Accounts}
use legal_ai_copilot.Accounts.Session.{
  Session, ◌>>=◌, ◌>>◌, gets, or_raise, raise_if, modify, transaction, scalar,
}
use legal_ai_copilot.Accounts.Context.{AuthContext, SupabaseAuthContext, is_member, find_membership}
use legal_ai_copilot.Accounts.Resolve.{lift}

abbrev pub has_prefix : String → ℕ → ApiKey → Bool
has_prefix prefix org_id k = str_eq k.prefix prefix && k.org_id == org_id

abbrev pub deactivate : ℕ → Accounts → Accounts
deactivate id d = record d {
  api_keys = update_where (λ k. k.id == id) (λ k. record k { is_active = false }) d.api_keys;
}

unfoldable pub revoke_key : AuthContext → String → Session Unit
revoke_key ctx prefix = transaction do
  rows ← gets (λ d. select (has_prefix prefix ctx.org_id) d.api_keys)
  row ← lift (scalar rows)
  k ← or_raise row 404
  modify (deactivate k.id)

-- DELETE
unfoldable pub without : ℕ → ℕ → List Membership → List Membership
without user_id org_id rows = select (λ m. not (is_member user_id org_id m)) rows

unfoldable pub remove_member : SupabaseAuthContext → ℕ → Session Unit
remove_member ctx target_user_id = transaction do
  raise_if (target_user_id == ctx.user.id) 400
  row ← gets (find_membership target_user_id ctx.org_id)
  membership ← or_raise row 404
  modify (λ d. record d { memberships = without target_user_id ctx.org_id d.memberships })

-- the rows of a membership joined with the users
pub record Member : Type 0 where
  pub user_id : ℕ
  pub email : String
  pub full_name : Option String
  pub role : UserRole

abbrev pub member_of : Membership → Option User → List Member → List Member
member_of m none rest = rest
member_of m (some u) rest =
    record { user_id = u.id; email = u.email; full_name = u.full_name; role = m.role } ∷ rest

unfoldable pub join_users : List User → List Membership → List Member
join_users users [] = []
join_users users (m ∷ rows) =
    member_of m (select_one (λ u. u.id == m.user_id) users) (join_users users rows)

unfoldable pub my_org_members : SupabaseAuthContext → Session (List Member)
my_org_members ctx =
    gets (λ d. join_users d.users (select (λ m. m.org_id == ctx.org_id) d.memberships))

pub record OwnOrg : Type 0 where
  pub org_id : ℕ
  pub slug : String
  pub name : Option String
  pub role : UserRole
  pub is_active : Bool

abbrev pub own_org : ℕ → Membership → Option Organization → List OwnOrg → List OwnOrg
own_org active m none rest = rest
own_org active m (some o) rest =
    record {
      org_id = o.id;
      slug = o.slug;
      name = o.name;
      role = m.role;
      is_active = o.id == active;
    }
    ∷ rest

unfoldable pub join_orgs : ℕ → List Organization → List Membership → List OwnOrg
join_orgs active orgs [] = []
join_orgs active orgs (m ∷ rows) =
    own_org active m (select_one (λ o. o.id == m.org_id) orgs) (join_orgs active orgs rows)

unfoldable pub list_my_orgs : SupabaseAuthContext → Session (List OwnOrg)
list_my_orgs ctx =
    gets λ d.
      join_orgs ctx.org_id d.organizations (select (λ m. m.user_id == ctx.user.id) d.memberships)
