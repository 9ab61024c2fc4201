-- ===== src/Access/Guard.antt =====
-- app/middleware/rbac_middleware.py: `get_required_role`, `resolve_user_role` and the check of
-- `require_role`.
use text.Mathlib.Text.{starts_with}
use legal_ai_copilot.Prelude.{
  ℕ, String, Bool, Option, none, some, List, [], ◌∷◌, str_eq, if◌then◌else◌,
}
use legal_ai_copilot.Models.{UserRole}
use legal_ai_copilot.Models.Roles.{meets_threshold}
use legal_ai_copilot.Http.{Reply, ok, http}

abbrev pub Permissions : Type 0
Permissions = List (String × UserRole)

abbrev pub endpoint_permissions : Permissions
endpoint_permissions =
    ("/admin", UserRole.system_admin)
    ∷ ("/cron", UserRole.system_admin)
    ∷ ("/monitoring", UserRole.system_admin)
    ∷ ("/agent/approve", UserRole.partner)
    ∷ ("/agent/reject", UserRole.partner)
    ∷ ("/workspaces/{id}/settings", UserRole.partner)
    ∷ ("/agent/start", UserRole.associate)
    ∷ ("/agent/confirm-intent", UserRole.associate)
    ∷ ("/ask", UserRole.associate)
    ∷ ("/ask-agent", UserRole.associate)
    ∷ ("/workspaces", UserRole.member)
    ∷ ("/files", UserRole.member)
    ∷ ("/session", UserRole.member)
    ∷ ("/auth", UserRole.member)
    ∷ []

-- the role of the first entry that a test takes
unfoldable pub first_role : (String → Bool) → Permissions → Option UserRole
first_role p [] = none
first_role p ((prefix, role) ∷ rest) =
    let later = first_role p rest in if p prefix then some role else later

abbrev pub role_or : Option UserRole → UserRole → UserRole
role_or none role = role
role_or (some r) role = r

-- the exact path first, then the first prefix, then MEMBER
unfoldable pub required_in : Permissions → String → UserRole
unfolding first_role
required_in permissions path =
    role_or (first_role (λ prefix. str_eq path prefix) permissions)
      (role_or (first_role (λ prefix. starts_with path prefix) permissions) UserRole.member)

unfoldable pub get_required_role : String → UserRole
unfolding required_in
get_required_role = required_in endpoint_permissions

-- `request.state` as the auth dependencies leave it
pub record State : Type 0 where
  pub user_role : Option (Option UserRole)
  pub org_id : Option ℕ
  pub user_id : Option ℕ

-- `membership` is the query on `user_org_memberships`; an exception counts as no row
unfoldable pub resolve_user_role : (ℕ → ℕ → Option UserRole) → State → Option UserRole
resolve_user_role membership s = elim s.user_role [
  | some role ↦ role
  | none ↦ elim s.org_id [
    | none ↦ none
    | some org ↦ elim s.user_id [
      | none ↦ some UserRole.member
      | some user ↦ some (role_or (membership user org) UserRole.member)
    ]
  ]
]

unfoldable pub check_role : UserRole → Option UserRole → Reply Unit
unfolding meets_threshold
check_role required none = http 401
check_role required (some role) = if meets_threshold role required then ok tt else http 403
