-- ===== src/Tests/Entering.antt =====
-- The theorems on roles at concrete paths and roles.
use text.Mathlib.Text.{starts_with}
use legal_ai_copilot.Prelude.{String, ◌≡◌, ◌⊎◌, refl, str_eq}
use legal_ai_copilot.Models.{UserRole}
use legal_ai_copilot.Access.{endpoint_permissions, required_in, get_required_role, first_role}
use legal_ai_copilot.Access.Levels.{NoEntry, FirstEntry, required_in-entry}

abbrev approving : String
approving = "/agent/approve/7"

required_in-entry_example :
    let equal = λ (key : String). str_eq approving key in
    let under = λ (key : String). starts_with approving key in
    let role = required_in endpoint_permissions approving in
    FirstEntry equal endpoint_permissions role
    ⊎ ((NoEntry equal endpoint_permissions × FirstEntry under endpoint_permissions role)
        ⊎ (NoEntry equal endpoint_permissions
            × NoEntry under endpoint_permissions
            × (role ≡ UserRole.member)))
required_in-entry_example = required_in-entry endpoint_permissions approving

-- the settings of a workspace are open to members: the entry has a literal "{id}"
settings_of_workspace : get_required_role "/workspaces/7/settings" ≡ UserRole.member
unfolding get_required_role required_in first_role
settings_of_workspace = refl
