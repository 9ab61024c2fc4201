-- ===== src/Models/Roles.antt =====
-- app/models.py: `UserRole.hierarchy` and `UserRole.meets_threshold`.
use legal_ai_copilot.Prelude.{ℕ, Bool, leb}
use legal_ai_copilot.Models.Enums.{UserRole, system_admin, partner, associate, admin, member}

unfoldable pub hierarchy : UserRole → ℕ
hierarchy system_admin = 100
hierarchy partner = 80
hierarchy admin = 70
hierarchy associate = 50
hierarchy member = 30

unfoldable pub meets_threshold : UserRole → UserRole → Bool
unfolding hierarchy
meets_threshold role required = leb (hierarchy required) (hierarchy role)
