-- ===== src/Access/Levels.antt =====
-- Which role a path requires.
use text.Mathlib.Text.{starts_with}
use legal_ai_copilot.Prelude.{
  String, Bool, true, false, some, none, [], ◌∷◌, ◌++◌, ◌≡◌, ◌⊎◌, ap, refl, arith, All, inl, inr,
  Bool-cases, Option-cases, str_eq,
}
use legal_ai_copilot.Models.{UserRole}
use legal_ai_copilot.Access.Guard.{Permissions, first_role, required_in}

-- no entry's path passes the test
abbrev pub NoEntry : (String → Bool) → Permissions → Type 0
NoEntry p permissions = All (λ (e : String × UserRole). p e.0 ≡ false) permissions

-- the first entry whose path passes the test has the role
abbrev pub FirstEntry : (String → Bool) → Permissions → UserRole → Type 0
FirstEntry p permissions role =
    (key : String) × (before : Permissions) × (after : Permissions) × (permissions
      ≡ before ++ ((key, role) ∷ after))
    × (p key ≡ true)
    × NoEntry p before

first_role-FirstEntry :
    (p : String → Bool) (permissions : Permissions) (role : UserRole)
    → first_role p permissions ≡ some role
    → FirstEntry p permissions role
unfolding first_role
first_role-FirstEntry p [] role e = absurd (cc e)
first_role-FirstEntry p ((key, r) ∷ rest) role e = elim (Bool-cases (p key)) [
  | inl hit ↦
      let same : r ≡ role = ground arith in (key, [], rest, ap (λ t. (key, t) ∷ rest) same, hit, tt)
  | inr miss ↦
      let (found, before, after, split, hit, clear) =
        first_role-FirstEntry p rest role (ground arith) in
      (found, (key, r) ∷ before, after, ap (λ t. (key, r) ∷ t) split, hit, (miss, clear))
]

first_role-NoEntry :
    (p : String → Bool) (permissions : Permissions)
    → first_role p permissions ≡ none
    → NoEntry p permissions
unfolding first_role
first_role-NoEntry p [] e = tt
first_role-NoEntry p ((key, r) ∷ rest) e = elim (Bool-cases (p key)) [
  | inl hit ↦ absurd (ground arith)
  | inr miss ↦ (miss, first_role-NoEntry p rest (ground arith))
]

-- For any table of permissions, the role that a path requires is that of the first entry whose path
-- it equals; if it equals none, that of the first entry whose path it begins with; and MEMBER only
-- if it begins with none.
pub required_in-entry :
    (permissions : Permissions) (path : String)
    → let equal = λ (key : String). str_eq path key in
      let under = λ (key : String). starts_with path key in
      let role = required_in permissions path in
      FirstEntry equal permissions role
      ⊎ ((NoEntry equal permissions × FirstEntry under permissions role)
          ⊎ (NoEntry equal permissions × NoEntry under permissions × (role ≡ UserRole.member)))
unfolding required_in
required_in-entry permissions path =
    let equal = λ (key : String). str_eq path key in
    let under = λ (key : String). starts_with path key in
    elim (Option-cases (first_role equal permissions)) [
      | inr (role, found) ↦ rw found (inl (first_role-FirstEntry equal permissions role found))
      | inl not_equal ↦
          let no_equal = first_role-NoEntry equal permissions not_equal in
          elim (Option-cases (first_role under permissions)) [
            | inr (role, found) ↦
                rw (not_equal, found)
                  (inr (inl (no_equal, first_role-FirstEntry under permissions role found)))
            | inl no_prefix ↦
                rw (not_equal, no_prefix)
                  (inr (inr (no_equal, first_role-NoEntry under permissions no_prefix, refl)))
          ]
    ]
