-- ===== src/Accounts/Resolve.antt =====
-- app/dependencies.py: `get_org_id_unified`, the organisation that a request acts for. What verifies a
-- bearer token is an argument: a function from the token's text to claims or a status code.
use text.Mathlib.Text.{starts_with}
use legal_ai_copilot.Prelude.{ℕ, String, true, false, Option, none, some, List, [], ◌∷◌, ◌==◌}
use legal_ai_copilot.Prelude.Table.{select}
use legal_ai_copilot.Http.{Reply}
use legal_ai_copilot.Accounts.Rows.{Membership, Crypto, Fresh, slice_from, truthy}
use legal_ai_copilot.Accounts.Session.{
  Session, ◌>>=◌, ◌>>◌, pure, raise, gets, or_raise, raise_unless,
}
use legal_ai_copilot.Accounts.Context.{
  Claims, get_auth_context, build_supabase_auth_context, find_org, find_membership,
}

-- the headers Authorization, X-API-Key and X-Active-Org
pub record Headers : Type 0 where
  pub authorization : Option String
  pub x_api_key : Option String
  pub x_active_org : Option String

-- the text after "Bearer ", stripped
abbrev pub bearer : Crypto → Option String → Option String
bearer c none = none
bearer c (some header) = elim (starts_with header "Bearer ") [
  | true ↦ some (c.trim (slice_from 7 header))
  | false ↦ none
]

abbrev pub lift : {A : Type 0} → Reply A → Session A
lift r d = (r, d)

-- the organisation that the header names, where the user is a member of it
unfoldable pub named_org : ℕ → String → Session ℕ
named_org user_id slug = do
  row ← gets (find_org slug)
  org ← or_raise row 404
  membership ← gets (find_membership user_id org.id)
  m ← or_raise membership 403
  pure org.id

-- without the header: the only membership, or else the personal organisation
abbrev pub default_org : Option ℕ → List Membership → Session ℕ
default_org personal_org_id [] = raise 403
default_org personal_org_id (m ∷ []) = pure m.org_id
default_org personal_org_id (m ∷ n ∷ rest) = or_raise personal_org_id 400

unfoldable pub resolve_for_user : Option String → ℕ → Option ℕ → Session ℕ
unfolding named_org
resolve_for_user x_active_org user_id personal_org_id = elim (truthy x_active_org) [
  | some slug ↦ named_org user_id slug
  | none ↦ do
    rows ← gets (λ d. select (λ m. m.user_id == user_id) d.memberships)
    default_org personal_org_id rows
]

-- an API key belongs to one organisation, which the header may only repeat
unfoldable pub key_org : Option String → ℕ → Session ℕ
key_org x_active_org org_id = elim (truthy x_active_org) [
  | none ↦ pure org_id
  | some slug ↦ do
    row ← gets (find_org slug)
    org ← or_raise row 404
    raise_unless (org.id == org_id) 403
    pure org.id
]

unfoldable pub bearer_org :
    Crypto → Fresh → (String → Reply Claims) → Option String → String → Session ℕ
unfolding build_supabase_auth_context resolve_for_user
bearer_org c f verify x_active_org token = do
  claims ← lift (verify token)
  ctx ← build_supabase_auth_context c f claims
  resolve_for_user x_active_org ctx.user.id ctx.user.personal_org_id

unfoldable pub api_key_org : Crypto → Option String → String → Session ℕ
unfolding get_auth_context key_org
api_key_org c x_active_org x_api_key = do
  ctx ← get_auth_context c x_api_key
  key_org x_active_org ctx.org_id

unfoldable pub get_org_id_unified : Crypto → Fresh → (String → Reply Claims) → Headers → Session ℕ
unfolding bearer_org api_key_org
get_org_id_unified c f verify h = elim (bearer c h.authorization) [
  | some token ↦ bearer_org c f verify h.x_active_org token
  | none ↦ elim (truthy h.x_api_key) [
    | some key ↦ api_key_org c h.x_active_org key
    | none ↦ raise 401
  ]
]
