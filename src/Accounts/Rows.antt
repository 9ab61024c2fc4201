-- ===== src/Accounts/Rows.antt =====
-- app/models.py: the rows of `organizations`, `users`, `user_org_memberships`, `api_keys`,
-- `organization_invites` and `workspaces`, with their unique constraints.
use Prim.Native.String.{◌++◌}
use legal_ai_copilot.Prelude.{
  ℕ, String, Bool, true, false, Option, none, some, List, ◌&&◌, ◌||◌, str_eq, ◌==◌,
}
use legal_ai_copilot.Models.{UserRole}
unfoldable pub use legal_ai_copilot.Prelude.Text.{slice, slice_from, truthy}

pub record Organization : Type 0 where
  pub id : ℕ
  pub slug : String
  pub name : Option String

pub record User : Type 0 where
  pub id : ℕ
  pub email : String
  pub supabase_user_id : Option String
  pub hashed_password : String
  pub org_id : ℕ
  pub role : UserRole
  pub personal_org_id : Option ℕ
  pub full_name : Option String

pub record Membership : Type 0 where
  pub user_id : ℕ
  pub org_id : ℕ
  pub role : UserRole

pub record ApiKey : Type 0 where
  pub id : ℕ
  pub prefix : String
  pub key_hash : String
  pub user_id : ℕ
  pub org_id : ℕ
  pub is_active : Bool

pub record Invite : Type 0 where
  pub id : ℕ
  pub email : String
  pub org_id : ℕ
  pub role : UserRole
  pub token : String
  pub expires_at : ℕ
  pub is_accepted : Bool
  pub created_at : ℕ

-- a row of `workspaces`, as setup creates it
pub record DefaultWorkspace : Type 0 where
  pub id : ℕ
  pub org_id : ℕ
  pub name : String
  pub description : String

pub record Accounts : Type 0 where
  pub organizations : List Organization
  pub users : List User
  pub memberships : List Membership
  pub api_keys : List ApiKey
  pub invites : List Invite
  pub workspaces : List DefaultWorkspace

-- a text that may be NULL equals a given text
abbrev pub is_text : Option String → String → Bool
is_text none t = false
is_text (some s) t = str_eq s t

-- two rows of `supabase_user_id` collide: NULL never does
abbrev pub same_text : Option String → Option String → Bool
same_text none b = false
same_text (some s) b = is_text b s

-- the unique constraints
abbrev pub organization_clash : Organization → Organization → Bool
organization_clash a b = a.id == b.id || str_eq b.slug a.slug

abbrev pub user_clash : User → User → Bool
user_clash a b =
    a.id == b.id || str_eq b.email a.email || same_text b.supabase_user_id a.supabase_user_id

abbrev pub membership_clash : Membership → Membership → Bool
membership_clash a b = b.user_id == a.user_id && b.org_id == a.org_id

abbrev pub key_clash : ApiKey → ApiKey → Bool
key_clash a b = a.id == b.id || str_eq b.key_hash a.key_hash

abbrev pub invite_clash : Invite → Invite → Bool
invite_clash a b = a.id == b.id || str_eq b.token a.token

abbrev pub workspace_clash : DefaultWorkspace → DefaultWorkspace → Bool
workspace_clash a b = a.id == b.id

-- What the code takes from elsewhere: hashes, `str.lower` and `str.strip`, the length of a text in
-- UTF-8, and the row that ORDER BY created_at DESC LIMIT 1 picks.
pub record Crypto : Type 0 where
  pub hash_api_key : String → String
  pub sha256 : String → String
  pub verify_password : String → String → Bool
  pub lower : String → String
  pub trim : String → String
  pub utf8_length : String → ℕ
  pub newest_invite : List Invite → Option Invite

-- the random values that a request draws, and the clock
pub record Fresh : Type 0 where
  pub user_id : ℕ
  pub org_id : ℕ
  pub key_id : ℕ
  pub invite_id : ℕ
  pub workspace_id : ℕ
  -- `secrets.token_urlsafe(32)`
  pub token : String
  -- `pwd_context.hash(…)`, which is salted
  pub hashed_password : String
  pub now : ℕ

-- `generate_api_key`: the raw key, its prefix and its hash
abbrev pub raw_key : Fresh → String
raw_key f = "sk_live_" ++ f.token

abbrev pub key_row : Crypto → Fresh → ℕ → ℕ → ApiKey
key_row c f user_id org_id = record {
  id = f.key_id;
  prefix = slice 12 (raw_key f);
  key_hash = c.hash_api_key (raw_key f);
  user_id = user_id;
  org_id = org_id;
  is_active = true;
}
