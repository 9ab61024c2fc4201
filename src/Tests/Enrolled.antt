-- ===== src/Tests/Enrolled.antt =====
-- Two users of one organisation, their API keys, an open invite, and functions in place of the
-- hashes.
use Prim.Native.String.{◌++◌}
use legal_ai_copilot.Prelude.{
  ℕ, String, true, false, Option, none, some, List, [], ◌∷◌, ◌≢◌, str_eq, eq_iff, arith,
}
use legal_ai_copilot.Models.{UserRole}
use legal_ai_copilot.Accounts.Rows.{User, ApiKey, Invite, Accounts, Crypto, Fresh}
use legal_ai_copilot.Accounts.Unique.{IsUnique}
use legal_ai_copilot.Tests.Fixtures.{IsKey-one, IsKey-two}

abbrev first_invite : List Invite → Option Invite
first_invite [] = none
first_invite (i ∷ rest) = some i

abbrev pub crypto : Crypto
crypto = record {
  hash_api_key = λ key. "#" ++ key;
  sha256 = λ text. "#" ++ text;
  verify_password = λ password hash. str_eq password hash;
  lower = λ text. text;
  trim = λ text. text;
  utf8_length = λ text. 8;
  newest_invite = first_invite;
}

abbrev pub fresh : Fresh
fresh = record {
  user_id = 9;
  org_id = 9;
  key_id = 9;
  invite_id = 9;
  workspace_id = 9;
  token = "zzzz";
  hashed_password = "salted";
  now = 1000;
}

abbrev pub user : ℕ → String → Option String → UserRole → User
user id email sub role = record {
  id = id;
  email = email;
  supabase_user_id = sub;
  hashed_password = "secret";
  org_id = 1;
  role = role;
  personal_org_id = some 1;
  full_name = none;
}

abbrev pub ada : User
ada = user 1 "ada@x.org" (some "s1") UserRole.admin

abbrev pub bob : User
bob = user 2 "bob@x.org" none UserRole.member

abbrev pub key : ℕ → String → ℕ → ApiKey
key id text user_id = record {
  id = id;
  prefix = text;
  key_hash = "#" ++ text;
  user_id = user_id;
  org_id = 1;
  is_active = true;
}

abbrev pub invite : Invite
invite = record {
  id = 1;
  email = "cy@x.org";
  org_id = 1;
  role = UserRole.partner;
  token = "#tok";
  expires_at = 5000;
  is_accepted = false;
  created_at = 10;
}

abbrev pub accounts : Accounts
accounts = record {
  organizations = record { id = 1; slug = "acme"; name = some "Acme" } ∷ [];
  users = ada ∷ bob ∷ [];
  memberships =
      record { user_id = 1; org_id = 1; role = UserRole.admin }
      ∷ record { user_id = 2; org_id = 1; role = UserRole.member }
      ∷ [];
  api_keys = key 1 "sk_live_aaaa" 1 ∷ key 2 "sk_live_bbbb" 2 ∷ [];
  invites = invite ∷ [];
  workspaces = [];
}

emails-differ : ◌≢◌ {A = String} "ada@x.org" "bob@x.org"
emails-differ = ground (arith, eq_iff "ada@x.org" "bob@x.org")

hashes-differ : ◌≢◌ {A = String} "#sk_live_aaaa" "#sk_live_bbbb"
hashes-differ = ground (arith, eq_iff "#sk_live_aaaa" "#sk_live_bbbb")

one-ne-two : ◌≢◌ {A = ℕ} 1 2
one-ne-two e = omega arith

pub accounts-IsUnique : IsUnique accounts
accounts-IsUnique = record {
  user_ids = IsKey-two (λ (u : User). u.id) ada bob one-ne-two;
  user_emails = IsKey-two (λ (u : User). u.email) ada bob emails-differ;
  key_ids = IsKey-two (λ (k : ApiKey). k.id) _ _ one-ne-two;
  key_hashes = IsKey-two (λ (k : ApiKey). k.key_hash) _ _ hashes-differ;
  invite_ids = IsKey-one (λ (i : Invite). i.id) invite;
  invite_tokens = IsKey-one (λ (i : Invite). i.token) invite;
}
