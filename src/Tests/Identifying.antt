-- ===== src/Tests/Identifying.antt =====
-- The theorems on accounts, at concrete requests.
use legal_ai_copilot.Prelude.{String, true, false, none, some, [], ◌∷◌, ◌≡◌, ◌≢◌, refl, arith}
use legal_ai_copilot.Models.{UserRole}
use legal_ai_copilot.Http.{Reply, ok, http}
use legal_ai_copilot.Accounts.Rows.{Accounts}
use legal_ai_copilot.Accounts.Context.{
  Claims, AuthContext, SupabaseAuthContext, build_supabase_auth_context, get_auth_context,
  find_email, find_membership,
}
use legal_ai_copilot.Accounts.Resolve.{Headers, get_org_id_unified}
use legal_ai_copilot.Accounts.Resolving.{Stands, get_org_id_unified-Stands}
use legal_ai_copilot.Accounts.Building.{build-again}
use legal_ai_copilot.Prelude.Table.{select, select_one, exists_where, update_where}
use legal_ai_copilot.Accounts.Rows.{slice}
use legal_ai_copilot.Accounts.Signup.{LoginRequest, Issued, login}
use legal_ai_copilot.Accounts.Invites.{
  Environment, invite_row, generate_invite, invite_info, verify_token,
}
use legal_ai_copilot.Accounts.Joins.{accept_invite}
use legal_ai_copilot.Accounts.Keys.{revoke_key, remove_member, without}
use legal_ai_copilot.Accounts.Accepting.{with_key, with_profile, accept}
use legal_ai_copilot.Accounts.Once.{retry, retries, accept-once}
use legal_ai_copilot.Accounts.Presenting.{login-get_auth_context, revoke_key-get_auth_context}
use legal_ai_copilot.Accounts.Cleanup.{cleanup_expired_invites}
use legal_ai_copilot.Accounts.Cleaning.{cleanup-invite_info}
use legal_ai_copilot.Accounts.Inviting.{generate_invite-invite_info, remove_member-get_auth_context}
use legal_ai_copilot.Accounts.Tokens.{Jose, good, Fetch, Cache, verify_supabase_token}
use legal_ai_copilot.Accounts.Verified.{IsVerified, verify_supabase_token-IsVerified}
use legal_ai_copilot.Tests.Enrolled.{crypto, fresh, ada, bob, key, accounts, accounts-IsUnique}

abbrev ada_claims : Claims
ada_claims = record { sub = some "s1"; email = some "ada@x.org" }

abbrev bob_claims : Claims
bob_claims = record { sub = some "s2"; email = some "bob@x.org" }

abbrev verify : String → Reply Claims
verify token = ok ada_claims

abbrev headers : Headers
headers = record { authorization = some "Bearer abc"; x_api_key = none; x_active_org = some "acme" }

get_org_id_unified-Stands_example : Stands crypto fresh verify headers accounts accounts 1
unfolding get_org_id_unified select_one
get_org_id_unified-Stands_example =
    get_org_id_unified-Stands crypto fresh verify headers accounts {org = 1} {d' = accounts} refl

abbrev linked : Accounts
linked = record accounts { users = ada ∷ record bob { supabase_user_id = some "s2" } ∷ [] }

abbrev bob_context : SupabaseAuthContext
bob_context = record {
  org_id = 1;
  user = record bob { supabase_user_id = some "s2" };
  claims = bob_claims;
}

-- the first login links the account, and the second finds it
build-again_example :
    build_supabase_auth_context crypto (record fresh { now = 2000 }) bob_claims linked
    ≡ (ok bob_context, linked)
unfolding build_supabase_auth_context select_one update_where
build-again_example =
    build-again crypto fresh (record fresh { now = 2000 }) bob_claims accounts {ctx = bob_context}
      {d' = linked} accounts-IsUnique.user_ids refl

abbrev login_request : LoginRequest
login_request = record { email = "bob@x.org"; password = "secret" }

abbrev issued : Issued
issued = record { api_key = "sk_live_zzzz"; prefix = "sk_live_zzzz"; org_id = 1 }

abbrev after_login : Accounts
after_login = record accounts { api_keys = key 9 "sk_live_zzzz" 2 ∷ accounts.api_keys }

login-get_auth_context_example :
    (ctx : AuthContext) × (get_auth_context crypto "sk_live_zzzz" after_login
      ≡ (ok ctx, after_login))
    × (find_email "bob@x.org" accounts ≡ some ctx.user)
    × (crypto.verify_password "secret" ctx.user.hashed_password ≡ true)
    × (ctx.org_id ≡ 1)
unfolding login select_one exists_where slice
login-get_auth_context_example =
    login-get_auth_context crypto fresh login_request accounts {r = issued} {d' = after_login}
      accounts-IsUnique.user_ids refl

abbrev ada_key : AuthContext
ada_key = record { org_id = 1; user = ada; api_key = key 1 "sk_live_aaaa" 1 }

abbrev bob_key : AuthContext
bob_key = record { org_id = 1; user = bob; api_key = key 2 "sk_live_bbbb" 2 }

abbrev after_revoke : Accounts
after_revoke = record accounts {
  api_keys = key 1 "sk_live_aaaa" 1 ∷ record (key 2 "sk_live_bbbb" 2) { is_active = false } ∷ [];
}

revoke_key-get_auth_context_example :
    (get_auth_context crypto "sk_live_bbbb" after_revoke).0 ≡ http 401
unfolding revoke_key get_auth_context select select_one update_where
revoke_key-get_auth_context_example =
    revoke_key-get_auth_context crypto ada_key "sk_live_bbbb" accounts {d' = after_revoke}
      accounts-IsUnique.key_ids accounts-IsUnique.key_hashes refl "sk_live_bbbb" bob_key refl

-- the invite of Cy, accepted with a new key, and then by a new profile
abbrev environment : Environment
environment = record { service_role_key = false; supabase_url = false }

accept-once_example :
    (accept crypto fresh (with_profile environment none "Cy") "tok" (
      retries crypto
        (retry fresh (with_key "bob@x.org") "tik" ∷ [])
        (accept crypto fresh (with_key "cy@x.org") "tok" accounts).1)).0
    ≢ ok tt
unfolding accept_invite select_one exists_where update_where
accept-once_example =
    accept-once crypto fresh fresh (with_key "cy@x.org") (with_profile environment none "Cy") "tok"
      (retry fresh (with_key "bob@x.org") "tik" ∷ []) accounts accounts-IsUnique.invite_tokens refl

abbrev after_invite : Accounts
after_invite = record accounts {
  invites = invite_row fresh "di@x.org" 1 UserRole.associate "#zzzz" ∷ accounts.invites;
}

generate_invite-invite_info_example : (invite_info crypto 700000 "zzzz" after_invite).0 ≡ http 400
unfolding generate_invite exists_where
generate_invite-invite_info_example =
    generate_invite-invite_info crypto fresh ada_key 1 "di@x.org" UserRole.associate 700000 accounts
      {token = "zzzz"} {d' = after_invite} refl

abbrev after_removal : Accounts
after_removal = record accounts {
  memberships = record { user_id = 1; org_id = 1; role = UserRole.admin } ∷ [];
}

abbrev ada_context : SupabaseAuthContext
ada_context = record { org_id = 1; user = ada; claims = ada_claims }

-- Bob is removed, and Bob's API key still opens the organisation
remove_member-get_auth_context_example :
    (find_membership 2 1 after_removal ≡ none)
    × (get_auth_context crypto "sk_live_bbbb" after_removal ≡ (ok bob_key, after_removal))
unfolding remove_member get_auth_context select select_one without
remove_member-get_auth_context_example =
    remove_member-get_auth_context crypto ada_context 2 2 1 "sk_live_bbbb" bob_key accounts
      {d' = after_removal} refl refl

abbrev jose : Jose
jose = record {
  get_unverified_header = λ token. some (record { kid = some "k1"; alg = some "ES256" });
  construct = λ k. some k.material;
  verify = λ public_key token. good;
  decode = λ token public_key alg. some ada_claims;
}

abbrev fetch : Fetch
fetch = record {
  url = true;
  now = 90000;
  answer = some (record { kid = "k1"; material = "pem" } ∷ []);
  done_at = 90001;
}

abbrev fetched : Cache
fetched = record { jwks = some (record { kid = "k1"; material = "pem" } ∷ []); fetched_at = 90001 }

verify_supabase_token-IsVerified_example : IsVerified jose 90000 "abc" ada_claims fetched
unfolding verify_supabase_token select_one
verify_supabase_token-IsVerified_example =
    verify_supabase_token-IsVerified jose fetch "abc" (record { jwks = none; fetched_at = 0 })
      {claims = ada_claims} {after = fetched} (omega arith) refl

-- The invite of the token "tok" runs out at 5000.
cleanup-invite_info_example :
    ((invite_info crypto 6001 "tok" (cleanup_expired_invites 6000 accounts).1).0
      ≡ (invite_info crypto 6001 "tok" accounts).0)
    × ((verify_token crypto 6001 "tok" (cleanup_expired_invites 6000 accounts).1).0
        ≡ (verify_token crypto 6001 "tok" accounts).0)
cleanup-invite_info_example = cleanup-invite_info crypto 6000 6001 (omega arith) "tok" accounts

cleanup_deletes : cleanup_expired_invites 6000 accounts ≡ (ok 1, record accounts { invites = [] })
unfolding cleanup_expired_invites select
cleanup_deletes = refl
