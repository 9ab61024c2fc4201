-- ===== src/Accounts/Tokens.antt =====
-- app/dependencies.py: `_refresh_supabase_jwks_if_needed`, `_verify_supabase_token` and
-- `get_supabase_claims`. The library jose and the key server are parameters.
use legal_ai_copilot.Prelude.{
  ℕ, String, Bool, true, false, Option, none, some, List, [], ◌-◌, str_eq, leb,
}
use legal_ai_copilot.Prelude.Table.{select_one}
use legal_ai_copilot.Http.{Reply, ok, http}
use legal_ai_copilot.Accounts.Rows.{Crypto, truthy}
use legal_ai_copilot.Accounts.Context.{Claims}
use legal_ai_copilot.Accounts.Resolve.{bearer}

pub record Header : Type 0 where
  pub kid : Option String
  pub alg : Option String

-- a key of the key server
pub record Jwk : Type 0 where
  pub kid : String
  pub material : String

-- what checking a signature gives: true, false or a JWTError, or another exception
pub data Checked : Type 0 where
  good bad broken : Checked

pub record Jose : Type 0 where
  -- `jwt.get_unverified_header`
  pub get_unverified_header : String → Option Header
  -- `jwk.construct`
  pub construct : Jwk → Option String
  -- `public_key.verify` of the parts of the token
  pub verify : String → String → Checked
  -- `jwt.decode` by a key and an algorithm, with audience, issuer and expiry
  pub decode : String → String → String → Option Claims

pub record Cache : Type 0 where
  pub jwks : Option (List Jwk)
  pub fetched_at : ℕ

-- the clock before and after the fetch, and what the key server answers
pub record Fetch : Type 0 where
  pub url : Bool
  pub now : ℕ
  pub answer : Option (List Jwk)
  pub done_at : ℕ

abbrev pub jwks_ttl_seconds : ℕ
jwks_ttl_seconds = 86400

abbrev pub is_fresh : ℕ → Cache → Bool
is_fresh now cache = elim cache.jwks [
  | none ↦ false
  | some keys ↦ leb (now - cache.fetched_at) jwks_ttl_seconds
]

abbrev pub fetch_jwks : Fetch → Cache → Reply Unit × Cache
fetch_jwks x cache = elim x.url [
  | false ↦ (http 500, cache)
  | true ↦ elim x.answer [
    | none ↦ (http 503, cache)
    | some keys ↦ (ok tt, record { jwks = some keys; fetched_at = x.done_at })
  ]
]

unfoldable pub refresh_jwks : Fetch → Cache → Reply Unit × Cache
refresh_jwks x cache = elim (is_fresh x.now cache) [
  | true ↦ (ok tt, cache)
  | false ↦ fetch_jwks x cache
]

abbrev pub keys_of : Cache → List Jwk
keys_of cache = elim cache.jwks [ none ↦ [] | some keys ↦ keys ]

abbrev pub or_http : {A : Type 0} → Option A → ℕ → Reply A
or_http none code = http code
or_http (some a) code = ok a

infixl 5 ◌>>=◌
abbrev pub ◌>>=◌ : {A B : Type 0} → Reply A → (A → Reply B) → Reply B
ok a >>= f = f a
http code >>= f = http code

abbrev pub signature : Checked → Reply Unit
signature good = ok tt
signature bad = http 401
signature broken = http 500

-- the checks after the refresh, by the keys of the cache
unfoldable pub check_token : Jose → List Jwk → String → String → String → Reply Claims
check_token j keys kid alg token = do
  key_data ← or_http (select_one (λ k. str_eq k.kid kid) keys) 401
  public_key ← or_http (j.construct key_data) 500
  valid ← signature (j.verify public_key token)
  or_http (j.decode token public_key alg) 401

-- the key id and the algorithm that the token itself names
unfoldable pub header_of : Jose → String → Reply (String × String)
header_of j token = do
  header ← or_http (j.get_unverified_header token) 401
  kid ← or_http (truthy header.kid) 401
  alg ← or_http (truthy header.alg) 401
  ok (kid, alg)

abbrev pub after_refresh :
    Jose → String → String → String → Reply Unit × Cache → Reply Claims × Cache
after_refresh j kid alg token (http code, cache) = (http code, cache)
after_refresh j kid alg token (ok done, cache) =
    (check_token j (keys_of cache) kid alg token, cache)

abbrev pub after_header :
    Jose → Fetch → String → Cache → Reply (String × String) → Reply Claims × Cache
after_header j x token cache (http code) = (http code, cache)
after_header j x token cache (ok (kid, alg)) = after_refresh j kid alg token (refresh_jwks x cache)

unfoldable pub verify_supabase_token : Jose → Fetch → String → Cache → Reply Claims × Cache
unfolding refresh_jwks check_token header_of
verify_supabase_token j x token cache = elim x.url [
  | false ↦ (http 500, cache)
  | true ↦ after_header j x token cache (header_of j token)
]

unfoldable pub get_supabase_claims :
    Crypto → Jose → Fetch → Option String → Cache → Reply Claims × Cache
unfolding verify_supabase_token
get_supabase_claims c j x authorization cache = elim x.url [
  | false ↦ (http 500, cache)
  | true ↦ elim (bearer c authorization) [
    | none ↦ (http 401, cache)
    | some token ↦ verify_supabase_token j x token cache
  ]
]
