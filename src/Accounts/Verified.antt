-- ===== src/Accounts/Verified.antt =====
-- What stands behind the claims of a token that is accepted.
use legal_ai_copilot.Prelude.{
  ℕ, String, Option, none, some, List, ◌≡◌, inl, inr, str_eq, arith, Among, Option-cases,
  Bool-cases, eq_iff, ap, ◌∙◌, sym, subst, ◌-◌, ◌≤◌,
}
use legal_ai_copilot.Prelude.Table.{select_one, Among-select_one}
use legal_ai_copilot.Http.{ok, Reply-cases}
use legal_ai_copilot.Accounts.Rows.{truthy}
use legal_ai_copilot.Accounts.Context.{Claims}
use legal_ai_copilot.Accounts.Tokens.{
  Header, Jwk, good, Jose, Cache, Fetch, jwks_ttl_seconds, refresh_jwks, check_token, header_of,
  verify_supabase_token,
}

-- The keys were fetched a day ago at most; one of them has the key id that the token names, verifies
-- the token's signature, and decodes the token, by the algorithm that the token names, to the claims.
pub data IsVerified (j : Jose) (now : ℕ) (token : String) (claims : Claims) (cache : Cache)
    : Type 0 where
  verified :
      (keys : List Jwk) (key : Jwk) (header : Header) (public_key alg : String)
      → cache.jwks ≡ some keys
      → now - cache.fetched_at ≤ jwks_ttl_seconds
      → Among key keys
      → j.get_unverified_header token ≡ some header
      → header.kid ≡ some key.kid
      → header.alg ≡ some alg
      → j.construct key ≡ some public_key
      → j.verify public_key token ≡ good
      → j.decode token public_key alg ≡ some claims
      → IsVerified j now token claims cache

truthy-some : (o : Option String) {s : String} → truthy o ≡ some s → o ≡ some s
truthy-some none e = absurd (cc)
truthy-some (some String.[]) e = absurd (cc)
truthy-some (some (String.◌∷◌ c s)) e = e

refresh_jwks-fresh :
    (x : Fetch) (cache : Cache) {after : Cache}
    → x.now ≤ x.done_at
    → refresh_jwks x cache ≡ (ok tt, after)
    → (keys : List Jwk) × (after.jwks ≡ some keys) × (x.now - after.fetched_at ≤ jwks_ttl_seconds)
unfolding refresh_jwks
refresh_jwks-fresh x cache {after} forward e = elim (Option-cases after.jwks) [
  | inl lost ↦ absurd (ground arith)
  | inr (keys, held) ↦ (keys, held, ground arith)
]

header_of-names :
    (j : Jose) (token : String) {kid alg : String}
    → header_of j token ≡ ok (kid, alg)
    → (header : Header) × (j.get_unverified_header token ≡ some header)
      × (header.kid ≡ some kid)
      × (header.alg ≡ some alg)
unfolding header_of
header_of-names j token {kid} {alg} e = elim (Option-cases (j.get_unverified_header token)) [
  | inl lost ↦ absurd (ground arith)
  | inr (header, read) ↦ elim (Option-cases (truthy header.kid)) [
    | inl lost ↦ absurd (ground arith)
    | inr (k, has_kid) ↦ elim (Option-cases (truthy header.alg)) [
      | inl lost ↦ absurd (ground arith)
      | inr (a, has_alg) ↦
          let same : (k ≡ kid) × (a ≡ alg) = (ground arith, ground arith) in
          (
            header,
            read,
            truthy-some header.kid (has_kid ∙ ap some same.0),
            truthy-some header.alg (has_alg ∙ ap some same.1),
          )
    ]
  ]
]

check_token-shows :
    (j : Jose) (keys : List Jwk) (kid alg token : String) {claims : Claims}
    → check_token j keys kid alg token ≡ ok claims
    → (key : Jwk) × (public_key : String) × Among key keys
      × (key.kid ≡ kid)
      × (j.construct key ≡ some public_key)
      × (j.verify public_key token ≡ good)
      × (j.decode token public_key alg ≡ some claims)
unfolding check_token
check_token-shows j keys kid alg token {claims} e =
    elim (Option-cases (select_one (λ k. str_eq k.kid kid) keys)) [
      | inl lost ↦ absurd (ground arith)
      | inr (key, found) ↦ elim (Option-cases (j.construct key)) [
        | inl lost ↦ absurd (ground arith)
        | inr (public_key, built) ↦
            let (among, test) = Among-select_one (λ (k : Jwk). str_eq k.kid kid) keys key found in
            (
              key,
              public_key,
              among,
              ground (arith, eq_iff key.kid kid),
              built,
              ground arith,
              ground arith,
            )
      ]
    ]

-- Where the clock does not go back: whenever claims are returned, the cached keys were fetched 86,400
-- seconds ago at most, one of them has the key id that the token's header names, the token's
-- signature is good by it, and it decodes the token to these claims by the header's algorithm.
pub verify_supabase_token-IsVerified :
    (j : Jose) (x : Fetch) (token : String) (cache : Cache) {claims : Claims} {after : Cache}
    → x.now ≤ x.done_at
    → verify_supabase_token j x token cache ≡ (ok claims, after)
    → IsVerified j x.now token claims after
unfolding verify_supabase_token
verify_supabase_token-IsVerified j x token cache {claims} {after} forward e =
    elim (Bool-cases x.url) [
      | inr missing ↦ absurd (ground arith)
      | inl set ↦ elim (Reply-cases (header_of j token)) [
        | inr (code, refused) ↦ absurd (ground arith)
        | inl (named, read) ↦
            let refreshed = refresh_jwks x cache in
            elim (Reply-cases refreshed.0) [
              | inr (code, failed) ↦ absurd (ground arith)
              | inl (done, fetched) ↦
                  let (header, unverified, kid, alg) =
                    header_of-names j token {kid = named.0} {alg = named.1} (ground arith) in
                  let (keys, held, age) =
                    refresh_jwks-fresh x cache {after = refreshed.1} forward (ground arith) in
                  let checked : check_token j keys named.0 named.1 token ≡ ok claims =
                    ground arith in
                  let (key, public_key, among, same, built, signed, decoded) =
                    check_token-shows j keys named.0 named.1 token checked in
                  let kept : refreshed.1 ≡ after = ground arith in
                  subst (IsVerified j x.now token claims) kept (
                    verified keys key header public_key named.1 held age among unverified
                      (kid ∙ ap some (sym same)) alg built signed decoded)
            ]
      ]
    ]
