-- ===== src/Accounts/Presenting.antt =====
-- The life of an API key: it is issued, presented and revoked.
use text.Mathlib.TextPositions.{eq_refl}
use legal_ai_copilot.Prelude.{
  ℕ, String, true, false, none, some, List, [], ◌∷◌, ◌≡◌, inl, inr, str_eq, ◌&&◌, ◌==◌, arith,
  Among, Option-cases, Bool-cases, eq_of_test, refl, if◌then◌else◌, eq_iff, subst, sym, ap, ◌∙◌,
  test_of_eq,
}
use legal_ai_copilot.Prelude.Table.{
  select, select_one, update_where, Among-select_one, Among-select, Among-select-hit,
  select_one-update_where-none, select_one-update_where-other, select_one-IsKey, IsKey,
}
use legal_ai_copilot.Http.{ok, http}
use legal_ai_copilot.Accounts.Rows.{User, ApiKey, Accounts, Crypto, Fresh, key_row}
use legal_ai_copilot.Accounts.Context.{
  AuthContext, get_auth_context, has_key, find_key, find_email, find_user,
}
use legal_ai_copilot.Accounts.Resolving.{get_auth_context_key}
use legal_ai_copilot.Accounts.Signup.{LoginRequest, Issued, issue_key, login}
use legal_ai_copilot.Accounts.Keys.{has_prefix, revoke_key}

-- The user that a login finds, the key that it stores.
login-finds :
    (c : Crypto) (f : Fresh) (p : LoginRequest) (d : Accounts) {r : Issued} {d' : Accounts}
    → login c f p d ≡ (ok r, d')
    → (u : User) × (find_email p.email d ≡ some u)
      × (c.verify_password p.password u.hashed_password ≡ true)
      × (issue_key c f u.id u.org_id d ≡ (ok r, d'))
unfolding login
login-finds c f p d {r} {d'} e = elim (Option-cases (find_email p.email d)) [
  | inl lost ↦ absurd (ground arith)
  | inr (u, found) ↦ (u, found, ground arith, ground arith)
]

-- A key that has just been issued is accepted.
pub issue_key-accepted :
    (c : Crypto) (f : Fresh) (user_id org_id : ℕ) (d : Accounts) (u : User) {r : Issued}
    {d' : Accounts}
    → find_user user_id d ≡ some u
    → issue_key c f user_id org_id d ≡ (ok r, d')
    → get_auth_context c r.api_key d'
      ≡ (ok (record { org_id = org_id; user = u; api_key = key_row c f user_id org_id }), d')
unfolding issue_key get_auth_context select_one
issue_key-accepted c f user_id org_id d u {r} {d'} known e =
    ground (arith, eq_refl (key_row c f user_id org_id).key_hash)

-- Where users have different ids: a login that succeeds is by the password of the account of that
-- email, and the key that it returns is accepted right after it as that account, in the organisation
-- that the login named.
pub login-get_auth_context :
    (c : Crypto) (f : Fresh) (p : LoginRequest) (d : Accounts) {r : Issued} {d' : Accounts}
    → IsKey (λ x. x.id) d.users
    → login c f p d ≡ (ok r, d')
    → (ctx : AuthContext) × (get_auth_context c r.api_key d' ≡ (ok ctx, d'))
      × (find_email p.email d ≡ some ctx.user)
      × (c.verify_password p.password ctx.user.hashed_password ≡ true)
      × (ctx.org_id ≡ r.org_id)
unfolding issue_key
login-get_auth_context c f p d {r} {d'} unique e =
    let (u, found, proved, issued) = login-finds c f p d {r = r} {d' = d'} e in
    let (among, same) = Among-select_one (λ x. str_eq x.email p.email) d.users u found in
    let known : find_user u.id d ≡ some u = select_one-IsKey (λ x. x.id) d.users u unique among in
    (
      record { org_id = u.org_id; user = u; api_key = key_row c f u.id u.org_id },
      issue_key-accepted c f u.id u.org_id d u {r = r} {d' = d'} known issued,
      found,
      proved,
      ground arith,
    )

-- what a revocation that succeeds does: one key of the organisation has the prefix
revoke_key-finds :
    (ctx : AuthContext) (prefix : String) (d : Accounts) {d' : Accounts}
    → revoke_key ctx prefix d ≡ (ok tt, d')
    → (k : ApiKey) × (select (has_prefix prefix ctx.org_id) d.api_keys ≡ k ∷ [])
      × (d'.api_keys
          ≡ update_where (λ x. x.id == k.id) (λ x. record x { is_active = false }) d.api_keys)
      × (d'.users ≡ d.users)
unfolding revoke_key
revoke_key-finds ctx prefix d {d'} e = cases (select (has_prefix prefix ctx.org_id) d.api_keys) refl
  where
    cases :
        (rows : List ApiKey)
        → select (has_prefix prefix ctx.org_id) d.api_keys ≡ rows
        → (k : ApiKey) × (select (has_prefix prefix ctx.org_id) d.api_keys ≡ k ∷ [])
          × (d'.api_keys
              ≡ update_where (λ x. x.id == k.id) (λ x. record x { is_active = false }) d.api_keys)
          × (d'.users ≡ d.users)
    cases [] found = absurd (ground arith)
    cases (k ∷ []) found = (k, found, ground arith, ground arith)
    cases (k ∷ l ∷ rest) found = absurd (ground arith)

has_key-deactivated :
    (hash : String) (k : ApiKey) → has_key hash (record k { is_active = false }) ≡ false
has_key-deactivated hash k = ground arith

module _ (c : Crypto) (ctx : AuthContext) (prefix : String) (d : Accounts) {d' : Accounts}
    (own_ids : IsKey (λ k. k.id) d.api_keys) (own_hashes : IsKey (λ k. k.key_hash) d.api_keys)
    (revoked : revoke_key ctx prefix d ≡ (ok tt, d')) where
  same_key :
      (hash : String) (k : ApiKey)
      → find_key hash d ≡ some k
      → (x : ApiKey) → Among x d.api_keys
      → has_key hash x ≡ true
      → x ≡ k
  same_key hash k found x m has =
      let (among, also) = Among-select_one (has_key hash) d.api_keys k found in
      own_hashes x k m among (ground (arith, eq_iff x.key_hash hash, eq_iff k.key_hash hash))

  find_key-revoked :
      (hash : String) (k : ApiKey)
      → find_key hash d ≡ some k
      → find_key hash d' ≡ (if has_prefix prefix ctx.org_id k then none else some k)
  find_key-revoked hash k found =
      let (gone, only, keys, users) = revoke_key-finds ctx prefix d {d' = d'} revoked in
      let (among, has) = Among-select_one (has_key hash) d.api_keys k found in
      let (there, prefixed) =
        Among-select (has_prefix prefix ctx.org_id) d.api_keys gone
          (subst (λ rows. Among gone rows) (sym only) (inl refl)) in
      let out = λ (x : ApiKey) (t : (x.id == gone.id) ≡ true). has_key-deactivated hash x in
      elim (Bool-cases (has_prefix prefix ctx.org_id k)) [
        | inl hit ↦
            let same = only_one hit only in
            rw (keys, hit)
              (select_one-update_where-none (has_key hash) (λ x. x.id == gone.id) _ d.api_keys
                (λ x m t.
                  test_of_eq x.id gone.id
                    (ap (λ (y : ApiKey). y.id) (same_key hash k found x m t ∙ same)))
                out)
        | inr miss ↦
            rw (keys, miss)
              (select_one-update_where-other (has_key hash) (λ x. x.id == gone.id) _ d.api_keys
                  (λ x m t.
                    not_key x (own_ids x gone m there (eq_of_test x.id gone.id t)) m prefixed miss)
                  out
                ∙ found)
      ]
    where
      only_one :
          {gone : ApiKey}
          → has_prefix prefix ctx.org_id k ≡ true
          → select (has_prefix prefix ctx.org_id) d.api_keys ≡ gone ∷ []
          → k ≡ gone
      only_one hit only =
          elim (subst (λ rows. Among k rows) only
            (Among-select-hit (has_prefix prefix ctx.org_id) d.api_keys k
              (Among-select_one (has_key hash) d.api_keys k found).0 hit)) [
                | inl same ↦ same
                | inr m ↦ absurd m
              ]

      not_key :
          {gone : ApiKey} (x : ApiKey)
          → x ≡ gone
          → Among x d.api_keys
          → has_prefix prefix ctx.org_id gone ≡ true
          → has_prefix prefix ctx.org_id k ≡ false
          → has_key hash x ≡ false
      not_key {gone} x e m prefixed miss = elim (Bool-cases (has_key hash x)) [
        | inr out ↦ out
        | inl has ↦ absurd (
            ground
              (arith, ap (has_prefix prefix ctx.org_id) (sym (same_key hash k found x m has) ∙ e)))
      ]

  -- Where API keys have different ids and hashes: after the keys of a prefix in an organisation are
  -- revoked, an API key that was accepted before is refused with 401 if it has the prefix and is
  -- of the organisation, and is accepted as before if not.
  pub revoke_key-get_auth_context :
      (key : String) (a : AuthContext)
      → get_auth_context c key d ≡ (ok a, d)
      → (get_auth_context c key d').0 ≡ (
          if str_eq a.api_key.prefix prefix && a.api_key.org_id == ctx.org_id
          then http 401
          else ok a)
  revoke_key-get_auth_context key a accepted =
      let (found, user, scoped, same) = get_auth_context_key c key d {ctx = a} {d' = d} accepted in
      let (gone, only, keys, users) = revoke_key-finds ctx prefix d {d' = d'} revoked in
      let now = find_key-revoked (c.hash_api_key key) a.api_key found in
      unfold get_auth_context in ground arith
