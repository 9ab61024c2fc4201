-- ===== src/Accounts/Resolving.antt =====
-- What stands behind the organisation that `get_org_id_unified` returns.
use legal_ai_copilot.Prelude.{
  ℕ, String, true, Option, none, some, List, [], ◌∷◌, ◌≡◌, inl, inr, str_eq, ◌==◌, arith, subst,
  Among, Option-cases, ◌<◌, length, refl, eq_iff,
}
use legal_ai_copilot.Prelude.Table.{select, Among-select, Among-select_one}
use legal_ai_copilot.Http.{Reply, ok, Reply-cases}
use legal_ai_copilot.Accounts.Rows.{
  Organization, Membership, ApiKey, Accounts, Crypto, Fresh, truthy,
}
use legal_ai_copilot.Accounts.Context.{
  AuthContext, Claims, SupabaseAuthContext, build_supabase_auth_context, get_auth_context, has_key,
  is_member, find_org, find_membership, find_key, find_user,
}
use legal_ai_copilot.Accounts.Resolve.{
  Headers, bearer, named_org, default_org, resolve_for_user, key_org, bearer_org, api_key_org,
  get_org_id_unified,
}

-- The user has a membership in the organisation, or it is the user's personal organisation, the
-- header is absent and the user has two memberships or more.
pub data IsOwn (x_active_org : Option String) (user_id : ℕ) (personal_org_id : Option ℕ)
    (d : Accounts) (org : ℕ) : Type 0 where
  joined :
      (m : Membership)
      → Among m d.memberships
      → m.user_id ≡ user_id
      → m.org_id ≡ org
      → IsOwn x_active_org user_id personal_org_id d org
  personal :
      truthy x_active_org ≡ none
      → personal_org_id ≡ some org
      → 1 < length (select (λ m. m.user_id == user_id) d.memberships)
      → IsOwn x_active_org user_id personal_org_id d org

-- The header is absent, or it is the slug of the organisation.
pub data IsNamed (x_active_org : Option String) (d : Accounts) (org : ℕ) : Type 0 where
  absent : truthy x_active_org ≡ none → IsNamed x_active_org d org
  present :
      (o : Organization)
      → truthy x_active_org ≡ some o.slug
      → Among o d.organizations
      → o.id ≡ org
      → IsNamed x_active_org d org

find_org-IsNamed :
    (x_active_org : Option String) (slug : String) (d : Accounts) (o : Organization)
    → truthy x_active_org ≡ some slug
    → find_org slug d ≡ some o
    → IsNamed x_active_org d o.id
find_org-IsNamed x_active_org slug d o given found =
    let (among, test) = Among-select_one (λ o. str_eq o.slug slug) d.organizations o found in
    present o (ground (arith, eq_iff o.slug slug)) among refl

module _ {x_active_org : Option String} (user_id : ℕ) (personal_org_id : Option ℕ)
    (d : Accounts) where
  member-IsOwn :
      (org : ℕ) (m : Membership)
      → find_membership user_id org d ≡ some m
      → IsOwn x_active_org user_id personal_org_id d org
  member-IsOwn org m found =
      let (among, test) = Among-select_one (is_member user_id org) d.memberships m found in
      joined m among (ground arith) (ground arith)

  named_org-IsOwn :
      (slug : String) {org : ℕ} {d' : Accounts}
      → truthy x_active_org ≡ some slug
      → named_org user_id slug d ≡ (ok org, d')
      → IsOwn x_active_org user_id personal_org_id d org × IsNamed x_active_org d org × (d' ≡ d)
  unfolding named_org
  named_org-IsOwn slug {org} {d'} given h = elim (Option-cases (find_org slug d)) [
    | inl lost ↦ absurd (ground arith)
    | inr (o, found) ↦ elim (Option-cases (find_membership user_id o.id d)) [
      | inl lost ↦ absurd (ground arith)
      | inr (m, member) ↦
          let e : o.id ≡ org = ground arith in
          let named = find_org-IsNamed x_active_org slug d o given found in
          (rw (← e) (member-IsOwn o.id m member), rw (← e) named, ground arith)
    ]
  ]

  default_org-IsOwn :
      (rows : List Membership) {org : ℕ} {d' : Accounts}
      → truthy x_active_org ≡ none
      → rows ≡ select (λ m. m.user_id == user_id) d.memberships
      → default_org personal_org_id rows d ≡ (ok org, d')
      → IsOwn x_active_org user_id personal_org_id d org × (d' ≡ d)
  default_org-IsOwn [] none_given e h = absurd (ground arith)
  default_org-IsOwn (m ∷ []) none_given e h =
      let (among, test) =
        Among-select (λ m. m.user_id == user_id) d.memberships m
          (subst (λ rows. Among m rows) e (inl refl)) in
      (joined m among (ground arith) (ground arith), ground arith)
  default_org-IsOwn (m ∷ n ∷ rest) none_given e h = elim (Option-cases personal_org_id) [
    | inl lost ↦ absurd (ground arith)
    | inr (p, given) ↦ (
      personal none_given (ground arith) (subst (λ rows. 1 < length rows) e (omega arith)),
      ground arith,
    )
  ]

  resolve_for_user-IsOwn :
      {org : ℕ} {d' : Accounts}
      → resolve_for_user x_active_org user_id personal_org_id d ≡ (ok org, d')
      → IsOwn x_active_org user_id personal_org_id d org × IsNamed x_active_org d org × (d' ≡ d)
  unfolding resolve_for_user
  resolve_for_user-IsOwn {org} {d'} h = elim (Option-cases (truthy x_active_org)) [
    | inl none_given ↦
        let (own, same) = default_org-IsOwn _ none_given refl (ground arith) in
        (own, absent none_given, same)
    | inr (slug, given) ↦ named_org-IsOwn slug given (ground arith)
  ]

-- The request brings a token that is verified, for an account that has the organisation; or it
-- brings no token and the text of an active API key of the organisation, and nothing is written.
pub data Stands (c : Crypto) (f : Fresh) (verify : String → Reply Claims) (h : Headers)
    (d d' : Accounts) (org : ℕ) : Type 0 where
  by_token :
      (token : String) (claims : Claims) (ctx : SupabaseAuthContext)
      → bearer c h.authorization ≡ some token
      → verify token ≡ ok claims
      → build_supabase_auth_context c f claims d ≡ (ok ctx, d')
      → IsOwn h.x_active_org ctx.user.id ctx.user.personal_org_id d' org
      → IsNamed h.x_active_org d' org
      → Stands c f verify h d d' org
  by_key :
      (key : String) (k : ApiKey)
      → bearer c h.authorization ≡ none
      → truthy h.x_api_key ≡ some key
      → Among k d.api_keys
      → k.is_active ≡ true
      → k.key_hash ≡ c.hash_api_key key
      → k.org_id ≡ org
      → IsNamed h.x_active_org d org
      → d' ≡ d
      → Stands c f verify h d d' org

key_org-IsNamed :
    (x_active_org : Option String) (org_id : ℕ) (d : Accounts) {org : ℕ} {d' : Accounts}
    → key_org x_active_org org_id d ≡ (ok org, d')
    → (org ≡ org_id) × IsNamed x_active_org d org × (d' ≡ d)
unfolding key_org
key_org-IsNamed x_active_org org_id d {org} {d'} h = elim (Option-cases (truthy x_active_org)) [
  | inl none_given ↦ (ground arith, absent none_given, ground arith)
  | inr (slug, given) ↦ elim (Option-cases (find_org slug d)) [
    | inl lost ↦ absurd (ground arith)
    | inr (o, found) ↦
        let e : o.id ≡ org = ground arith in
        (ground arith, rw (← e) (find_org-IsNamed x_active_org slug d o given found), ground arith)
  ]
]

-- what an API key that is accepted shows
pub get_auth_context_key :
    (c : Crypto) (key : String) (d : Accounts) {ctx : AuthContext} {d' : Accounts}
    → get_auth_context c key d ≡ (ok ctx, d')
    → (find_key (c.hash_api_key key) d ≡ some ctx.api_key)
      × (find_user ctx.api_key.user_id d ≡ some ctx.user)
      × (ctx.org_id ≡ ctx.api_key.org_id)
      × (d' ≡ d)
unfolding get_auth_context
get_auth_context_key c key d {ctx} {d'} h = elim (Option-cases (find_key (c.hash_api_key key) d)) [
  | inl lost ↦ absurd (ground arith)
  | inr (k, found) ↦ elim (Option-cases (find_user k.user_id d)) [
    | inl lost ↦ absurd (ground arith)
    | inr (u, user) ↦ (ground arith, ground arith, ground arith, ground arith)
  ]
]

module _ (c : Crypto) (f : Fresh) (verify : String → Reply Claims) (h : Headers)
    (d : Accounts) where
  bearer_org-Stands :
      (token : String) {org : ℕ} {d' : Accounts}
      → bearer c h.authorization ≡ some token
      → bearer_org c f verify h.x_active_org token d ≡ (ok org, d')
      → Stands c f verify h d d' org
  unfolding bearer_org
  bearer_org-Stands token {org} {d'} given e = elim (Reply-cases (verify token)) [
    | inr (code, refused) ↦ absurd (ground arith)
    | inl (claims, verified) ↦
        let built = build_supabase_auth_context c f claims d in
        elim (Reply-cases built.0) [
          | inr (code, refused) ↦ absurd (ground arith)
          | inl (ctx, done) ↦
              let (own, named, same) =
                resolve_for_user-IsOwn ctx.user.id ctx.user.personal_org_id built.1 {org = org}
                  {d' = d'} (ground arith) in
              by_token token claims ctx given verified (ground arith) (rw same own) (rw same named)
        ]
  ]

  api_key_org-Stands :
      (key : String) {org : ℕ} {d' : Accounts}
      → bearer c h.authorization ≡ none
      → truthy h.x_api_key ≡ some key
      → api_key_org c h.x_active_org key d ≡ (ok org, d')
      → Stands c f verify h d d' org
  unfolding api_key_org
  api_key_org-Stands key {org} {d'} no_token given e =
      let got = get_auth_context c key d in
      elim (Reply-cases got.0) [
        | inr (code, refused) ↦ absurd (ground arith)
        | inl (ctx, done) ↦
            let (found, user, scoped, kept) =
              get_auth_context_key c key d {ctx = ctx} {d' = got.1} (ground arith) in
            let (among, test) =
              Among-select_one (has_key (c.hash_api_key key)) d.api_keys ctx.api_key found in
            let (same, named, written) =
              key_org-IsNamed h.x_active_org ctx.org_id got.1 {org = org} {d' = d'}
                (ground arith) in
            by_key key ctx.api_key no_token given among (ground arith)
              (ground (arith, eq_iff ctx.api_key.key_hash (c.hash_api_key key))) (cc)
              (subst (λ t. IsNamed h.x_active_org t org) kept named) (cc)
      ]

  -- Whenever an organisation is returned, either a bearer token was verified, its account was
  -- found or built, and the account has a membership in the organisation, or the organisation is its
  -- personal one, no X-Active-Org was given and it has several memberships; or no bearer token
  -- was given and the API key's hash is stored, active and of that organisation, and nothing was
  -- written. In both cases an X-Active-Org that is given is the slug of the organisation.
  pub get_org_id_unified-Stands :
      {org : ℕ} {d' : Accounts}
      → get_org_id_unified c f verify h d ≡ (ok org, d')
      → Stands c f verify h d d' org
  unfolding get_org_id_unified
  get_org_id_unified-Stands {org} {d'} e = elim (Option-cases (bearer c h.authorization)) [
    | inr (token, given) ↦ bearer_org-Stands token given (ground arith)
    | inl no_token ↦ elim (Option-cases (truthy h.x_api_key)) [
      | inr (key, given) ↦ api_key_org-Stands key no_token given (ground arith)
      | inl no_key ↦ absurd (ground arith)
    ]
  ]
