-- ===== src/Accounts/Guarded.antt =====
-- What a login, a switch of organisation, a revocation and a removal do to the unique constraints.
use legal_ai_copilot.Prelude.{
  ℕ, String, Option, none, some, List, [], ◌∷◌, ◌≡◌, inl, inr, ◌==◌, arith, Option-cases, refl, sym,
  subst,
}
use legal_ai_copilot.Prelude.Table.{select}
use legal_ai_copilot.Http.{Reply, http, Reply-cases}
use legal_ai_copilot.Accounts.Rows.{User, Membership, ApiKey, Accounts, Crypto, Fresh, truthy}
use legal_ai_copilot.Accounts.Session.{Session, transaction, ◌>>=◌}
use legal_ai_copilot.Accounts.Context.{
  AuthContext, Claims, SupabaseAuthContext, link_account, auto_accept, first_login,
  build_supabase_auth_context, find_sub, find_email, find_membership, is_invite_for, adopt,
  switch_org, requested,
}
use legal_ai_copilot.Accounts.Keys.{revoke_key, remove_member, has_prefix}
use legal_ai_copilot.Accounts.Unique.{IsUnique, tables-IsUnique, user-IsUnique, key-IsUnique}
use legal_ai_copilot.Accounts.Kept.{auto_accept-IsUnique}

module _ {A : Type 0} (m : Session A) (d : Accounts) where
  pub bind-IsUnique :
      {B : Type 0} (k : A → Session B)
      → IsUnique (m d).1
      → ((a : A) → IsUnique (k a (m d).1).1)
      → IsUnique ((m >>= k) d).1
  bind-IsUnique {B} k first then = elim (Reply-cases (m d).0) [
    | inl (a, done) ↦
        let e : (m >>= k) d ≡ k a (m d).1 = ground arith in
        subst (λ (r : Reply B × Accounts). IsUnique r.1) (sym e) (then a)
    | inr (code, failed) ↦
        let e : (m >>= k) d ≡ (http code, (m d).1) = ground arith in
        subst (λ (r : Reply B × Accounts). IsUnique r.1) (sym e) first
  ]

  pub transaction-IsUnique : IsUnique d → IsUnique (m d).1 → IsUnique (transaction m d).1
  transaction-IsUnique before after = elim (Reply-cases (m d).0) [
    | inl (a, done) ↦
        let e : (transaction m d).1 ≡ (m d).1 = ground arith in subst IsUnique (sym e) after
    | inr (code, failed) ↦
        let e : (transaction m d).1 ≡ d = ground arith in subst IsUnique (sym e) before
  ]

module _ (c : Crypto) (f : Fresh) where
  link_account-IsUnique :
      (claims : Claims) (sub : String) (u : User) (d : Accounts)
      → IsUnique d
      → IsUnique (link_account claims sub u d).1
  unfolding link_account
  link_account-IsUnique claims sub u d unique =
      user-IsUnique d unique (λ x. x.id == u.id) _ (λ x. refl) (λ x. refl)

  first_login-IsUnique :
      (claims : Claims) (sub email : String) (d : Accounts)
      → IsUnique d
      → IsUnique (first_login c f claims sub email d).1
  unfolding first_login
  first_login-IsUnique claims sub email d unique =
      elim (Option-cases (c.newest_invite (select (is_invite_for email f.now) d.invites))) [
        | inl lost ↦
            let e : (first_login c f claims sub email d).1 ≡ d = ground arith in
            subst IsUnique (sym e) unique
        | inr (i, found) ↦
            let e : (first_login c f claims sub email d).1
                ≡ (auto_accept f claims sub email i d).1 =
              ground arith in
            subst IsUnique (sym e) (auto_accept-IsUnique c f d unique claims sub email i)
      ]

  pub build-IsUnique :
      (claims : Claims) (d : Accounts)
      → IsUnique d
      → IsUnique (build_supabase_auth_context c f claims d).1
  unfolding build_supabase_auth_context
  build-IsUnique claims d unique =
      let same =
        λ (e : (build_supabase_auth_context c f claims d).1 ≡ d). subst IsUnique (sym e) unique in
      elim (Option-cases (truthy claims.sub)) [
        | inl lost ↦ same (ground arith)
        | inr (sub, has_sub) ↦ elim (Option-cases (truthy claims.email)) [
          | inl lost ↦ same (ground arith)
          | inr (email, has_email) ↦ elim (Option-cases (find_sub sub d)) [
            | inr (u, known) ↦ same (ground arith)
            | inl unknown ↦ elim (Option-cases (find_email email d)) [
              | inr (u, found) ↦
                  let e : (build_supabase_auth_context c f claims d).1
                      ≡ (link_account claims sub u d).1 =
                    ground arith in
                  subst IsUnique (sym e) (link_account-IsUnique claims sub u d unique)
              | inl new ↦
                  let e : (build_supabase_auth_context c f claims d).1
                      ≡ (first_login c f claims sub email d).1 =
                    ground arith in
                  subst IsUnique (sym e) (first_login-IsUnique claims sub email d unique)
            ]
          ]
        ]
      ]

  adopt-IsUnique :
      (org_id : ℕ) (ctx : SupabaseAuthContext) (m : Option Membership) (d : Accounts)
      → IsUnique d
      → IsUnique (adopt org_id ctx m d).1
  adopt-IsUnique org_id ctx none d unique = unique
  adopt-IsUnique org_id ctx (some m) d unique =
      user-IsUnique d unique (λ u. u.id == ctx.user.id) _ (λ u. refl) (λ u. refl)

  pub switch_org-IsUnique :
      (x_active_org : Option String) (ctx : SupabaseAuthContext) (d : Accounts)
      → IsUnique d
      → IsUnique (switch_org x_active_org ctx d).1
  unfolding switch_org
  switch_org-IsUnique x_active_org ctx d unique =
      elim (Option-cases (requested (truthy x_active_org) ctx.user.id d)) [
        | inr (m, found) ↦
            let e : (switch_org x_active_org ctx d).1 ≡ (adopt m.org_id ctx (some m) d).1 =
              ground arith in
            subst IsUnique (sym e) (adopt-IsUnique m.org_id ctx (some m) d unique)
        | inl lost ↦
            let own = find_membership ctx.user.id ctx.org_id d in
            let e : (switch_org x_active_org ctx d).1 ≡ (adopt ctx.org_id ctx own d).1 =
              ground arith in
            subst IsUnique (sym e) (adopt-IsUnique ctx.org_id ctx own d unique)
      ]

  pub revoke_key-IsUnique :
      (ctx : AuthContext) (prefix : String) (d : Accounts)
      → IsUnique d
      → IsUnique (revoke_key ctx prefix d).1
  unfolding revoke_key
  revoke_key-IsUnique ctx prefix d unique =
      rows (select (has_prefix prefix ctx.org_id) d.api_keys) refl
    where
      rows :
          (found : List ApiKey)
          → select (has_prefix prefix ctx.org_id) d.api_keys ≡ found
          → IsUnique (revoke_key ctx prefix d).1
      rows [] e = tables-IsUnique d unique _ (ground arith) (ground arith) (ground arith)
      rows (k ∷ []) e =
          tables-IsUnique _ (key-IsUnique d unique (λ x. x.id == k.id)) _ (ground arith)
            (ground arith) (ground arith)
      rows (k ∷ l ∷ rest) e =
          tables-IsUnique d unique _ (ground arith) (ground arith) (ground arith)

  pub remove_member-IsUnique :
      (ctx : SupabaseAuthContext) (target : ℕ) (d : Accounts)
      → IsUnique d
      → IsUnique (remove_member ctx target d).1
  unfolding remove_member
  remove_member-IsUnique ctx target d unique =
      tables-IsUnique d unique _ (ground arith) (ground arith) (ground arith)
