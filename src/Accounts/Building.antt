-- ===== src/Accounts/Building.antt =====
-- Logging in twice: what `_build_supabase_auth_context` builds, it finds the next time.
use text.Mathlib.TextPositions.{eq_refl}
use legal_ai_copilot.Prelude.{
  String, none, some, ◌≡◌, inl, inr, str_eq, ◌==◌, arith, Option-cases, eq_of_test, eq_self,
}
use legal_ai_copilot.Prelude.Table.{
  select, select_one, Among-select_one, select_one-update_where-hit, IsKey,
}
use legal_ai_copilot.Http.{ok}
use legal_ai_copilot.Accounts.Rows.{User, Invite, Accounts, Crypto, Fresh, truthy, is_text}
use legal_ai_copilot.Accounts.Context.{
  Claims, SupabaseAuthContext, context_of, link_account, auto_accept, first_login, find_sub,
  find_email, is_invite_for, invited_user, build_supabase_auth_context,
}

module _ (c : Crypto) (claims : Claims) (sub email : String)
    (has_sub : truthy claims.sub ≡ some sub) (has_email : truthy claims.email ≡ some email) where
  -- A subject that is known is found, and nothing is written.
  build-known :
      (f : Fresh) (d : Accounts) (u : User)
      → find_sub sub d ≡ some u
      → build_supabase_auth_context c f claims d ≡ (ok (context_of claims u), d)
  unfolding build_supabase_auth_context
  build-known f d u known = ground arith

  link-known :
      (d : Accounts) (u : User) {ctx : SupabaseAuthContext} {d' : Accounts}
      → IsKey (λ x. x.id) d.users
      → find_sub sub d ≡ none
      → find_email email d ≡ some u
      → link_account claims sub u d ≡ (ok ctx, d')
      → (x : User) × (find_sub sub d' ≡ some x) × (ctx ≡ context_of claims x)
  unfolding link_account
  link-known d u unique unknown found e =
      let (among, same) = Among-select_one (λ x. str_eq x.email email) d.users u found in
      let hit =
        select_one-update_where-hit (λ x. is_text x.supabase_user_id sub) (λ x. x.id == u.id)
          (λ x. record x { supabase_user_id = some sub }) d.users u among (eq_self u.id)
          (eq_refl sub) (λ x m t. unique x u m among (eq_of_test x.id u.id t)) unknown in
      (record u { supabase_user_id = some sub }, ground arith, ground arith)

  auto_accept-known :
      (f : Fresh) (i : Invite) (d : Accounts) {ctx : SupabaseAuthContext} {d' : Accounts}
      → auto_accept f claims sub email i d ≡ (ok ctx, d')
      → (find_sub sub d' ≡ some (invited_user f sub email i))
        × (ctx ≡ context_of claims (invited_user f sub email i))
  unfolding auto_accept select_one
  auto_accept-known f i d e = ground (arith, eq_refl sub)

  first_login-known :
      (f : Fresh) (d : Accounts) {ctx : SupabaseAuthContext} {d' : Accounts}
      → first_login c f claims sub email d ≡ (ok ctx, d')
      → (x : User) × (find_sub sub d' ≡ some x) × (ctx ≡ context_of claims x)
  unfolding first_login
  first_login-known f d {ctx} {d'} e =
      elim (Option-cases (c.newest_invite (select (is_invite_for email f.now) d.invites))) [
        | inl lost ↦ absurd (ground arith)
        | inr (i, found) ↦
            let (known, same) = auto_accept-known f i d {ctx = ctx} {d' = d'} (ground arith) in
            (invited_user f sub email i, known, same)
      ]

  build-finds :
      (f : Fresh) (d : Accounts) {ctx : SupabaseAuthContext} {d' : Accounts}
      → IsKey (λ x. x.id) d.users
      → build_supabase_auth_context c f claims d ≡ (ok ctx, d')
      → (x : User) × (find_sub sub d' ≡ some x) × (ctx ≡ context_of claims x)
  unfolding build_supabase_auth_context
  build-finds f d {ctx} {d'} unique e = elim (Option-cases (find_sub sub d)) [
    | inr (u, known) ↦ (u, ground arith, ground arith)
    | inl unknown ↦ elim (Option-cases (find_email email d)) [
      | inr (u, found) ↦ link-known d u {ctx = ctx} {d' = d'} unique unknown found (ground arith)
      | inl new ↦ first_login-known f d {ctx = ctx} {d' = d'} (ground arith)
    ]
  ]

build-claims :
    (c : Crypto) (f : Fresh) (claims : Claims) (d : Accounts) {ctx : SupabaseAuthContext}
    {d' : Accounts}
    → build_supabase_auth_context c f claims d ≡ (ok ctx, d')
    → (sub : String) × (email : String) × (truthy claims.sub ≡ some sub)
      × (truthy claims.email ≡ some email)
unfolding build_supabase_auth_context
build-claims c f claims d {ctx} {d'} e = elim (Option-cases (truthy claims.sub)) [
  | inl lost ↦ absurd (ground arith)
  | inr (sub, has_sub) ↦ elim (Option-cases (truthy claims.email)) [
    | inl lost ↦ absurd (ground arith)
    | inr (email, has_email) ↦ (sub, email, has_sub, has_email)
  ]
]

-- Where users have different ids: if a verified token's account is found, linked by its email or made
-- from an invite, then the same claims, at any later time and with any other random values, give
-- the same account and organisation, and write nothing.
pub build-again :
    (c : Crypto) (f later : Fresh) (claims : Claims) (d : Accounts) {ctx : SupabaseAuthContext}
    {d' : Accounts}
    → IsKey (λ x. x.id) d.users
    → build_supabase_auth_context c f claims d ≡ (ok ctx, d')
    → build_supabase_auth_context c later claims d' ≡ (ok ctx, d')
build-again c f later claims d {ctx} {d'} unique e =
    let (sub, email, has_sub, has_email) = build-claims c f claims d {ctx = ctx} {d' = d'} e in
    let (u, known, same) =
      build-finds c claims sub email has_sub has_email f d {ctx = ctx} {d' = d'} unique e in
    rw same (build-known c claims sub email has_sub has_email later d' u known)
