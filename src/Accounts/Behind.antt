-- ===== src/Accounts/Behind.antt =====
-- What stands behind a login, an admin's check or an API key keeps the unique constraints.
use legal_ai_copilot.Prelude.{
  String, Option, ◌≡◌, inl, inr, ◌==◌, str_eq, arith, Option-cases, Bool-cases, refl, sym, subst,
}
use legal_ai_copilot.Models.{UserRole}
use legal_ai_copilot.Http.{Reply-cases}
use legal_ai_copilot.Accounts.Rows.{Accounts, Crypto, Fresh}
use legal_ai_copilot.Accounts.Session.{Session, transaction, ◌>>=◌, ◌>>◌, pure}
use legal_ai_copilot.Accounts.Context.{
  AuthContext, Claims, SupabaseAuthContext, build_supabase_auth_context, switch_org, require_admin,
  get_admin_auth_context, get_auth_context, find_key, find_user,
}
use legal_ai_copilot.Accounts.Signup.{text_or}
use legal_ai_copilot.Accounts.Invites.{
  Environment, Mail, sent, already_registered, refused, invite_row, store_invite, send_invite,
  find_invite,
}
use legal_ai_copilot.Accounts.Joins.{keep_personal, join_by_token, accept_invite_by_token}
use legal_ai_copilot.Accounts.Unique.{
  IsUnique, invites-IsUnique, tables-IsUnique, user-IsUnique, invite-IsUnique,
}
use legal_ai_copilot.Accounts.Requests.{as_admin}
use legal_ai_copilot.Accounts.Guarded.{
  bind-IsUnique, transaction-IsUnique, build-IsUnique, switch_org-IsUnique,
}

get_auth_context-same :
    (c : Crypto) (key : String) (d : Accounts) → (get_auth_context c key d).1 ≡ d
unfolding get_auth_context
get_auth_context-same c key d = elim (Option-cases (find_key (c.hash_api_key key) d)) [
  | inl lost ↦ ground arith
  | inr (k, found) ↦ elim (Option-cases (find_user k.user_id d)) [
    | inl lost ↦ ground arith
    | inr (u, user) ↦ ground arith
  ]
]

get_admin_auth_context-same :
    (c : Crypto) (key : String) (d : Accounts) → (get_admin_auth_context c key d).1 ≡ d
unfolding get_admin_auth_context require_admin
get_admin_auth_context-same c key d = elim (Reply-cases (get_auth_context c key d).0) [
  | inl (ctx, done) ↦ ground (arith, get_auth_context-same c key d)
  | inr (code, failed) ↦ ground (arith, get_auth_context-same c key d)
]

module _ (c : Crypto) (f : Fresh) where
  join_by_token-IsUnique :
      (ctx : SupabaseAuthContext) (token : String) (d : Accounts)
      → IsUnique d
      → IsUnique (join_by_token c f ctx token d).1
  unfolding join_by_token
  join_by_token-IsUnique ctx token d unique = elim (Option-cases (find_invite c token f.now d)) [
    | inl lost ↦ tables-IsUnique d unique _ (ground arith) (ground arith) (ground arith)
    | inr (i, found) ↦
        let after = join_by_token c f ctx token d in
        let u =
          user-IsUnique d unique (λ x. x.id == ctx.user.id) (keep_personal i.org_id) (λ x. refl)
            (λ x. refl) in
        let m = invite-IsUnique _ u (λ x. x.id == i.id) in
        elim (Bool-cases (str_eq (c.lower i.email) (c.lower (text_or ctx.claims.email "")))) [
          | inr other ↦
              tables-IsUnique d unique after.1 (ground arith) (ground arith) (ground arith)
          | inl own ↦ tables-IsUnique _ m after.1 (ground arith) (ground arith) (ground arith)
        ]
  ]

  -- an endpoint behind a login: what follows keeps the constraints from the tables that the login
  -- leaves
  pub behind-IsUnique :
      {A : Type 0} (claims : Claims) (k : SupabaseAuthContext → Session A) (d : Accounts)
      → IsUnique d
      → ((ctx : SupabaseAuthContext) (e : Accounts) → IsUnique e → IsUnique (k ctx e).1)
      → IsUnique ((build_supabase_auth_context c f claims >>= k) d).1
  behind-IsUnique claims k d unique follows =
      let built = build-IsUnique c f claims d unique in
      bind-IsUnique (build_supabase_auth_context c f claims) d k built (λ ctx. follows ctx _ built)

  switched-IsUnique :
      {A : Type 0} (x_active_org : Option String) (ctx : SupabaseAuthContext)
      (k : SupabaseAuthContext → Session A) (d : Accounts)
      → IsUnique d
      → ((s : SupabaseAuthContext) (e : Accounts) → IsUnique e → IsUnique (k s e).1)
      → IsUnique (transaction (switch_org x_active_org ctx >>= k) d).1
  switched-IsUnique x_active_org ctx k d unique follows =
      let switched = switch_org-IsUnique c f x_active_org ctx d unique in
      transaction-IsUnique (switch_org x_active_org ctx >>= k) d unique
        (bind-IsUnique (switch_org x_active_org ctx) d k switched (λ s. follows s _ switched))

  pub accept_invite_by_token-IsUnique :
      (claims : Claims) (x_active_org : Option String) (token : String) (d : Accounts)
      → IsUnique d
      → IsUnique (accept_invite_by_token c f claims x_active_org token d).1
  unfolding accept_invite_by_token
  accept_invite_by_token-IsUnique claims x_active_org token d unique =
      behind-IsUnique claims
        (λ ctx. transaction (switch_org x_active_org ctx >>= λ s. join_by_token c f s token)) d
        unique
        (λ ctx e u.
          switched-IsUnique x_active_org ctx (λ s. join_by_token c f s token) e u
            (λ s e' u'. join_by_token-IsUnique s token e' u'))

  pub as_admin-IsUnique :
      {A : Type 0} (x_active_org : Option String) (ctx : SupabaseAuthContext)
      (body : SupabaseAuthContext → Session A) (d : Accounts)
      → IsUnique d
      → ((s : SupabaseAuthContext) (e : Accounts) → IsUnique e → IsUnique (body s e).1)
      → IsUnique (as_admin x_active_org ctx body d).1
  unfolding require_admin
  as_admin-IsUnique x_active_org ctx body d unique follows =
      switched-IsUnique x_active_org ctx (λ s. require_admin s.user.id s.org_id >> body s) d unique
        (λ s e u.
          bind-IsUnique (require_admin s.user.id s.org_id) e (λ _. body s) u (λ _. follows s e u))

  pub by_key-IsUnique :
      {A : Type 0} (key : String) (k : AuthContext → Session A) (d : Accounts)
      → IsUnique d
      → ((ctx : AuthContext) → IsUnique (k ctx d).1)
      → IsUnique ((get_admin_auth_context c key >>= k) d).1
  by_key-IsUnique key k d unique follows =
      let e = get_admin_auth_context-same c key d in
      bind-IsUnique (get_admin_auth_context c key) d k (subst IsUnique (sym e) unique)
        (λ ctx. subst (λ t. IsUnique (k ctx t).1) (sym e) (follows ctx))

  pub store_invite-IsUnique :
      (env : Environment) (ctx : SupabaseAuthContext) (email : String) (d : Accounts)
      → IsUnique d
      → IsUnique (store_invite c env f ctx email d).1
  unfolding store_invite
  store_invite-IsUnique env ctx email d unique =
      let after = store_invite c env f ctx email d in
      elim (Reply-cases after.0) [
        | inr (code, failed) ↦
            tables-IsUnique d unique after.1 (ground arith) (ground arith) (ground arith)
        | inl (u, done) ↦
            let row = invite_row f email ctx.org_id UserRole.member (c.sha256 f.token) in
            let k = invites-IsUnique d unique row (ground arith) in
            tables-IsUnique _ k after.1 (ground arith) (ground arith) (ground arith)
      ]

  pub send_invite-same :
      (env : Environment) (mail : Mail) (d : Accounts) → (send_invite env mail f d).1 ≡ d
  unfolding send_invite
  send_invite-same env sent d = ground arith
  send_invite-same env already_registered d = ground arith
  send_invite-same env refused d = ground arith

pub done-IsUnique :
    {A : Type 0} (m : Session A) (d : Accounts) → IsUnique (m d).1 → IsUnique ((m >> pure tt) d).1
done-IsUnique m d unique = bind-IsUnique m d (λ _. pure tt) unique (λ _. unique)
