-- ===== src/Accounts/Kept.antt =====
-- Every statement that an endpoint ends in keeps the unique constraints.
use legal_ai_copilot.Prelude.{ℕ, String, Option, none, inl, inr, ◌==◌, arith, Option-cases}
use legal_ai_copilot.Models.{UserRole}
use legal_ai_copilot.Http.{Reply-cases}
use legal_ai_copilot.Accounts.Rows.{Invite, Accounts, Crypto, Fresh, key_row}
use legal_ai_copilot.Accounts.Context.{AuthContext, Claims, invited_user, auto_accept}
use legal_ai_copilot.Accounts.Signup.{
  SignupRequest, LoginRequest, SetupOrgRequest, issue_key, signed_up, signup, login, user_with_org,
  setup_org,
}
use legal_ai_copilot.Accounts.Invites.{
  Environment, invite_row, invite_user, generate_invite, find_invite,
}
use legal_ai_copilot.Accounts.Joins.{
  AcceptInviteRequest, joined_user, find_sent, accept_invite, consume_invite,
}
use legal_ai_copilot.Accounts.Unique.{
  IsUnique, users-IsUnique, api_keys-IsUnique, invites-IsUnique, tables-IsUnique, invite-IsUnique,
}

module _ (c : Crypto) (f : Fresh) (d : Accounts) (unique : IsUnique d) where
  pub signup-IsUnique : (p : SignupRequest) → IsUnique (signup c f p d).1
  unfolding signup issue_key
  signup-IsUnique p = elim (Reply-cases (signup c f p d).0) [
    | inr (code, refused) ↦
        tables-IsUnique d unique (signup c f p d).1 (ground arith) (ground arith) (ground arith)
    | inl (r, done) ↦
        let u = users-IsUnique d unique (signed_up f p) (ground arith) in
        let k = api_keys-IsUnique _ u (key_row c f f.user_id f.org_id) (ground arith) in
        tables-IsUnique _ k (signup c f p d).1 (ground arith) (ground arith) (ground arith)
  ]

  pub login-IsUnique : (p : LoginRequest) → IsUnique (login c f p d).1
  unfolding login issue_key
  login-IsUnique p = elim (Reply-cases (login c f p d).0) [
    | inr (code, refused) ↦
        tables-IsUnique d unique (login c f p d).1 (ground arith) (ground arith) (ground arith)
    | inl (r, done) ↦ elim (Option-cases (user_with_org p.email d)) [
      | inl lost ↦ absurd (ground arith)
      | inr (u, found) ↦
          let k = api_keys-IsUnique d unique (key_row c f u.id u.org_id) (ground arith) in
          tables-IsUnique _ k (login c f p d).1 (ground arith) (ground arith) (ground arith)
    ]
  ]

  pub setup_org-IsUnique :
      (claims : Claims) (p : SetupOrgRequest) → IsUnique (setup_org c f claims p d).1
  unfolding setup_org
  setup_org-IsUnique claims p = elim (Reply-cases (setup_org c f claims p d).0) [
    | inr (code, refused) ↦
        tables-IsUnique d unique (setup_org c f claims p d).1 (ground arith) (ground arith)
          (ground arith)
    | inl (u, done) ↦
        let k = users-IsUnique d unique u (ground arith) in
        tables-IsUnique _ k (setup_org c f claims p d).1 (ground arith) (ground arith)
          (ground arith)
  ]

  pub invite_user-IsUnique :
      (ctx : AuthContext) (email : String) → IsUnique (invite_user f ctx email d).1
  unfolding invite_user
  invite_user-IsUnique ctx email = elim (Reply-cases (invite_user f ctx email d).0) [
    | inr (code, refused) ↦
        tables-IsUnique d unique (invite_user f ctx email d).1 (ground arith) (ground arith)
          (ground arith)
    | inl (token, done) ↦
        let row = invite_row f email ctx.org_id UserRole.member f.token in
        let k = invites-IsUnique d unique row (ground arith) in
        tables-IsUnique _ k (invite_user f ctx email d).1 (ground arith) (ground arith)
          (ground arith)
  ]

  pub generate_invite-IsUnique :
      (ctx : AuthContext) (org_id : ℕ) (email : String) (role : UserRole)
      → IsUnique (generate_invite c f ctx org_id email role d).1
  unfolding generate_invite
  generate_invite-IsUnique ctx org_id email role =
      let after = generate_invite c f ctx org_id email role d in
      elim (Reply-cases after.0) [
        | inr (code, refused) ↦
            tables-IsUnique d unique after.1 (ground arith) (ground arith) (ground arith)
        | inl (token, done) ↦
            let row = invite_row f email ctx.org_id role (c.sha256 f.token) in
            let k = invites-IsUnique d unique row (ground arith) in
            tables-IsUnique _ k after.1 (ground arith) (ground arith) (ground arith)
      ]

  pub accept_invite-IsUnique : (p : AcceptInviteRequest) → IsUnique (accept_invite c f p d).1
  unfolding accept_invite issue_key
  accept_invite-IsUnique p = elim (Reply-cases (accept_invite c f p d).0) [
    | inr (code, refused) ↦
        tables-IsUnique d unique (accept_invite c f p d).1 (ground arith) (ground arith)
          (ground arith)
    | inl (r, done) ↦ elim (Option-cases (find_sent c p.token p.email f.now d)) [
      | inl lost ↦ absurd (ground arith)
      | inr (i, found) ↦
          let row = joined_user f p.email none none UserRole.member i.org_id in
          let u = users-IsUnique d unique row (ground arith) in
          let m = invite-IsUnique _ u (λ x. x.id == i.id) in
          let k = api_keys-IsUnique _ m (key_row c f f.user_id i.org_id) (ground arith) in
          tables-IsUnique _ k (accept_invite c f p d).1 (ground arith) (ground arith) (ground arith)
    ]
  ]

  pub consume_invite-IsUnique :
      (env : Environment) (answer : Option String) (token full_name : String)
      → IsUnique (consume_invite c env answer f token full_name d).1
  unfolding consume_invite
  consume_invite-IsUnique env answer token full_name =
      let after = consume_invite c env answer f token full_name d in
      elim (Reply-cases after.0) [
        | inr (code, refused) ↦
            tables-IsUnique d unique after.1 (ground arith) (ground arith) (ground arith)
        | inl (row, done) ↦ elim (Option-cases (find_invite c token f.now d)) [
          | inl lost ↦ absurd (ground arith)
          | inr (i, found) ↦
              let u = users-IsUnique d unique row (ground arith) in
              let m = invite-IsUnique _ u (λ x. x.id == i.id) in
              tables-IsUnique _ m after.1 (ground arith) (ground arith) (ground arith)
        ]
      ]

  pub auto_accept-IsUnique :
      (claims : Claims) (sub email : String) (i : Invite)
      → IsUnique (auto_accept f claims sub email i d).1
  unfolding auto_accept
  auto_accept-IsUnique claims sub email i =
      let after = auto_accept f claims sub email i d in
      elim (Reply-cases after.0) [
        | inr (code, refused) ↦
            tables-IsUnique d unique after.1 (ground arith) (ground arith) (ground arith)
        | inl (ctx, done) ↦
            let u = users-IsUnique d unique (invited_user f sub email i) (ground arith) in
            let m = invite-IsUnique _ u (λ x. x.id == i.id) in
            tables-IsUnique _ m after.1 (ground arith) (ground arith) (ground arith)
      ]
