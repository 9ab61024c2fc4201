-- ===== src/Accounts/Uses.antt =====
-- What each way of accepting an invite does to the invites.
use legal_ai_copilot.Prelude.{
  ℕ, String, false, Option, none, some, ◌≡◌, ◌⊎◌, inl, inr, ◌==◌, arith, Among, Option-cases, refl,
  eq_iff, subst, sym,
}
use legal_ai_copilot.Prelude.Table.{update_where, Among-select_one}
use legal_ai_copilot.Http.{Reply, ok, http, Reply-cases}
use legal_ai_copilot.Accounts.Rows.{Invite, Membership, Accounts, Crypto, Fresh, truthy}
use legal_ai_copilot.Accounts.Session.{transaction, ◌>>=◌}
use legal_ai_copilot.Accounts.Context.{
  SupabaseAuthContext, accepted, find_membership, switch_org, requested, adopt, with_role,
  update_user,
}
use legal_ai_copilot.Accounts.Signup.{issue_key}
use legal_ai_copilot.Accounts.Invites.{Environment, has_token, find_invite}
use legal_ai_copilot.Accounts.Joins.{
  AcceptInviteRequest, join_by_token, find_sent, accept_invite, consume_invite,
}
use legal_ai_copilot.Accounts.Accepting.{Marks, same}

module _ (c : Crypto) (f : Fresh) (token : String) (d : Accounts) where
  sent :
      (now : ℕ) (i : Invite)
      → find_invite c token now d ≡ some i
      → Among i d.invites × (i.token ≡ c.sha256 token) × (i.is_accepted ≡ false)
  sent now i found =
      let (among, test) = Among-select_one (has_token (c.sha256 token) now) d.invites i found in
      (among, ground (arith, eq_iff i.token (c.sha256 token)), ground arith)

  sent_by_email :
      (email : String) (now : ℕ) (i : Invite)
      → find_sent c token email now d ≡ some i
      → Among i d.invites × (i.token ≡ c.sha256 token) × (i.is_accepted ≡ false)
  sent_by_email email now i found =
      let (among, test) = Among-select_one _ d.invites i found in
      (among, ground (arith, eq_iff i.token (c.sha256 token)), ground arith)

  -- an acceptance that finds an invite: it marks it or changes no invite, and it marks it if it succeeds
  abbrev pub Uses : {A : Type 0} → Reply A × Accounts → Type 0
  Uses {A} r =
      ((code : ℕ) × (r.0 ≡ http code) × Marks d.invites r.1.invites)
      ⊎ ((i : Invite) × Among i d.invites
          × (i.token ≡ c.sha256 token)
          × (i.is_accepted ≡ false)
          × (r.1.invites ≡ update_where (λ x. x.id == i.id) accepted d.invites))

  pub consume_invite-Uses :
      (env : Environment) (answer : Option String) (full_name : String)
      → Uses (consume_invite c env answer f token full_name d)
  unfolding consume_invite
  consume_invite-Uses env answer full_name = elim (Option-cases (find_invite c token f.now d)) [
    | inl lost ↦ inl (400, ground arith, same (ground arith))
    | inr (i, found) ↦
        let (among, own, unused) = sent f.now i found in
        elim (Reply-cases (consume_invite c env answer f token full_name d).0) [
          | inl (u, done) ↦ inr (i, among, own, unused, ground arith)
          | inr (code, refused) ↦ inl (code, refused, same (ground arith))
        ]
  ]

  pub accept_invite-Uses :
      (p : AcceptInviteRequest) → p.token ≡ token → Uses (accept_invite c f p d)
  unfolding accept_invite issue_key
  accept_invite-Uses p given = elim (Option-cases (find_sent c token p.email f.now d)) [
    | inl lost ↦ inl (400, ground arith, same (ground arith))
    | inr (i, found) ↦
        let (among, own, unused) = sent_by_email p.email f.now i found in
        elim (Reply-cases (accept_invite c f p d).0) [
          | inl (u, done) ↦ inr (i, among, own, unused, ground arith)
          | inr (code, refused) ↦ inl (code, refused, same (ground arith))
        ]
  ]

  join_by_token-finds :
      (ctx : SupabaseAuthContext) {org : ℕ} {d' : Accounts}
      → join_by_token c f ctx token d ≡ (ok org, d')
      → (i : Invite) × (find_invite c token f.now d ≡ some i)
        × (d'.invites ≡ update_where (λ x. x.id == i.id) accepted d.invites)
  unfolding join_by_token
  join_by_token-finds ctx {org} {d'} e = elim (Option-cases (find_invite c token f.now d)) [
    | inl lost ↦ absurd (ground arith)
    | inr (i, found) ↦ (i, found, ground arith)
  ]

  -- The invites, and success, of the steps that only set a role.
  abbrev Only : Reply SupabaseAuthContext × Accounts → Type 0
  Only r =
      (ctx : SupabaseAuthContext) × (d' : Accounts) × (r ≡ (ok ctx, d')) × (d'.invites ≡ d.invites)

  adopt-Only :
      (org_id : ℕ) (ctx : SupabaseAuthContext) (m : Option Membership) → Only (adopt org_id ctx m d)
  adopt-Only org_id ctx none = (ctx, d, refl, refl)
  adopt-Only org_id ctx (some m) = (
    with_role org_id m.role ctx,
    update_user ctx.user.id (λ u. record u { role = m.role }) d,
    refl,
    refl,
  )

  switch_org-Only :
      (x_active_org : Option String) (ctx : SupabaseAuthContext)
      → Only (switch_org x_active_org ctx d)
  unfolding switch_org
  switch_org-Only x_active_org ctx =
      elim (Option-cases (requested (truthy x_active_org) ctx.user.id d)) [
        | inr (m, found) ↦
            let e : switch_org x_active_org ctx d ≡ adopt m.org_id ctx (some m) d = ground arith in
            subst Only (sym e) (adopt-Only m.org_id ctx (some m))
        | inl lost ↦
            let own = find_membership ctx.user.id ctx.org_id d in
            let e : switch_org x_active_org ctx d ≡ adopt ctx.org_id ctx own d = ground arith in
            subst Only (sym e) (adopt-Only ctx.org_id ctx own)
      ]

module _ (c : Crypto) (f : Fresh) (token : String) where
  abbrev pub join : Option String → SupabaseAuthContext → Accounts → Reply ℕ × Accounts
  join x_active_org ctx =
      transaction (switch_org x_active_org ctx >>= λ s. join_by_token c f s token)

  pub join-Uses :
      (d : Accounts) (x_active_org : Option String) (ctx : SupabaseAuthContext)
      → Uses c f token d (join x_active_org ctx d)
  join-Uses d x_active_org ctx =
      let (s, d', switched, kept) = switch_org-Only c f token d x_active_org ctx in
      let joined = join_by_token c f s token d' in
      elim (Reply-cases joined.0) [
        | inr (code, refused) ↦
            let e : join x_active_org ctx d ≡ (http code, d) = ground arith in
            subst (Uses c f token d) (sym e) (inl (code, refl, same refl))
        | inl (org, done) ↦
            let (i, found, marks) =
              join_by_token-finds c f token d' s {org = org} {d' = joined.1} (ground arith) in
            let (among, own, unused) = sent c f token d' f.now i found in
            let e : join x_active_org ctx d ≡ (ok org, joined.1) = ground arith in
            subst (Uses c f token d) (sym e)
              (inr (i, subst (λ rows. Among i rows) kept among, own, unused, ground arith))
      ]
