-- ===== src/Accounts/Once.antt =====
-- An invite is accepted at most once, whichever endpoint accepts it.
use legal_ai_copilot.Prelude.{
  String, Option, List, [], ◌∷◌, ◌≡◌, ◌≢◌, inl, inr, arith, Option-cases, refl, subst, sym,
}
use legal_ai_copilot.Prelude.Table.{select, IsKey}
use legal_ai_copilot.Http.{Reply, ok, http, Reply-cases}
use legal_ai_copilot.Accounts.Rows.{Invite, Accounts, Crypto, Fresh, truthy}
use legal_ai_copilot.Accounts.Session.{Session, ◌>>◌, pure}
use legal_ai_copilot.Accounts.Context.{
  Claims, SupabaseAuthContext, build_supabase_auth_context, link_account, auto_accept, first_login,
  find_sub, find_email, is_invite_for,
}
use legal_ai_copilot.Accounts.Joins.{
  AcceptInviteRequest, accept_invite_by_token, accept_invite, consume_invite,
}
use legal_ai_copilot.Accounts.Accepting.{
  Acceptance, by_account, with_key, with_profile, accept, Marks, same, marked, IsSpent,
  Marks-IsSpent, Marks-IsKey, marked-IsSpent,
}
use legal_ai_copilot.Accounts.Uses.{Uses, join, join-Uses, consume_invite-Uses, accept_invite-Uses}

module _ (c : Crypto) (f : Fresh) (token : String) where
  auto_accept-Marks :
      (claims : Claims) (sub email : String) (i : Invite) (d : Accounts)
      → Marks d.invites (auto_accept f claims sub email i d).1.invites
  unfolding auto_accept
  auto_accept-Marks claims sub email i d =
      elim (Reply-cases (auto_accept f claims sub email i d).0) [
        | inl (ctx, done) ↦ marked i (ground arith)
        | inr (code, refused) ↦ same (ground arith)
      ]

  first_login-Marks :
      (claims : Claims) (sub email : String) (d : Accounts)
      → Marks d.invites (first_login c f claims sub email d).1.invites
  unfolding first_login
  first_login-Marks claims sub email d =
      elim (Option-cases (c.newest_invite (select (is_invite_for email f.now) d.invites))) [
        | inl lost ↦ same (ground arith)
        | inr (i, found) ↦
            let e : first_login c f claims sub email d ≡ auto_accept f claims sub email i d =
              ground arith in
            subst (λ (r : Reply SupabaseAuthContext × Accounts). Marks d.invites r.1.invites)
              (sym e) (auto_accept-Marks claims sub email i d)
      ]

  build-Marks :
      (claims : Claims) (d : Accounts)
      → Marks d.invites (build_supabase_auth_context c f claims d).1.invites
  unfolding build_supabase_auth_context link_account
  build-Marks claims d = elim (Option-cases (truthy claims.sub)) [
    | inl lost ↦ same (ground arith)
    | inr (sub, has_sub) ↦ elim (Option-cases (truthy claims.email)) [
      | inl lost ↦ same (ground arith)
      | inr (email, has_email) ↦ elim (Option-cases (find_sub sub d)) [
        | inr (u, known) ↦ same (ground arith)
        | inl unknown ↦ elim (Option-cases (find_email email d)) [
          | inr (u, found) ↦ same (ground arith)
          | inl new ↦
              let e : build_supabase_auth_context c f claims d
                  ≡ first_login c f claims sub email d =
                ground arith in
              subst (λ (r : Reply SupabaseAuthContext × Accounts). Marks d.invites r.1.invites)
                (sym e) (first_login-Marks claims sub email d)
        ]
      ]
    ]
  ]

  -- an acceptance, after a login that may itself have accepted an invite
  abbrev Passes : Accounts → Reply Unit × Accounts → Type 0
  Passes d r = (logged : Accounts) × Marks d.invites logged.invites × Uses c f token logged r

  Uses-done :
      {A : Type 0} (m : Session A) (d : Accounts)
      → Uses c f token d (m d)
      → Uses c f token d ((m >> pure tt) d)
  Uses-done m d (inl (code, refused, marks)) =
      let e : (m >> pure tt) d ≡ (http code, (m d).1) = ground arith in
      subst (Uses c f token d) (sym e) (inl (code, refl, marks))
  Uses-done m d (inr (i, among, own, unused, marks)) = elim (Reply-cases (m d).0) [
    | inl (a, done) ↦
        let e : (m >> pure tt) d ≡ (ok tt, (m d).1) = ground arith in
        subst (Uses c f token d) (sym e) (inr (i, among, own, unused, marks))
    | inr (code, refused) ↦
        let e : (m >> pure tt) d ≡ (http code, (m d).1) = ground arith in
        subst (Uses c f token d) (sym e) (inr (i, among, own, unused, marks))
  ]

  by_account-Passes :
      (claims : Claims) (x_active_org : Option String) (d : Accounts)
      → Passes d (accept c f (by_account claims x_active_org) token d)
  unfolding accept_invite_by_token
  by_account-Passes claims x_active_org d =
      let built = build_supabase_auth_context c f claims d in
      let run = accept c f (by_account claims x_active_org) token in
      elim (Reply-cases built.0) [
        | inr (code, refused) ↦
            let e : run d ≡ (http code, built.1) = ground arith in
            subst (Passes d) (sym e) (built.1, build-Marks claims d, inl (code, refl, same refl))
        | inl (ctx, done) ↦
            let e : run d ≡ (join c f token x_active_org ctx >> pure tt) built.1 = ground arith in
            subst (Passes d) (sym e) (
              built.1,
              build-Marks claims d,
              Uses-done (join c f token x_active_org ctx) built.1
                  (join-Uses c f token built.1 x_active_org ctx),
            )
      ]

  accept-Passes : (a : Acceptance) (d : Accounts) → Passes d (accept c f a token d)
  accept-Passes (by_account claims x_active_org) d = by_account-Passes claims x_active_org d
  accept-Passes (with_key email) d =
      let p : AcceptInviteRequest = record { email = email; token = token } in
      (d, same refl, Uses-done (accept_invite c f p) d (accept_invite-Uses c f token d p refl))
  accept-Passes (with_profile env answer full_name) d = (
    d,
    same refl,
    Uses-done (consume_invite c env answer f token full_name) d
        (consume_invite-Uses c f token d env answer full_name),
  )

  -- what an acceptance does to the invites, whatever it replies
  accept-IsSpent :
      (a : Acceptance) (d : Accounts) (hash : String)
      → IsSpent hash d.invites
      → IsSpent hash (accept c f a token d).1.invites
  accept-IsSpent a d hash spent =
      let (logged, first, uses) = accept-Passes a d in
      elim uses [
        | inl (code, refused, marks) ↦ Marks-IsSpent hash marks (Marks-IsSpent hash first spent)
        | inr (i, among, own, unused, marks) ↦
            Marks-IsSpent hash (marked i marks) (Marks-IsSpent hash first spent)
      ]

  accept-spends :
      (a : Acceptance) (d : Accounts)
      → IsKey (λ x. x.token) d.invites
      → (accept c f a token d).0 ≡ ok tt
      → IsSpent (c.sha256 token) (accept c f a token d).1.invites
  accept-spends a d unique done =
      let (logged, first, uses) = accept-Passes a d in
      elim uses [
        | inl (code, refused, marks) ↦ absurd (cc)
        | inr (i, among, own, unused, marks) ↦
            subst (λ hash. IsSpent hash (accept c f a token d).1.invites) own
              (marked-IsSpent i logged.invites (Marks-IsKey first unique) among marks)
      ]

  accept-refuses :
      (a : Acceptance) (d : Accounts)
      → IsSpent (c.sha256 token) d.invites
      → (accept c f a token d).0 ≢ ok tt
  accept-refuses a d spent done =
      let (logged, first, uses) = accept-Passes a d in
      elim uses [
        | inl (code, refused, marks) ↦ cc
        | inr (i, among, own, unused, marks) ↦
            cc (Marks-IsSpent (c.sha256 token) first spent i among own)
      ]

-- acceptances of any tokens, one after the other
pub data Retry : Type 0 where
  retry : Fresh → Acceptance → String → Retry

unfoldable pub retries : Crypto → List Retry → Accounts → Accounts
retries c [] d = d
retries c (retry f a token ∷ rest) d = retries c rest (accept c f a token d).1

retries-IsSpent :
    (c : Crypto) (run : List Retry) (d : Accounts) (hash : String)
    → IsSpent hash d.invites
    → IsSpent hash (retries c run d).invites
unfolding retries
retries-IsSpent c [] d hash spent = spent
retries-IsSpent c (retry f a token ∷ rest) d hash spent =
    retries-IsSpent c rest (accept c f a token d).1 hash (accept-IsSpent c f token a d hash spent)

-- Where invites have different tokens: after the token of an invite was accepted by one of the three
-- endpoints, and any number of acceptances of any tokens were tried, none of the three accepts the
-- token again, from anyone and at any time.
pub accept-once :
    (c : Crypto) (f g : Fresh) (a b : Acceptance) (token : String) (between : List Retry)
    (d : Accounts)
    → IsKey (λ x. x.token) d.invites
    → (accept c f a token d).0 ≡ ok tt
    → (accept c g b token (retries c between (accept c f a token d).1)).0 ≢ ok tt
accept-once c f g a b token between d unique done =
    accept-refuses c g token b _
      (retries-IsSpent c between _ (c.sha256 token) (accept-spends c f token a d unique done))
