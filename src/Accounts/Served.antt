-- ===== src/Accounts/Served.antt =====
-- The unique constraints hold after any sequence of requests.
use legal_ai_copilot.Prelude.{String, Option, not, List, [], ◌∷◌, sym, subst}
use legal_ai_copilot.Accounts.Rows.{Accounts, Crypto, Fresh}
use legal_ai_copilot.Accounts.Session.{◌>>◌, pure}
use legal_ai_copilot.Accounts.Context.{Claims, SupabaseAuthContext, build_supabase_auth_context}
use legal_ai_copilot.Accounts.Signup.{signup, login, setup_org}
use legal_ai_copilot.Accounts.Invites.{
  Environment, Mail, store_invite, send_invite, invite_user, generate_invite,
}
use legal_ai_copilot.Accounts.Joins.{
  AcceptInviteRequest, accept_invite_by_token, accept_invite, consume_invite,
}
use legal_ai_copilot.Accounts.Keys.{revoke_key, remove_member}
use legal_ai_copilot.Accounts.Accepting.{Acceptance, by_account, with_key, with_profile, accept}
use legal_ai_copilot.Accounts.Unique.{IsUnique, deleted-IsUnique}
use legal_ai_copilot.Accounts.Kept.{
  signup-IsUnique, login-IsUnique, setup_org-IsUnique, invite_user-IsUnique,
  generate_invite-IsUnique, accept_invite-IsUnique, consume_invite-IsUnique,
}
use legal_ai_copilot.Accounts.Cleanup.{has_run_out, cleanup_expired_invites}
use legal_ai_copilot.Accounts.Requests.{
  Call, sign_up, log_in, set_up_org, enter, invite, create_invite, revoke, invite_by_email, remove,
  join, clean_up, as_admin, handle, Request, request, serve,
}
use legal_ai_copilot.Accounts.Guarded.{
  bind-IsUnique, build-IsUnique, revoke_key-IsUnique, remove_member-IsUnique,
}
use legal_ai_copilot.Accounts.Behind.{
  accept_invite_by_token-IsUnique, as_admin-IsUnique, by_key-IsUnique, store_invite-IsUnique,
  send_invite-same, behind-IsUnique, done-IsUnique,
}

module _ (c : Crypto) (f : Fresh) where
  accept-IsUnique :
      (a : Acceptance) (token : String) (d : Accounts)
      → IsUnique d
      → IsUnique (accept c f a token d).1
  accept-IsUnique (by_account claims x_active_org) token d unique =
      done-IsUnique (accept_invite_by_token c f claims x_active_org token) d
        (accept_invite_by_token-IsUnique c f claims x_active_org token d unique)
  accept-IsUnique (with_key email) token d unique =
      let p : AcceptInviteRequest = record { email = email; token = token } in
      done-IsUnique (accept_invite c f p) d (accept_invite-IsUnique c f d unique p)
  accept-IsUnique (with_profile env answer full_name) token d unique =
      done-IsUnique (consume_invite c env answer f token full_name) d
        (consume_invite-IsUnique c f d unique env answer token full_name)

  invite_by_email-IsUnique :
      (claims : Claims) (x_active_org : Option String) (env : Environment) (mail : Mail)
      (email : String) (d : Accounts)
      → IsUnique d
      → IsUnique (handle c f (invite_by_email claims x_active_org env mail email) d).1
  unfolding handle
  invite_by_email-IsUnique claims x_active_org env mail email d unique =
      let store = λ (s : SupabaseAuthContext). store_invite c env f s email in
      let send = send_invite env mail f >> pure tt in
      behind-IsUnique c f claims (λ ctx. as_admin x_active_org ctx store >> send) d unique
        λ ctx e u.
          let stored =
            as_admin-IsUnique c f x_active_org ctx store e u
              (λ s e' u'. store_invite-IsUnique c f env s email e' u') in
          bind-IsUnique (as_admin x_active_org ctx store) e (λ _. send) stored
            λ _.
              done-IsUnique (send_invite env mail f) _
                (subst IsUnique (sym (send_invite-same c f env mail _)) stored)

  handle-IsUnique : (call : Call) (d : Accounts) → IsUnique d → IsUnique (handle c f call d).1
  unfolding handle cleanup_expired_invites
  handle-IsUnique (sign_up p) d unique =
      done-IsUnique (signup c f p) d (signup-IsUnique c f d unique p)
  handle-IsUnique (log_in p) d unique =
      done-IsUnique (login c f p) d (login-IsUnique c f d unique p)
  handle-IsUnique (set_up_org claims p) d unique =
      done-IsUnique (setup_org c f claims p) d (setup_org-IsUnique c f d unique claims p)
  handle-IsUnique (enter claims) d unique =
      done-IsUnique (build_supabase_auth_context c f claims) d (build-IsUnique c f claims d unique)
  handle-IsUnique (invite key email) d unique =
      by_key-IsUnique c f key (λ ctx. invite_user f ctx email >> pure tt) d unique
        (λ ctx.
          done-IsUnique (invite_user f ctx email) d (invite_user-IsUnique c f d unique ctx email))
  handle-IsUnique (create_invite key org_id email role) d unique =
      by_key-IsUnique c f key (λ ctx. generate_invite c f ctx org_id email role >> pure tt) d unique
        (λ ctx.
          done-IsUnique (generate_invite c f ctx org_id email role) d
            (generate_invite-IsUnique c f d unique ctx org_id email role))
  handle-IsUnique (revoke key prefix) d unique =
      by_key-IsUnique c f key (λ ctx. revoke_key ctx prefix) d unique
        (λ ctx. revoke_key-IsUnique c f ctx prefix d unique)
  handle-IsUnique (invite_by_email claims x_active_org env mail email) d unique =
      invite_by_email-IsUnique claims x_active_org env mail email d unique
  handle-IsUnique (remove claims x_active_org target) d unique =
      behind-IsUnique c f claims (λ ctx. as_admin x_active_org ctx (λ s. remove_member s target)) d
        unique
        (λ ctx e u.
          as_admin-IsUnique c f x_active_org ctx (λ s. remove_member s target) e u
            (λ s e' u'. remove_member-IsUnique c f s target e' u'))
  handle-IsUnique (join acceptance token) d unique = accept-IsUnique acceptance token d unique
  handle-IsUnique clean_up d unique = deleted-IsUnique d unique (λ i. not (has_run_out f.now i))

-- Any sequence of requests to the endpoints, failing ones included, keeps users at different ids and
-- emails, API keys at different ids and hashes, and invites at different ids and tokens.
serve-IsUnique :
    (c : Crypto) (requests : List Request) (d : Accounts)
    → IsUnique d
    → IsUnique (serve c requests d)
unfolding serve
serve-IsUnique c [] d unique = unique
serve-IsUnique c (request f call ∷ rest) d unique =
    serve-IsUnique c rest (handle c f call d).1 (handle-IsUnique c f call d unique)
