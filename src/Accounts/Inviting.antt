-- ===== src/Accounts/Inviting.antt =====
-- Which tokens of invites can be used, and what a removed member keeps.
use text.Mathlib.TextPositions.{eq_refl}
use legal_ai_copilot.Prelude.{
  ℕ, String, false, none, List, [], ◌∷◌, ◌≡◌, ◌≢◌, inl, inr, ◌==◌, arith, Among, Option-cases,
  eq_iff, ltb, ◌+◌, ◌*◌, true, ◌&&◌, if◌then◌else◌,
}
use legal_ai_copilot.Prelude.Table.{
  select, select_one, exists_where, select_one-exists_where, Among-select_one,
}
use legal_ai_copilot.Models.{UserRole}
use legal_ai_copilot.Http.{ok, http}
use legal_ai_copilot.Accounts.Rows.{Invite, Accounts, Crypto, Fresh, invite_clash, Membership}
use legal_ai_copilot.Accounts.Context.{
  AuthContext, SupabaseAuthContext, get_auth_context, is_member, find_membership,
}
use legal_ai_copilot.Accounts.Invites.{
  invite_row, invite_user, generate_invite, has_token, invite_info,
}
use legal_ai_copilot.Accounts.Resolving.{get_auth_context_key}
use legal_ai_copilot.Accounts.Keys.{remove_member, without}

-- A row that was inserted is the only one with its token.
inserted-only :
    (row : Invite) (rows : List Invite) (now : ℕ)
    → exists_where (invite_clash row) rows ≡ false
    → select_one (has_token row.token now) rows ≡ none
inserted-only row rows now free =
    select_one-exists_where (has_token row.token now) (invite_clash row) rows (λ x t. ground arith)
      free

generate_invite-stored :
    (c : Crypto) (f : Fresh) (ctx : AuthContext) (org_id : ℕ) (email : String) (role : UserRole)
    (d : Accounts) {token : String} {d' : Accounts}
    → generate_invite c f ctx org_id email role d ≡ (ok token, d')
    → let row = invite_row f email org_id role (c.sha256 token) in
      (token ≡ f.token)
      × (ctx.org_id ≡ org_id)
      × (exists_where (invite_clash row) d.invites ≡ false)
      × (d' ≡ record d { invites = row ∷ d.invites })
unfolding generate_invite
generate_invite-stored c f ctx org_id email role d {token} {d'} e =
    (ground arith, ground arith, ground arith, ground arith)

-- The token that `generate_invite` returns shows the invite, with its email and organisation, for
-- seven days of 86,400 seconds, and is refused with 400 from then on.
pub generate_invite-invite_info :
    (c : Crypto) (f : Fresh) (ctx : AuthContext) (org_id : ℕ) (email : String) (role : UserRole)
    (now : ℕ) (d : Accounts) {token : String} {d' : Accounts}
    → generate_invite c f ctx org_id email role d ≡ (ok token, d')
    → (invite_info c now token d').0 ≡ (
        if ltb now (f.now + 7 * 86400)
        then ok (record { email = email; org_id = org_id; valid = true })
        else http 400)
unfolding invite_info select_one
generate_invite-invite_info c f ctx org_id email role now d {token} {d'} e =
    let row = invite_row f email org_id role (c.sha256 token) in
    let (drawn, own, free, stored) =
      generate_invite-stored c f ctx org_id email role d {token = token} {d' = d'} e in
    rw stored (ground (arith, inserted-only row d.invites now free, eq_refl (c.sha256 token)))

-- Where the random token is not its own hash, and its hash is not the stored token of an invite: the
-- token that `invite_user` returns is refused with 400 at any time, since the token itself is
-- stored and its hash is looked up.
pub invite_user-invite_info :
    (c : Crypto) (f : Fresh) (ctx : AuthContext) (email : String) (now : ℕ) (d : Accounts)
    {token : String} {d' : Accounts}
    → c.sha256 f.token ≢ f.token
    → ((i : Invite) → Among i d.invites → i.token ≢ c.sha256 f.token)
    → invite_user f ctx email d ≡ (ok token, d')
    → invite_info c now token d' ≡ (http 400, d')
unfolding invite_info invite_user select_one
invite_user-invite_info c f ctx email now d {token} {d'} differs unused e =
    elim (Option-cases (select_one (has_token (c.sha256 f.token) now) d.invites)) [
      | inl none_there ↦ ground (arith, eq_iff f.token (c.sha256 f.token))
      | inr (i, found) ↦
          let (among, test) =
            Among-select_one (has_token (c.sha256 f.token) now) d.invites i found in
          absurd (unused i among (ground (arith, eq_iff i.token (c.sha256 f.token))))
    ]

without-find :
    (user_id org_id target org : ℕ) (rows : List Membership)
    → select_one (is_member user_id org_id) (without target org rows) ≡ (
        if user_id == target && org_id == org
        then none
        else select_one (is_member user_id org_id) rows)
unfolding select select_one without
without-find user_id org_id target org [] = ground arith
without-find user_id org_id target org (m ∷ rows) =
    ground (arith, without-find user_id org_id target org rows)

-- After a member is removed, a membership is found exactly where it was before, but for that of
-- the member in the organisation; and every API key that was accepted still is, as the same user
-- and in the same organisation, those of the removed member included.
pub remove_member-get_auth_context :
    (c : Crypto) (ctx : SupabaseAuthContext) (target user_id org_id : ℕ) (key : String)
    (a : AuthContext) (d : Accounts) {d' : Accounts}
    → remove_member ctx target d ≡ (ok tt, d')
    → get_auth_context c key d ≡ (ok a, d)
    → (find_membership user_id org_id d' ≡ (
        if user_id == target && org_id == ctx.org_id
        then none
        else find_membership user_id org_id d))
      × (get_auth_context c key d' ≡ (ok a, d'))
unfolding remove_member get_auth_context
remove_member-get_auth_context c ctx target user_id org_id key a d {d'} e accepted =
    let kept : d' ≡ record d { memberships = without target ctx.org_id d.memberships } =
      ground arith in
    let (found, user, scoped, same) = get_auth_context_key c key d {ctx = a} {d' = d} accepted in
    (rw kept (without-find user_id org_id target ctx.org_id d.memberships), ground arith)
