-- ===== src/Accounts/Accepting.antt =====
-- An invite is accepted at most once, whichever endpoint accepts it.
use legal_ai_copilot.Prelude.{
  ℕ, String, true, Option, List, ◌≡◌, ◌==◌, if◌then◌else◌, arith, Among, refl, ap, sym, ◌∙◌, subst,
}
use legal_ai_copilot.Prelude.Table.{update_where, IsKey, update_where-IsKey, update_where_source}
use legal_ai_copilot.Accounts.Rows.{Invite, Crypto, Fresh}
use legal_ai_copilot.Accounts.Session.{Session, ◌>>◌, pure}
use legal_ai_copilot.Accounts.Context.{Claims, accepted}
use legal_ai_copilot.Accounts.Invites.{Environment}
use legal_ai_copilot.Accounts.Joins.{accept_invite_by_token, accept_invite, consume_invite}

-- The three endpoints: POST /auth/accept-invite-by-token, /auth/accept-invite and /invites/accept.
pub data Acceptance : Type 0 where
  by_account : Claims → Option String → Acceptance
  with_key : String → Acceptance
  with_profile : Environment → Option String → String → Acceptance

abbrev pub accept : Crypto → Fresh → Acceptance → String → Session Unit
accept c f (by_account claims x_active_org) token =
    accept_invite_by_token c f claims x_active_org token >> pure tt
accept c f (with_key email) token =
    accept_invite c f (record { email = email; token = token }) >> pure tt
accept c f (with_profile env answer full_name) token =
    consume_invite c env answer f token full_name >> pure tt

-- the invites as they were, or with one marked as accepted
pub data Marks (before after : List Invite) : Type 0 where
  same : after ≡ before → Marks before after
  marked :
      (i : Invite) → after ≡ update_where (λ x. x.id == i.id) accepted before → Marks before after

-- Every invite of a token has been accepted.
abbrev pub IsSpent : String → List Invite → Type 0
IsSpent hash invites = (x : Invite) → Among x invites → x.token ≡ hash → x.is_accepted ≡ true

accepted-row :
    (k : ℕ) (a b : Invite)
    → b ≡ (if a.id == k then accepted a else a)
    → (b.token ≡ a.token) × (a.is_accepted ≡ true → b.is_accepted ≡ true)
accepted-row k a b e = (ground arith, λ t. ground arith)

pub Marks-IsSpent :
    (hash : String) {before after : List Invite}
    → Marks before after
    → IsSpent hash before
    → IsSpent hash after
Marks-IsSpent hash (same e) spent x m t = spent x (subst (λ rows. Among x rows) e m) t
Marks-IsSpent hash {before} (marked i e) spent x m t =
    let (a, found, image) =
      update_where_source (λ y. y.id == i.id) accepted before x
        (subst (λ rows. Among x rows) e m) in
    let (token, kept) = accepted-row i.id a x image in kept (spent a found (sym token ∙ t))

pub Marks-IsKey :
    {before after : List Invite}
    → Marks before after
    → IsKey (λ x. x.token) before
    → IsKey (λ x. x.token) after
Marks-IsKey (same e) unique = subst (IsKey (λ x. x.token)) (sym e) unique
Marks-IsKey {before} (marked i e) unique =
    subst (IsKey (λ x. x.token)) (sym e)
      (update_where-IsKey (λ x. x.token) _ accepted before (λ x. refl) unique)

-- Marking an invite spends its token.
pub marked-IsSpent :
    (i : Invite) (before : List Invite) {after : List Invite}
    → IsKey (λ x. x.token) before
    → Among i before
    → after ≡ update_where (λ x. x.id == i.id) accepted before
    → IsSpent i.token after
marked-IsSpent i before unique among e x m t =
    let (a, found, image) =
      update_where_source (λ y. y.id == i.id) accepted before x
        (subst (λ rows. Among x rows) e m) in
    let token = (accepted-row i.id a x image).0 in
    let own : a ≡ i = unique a i found among (sym token ∙ t) in
    ground (arith, ap (λ (y : Invite). y.id) own)
