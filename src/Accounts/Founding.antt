-- ===== src/Accounts/Founding.antt =====
-- How setup_org of app/routers/auth.py ends.
use legal_ai_copilot.Prelude.{
  String, false, Option, none, some, List, [], ◌∷◌, ◌≡◌, ◌⊎◌, inl, inr, ◌==◌, arith, Option-cases,
  refl, str_eq, eq_iff, ap,
}
use legal_ai_copilot.Prelude.Table.{select_one, exists_where}
use legal_ai_copilot.Models.{UserRole}
use legal_ai_copilot.Http.{Reply, ok, http}
use legal_ai_copilot.Accounts.Rows.{
  User, Organization, Membership, Accounts, Crypto, Fresh, user_clash, organization_clash,
  DefaultWorkspace, membership_clash, workspace_clash, truthy, is_text, same_text,
}
use legal_ai_copilot.Accounts.Context.{Claims, find_org, find_sub, find_email, member_row}
use legal_ai_copilot.Accounts.Signup.{
  SetupOrgRequest, new_org, set_up, default_workspace, setup_org, text_or,
}

-- The random ids are in no row.
pub record IsFresh (f : Fresh) (d : Accounts) : Type 0 where
  pub organization : exists_where (λ o. f.org_id == o.id) d.organizations ≡ false
  pub user : exists_where (λ u. f.user_id == u.id) d.users ≡ false
  pub member : exists_where (λ m. m.user_id == f.user_id) d.memberships ≡ false
  pub workspace : exists_where (λ w. f.workspace_id == w.id) d.workspaces ≡ false

other_sub :
    (x : Option String) (sub : String) → is_text x sub ≡ false → same_text x (some sub) ≡ false
other_sub none sub e = refl
other_sub (some s) sub e = ground (arith, eq_iff s sub, eq_iff sub s)

module _ (f : Fresh) where
  user-free :
      (sub email : String) (rows : List User)
      → exists_where (λ u. f.user_id == u.id) rows ≡ false
      → select_one (λ u. is_text u.supabase_user_id sub) rows ≡ none
      → select_one (λ u. str_eq u.email email) rows ≡ none
      → exists_where (user_clash (set_up f sub email)) rows ≡ false
  unfolding exists_where select_one
  user-free sub email [] ids subs emails = refl
  user-free sub email (u ∷ rows) ids subs emails =
      ground (arith, user-free sub email rows, other_sub u.supabase_user_id sub)

  organization-free :
      (slug : String) (name : Option String) (rows : List Organization)
      → exists_where (λ o. f.org_id == o.id) rows ≡ false
      → select_one (λ o. str_eq o.slug slug) rows ≡ none
      → exists_where (organization_clash (new_org f slug name)) rows ≡ false
  unfolding exists_where select_one
  organization-free slug name [] ids slugs = refl
  organization-free slug name (o ∷ rows) ids slugs =
      ground (arith, organization-free slug name rows)

  membership-free :
      (role : UserRole) (rows : List Membership)
      → exists_where (λ m. m.user_id == f.user_id) rows ≡ false
      → exists_where (membership_clash (member_row f.user_id f.org_id role)) rows ≡ false
  unfolding exists_where
  membership-free role [] ids = refl
  membership-free role (m ∷ rows) ids = ground (arith, membership-free role rows)

  workspace-free :
      (rows : List DefaultWorkspace)
      → exists_where (λ w. f.workspace_id == w.id) rows ≡ false
      → exists_where (workspace_clash (default_workspace f)) rows ≡ false
  unfolding exists_where
  workspace-free [] ids = refl
  workspace-free (w ∷ rows) ids = ground (arith, workspace-free rows)

module _ (c : Crypto) (f : Fresh) (claims : Claims) (p : SetupOrgRequest) (d : Accounts) where
  -- the organisation's slug, if it is not empty
  abbrev slug_of : Option String
  slug_of = truthy (some (c.lower (c.trim p.org_id)))

  abbrev founder : String → String → User
  founder sub email = record {
    id = f.user_id;
    email = email;
    supabase_user_id = some sub;
    hashed_password = "!";
    org_id = f.org_id;
    role = UserRole.admin;
    personal_org_id = some f.org_id;
    full_name = none;
  }

  abbrev founded_in : String → String → String → Accounts
  founded_in sub email slug = record d {
    organizations =
        record { id = f.org_id; slug = slug; name = some (text_or (truthy p.org_name) slug) }
        ∷ d.organizations;
    users = founder sub email ∷ d.users;
    memberships =
        record { user_id = f.user_id; org_id = f.org_id; role = UserRole.admin } ∷ d.memberships;
    workspaces =
        record {
          id = f.workspace_id;
          org_id = f.org_id;
          name = "Default Workspace";
          description = "Default workspace created during setup";
        }
        ∷ d.workspaces;
  }

  -- The ways in which the request can end: why, its reply, and the tables.
  pub data Founds (r : Reply User) (d' : Accounts) : Type 0 where
    incomplete :
        (truthy claims.sub ≡ none) ⊎ ((truthy claims.email ≡ none) ⊎ (slug_of ≡ none))
        → r ≡ http 400
        → d' ≡ d
        → Founds r d'
    slug_taken :
        (slug : String) (o : Organization)
        → slug_of ≡ some slug
        → find_org slug d ≡ some o
        → r ≡ http 400
        → d' ≡ d
        → Founds r d'
    has_account :
        (sub email : String) (u : User)
        → truthy claims.sub ≡ some sub
        → truthy claims.email ≡ some email
        → (find_sub sub d ≡ some u) ⊎ (find_email email d ≡ some u)
        → r ≡ http 409
        → d' ≡ d
        → Founds r d'
    founded :
        (sub email slug : String)
        → truthy claims.sub ≡ some sub
        → truthy claims.email ≡ some email
        → slug_of ≡ some slug
        → find_sub sub d ≡ none
        → find_email email d ≡ none
        → find_org slug d ≡ none
        → r ≡ ok (founder sub email)
        → d' ≡ founded_in sub email slug
        → Founds r d'

  module _ (sub email slug : String) (has_sub : truthy claims.sub ≡ some sub)
      (has_email : truthy claims.email ≡ some email) (has_slug : slug_of ≡ some slug) where
    -- no INSERT is refused
    setup_org-founds :
        IsFresh f d
        → find_org slug d ≡ none
        → find_sub sub d ≡ none
        → find_email email d ≡ none
        → setup_org c f claims p d ≡ (ok (founder sub email), founded_in sub email slug)
    unfolding setup_org
    setup_org-founds new org_free sub_free email_free = ground (
      arith,
      has_sub,
      has_email,
      has_slug,
      organization-free f slug (some (text_or (truthy p.org_name) slug)) d.organizations
          new.organization org_free,
      user-free f sub email d.users new.user sub_free email_free,
      membership-free f UserRole.admin d.memberships new.member,
      workspace-free f d.workspaces new.workspace,
    )

  -- Where the random ids are in no row, setup_org ends in one of four ways, and an INSERT is never
  -- refused by the database. Claims or a slug that are missing are 400, a slug that is taken is
  -- 400, an account with the subject or the email is 409, and nothing is written. In any other
  -- case the organisation, its first user as ADMIN, the membership and the default workspace are
  -- there, and nothing else has changed.
  pub setup_org-Founds :
      IsFresh f d → Founds (setup_org c f claims p d).0 (setup_org c f claims p d).1
  unfolding setup_org
  setup_org-Founds new = elim (Option-cases (truthy claims.sub)) [
    | inl lost ↦ incomplete (inl lost) (ground arith) (ground arith)
    | inr (sub, has_sub) ↦ elim (Option-cases (truthy claims.email)) [
      | inl lost ↦ incomplete (inr (inl lost)) (ground arith) (ground arith)
      | inr (email, has_email) ↦ elim (Option-cases slug_of) [
        | inl lost ↦ incomplete (inr (inr lost)) (ground arith) (ground arith)
        | inr (slug, has_slug) ↦ elim (Option-cases (find_org slug d)) [
          | inr (o, taken) ↦ slug_taken slug o has_slug taken (ground arith) (ground arith)
          | inl org_free ↦ elim (Option-cases (find_sub sub d)) [
            | inr (u, known) ↦
                has_account sub email u has_sub has_email (inl known) (ground arith) (ground arith)
            | inl sub_free ↦ elim (Option-cases (find_email email d)) [
              | inr (u, known) ↦
                  has_account sub email u has_sub has_email (inr known) (ground arith)
                    (ground arith)
              | inl email_free ↦
                  let e =
                    setup_org-founds sub email slug has_sub has_email has_slug new org_free sub_free
                      email_free in
                  founded sub email slug has_sub has_email has_slug sub_free email_free org_free
                    (ap (λ x. x.0) e) (ap (λ x. x.1) e)
            ]
          ]
        ]
      ]
    ]
  ]
