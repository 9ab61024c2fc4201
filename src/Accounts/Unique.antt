-- ===== src/Accounts/Unique.antt =====
-- The unique constraints of the accounts' tables, kept by every request.
use legal_ai_copilot.Prelude.{
  Bool, true, false, List, ◌∷◌, ◌≡◌, inl, inr, arith, Among, eq_iff, refl, sym, ap, ◌∙◌, subst,
}
use legal_ai_copilot.Prelude.Table.{
  select, exists_where, exists_where-hit, update_where, update_where-IsKey, Among-select, IsKey,
}
use legal_ai_copilot.Accounts.Rows.{
  User, ApiKey, Invite, Accounts, user_clash, key_clash, invite_clash,
}
use legal_ai_copilot.Accounts.Context.{accepted}

module _ {A B : Type 0} (key : A → B) (clash : A → A → Bool) (row : A) (rows : List A)
    (catches : (x : A) → key x ≡ key row → clash row x ≡ true)
    (free : exists_where (clash row) rows ≡ false) where
  fresh_key : (x : A) → Among x rows → key x ≡ key row → ⊥
  fresh_key x m e = cc (exists_where-hit (clash row) rows x m (catches x e))

  -- An INSERT that the unique constraint lets through keeps the key.
  pub insert-IsKey : IsKey key rows → IsKey key (row ∷ rows)
  insert-IsKey unique a b (inl e) (inl h) same = e ∙ sym h
  insert-IsKey unique a b (inl e) (inr m) same = absurd (fresh_key b m (sym same ∙ ap key e))
  insert-IsKey unique a b (inr m) (inl h) same = absurd (fresh_key a m (same ∙ ap key h))
  insert-IsKey unique a b (inr m) (inr n) same = unique a b m n same

pub select-IsKey :
    {A B : Type 0} (key : A → B) (p : A → Bool) (rows : List A)
    → IsKey key rows
    → IsKey key (select p rows)
select-IsKey key p rows unique a b m n same =
    unique a b (Among-select p rows a m).0 (Among-select p rows b n).0 same

-- Users have different ids, API keys different ids and hashes, invites different ids and tokens.
pub record IsUnique (d : Accounts) : Type 0 where
  pub user_ids : IsKey (λ u. u.id) d.users
  pub user_emails : IsKey (λ u. u.email) d.users
  pub key_ids : IsKey (λ k. k.id) d.api_keys
  pub key_hashes : IsKey (λ k. k.key_hash) d.api_keys
  pub invite_ids : IsKey (λ i. i.id) d.invites
  pub invite_tokens : IsKey (λ i. i.token) d.invites

module _ (d : Accounts) (unique : IsUnique d) where
  pub users-IsUnique :
      (row : User)
      → exists_where (user_clash row) d.users ≡ false
      → IsUnique (record d { users = row ∷ d.users })
  users-IsUnique row free = record {
    user_ids =
        insert-IsKey (λ (u : User). u.id) user_clash row d.users (λ x e. ground arith) free
          unique.user_ids;
    user_emails =
        insert-IsKey (λ (u : User). u.email) user_clash row d.users
          (λ x e. ground (arith, eq_iff x.email row.email)) free unique.user_emails;
    key_ids = unique.key_ids;
    key_hashes = unique.key_hashes;
    invite_ids = unique.invite_ids;
    invite_tokens = unique.invite_tokens;
  }

  pub api_keys-IsUnique :
      (row : ApiKey)
      → exists_where (key_clash row) d.api_keys ≡ false
      → IsUnique (record d { api_keys = row ∷ d.api_keys })
  api_keys-IsUnique row free = record {
    user_ids = unique.user_ids;
    user_emails = unique.user_emails;
    key_ids =
        insert-IsKey (λ (k : ApiKey). k.id) key_clash row d.api_keys (λ x e. ground arith) free
          unique.key_ids;
    key_hashes =
        insert-IsKey (λ (k : ApiKey). k.key_hash) key_clash row d.api_keys
          (λ x e. ground (arith, eq_iff x.key_hash row.key_hash)) free unique.key_hashes;
    invite_ids = unique.invite_ids;
    invite_tokens = unique.invite_tokens;
  }

  pub invites-IsUnique :
      (row : Invite)
      → exists_where (invite_clash row) d.invites ≡ false
      → IsUnique (record d { invites = row ∷ d.invites })
  invites-IsUnique row free = record {
    user_ids = unique.user_ids;
    user_emails = unique.user_emails;
    key_ids = unique.key_ids;
    key_hashes = unique.key_hashes;
    invite_ids =
        insert-IsKey (λ (i : Invite). i.id) invite_clash row d.invites (λ x e. ground arith) free
          unique.invite_ids;
    invite_tokens =
        insert-IsKey (λ (i : Invite). i.token) invite_clash row d.invites
          (λ x e. ground (arith, eq_iff x.token row.token)) free unique.invite_tokens;
  }

module _ (d : Accounts) (unique : IsUnique d) where
  -- the constraints are about three tables
  pub tables-IsUnique :
      (d' : Accounts)
      → d'.users ≡ d.users
      → d'.api_keys ≡ d.api_keys
      → d'.invites ≡ d.invites
      → IsUnique d'
  tables-IsUnique d' users keys invites = record {
    user_ids = subst (IsKey (λ u. u.id)) (sym users) unique.user_ids;
    user_emails = subst (IsKey (λ u. u.email)) (sym users) unique.user_emails;
    key_ids = subst (IsKey (λ k. k.id)) (sym keys) unique.key_ids;
    key_hashes = subst (IsKey (λ k. k.key_hash)) (sym keys) unique.key_hashes;
    invite_ids = subst (IsKey (λ i. i.id)) (sym invites) unique.invite_ids;
    invite_tokens = subst (IsKey (λ i. i.token)) (sym invites) unique.invite_tokens;
  }

  -- updates that leave ids, emails, hashes and tokens alone
  pub user-IsUnique :
      (p : User → Bool) (f : User → User)
      → ((u : User) → (f u).id ≡ u.id)
      → ((u : User) → (f u).email ≡ u.email)
      → IsUnique (record d { users = update_where p f d.users })
  user-IsUnique p f id email = record {
    user_ids = update_where-IsKey (λ (u : User). u.id) p f d.users id unique.user_ids;
    user_emails = update_where-IsKey (λ (u : User). u.email) p f d.users email unique.user_emails;
    key_ids = unique.key_ids;
    key_hashes = unique.key_hashes;
    invite_ids = unique.invite_ids;
    invite_tokens = unique.invite_tokens;
  }

  pub invite-IsUnique :
      (p : Invite → Bool) → IsUnique (record d { invites = update_where p accepted d.invites })
  invite-IsUnique p = record {
    user_ids = unique.user_ids;
    user_emails = unique.user_emails;
    key_ids = unique.key_ids;
    key_hashes = unique.key_hashes;
    invite_ids =
        update_where-IsKey (λ (i : Invite). i.id) p accepted d.invites (λ i. refl)
          unique.invite_ids;
    invite_tokens =
        update_where-IsKey (λ (i : Invite). i.token) p accepted d.invites (λ i. refl)
          unique.invite_tokens;
  }

  -- a DELETE
  pub deleted-IsUnique : (p : Invite → Bool) → IsUnique (record d { invites = select p d.invites })
  deleted-IsUnique p = record {
    user_ids = unique.user_ids;
    user_emails = unique.user_emails;
    key_ids = unique.key_ids;
    key_hashes = unique.key_hashes;
    invite_ids = select-IsKey (λ (i : Invite). i.id) p d.invites unique.invite_ids;
    invite_tokens = select-IsKey (λ (i : Invite). i.token) p d.invites unique.invite_tokens;
  }

  pub key-IsUnique :
      (p : ApiKey → Bool)
      → IsUnique
          (record d { api_keys = update_where p (λ k. record k { is_active = false }) d.api_keys })
  key-IsUnique p = record {
    user_ids = unique.user_ids;
    user_emails = unique.user_emails;
    key_ids = update_where-IsKey (λ (k : ApiKey). k.id) p _ d.api_keys (λ k. refl) unique.key_ids;
    key_hashes =
        update_where-IsKey (λ (k : ApiKey). k.key_hash) p _ d.api_keys (λ k. refl)
          unique.key_hashes;
    invite_ids = unique.invite_ids;
    invite_tokens = unique.invite_tokens;
  }
