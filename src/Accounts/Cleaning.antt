-- ===== src/Accounts/Cleaning.antt =====
-- What the cleanup of the invites does to the endpoints that look an invite up.
use legal_ai_copilot.Prelude.{ℕ, ◌≤◌, Bool, true, not, String, List, [], ◌∷◌, ◌≡◌, refl, arith}
use legal_ai_copilot.Prelude.Table.{select, select_one}
use legal_ai_copilot.Accounts.Rows.{Accounts, Crypto}
use legal_ai_copilot.Accounts.Invites.{has_token, find_invite, invite_info, verify_token}
use legal_ai_copilot.Accounts.Cleanup.{has_run_out, cleanup_expired_invites}

-- A search does not see the rows that fail a condition that the sought rows meet.
select_one-select :
    {A : Type 0} (p q : A → Bool) (xs : List A)
    → ((x : A) → p x ≡ true → q x ≡ true)
    → select_one p (select q xs) ≡ select_one p xs
unfolding select_one select
select_one-select p q [] wider = refl
select_one-select p q (x ∷ xs) wider = ground (arith, wider x, select_one-select p q xs wider)

module _ (c : Crypto) (now later : ℕ) (order : now ≤ later) (token : String) (d : Accounts) where
  cleanup-find_invite :
      find_invite c token later (cleanup_expired_invites now d).1 ≡ find_invite c token later d
  unfolding cleanup_expired_invites
  cleanup-find_invite =
      select_one-select (has_token (c.sha256 token) later) (λ i. not (has_run_out now i)) d.invites
        (λ i found. ground arith)

  -- The cleanup of the invites cannot be seen through a token: at its time and later, invite_info
  -- and verify_token answer the same after it as without it, whatever the token.
  pub cleanup-invite_info :
      ((invite_info c later token (cleanup_expired_invites now d).1).0
        ≡ (invite_info c later token d).0)
      × ((verify_token c later token (cleanup_expired_invites now d).1).0
          ≡ (verify_token c later token d).0)
  unfolding invite_info verify_token cleanup_expired_invites
  cleanup-invite_info = (ground (arith, cleanup-find_invite), ground (arith, cleanup-find_invite))
