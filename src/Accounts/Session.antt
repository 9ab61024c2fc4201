-- ===== src/Accounts/Session.antt =====
-- What a handler does to the tables of the accounts. An INSERT that breaks a unique constraint raises
-- `IntegrityError`, which ends in a status of 500. What is not committed when an exception is raised
-- is rolled back: `transaction` wraps what stands up to one commit.
use legal_ai_copilot.Prelude.{
  Bool, true, false, Option, none, some, List, [], ◌∷◌, ℕ, if◌then◌else◌,
}
use legal_ai_copilot.Prelude.Table.{exists_where}
use legal_ai_copilot.Http.{Reply, ok, http}
use legal_ai_copilot.Accounts.Rows.{Accounts}

abbrev pub Session : Type 0 → Type 0
Session A = Accounts → Reply A × Accounts

module _ {A : Type 0} where
  abbrev pub pure : A → Session A
  pure a d = (ok a, d)

  abbrev pub raise : ℕ → Session A
  raise code d = (http code, d)

  abbrev pub gets : (Accounts → A) → Session A
  gets f d = (ok (f d), d)

  abbrev pub or_raise : Option A → ℕ → Session A
  or_raise none code = raise code
  or_raise (some a) code = pure a

  abbrev pub roll_back : Reply A → Accounts → Accounts → Reply A × Accounts
  roll_back (ok a) before after = (ok a, after)
  roll_back (http code) before after = (http code, before)

  abbrev pub transaction : Session A → Session A
  transaction m d = let (r, d') = m d in roll_back r d d'

  -- an INSERT into the table that `get` reads and `put` writes
  abbrev pub insert :
      (A → A → Bool) → (Accounts → List A) → (List A → Accounts → Accounts) → A → Session Unit
  insert clash get put row d = elim (exists_where (clash row) (get d)) [
    | true ↦ (http 500, d)
    | false ↦ (ok tt, put (row ∷ get d) d)
  ]

abbrev pub raise_if : Bool → ℕ → Session Unit
raise_if b code d = (if b then http code else ok tt, d)

abbrev pub raise_unless : Bool → ℕ → Session Unit
raise_unless b code d = (if b then ok tt else http code, d)

abbrev pub modify : (Accounts → Accounts) → Session Unit
modify f d = (ok tt, f d)

infixl 5 ◌>>=◌ ◌>>◌
abbrev pub ◌>>=◌ : {A B : Type 0} → Session A → (A → Session B) → Session B
◌>>=◌ m f d = let (r, d') = m d in elim r [ ok a ↦ f a d' | http code ↦ (http code, d') ]

abbrev pub ◌>>◌ : {A B : Type 0} → Session A → Session B → Session B
m >> k = m >>= λ _. k

-- `scalar_one_or_none`: more than one row raises `MultipleResultsFound`
abbrev pub scalar : {A : Type 0} → List A → Reply (Option A)
scalar [] = ok none
scalar (x ∷ []) = ok (some x)
scalar (x ∷ y ∷ rest) = http 500
