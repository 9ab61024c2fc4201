-- ===== src/Http.antt =====
-- What a FastAPI handler does: it reads and writes the database, and it returns or raises an
-- `HTTPException` with a status code. What was written before a raise stays written, so the
-- state comes back in both cases.
use legal_ai_copilot.Prelude.{
  ◌⊎◌, inl, inr, refl, ℕ, String, Bool, Option, none, some, if◌then◌else◌, ◌≡◌,
}
use legal_ai_copilot.Database.{Db, dispatch}

pub data Reply (A : Type 0) : Type 0 where
  ok : A → Reply A
  http : ℕ → Reply A

pub Reply-cases :
    {A : Type 0} (r : Reply A) → ((a : A) × (r ≡ ok a)) ⊎ ((code : ℕ) × (r ≡ http code))
Reply-cases (ok a) = inl (a, refl)
Reply-cases (http code) = inr (code, refl)

-- what a request brings: the organisation of `get_org_id_unified`, `request.state.user_id`, the
-- clock, SUPABASE_JWT_SECRET in the environment, and whether the Celery broker takes a task
pub record Request : Type 0 where
  pub org_id : ℕ
  pub user_id : Option ℕ
  pub now : ℕ
  pub secret : Option String
  pub broker_up : Bool

abbrev pub Handler : Type 0 → Type 0
Handler A = Db → Reply A × Db

module _ {A : Type 0} where
  abbrev pub pure : A → Handler A
  pure a d = (ok a, d)

  abbrev pub raise : ℕ → Handler A
  raise code d = (http code, d)

  abbrev pub gets : (Db → A) → Handler A
  gets f d = (ok (f d), d)

  abbrev pub or_raise : Option A → ℕ → Handler A
  or_raise none code = raise code
  or_raise (some a) code = pure a

abbrev pub raise_if : Bool → ℕ → Handler Unit
raise_if b code d = (if b then http code else ok tt, d)

abbrev pub raise_unless : Bool → ℕ → Handler Unit
raise_unless b code d = (if b then ok tt else http code, d)

abbrev pub modify : (Db → Db) → Handler Unit
modify f d = (ok tt, f d)

infixl 5 ◌>>=◌ ◌>>◌
abbrev pub ◌>>=◌ : {A B : Type 0} → Handler A → (A → Handler B) → Handler B
◌>>=◌ m f d = let (r, d') = m d in elim r [ ok a ↦ f a d' | http code ↦ (http code, d') ]

abbrev pub ◌>>◌ : {A B : Type 0} → Handler A → Handler B → Handler B
m >> k = m >>= λ _. k

-- `send_task("app.tasks.process_workflow", …)`; an error of the broker ends in a status of 500
abbrev pub send_task : Request → ℕ → Handler Unit
send_task req workflow_id d =
    if req.broker_up then (ok tt, dispatch workflow_id d) else (http 500, d)

-- a handler that raised changed nothing
abbrev pub IsAtomic : {A : Type 0} → Handler A → Db → Type 0
IsAtomic m d = (code : ℕ) → (m d).0 ≡ http code → (m d).1 ≡ d
