-- ===== src/Prelude/Table.antt =====
-- A database table as the list of its rows: the SELECT and UPDATE statements with a WHERE clause.
use mathlib.Core.Path.{◌≡◌}
use mathlib.Core.Logic.{inl, inr}
use mathlib.Core.Bool.{Bool, true, false, ◌||◌}
use mathlib.Core.Option.{Option, none, some}
use mathlib.Core.List.{List, [], ◌∷◌}
use native.Mathlib.Omega.{arith}
use Prim.Native.Nat.{ℕ}
use legal_ai_copilot.Prelude.Tests.{◌==◌, if◌then◌else◌, Bool-cases}
use legal_ai_copilot.Prelude.Lists.{Among, All}

module _ {A : Type 0} where
  -- SELECT … WHERE p
  unfoldable pub select : (A → Bool) → List A → List A
  select p [] = []
  select p (x ∷ xs) = let rest = select p xs in if p x then x ∷ rest else rest

  -- the row that `scalar_one_or_none` returns, for a WHERE clause that names a key
  unfoldable pub select_one : (A → Bool) → List A → Option A
  select_one p [] = none
  select_one p (x ∷ xs) = let rest = select_one p xs in if p x then some x else rest

  -- EXISTS (SELECT 1 … WHERE p)
  unfoldable pub exists_where : (A → Bool) → List A → Bool
  exists_where p [] = false
  exists_where p (x ∷ xs) = p x || exists_where p xs

  -- UPDATE … SET f WHERE p
  unfoldable pub update_where : (A → Bool) → (A → A) → List A → List A
  update_where p f [] = []
  update_where p f (x ∷ xs) = (if p x then f x else x) ∷ update_where p f xs

  pub Among-select_one :
      (p : A → Bool) (xs : List A) (a : A) → select_one p xs ≡ some a → Among a xs × (p a ≡ true)
  unfolding select_one
  Among-select_one p [] a h = absurd (cc)
  Among-select_one p (x ∷ xs) a h = elim (Bool-cases (p x)) [
    | inl e ↦ ground arith
    | inr e ↦ ground (arith, Among-select_one p xs a)
  ]

  pub Among-select :
      (p : A → Bool) (xs : List A) (a : A) → Among a (select p xs) → Among a xs × (p a ≡ true)
  unfolding select
  Among-select p [] a h = absurd h
  Among-select p (x ∷ xs) a h = ground (arith, Among-select p xs a)

  -- A row that the WHERE clause does not name is still there.
  pub Among-update_where :
      (p : A → Bool) (f : A → A) (xs : List A) (a : A)
      → Among a xs
      → p a ≡ false
      → Among a (update_where p f xs)
  unfolding update_where
  Among-update_where p f [] a m e = m
  Among-update_where p f (x ∷ xs) a m e = ground (arith, Among-update_where p f xs a)

  -- A row that the WHERE clause names is there with its new values.
  pub Among-update_where-hit :
      (p : A → Bool) (f : A → A) (xs : List A) (a : A)
      → Among a xs
      → p a ≡ true
      → Among (f a) (update_where p f xs)
  unfolding update_where
  Among-update_where-hit p f [] a m e = absurd m
  Among-update_where-hit p f (x ∷ xs) a m e = ground (arith, Among-update_where-hit p f xs a)

  -- A row that is there and that the WHERE clause names is selected.
  pub Among-select-hit :
      (p : A → Bool) (xs : List A) (a : A) → Among a xs → p a ≡ true → Among a (select p xs)
  unfolding select
  Among-select-hit p [] a m e = absurd m
  Among-select-hit p (x ∷ xs) a m e = ground (arith, Among-select-hit p xs a)

  pub exists_where-hit :
      (p : A → Bool) (xs : List A) (a : A) → Among a xs → p a ≡ true → exists_where p xs ≡ true
  unfolding exists_where
  exists_where-hit p [] a m e = absurd m
  exists_where-hit p (x ∷ xs) a m e = ground (arith, exists_where-hit p xs a)

  pub exists_where-miss :
      (p : A → Bool) (xs : List A)
      → ((x : A) → Among x xs → p x ≡ false)
      → exists_where p xs ≡ false
  unfolding exists_where
  exists_where-miss p [] none_hits = λ i. false
  exists_where-miss p (x ∷ xs) none_hits =
      ground
        (arith, none_hits x (inl (λ i. x)), exists_where-miss p xs (λ y m. none_hits y (inr m)))

  -- A query finds nothing where a wider EXISTS does not.
  pub select_one-exists_where :
      (q p : A → Bool) (xs : List A)
      → ((x : A) → q x ≡ true → p x ≡ true)
      → exists_where p xs ≡ false
      → select_one q xs ≡ none
  unfolding select_one exists_where
  select_one-exists_where q p [] wider h = λ i. none
  select_one-exists_where q p (x ∷ xs) wider h =
      ground (arith, wider x, select_one-exists_where q p xs wider)

  pub update_where-miss :
      (p : A → Bool) (f : A → A) (xs : List A)
      → exists_where p xs ≡ false
      → update_where p f xs ≡ xs
  unfolding update_where exists_where
  update_where-miss p f [] h = λ i. []
  update_where-miss p f (x ∷ xs) h = ground (arith, update_where-miss p f xs)

  -- An update whose rows no longer match its WHERE clause does nothing the second time.
  pub update_where-again :
      (p : A → Bool) (f : A → A) (xs : List A)
      → ((x : A) → p x ≡ true → p (f x) ≡ false)
      → (update_where p f (update_where p f xs) ≡ update_where p f xs)
        × (select p (update_where p f xs) ≡ [])
  unfolding update_where select
  update_where-again p f [] leaves = (λ i. [], λ i. [])
  update_where-again p f (x ∷ xs) leaves =
      ground (arith, leaves x, update_where-again p f xs leaves)

  -- Every row after an update comes from one before it.
  pub update_where_source :
      (p : A → Bool) (f : A → A) (xs : List A) (b : A)
      → Among b (update_where p f xs)
      → (a : A) × Among a xs × (b ≡ (if p a then f a else a))
  unfolding update_where
  update_where_source p f [] b m = absurd m
  update_where_source p f (x ∷ xs) b (inl e) = (x, inl (λ i. x), e)
  update_where_source p f (x ∷ xs) b (inr m) =
      let (a, found, e) = update_where_source p f xs b m in (a, inr found, e)

  -- An update is invisible to a query whose rows it neither takes nor makes.
  pub select-update_where :
      (q p : A → Bool) (f : A → A) (xs : List A)
      → ((x : A) → Among x xs → p x ≡ true → q x ≡ false)
      → ((x : A) → Among x xs → p x ≡ true → q (f x) ≡ false)
      → select q (update_where p f xs) ≡ select q xs
  unfolding select update_where
  select-update_where q p f [] before after = λ i. []
  select-update_where q p f (x ∷ xs) before after = ground (
    arith,
    before x (inl (λ i. x)),
    after x (inl (λ i. x)),
    select-update_where q p f xs (λ y m. before y (inr m)) (λ y m. after y (inr m)),
  )

  -- An update whose rows include all that a query takes, and that it no longer takes.
  pub select_one-update_where-none :
      (q p : A → Bool) (f : A → A) (xs : List A)
      → ((x : A) → Among x xs → q x ≡ true → p x ≡ true)
      → ((x : A) → p x ≡ true → q (f x) ≡ false)
      → select_one q (update_where p f xs) ≡ none
  unfolding select_one update_where
  select_one-update_where-none q p f [] inside out = λ i. none
  select_one-update_where-none q p f (x ∷ xs) inside out = ground (
    arith,
    inside x (inl (λ i. x)),
    out x,
    select_one-update_where-none q p f xs (λ y m. inside y (inr m)) out,
  )

  pub select_one-update_where-other :
      (q p : A → Bool) (f : A → A) (xs : List A)
      → ((x : A) → Among x xs → p x ≡ true → q x ≡ false)
      → ((x : A) → p x ≡ true → q (f x) ≡ false)
      → select_one q (update_where p f xs) ≡ select_one q xs
  unfolding select_one update_where
  select_one-update_where-other q p f [] before after = λ i. none
  select_one-update_where-other q p f (x ∷ xs) before after = ground (
    arith,
    before x (inl (λ i. x)),
    after x,
    select_one-update_where-other q p f xs (λ y m. before y (inr m)) after,
  )

  pub All-update_where :
      (P : A → Type 0) (p : A → Bool) (f : A → A) (xs : List A)
      → ((x : A) → p x ≡ true → P x → P (f x))
      → All P xs
      → All P (update_where p f xs)
  unfolding update_where
  All-update_where P p f [] keep h = h
  All-update_where P p f (x ∷ xs) keep h = elim (Bool-cases (p x)) [
    | inl e ↦ rw e (keep x e h.0, All-update_where P p f xs keep h.1)
    | inr e ↦ rw e (h.0, All-update_where P p f xs keep h.1)
  ]

  -- `key` is a primary key of the table.
  abbrev pub IsKey : {B : Type 0} → (A → B) → List A → Type 0
  IsKey key xs = (a b : A) → Among a xs → Among b xs → key a ≡ key b → a ≡ b

  -- An update of one row that makes it the first one that a query takes.
  pub select_one-update_where-hit :
      (q p : A → Bool) (f : A → A) (xs : List A) (a : A)
      → Among a xs
      → p a ≡ true
      → q (f a) ≡ true
      → ((x : A) → Among x xs → p x ≡ true → x ≡ a)
      → select_one q xs ≡ none
      → select_one q (update_where p f xs) ≡ some (f a)
  unfolding select_one update_where
  select_one-update_where-hit q p f [] a m hit takes only missed = absurd m
  select_one-update_where-hit q p f (x ∷ xs) a m hit takes only missed = elim (Bool-cases (p x)) [
    | inl e ↦ ground (arith, only x (inl (λ i. x)))
    | inr e ↦ ground (
      arith,
      select_one-update_where-hit q p f xs a (ground arith) hit takes
          (λ y among. only y (inr among)) (ground arith),
    )
  ]

  -- A key names one row.
  pub select_one-IsKey :
      (key : A → ℕ) (xs : List A) (a : A)
      → IsKey key xs
      → Among a xs
      → select_one (λ x. key x == key a) xs ≡ some a
  unfolding select_one
  select_one-IsKey key [] a unique m = absurd m
  select_one-IsKey key (x ∷ xs) a unique m = elim (Bool-cases (key x == key a)) [
    | inl e ↦ ground (arith, unique x a (inl (λ i. x)))
    | inr e ↦ ground (
      arith,
      select_one-IsKey key xs a (λ b b' mb mb'. unique b b' (inr mb) (inr mb')) (ground arith),
    )
  ]

  key-image :
      {B : Type 0} (key : A → B) (p : A → Bool) (f : A → A) (x : A)
      → key (f x) ≡ key x
      → key (if p x then f x else x) ≡ key x
  key-image key p f x same = ground arith

  pub update_where-IsKey :
      {B : Type 0} (key : A → B) (p : A → Bool) (f : A → A) (xs : List A)
      → ((x : A) → key (f x) ≡ key x)
      → IsKey key xs
      → IsKey key (update_where p f xs)
  update_where-IsKey key p f xs same h a b ma mb e =
      let (a', fa, ea) = update_where_source p f xs a ma in
      let (b', fb, eb) = update_where_source p f xs b mb in
      let same_row : a' ≡ b' =
        h a' b' fa fb
          (cc (ea, eb, e, key-image key p f a' (same a'), key-image key p f b' (same b'))) in
      cc (ea, eb, same_row)

abbrev pub map_row {ℓ κ} : {A : Type ℓ} {B : Type κ} → (A → B) → Option A → Option B
map_row f none = none
map_row f (some a) = some (f a)

-- Reading a row by its key after an update by the same key.
pub select_one-update_where :
    {A : Type 0} (key : A → ℕ) (k : ℕ) (f : A → A) (xs : List A)
    → ((x : A) → key (f x) ≡ key x)
    → select_one (λ x. key x == k) (update_where (λ x. key x == k) f xs)
      ≡ map_row f (select_one (λ x. key x == k) xs)
unfolding select_one update_where
select_one-update_where key k f [] same = λ i. none
select_one-update_where key k f (x ∷ xs) same =
    ground (arith, same x, select_one-update_where key k f xs same)
