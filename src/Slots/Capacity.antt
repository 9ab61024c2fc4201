-- ===== src/Slots/Capacity.antt =====
-- The number of leases of an organisation.
use legal_ai_copilot.Prelude.{
  ℕ, ◌+◌, ◌≤◌, ◌<◌, ◌⊎◌, none, some, refl, Bool, List, [], ◌∷◌, length, arith, ltb, leb, not, ◌==◌,
  Bool-cases, inl, inr, ◌≡◌, true, false,
}
use legal_ai_copilot.Prelude.Table.{select}
use legal_ai_copilot.Slots.Semaphore.{
  Lease, Slots, Redis, live, set_slots, zremrangebyscore, zadd, zrem, acquire_llm_slot,
  release_llm_slot, Step, step, run,
}

length-select : {A : Type 0} (p : A → Bool) (xs : List A) → length (select p xs) ≤ length xs
unfolding select
length-select p [] = omega arith
length-select p (x ∷ xs) = ground (arith, length-select p xs)

pub le_cases : (m n : ℕ) → (m ≤ n) ⊎ (n < m)
le_cases m n = ground arith

-- no organisation has more leases than slots
abbrev pub IsWithin : ℕ → Redis → Type 0
IsWithin max_slots r = (org : ℕ) → length (r org).leases ≤ max_slots

set_slots-IsWithin :
    (max_slots org : ℕ) (s : Slots) (r : Redis)
    → length s.leases ≤ max_slots
    → IsWithin max_slots r
    → IsWithin max_slots (set_slots org s r)
set_slots-IsWithin max_slots org s r small within o = elim (Bool-cases (o == org)) [
  | inl same ↦ rw same small
  | inr other ↦ rw other (within o)
]

live-length : (now : ℕ) (s : Slots) → length (live now s) ≤ length s.leases
unfolding live
live-length now s = ground arith

zadd-length :
    (lease_id now : ℕ) (leases : List Lease) → length (zadd lease_id now leases) ≤ length leases + 1
unfolding zadd
zadd-length lease_id now leases =
    omega (arith, length-select (λ (l : Lease). not (l.lease_id == lease_id)) leases)

zremrangebyscore-length :
    (now : ℕ) (leases : List Lease) → length (zremrangebyscore now leases) ≤ length leases
unfolding zremrangebyscore
zremrangebyscore-length now = length-select (λ l. ltb now (l.taken_at + 120))

-- the leases of an organisation that a call of `acquire_llm_slot` keeps
abbrev pub kept_leases : ℕ → Slots → List Lease
kept_leases now s = zremrangebyscore now (live now s)

module _ (max_slots org now fresh : ℕ) (r : Redis) where
  pub acquire_full :
      max_slots ≤ length (kept_leases now (r org))
      → acquire_llm_slot max_slots org now fresh r
        ≡ (none, set_slots org (record (r org) { leases = kept_leases now (r org) }) r)
  unfolding acquire_llm_slot
  acquire_full full = rw (is_full full) refl
    where
      is_full :
          max_slots ≤ length (kept_leases now (r org))
          → leb max_slots (length (kept_leases now (r org))) ≡ true
      is_full full = ground (arith, full)

  pub acquire_taken :
      length (kept_leases now (r org)) < max_slots
      → acquire_llm_slot max_slots org now fresh r ≡ (
        some fresh,
        set_slots org
            (record { leases = zadd fresh now (kept_leases now (r org)); expires_at = now + 300 })
            r,
      )
  unfolding acquire_llm_slot
  acquire_taken room = rw (is_free room) refl
    where
      is_free :
          length (kept_leases now (r org)) < max_slots
          → leb max_slots (length (kept_leases now (r org))) ≡ false
      is_free room = ground (arith, room)

  kept-length : length (kept_leases now (r org)) ≤ length (r org).leases
  kept-length =
      omega (arith, zremrangebyscore-length now (live now (r org)), live-length now (r org))

  acquire-IsWithin :
      IsWithin max_slots r → IsWithin max_slots (acquire_llm_slot max_slots org now fresh r).1
  acquire-IsWithin within = elim (le_cases max_slots (length (kept_leases now (r org)))) [
    | inl full ↦ rw (acquire_full full) (
        set_slots-IsWithin max_slots org (record (r org) { leases = kept_leases now (r org) }) r
          (omega (arith, kept-length, within org)) within)
    | inr room ↦ rw (acquire_taken room) (
        set_slots-IsWithin max_slots org
          (record { leases = zadd fresh now (kept_leases now (r org)); expires_at = now + 300 }) r
          (omega (arith, room, zadd-length fresh now (kept_leases now (r org)))) within)
  ]

step-IsWithin :
    (max_slots : ℕ) (s : Step) (r : Redis)
    → IsWithin max_slots r
    → IsWithin max_slots (step max_slots s r)
unfolding step release_llm_slot zrem
step-IsWithin max_slots (Step.acquire org now fresh) r within =
    acquire-IsWithin max_slots org now fresh r within
step-IsWithin max_slots (Step.release org lease_id) r within =
    set_slots-IsWithin max_slots org (record (r org) { leases = zrem lease_id (r org).leases }) r
      (omega (arith, length-select (λ l. not (l.lease_id == lease_id)) (r org).leases, within org))
      within

-- Whatever the order of acquisitions and releases, no organisation ever has more leases than
-- `max_slots`, where each of the two functions runs as one step.
pub run-IsWithin :
    (max_slots : ℕ) (steps : List Step) (r : Redis)
    → IsWithin max_slots r
    → IsWithin max_slots (run max_slots steps r)
unfolding run
run-IsWithin max_slots [] r within = within
run-IsWithin max_slots (s ∷ steps) r within =
    run-IsWithin max_slots steps (step max_slots s r) (step-IsWithin max_slots s r within)
