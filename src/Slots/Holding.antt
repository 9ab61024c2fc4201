-- ===== src/Slots/Holding.antt =====
-- How long a lease is held.
use legal_ai_copilot.Prelude.{
  ℕ, ◌+◌, ◌≤◌, ◌<◌, ◌≡◌, ◌≢◌, false, not, ◌&&◌, List, [], ◌∷◌, All, Among, inl, inr, arith,
  Bool-cases, subst, length, ltb, ◌==◌, eq_of_test, test_of_eq,
}
use legal_ai_copilot.Prelude.Table.{Among-select-hit}
use legal_ai_copilot.Slots.Semaphore.{
  Lease, Slots, Redis, live, set_slots, zremrangebyscore, zadd, zrem, acquire_llm_slot,
  release_llm_slot, Step, step, run,
}
use legal_ai_copilot.Slots.Capacity.{kept_leases, acquire_full, acquire_taken, le_cases}

-- the lease `id` that the organisation took at `t`
abbrev pub lease_of : ℕ → ℕ → Lease
lease_of id t = record { lease_id = id; taken_at = t }

-- the lease is in the set, and the key outlives it
abbrev pub IsHeld : ℕ → ℕ → ℕ → Redis → Type 0
IsHeld org id t r = Among (lease_of id t) (r org).leases × (t + 120 ≤ (r org).expires_at)

-- the step is at most 120 seconds after `t`, and neither reuses nor releases the lease
unfoldable pub IsHarmless : ℕ → ℕ → ℕ → Step → Type 0
IsHarmless org id t (Step.acquire o now fresh) = (t ≤ now) × (now < t + 120) × (id ≢ fresh)
IsHarmless org id t (Step.release o lease_id) = (org == o && id == lease_id) ≡ false

live-held :
    (org id t now : ℕ) (r : Redis)
    → now < t + 120
    → IsHeld org id t r
    → Among (lease_of id t) (live now (r org))
unfolding live
live-held org id t now r soon (m, lasts) = ground arith

kept-held :
    (org id t now : ℕ) (r : Redis)
    → now < t + 120
    → IsHeld org id t r
    → Among (lease_of id t) (kept_leases now (r org))
unfolding zremrangebyscore
kept-held org id t now r soon held =
    Among-select-hit (λ l. ltb now (l.taken_at + 120)) (live now (r org)) (lease_of id t)
      (live-held org id t now r soon held) (ground arith)

zadd-held :
    (id t fresh now : ℕ) (leases : List Lease)
    → id ≢ fresh
    → Among (lease_of id t) leases
    → Among (lease_of id t) (zadd fresh now leases)
unfolding zadd
zadd-held id t fresh now leases other m = inr (
    Among-select-hit (λ l. not (l.lease_id == fresh)) leases (lease_of id t) m
      (ground (arith, other)))

-- a change of the key of one organisation
set_slots-IsHeld :
    (org id t o : ℕ) (s : Slots) (r : Redis)
    → (org ≡ o → Among (lease_of id t) s.leases × (t + 120 ≤ s.expires_at))
    → IsHeld org id t r
    → IsHeld org id t (set_slots o s r)
set_slots-IsHeld org id t o s r own held = elim (Bool-cases (org == o)) [
  | inl same ↦ rw same (own (eq_of_test org o same))
  | inr other ↦ rw other held
]

acquire-IsHeld :
    (max_slots org id t o now fresh : ℕ) (r : Redis)
    → now < t + 120
    → id ≢ fresh
    → t ≤ now
    → IsHeld org id t r
    → IsHeld org id t (acquire_llm_slot max_slots o now fresh r).1
acquire-IsHeld max_slots org id t o now fresh r soon other after held =
    elim (le_cases max_slots (length (kept_leases now (r o)))) [
      | inl full ↦ rw (acquire_full max_slots o now fresh r full) (
          set_slots-IsHeld org id t o (record (r o) { leases = kept_leases now (r o) }) r
            (λ e.
              subst
                (λ k. Among (lease_of id t) (kept_leases now (r k)) × (t + 120 ≤ (r k).expires_at))
                e (kept-held org id t now r soon held, held.1))
            held)
      | inr room ↦ rw (acquire_taken max_slots o now fresh r room) (
          set_slots-IsHeld org id t o
            (record { leases = zadd fresh now (kept_leases now (r o)); expires_at = now + 300 }) r
            (λ e. (
              zadd-held id t fresh now (kept_leases now (r o)) other (
                  subst (λ k. Among (lease_of id t) (kept_leases now (r k))) e
                    (kept-held org id t now r soon held)),
              omega (arith, after),
            ))
            held)
    ]

release-IsHeld :
    (org id t o lease_id : ℕ) (r : Redis)
    → (org == o && id == lease_id) ≡ false
    → IsHeld org id t r
    → IsHeld org id t (release_llm_slot o lease_id r)
unfolding release_llm_slot zrem
release-IsHeld org id t o lease_id r other held =
    set_slots-IsHeld org id t o (record (r o) { leases = zrem lease_id (r o).leases }) r
      (λ e. (
        Among-select-hit (λ l. not (l.lease_id == lease_id)) (r o).leases (lease_of id t)
            (subst (λ k. Among (lease_of id t) (r k).leases) e held.0)
            (ground (arith, other, test_of_eq org o e)),
        subst (λ k. t + 120 ≤ (r k).expires_at) e held.1,
      ))
      held

step-IsHeld :
    (max_slots org id t : ℕ) (s : Step) (r : Redis)
    → IsHarmless org id t s
    → IsHeld org id t r
    → IsHeld org id t (step max_slots s r)
unfolding step IsHarmless
step-IsHeld max_slots org id t (Step.acquire o now fresh) r (after, soon, other) held =
    acquire-IsHeld max_slots org id t o now fresh r soon other after held
step-IsHeld max_slots org id t (Step.release o lease_id) r other held =
    release-IsHeld org id t o lease_id r other held

-- A lease that an organisation holds stays in its set through any acquisitions and releases of
-- the next 120 seconds that neither release it nor take its id again.
pub run-IsHeld :
    (max_slots org id t : ℕ) (steps : List Step) (r : Redis)
    → All (IsHarmless org id t) steps
    → IsHeld org id t r
    → IsHeld org id t (run max_slots steps r)
unfolding run
run-IsHeld max_slots org id t [] r harmless held = held
run-IsHeld max_slots org id t (s ∷ steps) r harmless held =
    run-IsHeld max_slots org id t steps (step max_slots s r) harmless.1
      (step-IsHeld max_slots org id t s r harmless.0 held)
