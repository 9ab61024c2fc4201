-- ===== src/Slots/Semaphore.antt =====
-- app/redis_client.py: `acquire_llm_slot` and `release_llm_slot`, with the commands of Redis that
-- they run. Times are in seconds.
use legal_ai_copilot.Prelude.{
  ℕ, ◌+◌, not, Option, none, some, List, [], ◌∷◌, length, ltb, leb, ◌==◌, if◌then◌else◌,
}
use legal_ai_copilot.Prelude.Table.{select}

-- a member of the sorted set, with its score
pub record Lease : Type 0 where
  pub lease_id : ℕ
  pub taken_at : ℕ

-- the key "llm_slots:{org_id}" and the time at which it expires
pub record Slots : Type 0 where
  pub leases : List Lease
  pub expires_at : ℕ

abbrev pub Redis : Type 0
Redis = ℕ → Slots

-- the members at a time: a key that has expired is gone
unfoldable pub live : ℕ → Slots → List Lease
live now s = if ltb now s.expires_at then s.leases else []

abbrev pub set_slots : ℕ → Slots → Redis → Redis
set_slots org s r = λ o. if o == org then s else r o

-- ZREMRANGEBYSCORE key 0 now-120
unfoldable pub zremrangebyscore : ℕ → List Lease → List Lease
zremrangebyscore now = select (λ l. ltb now (l.taken_at + 120))

-- ZADD: a member that is there gets the new score
unfoldable pub zadd : ℕ → ℕ → List Lease → List Lease
zadd lease_id now leases =
    record { lease_id = lease_id; taken_at = now }
    ∷ select (λ l. not (l.lease_id == lease_id)) leases

-- ZREM
unfoldable pub zrem : ℕ → List Lease → List Lease
zrem lease_id = select (λ l. not (l.lease_id == lease_id))

-- `fresh` is the value of `uuid4`
unfoldable pub acquire_llm_slot : ℕ → ℕ → ℕ → ℕ → Redis → Option ℕ × Redis
unfolding live zremrangebyscore zadd
acquire_llm_slot max_slots org now fresh r =
    let kept = zremrangebyscore now (live now (r org)) in
    if leb max_slots (length kept)
    then (none, set_slots org (record (r org) { leases = kept }) r)
    else (
      some fresh,
      set_slots org (record { leases = zadd fresh now kept; expires_at = now + 300 }) r,
    )

unfoldable pub release_llm_slot : ℕ → ℕ → Redis → Redis
unfolding zrem
release_llm_slot org lease_id r =
    set_slots org (record (r org) { leases = zrem lease_id (r org).leases }) r

-- what the workers do, in the order in which Redis sees it
pub data Step : Type 0 where
  acquire : ℕ → ℕ → ℕ → Step
  release : ℕ → ℕ → Step

unfoldable pub step : ℕ → Step → Redis → Redis
unfolding acquire_llm_slot release_llm_slot
step max_slots (acquire org now fresh) r = (acquire_llm_slot max_slots org now fresh r).1
step max_slots (release org lease_id) r = release_llm_slot org lease_id r

unfoldable pub run : ℕ → List Step → Redis → Redis
unfolding step
run max_slots [] r = r
run max_slots (s ∷ steps) r = run max_slots steps (step max_slots s r)
