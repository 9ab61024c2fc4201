-- ===== src/Deadlines/Urgency.antt =====
-- The urgency and the end of a deadline, by the seconds that are left.
use legal_ai_copilot.Prelude.{
  ℕ, true, ◌≡◌, refl, arith, inl, inr, Bool-cases, if◌then◌else◌, ltb, ◌+◌, ◌*◌, ◌-◌, ◌/◌, leb,
}
use legal_ai_copilot.Deadlines.Scanner.{is_due, calculate_urgency, days_remaining}

-- The urgency of a deadline, by the seconds that are left.
unfoldable pub urgency_at : ℕ → ℕ → ℕ
urgency_at now resolved =
    if ltb resolved (now + 1 * 86400)
    then 1000000
    else if ltb resolved (now + 2 * 86400)
    then 950000
    else if ltb resolved (now + 4 * 86400)
    then 850000
    else if ltb resolved (now + 8 * 86400)
    then 700000
    else if ltb resolved (now + 15 * 86400)
    then 500000
    else if ltb resolved (now + 31 * 86400)
    then 300000
    else 100000

whole_days :
    (now resolved k : ℕ)
    → leb now resolved ≡ true
    → leb ((resolved - now) / 86400) k ≡ ltb resolved (now + (k + 1) * 86400)
whole_days now resolved k ahead = ground arith

pub is_due-lem :
    (now resolved : ℕ) → is_due (days_remaining now resolved) ≡ ltb resolved (now + 1 * 86400)
unfolding is_due days_remaining
is_due-lem now resolved = elim (Bool-cases (leb now resolved)) [
  | inl ahead ↦ rw ahead (ground (arith, whole_days now resolved 0))
  | inr past ↦ rw past (ground arith)
]

pub calculate_urgency-lem :
    (now resolved : ℕ) → calculate_urgency (days_remaining now resolved) ≡ urgency_at now resolved
unfolding calculate_urgency days_remaining urgency_at
calculate_urgency-lem now resolved = elim (Bool-cases (leb now resolved)) [
  | inl ahead ↦ rw ahead (
      rw
        (
          whole_days now resolved 0 ahead,
          whole_days now resolved 1 ahead,
          whole_days now resolved 3 ahead,
          whole_days now resolved 7 ahead,
          whole_days now resolved 14 ahead,
          whole_days now resolved 30 ahead,
        )
        refl)
  | inr past ↦ rw past (ground arith)
]
