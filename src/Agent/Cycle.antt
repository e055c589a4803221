-- ===== src/Agent/Cycle.antt =====
-- The agent's cycle: what it asks of the provider, what it reports, how long it waits.
use runner_loom.Base.{ℕ, ◌≤◌, Bool, true, false, List, [], ◌∷◌, All, arith}
use runner_loom.Agent.{next_delay, delays, short_delay, long_delay}

Bounded : ℕ → Type 0
Bounded d = (short_delay ≤ d) × (d ≤ long_delay)

next_delay-bounds : (d : ℕ) (b : Bool) → Bounded d → Bounded (next_delay d b)
unfolding next_delay Bounded
next_delay-bounds d true h = (omega arith, omega arith)
next_delay-bounds d false h = ground arith

-- From a delay between 5 and 30 seconds, every delay between two cycles of the agent is between
-- 5 and 30 seconds, whatever the cycles' outcomes.
pub delays-bounds :
    (d : ℕ) (outcomes : List Bool)
    → short_delay ≤ d
    → d ≤ long_delay
    → All (λ x. (short_delay ≤ x) × (x ≤ long_delay)) (delays d outcomes)
unfolding delays Bounded
delays-bounds d [] lo hi = tt
delays-bounds d (b ∷ outcomes) lo hi =
    let (p, q) = next_delay-bounds d b (lo, hi) in
    ((p, q), delays-bounds (next_delay d b) outcomes p q)
