-- ===== src/Scheduler/Place.antt =====
-- internal/core/task.go: `placeTx`, the choice of a Node and the record of the new VM.
use runner_loom.Base.{
  ℕ, ◌+◌, ◌-◌, false, String, List, [], ◌∷◌, is_empty, Result, ok, err, fail, if◌then◌else◌,
}
use runner_loom.Base.Int64
use runner_loom.Base.Int64.{ℤ, pos, pos_part, neg_part}
use runner_loom.Config.{Config, Pool, charge, image_or_zero}
use runner_loom.Instance.{Instance, State}
use runner_loom.Scheduler.{Candidate, Observations, candidates}

-- `now.Add(time.Duration(minutes) * time.Minute)`, in nanoseconds.
unfoldable pub after_minutes : ℕ → ℤ → ℕ
after_minutes now minutes =
    let d = Int64.mul minutes (pos 60000000000) in now + pos_part d - neg_part d

unfoldable pub instance_at : Config → ℕ → String → String → Pool → Candidate → Instance
instance_at c now id request p v = record {
  id = id;
  request_id = request;
  node = v.node;
  pool = p;
  image = image_or_zero c p.image;
  state = State.reserved;
  reservation = v.reservation;
  held = charge p;
  runner_id = pos 0;
  outcome = "";
  created = now;
  deadline = after_minutes now (Int64.add p.execution_minutes (pos 10));
  updated = now;
  jit_ready = false;
  task = "";
}

unfoldable pub choose : Config → ℕ → String → String → Pool → List Candidate → Result Instance
unfolding instance_at
choose c now id request p [] = err (fail "NO_CAPACITY")
choose c now id request p (v ∷ rows) =
    if is_empty v.reasons then ok (instance_at c now id request p v) else err (fail "NO_CAPACITY")

-- `id` is the fresh value of `ID()`.
unfoldable pub place :
    Config → List Instance → Observations → ℕ → String → String → Pool → Result Instance
unfolding choose
place c runs obs now id request p = choose c now id request p (candidates c p runs obs now)
