-- ===== src/Scheduler/Order.antt =====
-- internal/core/store.go: what the sort of `candidates` gives: the rows themselves, a usable row
-- first if there is one.
use runner_loom.Base.{
  ℕ, Bool, false, ◌||◌, List, [], ◌∷◌, ◌≡◌, refl, ◌⊎◌, inl, inr, In, is_empty, arith,
}
use runner_loom.Config.{Config, Pool, Node}
use runner_loom.Instance.{Instance}
use runner_loom.Scheduler.{
  Candidate, Observations, candidate, rows_of, before, insert, sort, candidates,
}

pub insert-In :
    (v a : Candidate) (rows : List Candidate) → In v (insert a rows) → (a ≡ v) ⊎ In v rows
unfolding insert
insert-In v a [] m = m
insert-In v a (b ∷ rows) m = ground (arith, insert-In v a rows)

pub sort-In : (v : Candidate) (rows : List Candidate) → In v (sort rows) → In v rows
unfolding sort
sort-In v [] m = m
sort-In v (a ∷ rows) m = elim (insert-In v a (sort rows) m) [
  | inl e ↦ inl e
  | inr h ↦ inr (sort-In v rows h)
]

pub rows_of-In :
    (c : Config) (p : Pool) (runs : List Instance) (obs : Observations) (now : ℕ) (ns : List Node)
    (v : Candidate)
    → In v (rows_of c p runs obs now ns)
    → (n : Node) × In n ns × (candidate c p runs obs now n ≡ v)
unfolding rows_of
rows_of-In c p runs obs now [] v m = absurd m
rows_of-In c p runs obs now (n ∷ ns) v (inl e) = (n, inl refl, e)
rows_of-In c p runs obs now (n ∷ ns) v (inr m) =
    let (q, h, e) = rows_of-In c p runs obs now ns v m in (q, inr h, e)

pub candidates-In :
    (c : Config) (p : Pool) (runs : List Instance) (obs : Observations) (now : ℕ) (v : Candidate)
    → In v (candidates c p runs obs now)
    → (n : Node) × In n c.nodes × (candidate c p runs obs now n ≡ v)
unfolding candidates
candidates-In c p runs obs now v m =
    rows_of-In c p runs obs now c.nodes v (sort-In v (rows_of c p runs obs now c.nodes) m)

-- The first row is usable.
abbrev pub leads : List Candidate → Bool
leads [] = false
leads (v ∷ rows) = is_empty v.reasons

abbrev pub any_usable : List Candidate → Bool
any_usable [] = false
any_usable (v ∷ rows) = is_empty v.reasons || any_usable rows

leads-insert :
    (a : Candidate) (rows : List Candidate)
    → leads (insert a rows) ≡ (is_empty a.reasons || leads rows)
unfolding insert before
leads-insert a [] = ground arith
leads-insert a (b ∷ rows) = ground arith

pub leads-sort : (rows : List Candidate) → leads (sort rows) ≡ any_usable rows
unfolding sort
leads-sort [] = refl
leads-sort (a ∷ rows) = ground (arith, leads-insert a (sort rows), leads-sort rows)
