-- ===== src/Scheduler/Choice.antt =====
-- internal/core/task.go: `placeTx` finds a Node whenever one can take the VM, and says so when none
-- can.
use runner_loom.Base.{
  ℕ, true, false, String, List, [], ◌∷◌, ◌≡◌, refl, ◌∙◌, sym, subst, inl, inr, In, All, is_empty,
  arith, Fault, fail, ok, err,
}
use runner_loom.Config.{Config, Pool, Node}
use runner_loom.Instance.{Instance}
use runner_loom.Scheduler.{Candidate, Observations, candidate, rows_of, candidates}
use runner_loom.Scheduler.Place.{choose, place, instance_at}
use runner_loom.Scheduler.Order.{leads, any_usable, leads-sort}

choose-leads :
    (c : Config) (now : ℕ) (id request : String) (p : Pool) (rows : List Candidate)
    → leads rows ≡ true
    → (a : Instance) × (choose c now id request p rows ≡ ok a)
unfolding choose
choose-leads c now id request p [] h = cc
choose-leads c now id request p (v ∷ rows) h = (instance_at c now id request p v, rw h refl)

choose-refuses :
    (c : Config) (now : ℕ) (id request : String) (p : Pool) (rows : List Candidate) (f : Fault)
    → choose c now id request p rows ≡ err f
    → (f ≡ fail "NO_CAPACITY") × (leads rows ≡ false)
unfolding choose
choose-refuses c now id request p [] f h = ground arith
choose-refuses c now id request p (v ∷ rows) f h = ground arith

module _ (c : Config) (p : Pool) (runs : List Instance) (obs : Observations) (now : ℕ) where
  any_usable-rows_of :
      (n : Node) (ns : List Node)
      → In n ns
      → is_empty (candidate c p runs obs now n).reasons ≡ true
      → any_usable (rows_of c p runs obs now ns) ≡ true
  unfolding rows_of
  any_usable-rows_of n [] m h = absurd m
  any_usable-rows_of n (q ∷ ns) (inl e) h =
      rw (subst (λ z. is_empty (candidate c p runs obs now z).reasons ≡ true) (sym e) h) refl
  any_usable-rows_of n (q ∷ ns) (inr m) h = ground (arith, any_usable-rows_of n ns m h)

  none_usable-rows_of :
      (ns : List Node)
      → any_usable (rows_of c p runs obs now ns) ≡ false
      → All (λ n. is_empty (candidate c p runs obs now n).reasons ≡ false) ns
  unfolding rows_of
  none_usable-rows_of [] h = tt
  none_usable-rows_of (n ∷ ns) h = ground (arith, none_usable-rows_of ns)

  leads-candidates :
      leads (candidates c p runs obs now) ≡ any_usable (rows_of c p runs obs now c.nodes)
  unfolding candidates
  leads-candidates = leads-sort (rows_of c p runs obs now c.nodes)

-- Whenever some configured Node has no reason against the Pool's next VM, placeTx returns an
-- instance.
pub place-finds :
    (c : Config) (p : Pool) (runs : List Instance) (obs : Observations) (now : ℕ)
    (id request : String) (n : Node)
    → In n c.nodes
    → is_empty (candidate c p runs obs now n).reasons ≡ true
    → (a : Instance) × (place c runs obs now id request p ≡ ok a)
unfolding place
place-finds c p runs obs now id request n m h =
    choose-leads c now id request p (candidates c p runs obs now)
      (leads-candidates c p runs obs now ∙ any_usable-rows_of c p runs obs now n c.nodes m h)

-- When placeTx fails, its code is NO_CAPACITY and each configured Node has at least one reason
-- against the VM.
pub place-refuses :
    (c : Config) (p : Pool) (runs : List Instance) (obs : Observations) (now : ℕ)
    (id request : String) (f : Fault)
    → place c runs obs now id request p ≡ err f
    → (f ≡ fail "NO_CAPACITY")
      × All (λ n. is_empty (candidate c p runs obs now n).reasons ≡ false) c.nodes
unfolding place
place-refuses c p runs obs now id request f h =
    let (e, q) = choose-refuses c now id request p (candidates c p runs obs now) f h in
    (e, none_usable-rows_of c p runs obs now c.nodes (sym (leads-candidates c p runs obs now) ∙ q))
