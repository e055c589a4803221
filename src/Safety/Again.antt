-- ===== src/Safety/Again.antt =====
-- A request ID that was answered once is answered the same way again.
use runner_loom.Base.{
  ℕ, true, false, String, none, some, List, [], ◌∷◌, ◌≡◌, refl, ap, ◌∙◌, inl, inr, str_eq, arith,
  Bool-cases, eq_iff, ok,
}
use runner_loom.Instance.{Instance}
use runner_loom.Store.{
  Store, InstanceRow, payloads, place_row, read_config, read_instances, read_nodes,
}
use runner_loom.Store.Allocate.{allocate, by_request}
use runner_loom.Scheduler.Place.{instance_at}
use runner_loom.Ledger.Allocate.{place-Placed}
use runner_loom.Safety.Operations.{
  allocate_new-Inserted, allocate-cases, find_pool-name, insert_instance-eq, row_of, bad_request,
}

by_request-place_row :
    (request : String) (r : InstanceRow) (rows : List InstanceRow)
    → str_eq r.payload.request_id request ≡ true
    → by_request request (payloads rows) ≡ none
    → by_request request (payloads (place_row r rows)) ≡ some r.payload
unfolding by_request place_row
by_request-place_row request r [] e h = rw e refl
by_request-place_row request r (q ∷ rows) e h =
    ground (arith, by_request-place_row request r rows e)

-- What answers a repeated request.
answered :
    (now : ℕ) (id request pool : String) (s : Store) (a : Instance)
    → bad_request request ≡ false
    → by_request request (read_instances s) ≡ some a
    → str_eq a.pool.name pool ≡ true
    → allocate now id request pool s ≡ ok (s, a)
unfolding allocate bad_request
answered now id request pool s a b e f = rw b (rw e (rw f refl))

good_request :
    (now : ℕ) (id request pool : String) (s t : Store) (a : Instance)
    → allocate now id request pool s ≡ ok (t, a)
    → bad_request request ≡ false
unfolding allocate bad_request
good_request now id request pool s t a h = elim (Bool-cases (bad_request request)) [
  | inl e ↦ cc (rw (e, allocate, bad_request) at h)
  | inr e ↦ e
]

found_pool :
    (now : ℕ) (id request pool : String) (s t : Store) (a : Instance)
    → by_request request (read_instances s) ≡ some a
    → allocate now id request pool s ≡ ok (t, a)
    → str_eq a.pool.name pool ≡ true
unfolding allocate bad_request
found_pool now id request pool s t a e h = elim (Bool-cases (str_eq a.pool.name pool)) [
  | inl f ↦ f
  | inr f ↦
      let b = good_request now id request pool s t a h in
      cc (rw f at (rw (e, allocate) at (rw (b, allocate, bad_request) at h)))
]

-- After a successful Allocate the same request ID for the same Pool, at any time, returns the
-- same instance and changes nothing.
pub allocate-again :
    (now later : ℕ) (id other request pool : String) (s t : Store) (a : Instance)
    → allocate now id request pool s ≡ ok (t, a)
    → allocate later other request pool t ≡ ok (t, a)
unfolding row_of instance_at
allocate-again now later id other request pool s t a h =
    elim (allocate-cases now id request pool s t a h) [
      | inl (e, q) ↦
          answered later other request pool t a good
            (ap (λ x. by_request request (read_instances x)) q ∙ e)
            (found_pool now id request pool s t a e h)
      | inr (e, n) ↦
          let i = allocate_new-Inserted now id request pool s t a n in
          let (_, q) = insert_instance-eq a s t i.inserted in
          let p =
            place-Placed (read_config s).0 i.shape (read_instances s) (read_nodes s) now id request
              a i.chosen in
          let name = find_pool-name (read_config s).0.pools pool i.shape i.known in
          answered later other request pool t a good
            (ap (λ x. by_request request (read_instances x)) q
              ∙ stored e (ap (λ (x : Instance). x.request_id) p.made))
            ((eq_iff a.pool.name pool).1 (ap (λ (x : Instance). x.pool.name) p.made ∙ name))
    ]
  where
    good : bad_request request ≡ false
    good = good_request now id request pool s t a h

    stored :
        by_request request (read_instances s) ≡ none
        → a.request_id ≡ request
        → by_request request (payloads (place_row (row_of a) s.instances)) ≡ some a
    stored e r =
        by_request-place_row request (row_of a) s.instances ((eq_iff a.request_id request).1 r) e
