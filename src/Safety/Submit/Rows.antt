-- ===== src/Safety/Submit/Rows.antt =====
-- Task rows that are written and then looked up.
use runner_loom.Base.{
  false, ◌&&◌, none, some, List, [], ◌∷◌, ◌≡◌, refl, ap, ◌∙◌, inl, inr, str_eq, str_lt, arith,
  Bool-cases, eq_iff,
}
use runner_loom.Task.{Task}
use runner_loom.Store.{TaskRow, find_task}
use runner_loom.Store.Tasks.{save_task_row}
use runner_loom.Store.Submit.{find_request, task_taken, place_task_row}

pub find_task-place_task_row :
    (r : TaskRow) (rows : List TaskRow)
    → task_taken r.payload.id rows ≡ false
    → find_task r.payload.id (place_task_row r rows) ≡ some r
unfolding find_task place_task_row task_taken
find_task-place_task_row r [] h = rw ((eq_iff r.payload.id r.payload.id).1 refl) refl
find_task-place_task_row r (q ∷ rows) h = elim (Bool-cases (str_lt q.payload.id r.payload.id)) [
  | inl e ↦
      let d : str_eq q.payload.id r.payload.id ≡ false = ground arith in
      rw e (rw d (find_task-place_task_row r rows (ground arith)))
  | inr e ↦ rw e (rw ((eq_iff r.payload.id r.payload.id).1 refl) refl)
]

pub find_request-place_task_row :
    (r : TaskRow) (rows : List TaskRow)
    → find_request r.payload.client r.payload.request_id rows ≡ none
    → find_request r.payload.client r.payload.request_id (place_task_row r rows) ≡ some r
unfolding find_request place_task_row
find_request-place_task_row r [] h =
    rw
      (
        (eq_iff r.payload.client r.payload.client).1 refl,
        (eq_iff r.payload.request_id r.payload.request_id).1 refl,
      )
      refl
find_request-place_task_row r (q ∷ rows) h = elim (Bool-cases (str_lt q.payload.id r.payload.id)) [
  | inl e ↦
      elim (Bool-cases (
        str_eq q.payload.client r.payload.client
        && str_eq q.payload.request_id r.payload.request_id)) [
          | inl d ↦ cc (rw d at h)
          | inr d ↦ rw e (rw d (find_request-place_task_row r rows (rw d at h)))
        ]
  | inr e ↦ rw e (
      rw
        (
          (eq_iff r.payload.client r.payload.client).1 refl,
          (eq_iff r.payload.request_id r.payload.request_id).1 refl,
        )
        refl)
]

pub find_task-save_task_row :
    (p : Task) (rows : List TaskRow) (r : TaskRow)
    → find_task p.id rows ≡ some r
    → find_task p.id (save_task_row p rows) ≡ some (record r { payload = p })
unfolding find_task save_task_row
find_task-save_task_row p [] r h = cc
find_task-save_task_row p (q ∷ rows) r h = elim (Bool-cases (str_eq q.payload.id p.id)) [
  | inl e ↦
      let f : q ≡ r = cc (rw e at h) in
      rw e
        (rw ((eq_iff p.id p.id).1 refl) (ap (λ (x : TaskRow). some (record x { payload = p })) f))
  | inr e ↦ rw e (rw e (find_task-save_task_row p rows r (rw e at h)))
]

-- A write of a row keeps its request.
pub find_request-save_task_row :
    (p : Task) (rows : List TaskRow) (r : TaskRow)
    → find_request p.client p.request_id rows ≡ some r
    → r.payload.id ≡ p.id
    → (q : TaskRow) × (find_request p.client p.request_id (save_task_row p rows) ≡ some q)
      × (q.payload ≡ p)
unfolding find_request save_task_row
find_request-save_task_row p [] r h i = cc
find_request-save_task_row p (x ∷ rows) r h i = elim (Bool-cases (str_eq x.payload.id p.id)) [
  | inl e ↦ (
    record x { payload = p },
    rw e (rw ((eq_iff p.client p.client).1 refl, (eq_iff p.request_id p.request_id).1 refl) refl),
    refl,
  )
  | inr e ↦
      elim (Bool-cases
        (str_eq x.payload.client p.client && str_eq x.payload.request_id p.request_id)) [
          | inl d ↦ let f : x ≡ r = cc (rw d at h) in absurd (differs x f e)
          | inr d ↦
              let (q, k, l) = find_request-save_task_row p rows r (rw d at h) i in
              (q, rw e (rw d k), l)
        ]
]
  where
    differs : (x : TaskRow) → x ≡ r → str_eq x.payload.id p.id ≡ false → ⊥
    differs x f e =
        let g : x.payload.id ≡ p.id = ap (λ (y : TaskRow). y.payload.id) f ∙ i in
        cc ((eq_iff x.payload.id p.id).1 g, e)
