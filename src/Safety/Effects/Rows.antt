-- ===== src/Safety/Effects/Rows.antt =====
-- `UPDATE instances SET payload=?` as a change of every row at once.
use runner_loom.Base.{
  true, false, not, ◌||◌, String, none, List, [], ◌∷◌, ◌≡◌, refl, ap, ◌∙◌, sym, subst, inl, inr,
  str_eq, In, Bool-cases, eq_iff, map, if◌then◌else◌, Bool,
}
use runner_loom.Instance.{Instance, State, is_deleted, is_deleting}
use runner_loom.Store.{InstanceRow, payloads, find_row, Store}
use runner_loom.Store.Sync.Moves.Rows.{save_run}
use runner_loom.Ledger.{Distinct}
use runner_loom.Ledger.Grow.{eq_of_name}
use runner_loom.Safety.Effects.{may_stop}

pub chosen : (c : Bool) (s t : Store) → c ≡ true → (if c then s else t) ≡ s
chosen c s t e = rw e refl

pub passed : (c : Bool) (s t : Store) → c ≡ false → (if c then s else t) ≡ t
passed c s t e = rw e refl

pub clash : {x : Bool} → x ≡ false → x ≡ true → ⊥
clash p q = cc

pub map-same :
    (f : Instance → Instance) (runs : List Instance)
    → ((x : Instance) → In x runs → f x ≡ x)
    → map f runs ≡ runs
map-same f [] h = refl
map-same f (a ∷ runs) h =
    ap (λ x. x ∷ map f runs) (h a (inl refl))
    ∙ ap (λ xs. a ∷ xs) (map-same f runs (λ x m. h x (inr m)))

pub map-equal :
    (f g : Instance → Instance) (runs : List Instance)
    → ((x : Instance) → In x runs → f x ≡ g x)
    → map f runs ≡ map g runs
map-equal f g [] h = refl
map-equal f g (a ∷ runs) h =
    let rest = map-equal f g runs (λ x m. h x (inr m)) in rw (h a (inl refl), rest) refl

pub map_self : (runs : List Instance) → map (λ x. x) runs ≡ runs
map_self runs = map-same (λ x. x) runs (λ x m. refl)

-- A row that is written among rows that have changed already.
pub save_run-changed :
    (b : Instance) (g : Instance → Instance) (runs : List Instance)
    → ((x : Instance) → (g x).id ≡ x.id)
    → save_run b (map g runs) ≡ map (λ x. if str_eq x.id b.id then b else g x) runs
save_run-changed b g [] i = refl
save_run-changed b g (a ∷ runs) i = let rest = save_run-changed b g runs i in rw (i a, rest) refl

pub save_run-map :
    (f : Instance → Instance) (b : Instance) (runs : List Instance)
    → ((x : Instance) → In x runs → str_eq x.id b.id ≡ true → f x ≡ b)
    → ((x : Instance) → In x runs → str_eq x.id b.id ≡ false → f x ≡ x)
    → save_run b runs ≡ map f runs
save_run-map f b [] h g = refl
save_run-map f b (a ∷ runs) h g =
    let rest = save_run-map f b runs (λ x m. h x (inr m)) (λ x m. g x (inr m)) in
    elim (Bool-cases (str_eq a.id b.id)) [
      | inl e ↦ rw (e, h a (inl refl) e, rest) refl
      | inr e ↦ rw (e, g a (inl refl) e, rest) refl
    ]

-- With unique IDs only the row of that VM is another one.
pub save_run-one :
    (f : Instance → Instance) (b a : Instance) (runs : List Instance)
    → Distinct (λ x. x.id) runs
    → In a runs
    → b.id ≡ a.id
    → f a ≡ b
    → ((x : Instance) → str_eq x.id a.id ≡ false → f x ≡ x)
    → save_run b runs ≡ map f runs
save_run-one f b a runs d m e h g =
    save_run-map f b runs
      (λ x i q.
        let same : a ≡ x =
          eq_of_name (λ (y : Instance). y.id) runs d m i (sym e ∙ sym ((eq_iff x.id b.id).0 q)) in
        subst (λ y. f y ≡ b) same h)
      (λ x i q. g x (subst (λ y. str_eq x.id y ≡ false) e q))

pub may_stop-not : (s : State) → (is_deleted s || is_deleting s) ≡ not (may_stop s)
unfolding may_stop
may_stop-not State.reserved = refl
may_stop-not State.provisioning = refl
may_stop-not State.idle = refl
may_stop-not State.busy = refl
may_stop-not State.finishing = refl
may_stop-not State.stopping = refl
may_stop-not State.deleting = refl
may_stop-not State.deleted = refl

pub find_row-none :
    (id : String) (rows : List InstanceRow)
    → find_row id rows ≡ none
    → (x : Instance) → In x (payloads rows)
    → str_eq x.id id ≡ false
unfolding find_row
find_row-none id [] h x m = absurd m
find_row-none id (r ∷ rows) h x m = elim (Bool-cases (str_eq r.payload.id id)) [
  | inl e ↦ cc (rw e at h)
  | inr e ↦ elim m [
    | inl q ↦ subst (λ y. str_eq y.id id ≡ false) q e
    | inr q ↦ find_row-none id rows (rw e at h) x q
  ]
]
