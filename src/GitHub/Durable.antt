-- ===== src/GitHub/Durable.antt =====
-- A message is acknowledged only when the database has it.
use runner_loom.Base.{
  ℕ, Bool, true, false, not, String, some, List, ◌≡◌, refl, ap, ◌∙◌, sym, subst, inl, inr, str_eq,
  is_empty, Bool-cases, Option-cases, Result-cases, eq_iff, Result, ok, plain, require,
  ok-injective, >>=-eq-ok, ◌||◌,
}
use runner_loom.Base.Int64.{ℤ, pos, lt_ℤ}
use runner_loom.Config.Names.{valid_name}
use runner_loom.Store.{Store, InboxRow, seconds}
use runner_loom.Store.Messages.{
  RunnerEvent, persist_message, persist_new, find_inbox, bad_desired, set_intake_fence,
  set_demand_flag, has_demand,
}
use runner_loom.Safety.Repeats.{eq_ℤ-refl}
use runner_loom.GitHub.Intake.{
  Answers, ScaleSetMessage, acknowledge_with, acquire_with, acquired_all, events_of, lower_fence,
  persist_assigned, persist_then_acknowledge, raise_fence,
}

-- The message is in the inbox, with its hash.
pub record IsStored (session : String) (id : ℤ) (hash : String) (s : Store) : Type 0 where
  pub row : InboxRow
  pub found : find_inbox session id s.inbox ≡ some row
  pub same_hash : str_eq row.hash hash ≡ true

persist_message-IsStored :
    (now : ℕ) (session : String) (id : ℤ) (pool : String) (desired : ℤ) (events : List RunnerEvent)
    (hash : String) (hold : Bool) (s t : Store)
    → persist_message now session id pool desired events hash hold s ≡ ok t
    → IsStored session id hash t
unfolding persist_message persist_new find_inbox
persist_message-IsStored now session id pool desired events hash hold s t h =
    elim (Bool-cases (bad_desired desired || lt_ℤ id (pos 0))) [
      | inl b ↦ cc (rw b at h)
      | inr b ↦ elim (Option-cases (find_inbox session id s.inbox)) [
        | inr (m, e) ↦ elim (Bool-cases (str_eq m.hash hash)) [
          | inr f ↦ cc (rw f at (rw (e, persist_message) at (rw b at h)))
          | inl f ↦
              subst (IsStored session id hash)
                (ok-injective (rw f at (rw (e, persist_message) at (rw b at h))))
                (record { row = m; found = e; same_hash = f })
        ]
        | inl e ↦
            subst (IsStored session id hash) (ok-injective (rw (e, persist_message) at (rw b at h)))
              (record {
                row = record { session = session; id = id; hash = hash; created = seconds now };
                found = rw ((eq_iff session session).1 refl, eq_ℤ-refl id) refl;
                same_hash = (eq_iff hash hash).1 refl;
              })
      ]
    ]

set_intake_fence-inbox :
    (pool : String) (b : Bool) (s t : Store) → set_intake_fence pool b s ≡ ok t → t.inbox ≡ s.inbox
unfolding set_intake_fence set_demand_flag
set_intake_fence-inbox pool b s t h =
    let (_, _, h1) = >>=-eq-ok (require (valid_name pool) (plain "invalid demand")) _ h in
    let (_, _, h2) =
      >>=-eq-ok (require (has_demand pool s.demand) (plain "demand not found")) _ h1 in
    ap (λ (x : Store). x.inbox) (sym (ok-injective h2))

raise_fence-inbox : (pool : String) (s : Store) → (raise_fence pool s).inbox ≡ s.inbox
unfolding raise_fence
raise_fence-inbox pool s = elim (Result-cases (set_intake_fence pool true s)) [
  | inl (t, e) ↦ rw (e, raise_fence) (set_intake_fence-inbox pool true s t e)
  | inr (f, e) ↦ rw (e, raise_fence) refl
]

lower_fence-inbox : (pool : String) (s : Store) → (lower_fence pool s).store.inbox ≡ s.inbox
unfolding lower_fence
lower_fence-inbox pool s = elim (Result-cases (set_intake_fence pool false s)) [
  | inl (t, e) ↦ rw (e, lower_fence) (set_intake_fence-inbox pool false s t e)
  | inr (f, e) ↦ rw (e, lower_fence) refl
]

acknowledge_with-inbox :
    (api : Answers) (pool : String) (m : ScaleSetMessage) (s : Store)
    → (acknowledge_with api pool m s).store.inbox ≡ s.inbox
unfolding acknowledge_with
acknowledge_with-inbox api pool m s = elim (Result-cases (api.acknowledge m.id)) [
  | inr (f, e) ↦
      rw (e, acknowledge_with)
        (elim (Bool-cases (is_empty m.available)) [
          | inl k ↦ rw k refl
          | inr k ↦ rw k (raise_fence-inbox pool s)
        ])
  | inl (done, e) ↦
      rw (e, acknowledge_with)
        (elim (Bool-cases (is_empty m.available)) [
          | inl k ↦ rw k refl
          | inr k ↦ rw k (lower_fence-inbox pool s)
        ])
]

acquire_with-inbox :
    (api : Answers) (pool : String) (m : ScaleSetMessage) (s : Store)
    → (acquire_with api pool m s).store.inbox ≡ s.inbox
unfolding acquire_with
acquire_with-inbox api pool m s = elim (Bool-cases (is_empty m.available)) [
  | inl k ↦ rw k (acknowledge_with-inbox api pool m s)
  | inr k ↦ rw k (elim (Result-cases (api.acquire m.available)) [
    | inr (f, e) ↦ rw (e, acquire_with) (raise_fence-inbox pool s)
    | inl (got, e) ↦
        rw (e, acquire_with)
          (elim (Bool-cases (acquired_all m.available got)) [
            | inl q ↦ rw q (acknowledge_with-inbox api pool m s)
            | inr q ↦ rw q (raise_fence-inbox pool s)
          ])
  ])
]

-- When PersistThenAcknowledge has sent GitHub the acknowledgement of a message, the database
-- that it leaves keeps the message's session and ID with the hash of its content.
pub persist_then_acknowledge-IsStored :
    (api : Answers) (now : ℕ) (session hash pool : String) (m : ScaleSetMessage) (s : Store)
    → (persist_then_acknowledge api now session hash pool (some m) s).acknowledged ≡ true
    → IsStored session m.id hash
        (persist_then_acknowledge api now session hash pool (some m) s).store
unfolding persist_then_acknowledge persist_assigned
persist_then_acknowledge-IsStored api now session hash pool m s h = elim (Option-cases m.assigned) [
  | inl e ↦ cc (rw (e, persist_then_acknowledge) at h)
  | inr (assigned, e) ↦ elim (Result-cases (persisted assigned)) [
    | inr (f, k) ↦ cc (rw (k, persist_assigned) at (rw (e, persist_then_acknowledge) at h))
    | inl (t, k) ↦
        let stored =
          persist_message-IsStored now session m.id pool assigned (events_of m) hash
            (not (is_empty m.available)) s t k in
        rw (e, persist_then_acknowledge)
          (rw (k, persist_assigned)
            (record {
              row = stored.row;
              found = ap (find_inbox session m.id) (acquire_with-inbox api pool m t) ∙ stored.found;
              same_hash = stored.same_hash;
            }))
  ]
]
  where
    persisted : ℤ → Result Store
    persisted assigned =
        persist_message now session m.id pool assigned (events_of m) hash
          (not (is_empty m.available)) s
