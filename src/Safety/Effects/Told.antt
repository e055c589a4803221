-- ===== src/Safety/Effects/Told.antt =====
-- `PersistMessage` marks the VMs that a message names: each event starts from the row that was
-- read before the message, so the last event about a VM wins.
use Prim.Native.String.{◌++◌ as str_append}
use runner_loom.Base.{
  ℕ, Bool, true, false, ◌&&◌, ◌||◌, String, none, List, [], ◌∷◌, ◌≡◌, ◌⊎◌, refl, ap, ◌∙◌, sym,
  subst, inl, inr, str_eq, In, map, Bool-cases, eq_iff, ok, ok-injective, if◌then◌else◌,
}
use runner_loom.Base.Int64.{ℤ, pos, lt_ℤ}
use runner_loom.Instance.{Instance, State, active}
use runner_loom.Store.{Store, read_instances, save_instance}
use runner_loom.Store.Messages.{
  RunnerEvent, EventState, busy, complete, other, on_event, event_loop, events_loop, persist_new,
  persist_message, find_inbox, bad_desired,
}
use runner_loom.Store.Sync.Moves.Rows.{payloads-save_row, save_run}
use runner_loom.Ledger.{Distinct}
use runner_loom.Ledger.Grow.{eq_of_name}
use runner_loom.Safety.Effects.Rows.{save_run-changed, map-equal, map_self, chosen, passed, clash}

-- A VM that has begun to end takes no job any more.
unfoldable pub takes_job : State → State
takes_job State.finishing = State.finishing
takes_job State.deleting = State.deleting
takes_job State.deleted = State.deleted
takes_job State.reserved = State.busy
takes_job State.provisioning = State.busy
takes_job State.idle = State.busy
takes_job State.busy = State.busy
takes_job State.stopping = State.busy

unfoldable pub told : ℕ → RunnerEvent → Instance → Instance
unfolding takes_job
told now ev a = elim ev.state [
  | busy ↦ record a { state = takes_job a.state; updated = now }
  | complete ↦ record a { outcome = ev.outcome; updated = now }
  | other word ↦ record a { updated = now }
]

unfoldable pub is_about : String → RunnerEvent → Instance → Bool
is_about pool ev a = str_eq (str_append "rl-" a.id) ev.name && str_eq a.pool.name pool

-- What is left of a VM that is `a` behind the events, and was `x` before the message.
unfoldable pub after_events : ℕ → String → List RunnerEvent → Instance → Instance → Instance
unfolding told is_about
after_events now pool [] x a = a
after_events now pool (ev ∷ events) x a =
    after_events now pool events x (if is_about pool ev x then told now ev x else a)

busy_told :
    (now : ℕ) (ev : RunnerEvent) (a : Instance) (w : State)
    → told now (record ev { state = busy }) (record a { state = w })
      ≡ record (on_event busy ev.outcome (record a { state = w })) { updated = now }
unfolding told on_event takes_job active
busy_told now ev a State.reserved = refl
busy_told now ev a State.provisioning = refl
busy_told now ev a State.idle = refl
busy_told now ev a State.busy = refl
busy_told now ev a State.finishing = refl
busy_told now ev a State.stopping = refl
busy_told now ev a State.deleting = refl
busy_told now ev a State.deleted = refl

told-on_event :
    (now : ℕ) (ev : RunnerEvent) (a : Instance)
    → told now ev a ≡ record (on_event ev.state ev.outcome a) { updated = now }
unfolding told on_event
told-on_event now ev a = by_state ev.state
  where
    by_state :
        (w : EventState)
        → told now (record ev { state = w }) a ≡ record (on_event w ev.outcome a) { updated = now }
    by_state busy = busy_told now ev a a.state
    by_state complete = refl
    by_state (other word) = refl

told-id : (now : ℕ) (ev : RunnerEvent) (a : Instance) → (told now ev a).id ≡ a.id
unfolding told
told-id now ev a = by_state ev.state
  where
    by_state : (w : EventState) → (told now (record ev { state = w }) a).id ≡ a.id
    by_state busy = refl
    by_state complete = refl
    by_state (other word) = refl

module _ (now : ℕ) (pool : String) (ev : RunnerEvent) where
  -- The rows after one more event.
  abbrev retold : (Instance → Instance) → Instance → Instance
  retold g x = if is_about pool ev x then told now ev x else g x

  retold-about :
      (g : Instance → Instance) (x : Instance)
      → is_about pool ev x ≡ true
      → retold g x ≡ told now ev x
  retold-about g x q = rw q refl

  retold-other :
      (g : Instance → Instance) (x : Instance) → is_about pool ev x ≡ false → retold g x ≡ g x
  retold-other g x q = rw q refl

  retold-id :
      (g : Instance → Instance)
      → ((x : Instance) → (g x).id ≡ x.id)
      → (x : Instance) → (retold g x).id ≡ x.id
  retold-id g i x = elim (Bool-cases (is_about pool ev x)) [
    | inl q ↦ ap (λ (y : Instance). y.id) (retold-about g x q) ∙ told-id now ev x
    | inr q ↦ ap (λ (y : Instance). y.id) (retold-other g x q) ∙ i x
  ]

  -- The rows after the event has been written to the one of `a`.
  abbrev written : Instance → (Instance → Instance) → Instance → Instance
  written a g x = if str_eq x.id a.id then told now ev a else g x

  written-other :
      (a : Instance) (g : Instance → Instance) (x : Instance)
      → str_eq x.id a.id ≡ false
      → written a g x ≡ g x
  written-other a g x q = rw q refl

  written-id :
      (a : Instance) (g : Instance → Instance)
      → ((x : Instance) → (g x).id ≡ x.id)
      → (x : Instance) → (written a g x).id ≡ x.id
  written-id a g i x = elim (Bool-cases (str_eq x.id a.id)) [
    | inl q ↦ rw q (told-id now ev a ∙ sym ((eq_iff x.id a.id).0 q))
    | inr q ↦ rw q (i x)
  ]

  module _ (table : List Instance) (d : Distinct (λ a. a.id) table) where
    written-same :
        (a : Instance) (g : Instance → Instance) (x : Instance)
        → In a table
        → In x table
        → str_eq x.id a.id ≡ true
        → (a ≡ x) × (written a g x ≡ told now ev x)
    written-same a g x m n q =
        let same : a ≡ x =
          eq_of_name (λ (y : Instance). y.id) table d m n (sym ((eq_iff x.id a.id).0 q)) in
        (same, rw q (ap (told now ev) same))

    save-written :
        (a : Instance) (g : Instance → Instance) (s : Store)
        → ((x : Instance) → (g x).id ≡ x.id)
        → read_instances s ≡ map g table
        → read_instances
            (save_instance (record (on_event ev.state ev.outcome a) { updated = now }) s)
          ≡ map (written a g) table
    unfolding save_instance
    save-written a g s i e =
        ap (λ b. read_instances (save_instance b s)) (sym (told-on_event now ev a))
        ∙ payloads-save_row (told now ev a) s.instances
        ∙ ap (save_run (told now ev a)) e
        ∙ save_run-changed (told now ev a) g table i
        ∙ ap (λ y. map (λ x. if str_eq x.id y then told now ev a else g x) table) (told-id now ev a)

    -- What is left to do for a VM that the event is about.
    abbrev Due : List Instance → (Instance → Instance) → Instance → Type 0
    Due runs g x = In x runs ⊎ (g x ≡ told now ev x)

    Due-written :
        (a : Instance) (runs : List Instance) (g : Instance → Instance) (x : Instance)
        → In a table
        → In x table
        → Due (a ∷ runs) g x
        → Due runs (written a g) x
    Due-written a runs g x m n (inl (inr k)) = inl k
    Due-written a runs g x m n (inl (inl k)) =
        inr (written-same a g x m n ((eq_iff x.id a.id).1 (ap (λ (y : Instance). y.id) (sym k)))).1
    Due-written a runs g x m n (inr k) = elim (Bool-cases (str_eq x.id a.id)) [
      | inl q ↦ inr (written-same a g x m n q).1
      | inr q ↦ inr (written-other a g x q ∙ k)
    ]

    retold-written :
        (a : Instance) (g : Instance → Instance) (x : Instance)
        → In a table
        → is_about pool ev a ≡ true
        → In x table
        → retold (written a g) x ≡ retold g x
    retold-written a g x m q n = elim (Bool-cases (is_about pool ev x)) [
      | inl k ↦ retold-about (written a g) x k ∙ sym (retold-about g x k)
      | inr k ↦
          let r : str_eq x.id a.id ≡ false = elim (Bool-cases (str_eq x.id a.id)) [
            | inr z ↦ z
            | inl z ↦
                absurd
                  (clash k (subst (λ y. is_about pool ev y ≡ true) (written-same a g x m n z).0 q))
          ] in
          retold-other (written a g) x k ∙ written-other a g x r ∙ sym (retold-other g x k)
    ]

    event_loop-retold :
        (runs : List Instance) (g : Instance → Instance) (s : Store)
        → ((x : Instance) → (g x).id ≡ x.id)
        → ((x : Instance) → In x runs → In x table)
        → ((x : Instance) → In x table → is_about pool ev x ≡ true → Due runs g x)
        → read_instances s ≡ map g table
        → read_instances (event_loop now pool ev runs s) ≡ map (retold g) table
    unfolding event_loop is_about
    event_loop-retold [] g s i m f e =
        e
        ∙ map-equal g (retold g) table (λ x n. elim (Bool-cases (is_about pool ev x)) [
          | inl q ↦ told_already x (f x n q) ∙ sym (retold-about g x q)
          | inr q ↦ sym (retold-other g x q)
        ])
      where
        told_already : (x : Instance) → Due [] g x → g x ≡ told now ev x
        told_already x (inl k) = absurd k
        told_already x (inr k) = k
    event_loop-retold (a ∷ runs) g s i m f e =
        let b = record (on_event ev.state ev.outcome a) { updated = now } in
        elim (Bool-cases (is_about pool ev a)) [
          | inl q ↦
              ap (λ z. read_instances (event_loop now pool ev runs z))
                (chosen (is_about pool ev a) (save_instance b s) s q)
              ∙ event_loop-retold runs (written a g) (save_instance b s) (written-id a g i)
                  (λ x n. m x (inr n))
                  (λ x n k. Due-written a runs g x (m a (inl refl)) n (f x n k))
                  (save-written a g s i e)
              ∙ map-equal (retold (written a g)) (retold g) table
                  (λ x n. retold-written a g x (m a (inl refl)) q n)
          | inr q ↦
              ap (λ z. read_instances (event_loop now pool ev runs z))
                (passed (is_about pool ev a) (save_instance b s) s q)
              ∙ event_loop-retold runs g s i (λ x n. m x (inr n)) (λ x n k. shorter x q k (f x n k))
                  e
        ]
      where
        shorter :
            (x : Instance)
            → is_about pool ev a ≡ false
            → is_about pool ev x ≡ true
            → Due (a ∷ runs) g x
            → Due runs g x
        shorter x q k (inl (inl z)) =
            absurd (clash q (subst (λ y. is_about pool ev y ≡ true) (sym z) k))
        shorter x q k (inl (inr z)) = inl z
        shorter x q k (inr z) = inr z

module _ (now : ℕ) (pool : String) (table : List Instance) (d : Distinct (λ a. a.id) table) where
  events_loop-after :
      (events : List RunnerEvent) (g : Instance → Instance) (s : Store)
      → ((x : Instance) → (g x).id ≡ x.id)
      → read_instances s ≡ map g table
      → read_instances (events_loop now pool table events s)
        ≡ map (λ x. after_events now pool events x (g x)) table
  unfolding events_loop after_events
  events_loop-after [] g s i e = e
  events_loop-after (ev ∷ events) g s i e =
      events_loop-after events (retold now pool ev g) (event_loop now pool ev table s)
        (retold-id now pool ev g i)
        (event_loop-retold now pool ev table d table g s i (λ x n. n) (λ x n k. inl n) e)

-- Where VM IDs are unique, a message that PersistMessage takes for the first time marks each VM
-- by the last of its events that names the VM in the Pool: a start makes it Busy unless it has
-- begun to finish or to be deleted, a completion keeps the outcome; every other row stays as it
-- is.
pub persist_message-after_events :
    (now : ℕ) (session : String) (id : ℤ) (pool : String) (desired : ℤ) (events : List RunnerEvent)
    (hash : String) (hold : Bool) (s t : Store)
    → Distinct (λ a. a.id) (read_instances s)
    → find_inbox session id s.inbox ≡ none
    → persist_message now session id pool desired events hash hold s ≡ ok t
    → read_instances t ≡ map (λ x. after_events now pool events x x) (read_instances s)
unfolding persist_message persist_new
persist_message-after_events now session id pool desired events hash hold s t d e h =
    elim (Bool-cases (bad_desired desired || lt_ℤ id (pos 0))) [
      | inl b ↦ cc (rw b at h)
      | inr b ↦
          ap read_instances (sym (ok-injective (rw (e, persist_message) at (rw b at h))))
          ∙ events_loop-after now pool (read_instances s) d events (λ x. x) s (λ x. refl)
              (sym (map_self (read_instances s)))
    ]
