-- ===== src/GitHub/Intake.antt =====
-- internal/github/provider.go: `PersistThenAcknowledge` and `acquiredAll`.
use runner_loom.Base.{
  ℕ, Bool, true, false, not, String, Option, none, some, List, [], ◌∷◌, ◌++◌, is_empty, Result, ok,
  err, Fault, plain, if◌then◌else◌,
}
use runner_loom.Base.Int64.{ℤ, eq_ℤ}
use runner_loom.Store.{Store}
use runner_loom.Store.Messages.{RunnerEvent, busy, complete, persist_message, set_intake_fence}

pub record Started : Type 0 where
  pub runner : String

pub record Completed : Type 0 where
  pub runner : String
  pub outcome : String

-- What the code reads of a scale set's message.
pub record ScaleSetMessage : Type 0 where
  pub id : ℤ
  pub assigned : Option ℤ
  pub started : List Started
  pub completed : List Completed
  pub available : List ℤ

unfoldable pub started_events : List Started → List RunnerEvent
started_events [] = []
started_events (v ∷ vs) = record { name = v.runner; state = busy; outcome = "" } ∷ started_events vs

unfoldable pub completed_events : List Completed → List RunnerEvent
completed_events [] = []
completed_events (v ∷ vs) =
    record { name = v.runner; state = complete; outcome = v.outcome } ∷ completed_events vs

-- One of `have[id]` is used up.
unfoldable pub take_one : ℤ → List ℤ → Option (List ℤ)
take_one id [] = none
take_one id (x ∷ xs) = rest (eq_ℤ x id) (take_one id xs)
  where
    rest : Bool → Option (List ℤ) → Option (List ℤ)
    rest true more = some xs
    rest false none = none
    rest false (some ys) = some (x ∷ ys)

-- `acquiredAll`: the map `have` counts the elements of `got`.
unfoldable pub acquired_all : List ℤ → List ℤ → Bool
unfolding take_one
acquired_all [] got = true
acquired_all (id ∷ want) got = elim (take_one id got) [
  | none ↦ false
  | some rest ↦ acquired_all want rest
]

-- What GitHub answers: the acquired job requests, and whether the message is deleted.
pub record Answers : Type 0 where
  pub acquire : List ℤ → Result (List ℤ)
  pub acknowledge : ℤ → Result (Unit {0})

-- The database behind the call, whether the acknowledgement was sent, and the error.
pub record Intake : Type 0 where
  pub store : Store
  pub acknowledged : Bool
  pub fault : Option Fault

-- `_ = s.SetIntakeFence(…, true)`: an error of its own is dropped.
unfoldable pub raise_fence : String → Store → Store
raise_fence pool s = elim (set_intake_fence pool true s) [ ok t ↦ t | err f ↦ s ]

unfoldable pub lower_fence : String → Store → Intake
lower_fence pool s = elim (set_intake_fence pool false s) [
  | ok t ↦ record { store = t; acknowledged = true; fault = none }
  | err f ↦ record { store = s; acknowledged = true; fault = some f }
]

-- The acknowledgement, which is sent in both cases.
unfoldable pub acknowledge_with : Answers → String → ScaleSetMessage → Store → Intake
unfolding raise_fence lower_fence
acknowledge_with api pool m s = elim (api.acknowledge m.id) [
  | err f ↦ record {
    store = if is_empty m.available then s else raise_fence pool s;
    acknowledged = true;
    fault = some f;
  }
  | ok done ↦
      if is_empty m.available
      then record { store = s; acknowledged = true; fault = none }
      else lower_fence pool s
]

unfoldable pub acquire_with : Answers → String → ScaleSetMessage → Store → Intake
unfolding acquired_all acknowledge_with raise_fence
acquire_with api pool m s =
    if is_empty m.available then acknowledge_with api pool m s else elim (api.acquire m.available) [
      | err f ↦ record { store = raise_fence pool s; acknowledged = false; fault = some f }
      | ok got ↦ if acquired_all m.available got then acknowledge_with api pool m s else record {
        store = raise_fence pool s;
        acknowledged = false;
        fault = some (plain "scale-set job acquisition incomplete");
      }
    ]

unfoldable pub events_of : ScaleSetMessage → List RunnerEvent
unfolding started_events completed_events
events_of m = started_events m.started ++ completed_events m.completed

unfoldable pub persist_assigned :
    Answers → ℕ → String → String → String → ScaleSetMessage → ℤ → Store → Intake
unfolding events_of acquire_with
persist_assigned api now session hash pool m assigned s =
    elim (persist_message now session m.id pool assigned (events_of m) hash
      (not (is_empty m.available)) s) [
        | err f ↦ record { store = s; acknowledged = false; fault = some f }
        | ok t ↦ acquire_with api pool m t
      ]

-- `PersistThenAcknowledge`. `hash` is that of the message, as in PersistMessage.
unfoldable pub persist_then_acknowledge :
    Answers → ℕ → String → String → String → Option ScaleSetMessage → Store → Intake
unfolding persist_assigned
persist_then_acknowledge api now session hash pool none s = record {
  store = s;
  acknowledged = false;
  fault = some (plain "scale-set message has no statistics");
}
persist_then_acknowledge api now session hash pool (some m) s = elim m.assigned [
  | none ↦ record {
    store = s;
    acknowledged = false;
    fault = some (plain "scale-set message has no statistics");
  }
  | some assigned ↦ persist_assigned api now session hash pool m assigned s
]
