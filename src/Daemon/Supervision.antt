-- ===== src/Daemon/Supervision.antt =====
-- common/daemon/component.go: Restart and Reset, which start a component, stop it and start it again.
-- What they wait for, in each `select`, chooses the step. A component that is started has the number of
-- those before it. Logging and the ten seconds that a Stop may take before an error is posted are left
-- out.
pub mod Children
mod Tests
use ambergreen.Common.{
  ℕ, ◌+◌, ◌≡◌, Bool, true, false, Option, none, some, List, [], ◌∷◌, ◌++◌, if◌then◌else◌,
}

-- The state of a supervisor: where its loop is, and the component that runs; `stopped` are those
-- whose Stop was called, in order.
pub record Supervisor (Phase : Type 0) : Type 0 where
  pub phase : Phase
  pub child : Option ℕ
  pub started : ℕ
  pub stopped : List ℕ

module _ {Phase : Type 0} where
  abbrev pub begin : Phase → Supervisor Phase
  begin phase = record { phase = phase; child = none; started = 0; stopped = [] }

  abbrev pub move_to : Phase → Supervisor Phase → Supervisor Phase
  move_to phase s = record s { phase = phase }

  abbrev pub start_child : Phase → Supervisor Phase → Supervisor Phase
  start_child phase s = record s { phase = phase; child = some s.started; started = s.started + 1 }

  -- `if d != nil { d.Stop() }`
  abbrev pub stop_child : Phase → Supervisor Phase → Supervisor Phase
  stop_child phase s = record s {
    phase = phase;
    child = none;
    stopped = elim s.child [ none ↦ s.stopped | some c ↦ s.stopped ++ c ∷ [] ];
  }

  -- The states that a system reaches from one.
  pub data Reach (Step : Supervisor Phase → Supervisor Phase → Type 0) (s : Supervisor Phase)
      : Supervisor Phase → Type 0 where
    here : Reach Step s s
    next : {t u : Supervisor Phase} → Reach Step s t → Step t u → Reach Step s u

pub data RestartPhase : Type 0 where
  starting : RestartPhase
  watching : RestartPhase
  pausing : RestartPhase
  finished : RestartPhase

-- The loop of Restart. `errors` is an error of the component, after which the rest of the interval is
-- waited for, if there is one.
pub data RestartStep (s : Supervisor RestartPhase) : Supervisor RestartPhase → Type 0 where
  starts : s.phase ≡ starting → RestartStep s (start_child watching s)
  starts_nil : s.phase ≡ starting → RestartStep s (move_to watching s)
  is_stopped : s.phase ≡ watching → RestartStep s (stop_child finished s)
  errors :
      (wait : Bool)
      → s.phase ≡ watching
      → RestartStep s (stop_child (if wait then pausing else starting) s)
  resumes : s.phase ≡ pausing → RestartStep s (move_to starting s)
  stops_pausing : s.phase ≡ pausing → RestartStep s (move_to finished s)

pub data ResetPhase : Type 0 where
  awaiting : ResetPhase
  draining : ResetPhase
  running : ResetPhase
  ended : ResetPhase

-- The function of Reset.
pub data ResetStep (s : Supervisor ResetPhase) : Supervisor ResetPhase → Type 0 where
  first_reset : s.phase ≡ awaiting → ResetStep s (move_to draining s)
  stops_awaiting : s.phase ≡ awaiting → ResetStep s (move_to ended s)
  drains : s.phase ≡ draining → ResetStep s (move_to draining s)
  starts : s.phase ≡ draining → ResetStep s (start_child running s)
  is_stopped : s.phase ≡ running → ResetStep s (stop_child ended s)
  is_reset : s.phase ≡ running → ResetStep s (stop_child draining s)
