-- ===== src/Daemon/Supervision/Children.antt =====
-- About the components that a supervisor has started.
use ambergreen.Common.{
  ℕ, ◌+◌, ◌≡◌, refl, Bool, true, false, Option, none, some, List, [], ◌∷◌, ◌++◌, nat_eq, ltb,
  if◌then◌else◌, arith, is_some, ap,
}
use ambergreen.Daemon.Dependencies.Counts.{times, times-append}
use ambergreen.Daemon.Supervision.{
  Supervisor, begin, move_to, start_child, stop_child, Reach, here, next, RestartPhase, RestartStep,
  ResetPhase, ResetStep, watching, starting, pausing, finished, awaiting, draining, running, ended,
}

-- Whether the component with the number runs.
abbrev pub is_child : ℕ → Option ℕ → ℕ
is_child c none = 0
is_child c (some d) = if nat_eq d c then 1 else 0

-- Each component that was started runs or was stopped, once; none runs but in the phase for it.
pub record IsSupervised {Phase : Type 0} (runs : Phase → Bool) (s : Supervisor Phase) : Type 0 where
  pub once : (c : ℕ) → times c s.stopped + is_child c s.child ≡ (if ltb c s.started then 1 else 0)
  pub only : is_some s.child ≡ true → runs s.phase ≡ true

module _ {Phase : Type 0} (runs : Phase → Bool) where
  begin-IsSupervised : (phase : Phase) → IsSupervised runs (begin phase)
  begin-IsSupervised phase = record { once = λ c. ground arith; only = λ h. cc }

  idle_moves :
      (phase : Phase) (s : Supervisor Phase)
      → runs s.phase ≡ false
      → IsSupervised runs s
      → IsSupervised runs (move_to phase s)
  idle_moves phase s idle h = record {
    once = h.once;
    only = λ some_child. ground (arith, h.only some_child, idle);
  }

  starts_child :
      (phase : Phase) (s : Supervisor Phase)
      → runs s.phase ≡ false
      → runs phase ≡ true
      → IsSupervised runs s
      → IsSupervised runs (start_child phase s)
  starts_child phase s idle on h = record {
    once = λ c. ground (arith, h.once c, h.only, idle);
    only = λ some_child. on;
  }

  stops_child :
      (phase : Phase) (s : Supervisor Phase)
      → IsSupervised runs s
      → IsSupervised runs (stop_child phase s)
  stops_child phase s h = record {
    once = λ c. stop_once c s.child (h.once c);
    only = λ some_child. cc;
  }
    where
      stop_once :
          (c : ℕ) (o : Option ℕ)
          → times c s.stopped + is_child c o ≡ (if ltb c s.started then 1 else 0)
          → times c (elim o as (λ _. List ℕ) [ none ↦ s.stopped | some d ↦ s.stopped ++ d ∷ [] ])
              + 0
            ≡ (if ltb c s.started then 1 else 0)
      stop_once c none e = omega (arith, e)
      stop_once c (some d) e = omega (arith, e, times-append c s.stopped d)

abbrev pub restart_runs : RestartPhase → Bool
restart_runs watching = true
restart_runs p = false

abbrev pub reset_runs : ResetPhase → Bool
reset_runs running = true
reset_runs p = false

restart_step :
    {s t : Supervisor RestartPhase}
    → RestartStep s t
    → IsSupervised restart_runs s
    → IsSupervised restart_runs t
restart_step {s} (RestartStep.starts e) h =
    starts_child restart_runs watching s (ap restart_runs e) refl h
restart_step {s} (RestartStep.starts_nil e) h =
    idle_moves restart_runs watching s (ap restart_runs e) h
restart_step {s} (RestartStep.is_stopped e) h = stops_child restart_runs finished s h
restart_step {s} (RestartStep.errors wait e) h =
    stops_child restart_runs (if wait then pausing else starting) s h
restart_step {s} (RestartStep.resumes e) h =
    idle_moves restart_runs starting s (ap restart_runs e) h
restart_step {s} (RestartStep.stops_pausing e) h =
    idle_moves restart_runs finished s (ap restart_runs e) h

-- In every state that Restart reaches, each component that it has started either runs or was stopped
-- exactly once, and one runs only in the phase of watching; so when it has finished all were stopped.
pub restart-IsSupervised :
    {s : Supervisor RestartPhase}
    → Reach RestartStep (begin starting) s
    → IsSupervised restart_runs s
restart-IsSupervised here = begin-IsSupervised restart_runs starting
restart-IsSupervised (next r st) = restart_step st (restart-IsSupervised r)

reset_step :
    {s t : Supervisor ResetPhase}
    → ResetStep s t
    → IsSupervised reset_runs s
    → IsSupervised reset_runs t
reset_step {s} (ResetStep.first_reset e) h = idle_moves reset_runs draining s (ap reset_runs e) h
reset_step {s} (ResetStep.stops_awaiting e) h = idle_moves reset_runs ended s (ap reset_runs e) h
reset_step {s} (ResetStep.drains e) h = idle_moves reset_runs draining s (ap reset_runs e) h
reset_step {s} (ResetStep.starts e) h = starts_child reset_runs running s (ap reset_runs e) refl h
reset_step {s} (ResetStep.is_stopped e) h = stops_child reset_runs ended s h
reset_step {s} (ResetStep.is_reset e) h = stops_child reset_runs draining s h

-- In every state that Reset reaches, each component that it has started either runs or was stopped
-- exactly once, and one runs only in the phase of running; so before a restart, and at its end, all were
-- stopped.
pub reset-IsSupervised :
    {s : Supervisor ResetPhase} → Reach ResetStep (begin awaiting) s → IsSupervised reset_runs s
reset-IsSupervised here = begin-IsSupervised reset_runs awaiting
reset-IsSupervised (next r st) = reset_step st (reset-IsSupervised r)
