-- ===== src/Daemon/Supervision/Tests.antt =====
-- A Restart whose component fails once and is then stopped, and a Reset that is reset once.
use ambergreen.Common.{refl, true}
use ambergreen.Daemon.Supervision.{
  Supervisor, begin, move_to, start_child, stop_child, Reach, here, next, RestartPhase, RestartStep,
  ResetPhase, ResetStep, watching, starting, pausing, finished, awaiting, draining, running,
}
use ambergreen.Daemon.Supervision.Children.{
  IsSupervised, restart_runs, reset_runs, restart-IsSupervised, reset-IsSupervised,
}

abbrev failed : Supervisor RestartPhase
failed = stop_child pausing (start_child watching (begin starting))

abbrev restarted : Supervisor RestartPhase
restarted = stop_child finished (start_child watching (move_to starting failed))

restarts : Reach RestartStep (begin starting) restarted
restarts =
    next
      (next
        (next (next (next here (RestartStep.starts refl)) (RestartStep.errors true refl))
          (RestartStep.resumes refl))
        (RestartStep.starts refl))
      (RestartStep.is_stopped refl)

restart-IsSupervised_example : IsSupervised restart_runs restarted
restart-IsSupervised_example = restart-IsSupervised restarts

abbrev reset_once : Supervisor ResetPhase
reset_once = stop_child draining (start_child running (move_to draining (begin awaiting)))

resets : Reach ResetStep (begin awaiting) reset_once
resets =
    next (next (next here (ResetStep.first_reset refl)) (ResetStep.starts refl))
      (ResetStep.is_reset refl)

reset-IsSupervised_example : IsSupervised reset_runs reset_once
reset-IsSupervised_example = reset-IsSupervised resets
