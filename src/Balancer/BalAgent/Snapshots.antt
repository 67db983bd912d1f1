-- ===== src/Balancer/BalAgent/Snapshots.antt =====
-- About the snapshots that the generator of the balancer agent receives.
use ambergreen.Common.{◌≡◌, refl, Option, none, some, List, [], ◌∷◌, Bool, true, false, arith}
use ambergreen.Store.Data.{ServiceUpdate}
use ambergreen.Balancer.BalAgent.{
  Services, Updater, Round, update_comes, generator_receives, step, run,
}

-- The newest snapshot: the one that waits, or the last that was received.
abbrev pub newest : Updater × List Services → Option Services
newest (up, received) = elim up.pending [
  | some s ↦ some s
  | none ↦ elim received [ [] ↦ none | s ∷ ss ↦ some s ]
]

abbrev pub has_update : List Round → Bool
has_update [] = false
has_update (update_comes u ∷ rs) = true
has_update (generator_receives ∷ rs) = has_update rs

newest-step :
    (r : Round) (s : Updater × List Services)
    → newest s ≡ some s.0.services
    → newest (step r s) ≡ some (step r s).0.services
unfolding step
newest-step (update_comes u) s h = refl
newest-step generator_receives (up, received) h = ground (arith, h)

newest-run_kept :
    (rs : List Round) (s : Updater × List Services)
    → newest s ≡ some s.0.services
    → newest (run rs s) ≡ some (run rs s).0.services
unfolding run
newest-run_kept [] s h = h
newest-run_kept (r ∷ rs) s h = newest-run_kept rs (step r s) (newest-step r s h)

newest-step_update :
    (u : ServiceUpdate) (s : Updater × List Services)
    → newest (step (update_comes u) s) ≡ some (step (update_comes u) s).0.services
unfolding step
newest-step_update u s = refl

-- However the updates and the generator's receptions are interleaved, once an update has come the
-- newest snapshot, which waits in the channel or was the last to be received, is the updater's
-- present services: no snapshot that is dropped from the channel is the newest.
pub newest-run :
    (rs : List Round) (s : Updater × List Services)
    → has_update rs ≡ true
    → newest (run rs s) ≡ some (run rs s).0.services
unfolding run
newest-run [] s h = cc
newest-run (update_comes u ∷ rs) s h =
    newest-run_kept rs (step (update_comes u) s) (newest-step_update u s)
newest-run (generator_receives ∷ rs) s h = newest-run rs (step generator_receives s) h
