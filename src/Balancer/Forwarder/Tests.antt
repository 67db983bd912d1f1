-- ===== src/Balancer/Forwarder/Tests.antt =====
-- A run of a connection with one instance.
use ambergreen.Common.{ℕ, ◌≡◌, refl, Bool, true, none, List, [], ◌∷◌, ok}
use ambergreen.Net.{IpPort}
use ambergreen.Balancer.Pool.{PooledInstance, Pool, Heap, no_timer, write}
use ambergreen.Balancer.Pool.Calls.{pick_instance, succeeded, restored}
use ambergreen.Balancer.Forwarder.{
  Effect, dials, reports, shims, attempts, forward, max_connection_attempts,
}
use ambergreen.Balancer.Forwarder.Attempts.{Attempted, forward-Attempted}

abbrev place : IpPort
place = record { ip = "10.0.0.1"; port = 80 }

abbrev instance_ : PooledInstance
instance_ = record { name = "c1"; address = place; index = 0; failures = 0; retry_time = none }

abbrev one_ready : Pool
one_ready = record {
  insts = λ r. instance_;
  next = 1;
  ready = 0 ∷ [];
  retry = [];
  timer = no_timer;
}

abbrev no_swaps : Heap
no_swaps = record { init_swaps = λ p. []; push_swaps = λ p. []; remove_swaps = λ i p. [] }

abbrev first : ℕ → ℕ → ℕ
first i n = 0

abbrev at_once : ℕ → ℕ
at_once i = 5

abbrev succeeds : ℕ → IpPort → Bool
succeeds i addr = true

abbrev led_to : List Effect
led_to = dials place true ∷ reports "c1" place ∷ shims ∷ []

forwards :
    forward no_swaps first at_once succeeds one_ready ≡ ok (write 0 instance_ one_ready, led_to)
unfolding forward attempts pick_instance succeeded restored write
forwards = refl

forward-Attempted_example : Attempted max_connection_attempts led_to
forward-Attempted_example =
    forward-Attempted no_swaps first at_once succeeds one_ready (write 0 instance_ one_ready) led_to
      forwards
