-- ===== src/Balancer/Forwarder.antt =====
-- balancer/forwarder/forwarder.go: how an inbound connection is given to an instance of the pool.
-- Whether a dial succeeds, random numbers and the clock are parameters, by the number of the attempt;
-- the copying of bytes by a shim is one effect. Logging is left out.
pub mod Attempts
mod Tests
use ambergreen.Common.{
  ℕ, zero, suc, ◌+◌, String, Bool, true, false, Option, none, some, List, [], ◌∷◌, ◌++◌, Run, ok,
  panic, ◌>>=◌, ◌==◌, string_eq, if◌then◌else◌,
}
use ambergreen.Net.{IpPort}
use ambergreen.Balancer.Pool.{PooledInstance, Pool, Heap}
use ambergreen.Balancer.Pool.Calls.{pick_instance, succeeded, failed}

abbrev pub max_connection_attempts : ℕ
max_connection_attempts = 5

-- The two shims.
pub data Shim : Type 0 where
  tcp_shim : Shim
  http_shim : Shim

-- The fields that SetProtocol sets.
pub record Protocol : Type 0 where
  pub name : String
  pub shim : Shim

-- SetProtocol; a protocol without a shim is taken as tcp.
unfoldable pub set_protocol : String → Protocol
set_protocol proto =
    if proto == "tcp"
    then record { name = proto; shim = tcp_shim }
    else if proto == "http"
    then record { name = proto; shim = http_shim }
    else record { name = "tcp"; shim = tcp_shim }

-- What a connection leads to: a dial and whether it succeeds, the event for the handler, the shim, which
-- closes both connections, the end for want of an instance, and the Close of the inbound connection.
pub data Effect : Type 0 where
  dials : IpPort → Bool → Effect
  reports : String → IpPort → Effect
  shims : Effect
  runs_out : Effect
  closes : Effect

module _ (heap : Heap) (intn : ℕ → ℕ → ℕ) (clock : ℕ → ℕ) (dial : ℕ → IpPort → Bool) where
  -- The loop of forward, with the attempts that are left and the number of the next.
  unfoldable pub attempts : ℕ → ℕ → Pool → Run (Pool × List Effect)
  unfolding pick_instance succeeded failed
  attempts zero i p = ok (p, closes ∷ [])
  attempts (suc rest) i p = pick_instance heap (intn i) (clock i) p >>= λ (q, picked). elim picked [
    | none ↦ ok (q, runs_out ∷ [])
    | some ref ↦
        let inst = q.insts ref in
        elim (dial i inst.address) [
          | false ↦ failed heap (clock i) ref q >>= λ r.
              attempts rest (i + 1) r >>= λ (s, effects). ok (s, dials inst.address false ∷ effects)
          | true ↦ succeeded heap (clock i) ref q >>= λ r.
              ok (r, dials inst.address true ∷ reports inst.name inst.address ∷ shims ∷ [])
        ]
  ]

  unfoldable pub forward : Pool → Run (Pool × List Effect)
  unfolding attempts
  forward p = attempts max_connection_attempts 0 p
