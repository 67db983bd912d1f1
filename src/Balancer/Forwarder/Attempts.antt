-- ===== src/Balancer/Forwarder/Attempts.antt =====
-- About the attempts that are made for a connection.
use ambergreen.Common.{
  ℕ, zero, suc, ◌+◌, ◌≡◌, refl, subst, Bool, true, false, Option, none, some, List, [], ◌∷◌, Run,
  ok, ◌>>=◌, >>=-eq-ok, ok-injective,
}
use ambergreen.Net.{IpPort}
use ambergreen.Balancer.Pool.{Pool, Heap}
use ambergreen.Balancer.Pool.Calls.{pick_instance, succeeded, failed}
use ambergreen.Balancer.Forwarder.{
  Effect, dials, reports, shims, runs_out, closes, attempts, forward, max_connection_attempts,
}

-- The effects of a connection with so many attempts left: dials that fail, and then a dial that
-- succeeds, its report and the shim; or an end for want of an instance; or, after all attempts, the
-- Close.
abbrev pub Attempted : ℕ → List Effect → Type 0
Attempted rest [] = ⊥
Attempted zero (closes ∷ []) = Unit
Attempted (suc rest) (runs_out ∷ []) = Unit
Attempted (suc rest) (dials addr false ∷ effects) = Attempted rest effects
Attempted (suc rest) (dials addr true ∷ reports name to ∷ shims ∷ []) = addr ≡ to
Attempted rest effects = ⊥

module _ (heap : Heap) (intn : ℕ → ℕ → ℕ) (clock : ℕ → ℕ) (dial : ℕ → IpPort → Bool) where
  -- What an attempt does with an instance, given whether the dial succeeds.
  abbrev dialled : ℕ → ℕ → ℕ → Pool → Bool → Run (Pool × List Effect)
  dialled rest i ref q false = failed heap (clock i) ref q >>= λ r.
      attempts heap intn clock dial rest (i + 1) r >>= λ (s, effects).
      ok (s, dials (q.insts ref).address false ∷ effects)
  dialled rest i ref q true = succeeded heap (clock i) ref q >>= λ r. ok (
    r,
    dials (q.insts ref).address true
        ∷ reports (q.insts ref).name (q.insts ref).address
        ∷ shims
        ∷ [],
  )

  abbrev AllAttempted : ℕ → Type 0
  AllAttempted rest =
      (i : ℕ) (p q : Pool) (effects : List Effect)
      → attempts heap intn clock dial rest i p ≡ ok (q, effects)
      → Attempted rest effects

  dialled-Attempted :
      (rest i ref : ℕ) (q t : Pool) (b : Bool) (effects : List Effect)
      → AllAttempted rest
      → dialled rest i ref q b ≡ ok (t, effects)
      → Attempted (suc rest) effects
  dialled-Attempted rest i ref q t false effects again e =
      let (r, reported, e₁) = >>=-eq-ok (failed heap (clock i) ref q) _ e in
      let ((s, later), tried, e₂) = >>=-eq-ok (attempts heap intn clock dial rest (i + 1) r) _ e₁ in
      subst (λ (x : Pool × List Effect). Attempted (suc rest) x.1) (ok-injective e₂)
        (again (i + 1) r s later tried)
  dialled-Attempted rest i ref q t true effects again e =
      let (r, reported, e₁) = >>=-eq-ok (succeeded heap (clock i) ref q) _ e in
      subst (λ (x : Pool × List Effect). Attempted (suc rest) x.1) (ok-injective e₁) refl

  attempts-Attempted : (rest : ℕ) → AllAttempted rest
  unfolding attempts
  attempts-Attempted zero i p q effects e =
      subst (λ (x : Pool × List Effect). Attempted zero x.1) (ok-injective e) tt
  attempts-Attempted (suc rest) i p q effects e =
      let ((r, picked), chosen, e₁) = >>=-eq-ok (pick_instance heap (intn i) (clock i) p) _ e in
      by_pick r picked (attempts-Attempted rest) e₁
    where
      by_pick :
          (r : Pool) (picked : Option ℕ)
          → AllAttempted rest
          → (elim picked as (λ _. Run (Pool × List Effect)) [
            | none ↦ ok (r, runs_out ∷ [])
            | some ref ↦ elim (dial i (r.insts ref).address) [
              | false ↦ failed heap (clock i) ref r >>= λ s.
                  attempts heap intn clock dial rest (i + 1) s >>= λ (t, effects).
                  ok (t, dials (r.insts ref).address false ∷ effects)
              | true ↦ succeeded heap (clock i) ref r >>= λ s. ok (
                s,
                dials (r.insts ref).address true
                    ∷ reports (r.insts ref).name (r.insts ref).address
                    ∷ shims
                    ∷ [],
              )
            ]
          ])
            ≡ ok (q, effects)
          → Attempted (suc rest) effects
      by_pick r none again e =
          subst (λ (x : Pool × List Effect). Attempted (suc rest) x.1) (ok-injective e) tt
      by_pick r (some ref) again e = by_dial (dial i (r.insts ref).address) again e
        where
          by_dial :
              (b : Bool)
              → AllAttempted rest
              → dialled rest i ref r b ≡ ok (q, effects)
              → Attempted (suc rest) effects
          by_dial b again e = dialled-Attempted rest i ref r q b effects again e

  -- A connection that does not panic is dialled at most five times. Every dial but the last fails; the
  -- last is followed by the report of the address dialled and by the shim if it succeeds, and by the
  -- Close of the inbound connection if it is the fifth and fails. For want of an instance the connection
  -- ends with neither.
  pub forward-Attempted :
      (p q : Pool) (effects : List Effect)
      → forward heap intn clock dial p ≡ ok (q, effects)
      → Attempted max_connection_attempts effects
  unfolding forward
  forward-Attempted p q effects e = attempts-Attempted 5 0 p q effects e
