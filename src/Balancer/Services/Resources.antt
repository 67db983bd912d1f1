-- ===== src/Balancer/Services/Resources.antt =====
-- Counting the resources that the services hold.
use ambergreen.Common.{
  ℕ, ◌+◌, String, ◌≡◌, refl, Bool, false, ◌&&◌, Option, none, some, List, [], ◌∷◌, nat_eq,
  string_eq, if◌then◌else◌, arith,
}
use ambergreen.GoMap
use ambergreen.GoMap.{Unique, Map, keys}
use ambergreen.Net.{ip_port_eq, equal}
use ambergreen.Balancer.Services.{
  Resource, reject_rule, forward_rule, listener, World, ServiceState, rejecting, forwarding,
  stop_state, stop_rejecting, stop_forwarding, delete_rule, close_resource, Environment,
}

abbrev pub same_resource : Resource → Resource → Bool
same_resource (reject_rule a) (reject_rule b) = equal a b
same_resource (forward_rule a m) (forward_rule b n) = equal a b && nat_eq m n
same_resource (listener m) (listener n) = nat_eq m n
same_resource r s = false

-- How often a resource stands in a list.
unfoldable pub count : Resource → List Resource → ℕ
count r [] = 0
count r (x ∷ xs) = (if same_resource x r then 1 else 0) + count r xs

-- How often a state holds it.
unfoldable pub held_by : Resource → ServiceState → ℕ
held_by r (rejecting addr) = if same_resource (reject_rule addr) r then 1 else 0
held_by r (forwarding s addr fwd) =
    (if same_resource (forward_rule addr fwd) r then 1 else 0)
    + (if same_resource (listener fwd) r then 1 else 0)

abbrev pub held_opt : Resource → Option ServiceState → ℕ
held_opt r none = 0
held_opt r (some state) = held_by r state

unfoldable pub held : Resource → Map String ServiceState → ℕ
held r [] = 0
held r ((name, state) ∷ m) = held_by r state + held r m

module _ (r : Resource) where
  pub held-insert :
      (name : String) (state : ServiceState) (m : Map String ServiceState)
      → held r (GoMap.insert name state m) + held_opt r (GoMap.lookup name m)
        ≡ held r m + held_by r state
  unfolding held GoMap.insert GoMap.lookup
  held-insert name state [] = omega arith
  held-insert name state ((j, x) ∷ m) = ground (arith, held-insert name state m)

  held-delete_none :
      (name : String) (m : Map String ServiceState)
      → GoMap.has name m ≡ false
      → held r (GoMap.delete name m) ≡ held r m
  unfolding held GoMap.delete GoMap.lookup GoMap.has
  held-delete_none name [] h = refl
  held-delete_none name ((j, x) ∷ m) h = ground (arith, held-delete_none name m)

  pub held-delete :
      (name : String) (m : Map String ServiceState)
      → Unique m
      → held r (GoMap.delete name m) + held_opt r (GoMap.lookup name m) ≡ held r m
  unfolding held GoMap.delete GoMap.lookup
  held-delete name [] u = omega arith
  held-delete name ((j, x) ∷ m) u =
      ground (arith, held-delete name m u.1, held-delete_none name m, string_eq.beq_iff j name, u.0)

  -- How often it has been closed or left behind.
  abbrev pub given_up : World → ℕ
  given_up w = count r w.closed + count r w.left

  pub given_up-stop_state :
      (env : Environment) (state : ServiceState) (w : World)
      → given_up (stop_state env state w) ≡ held_by r state + given_up w
  unfolding count held_by stop_state stop_rejecting stop_forwarding delete_rule close_resource
  given_up-stop_state env (rejecting addr) w = ground arith
  given_up-stop_state env (forwarding s addr fwd) w = ground arith

  pub opened-stop_state :
      (env : Environment) (state : ServiceState) (w : World)
      → (stop_state env state w).opened ≡ w.opened
  unfolding stop_state stop_rejecting stop_forwarding delete_rule close_resource
  opened-stop_state env (rejecting addr) w = ground arith
  opened-stop_state env (forwarding s addr fwd) w = ground arith

-- A forwarder's listener is not left behind.
pub left-stop_state :
    (n : ℕ) (env : Environment) (state : ServiceState) (w : World)
    → count (listener n) (stop_state env state w).left ≡ count (listener n) w.left
unfolding count stop_state stop_rejecting stop_forwarding delete_rule close_resource
left-stop_state n env (rejecting addr) w = ground arith
left-stop_state n env (forwarding s addr fwd) w = ground arith
