-- ===== src/Daemon/Dependencies/Requests.antt =====
-- common/daemon/deps.go: the method Dependency, by which a part asks for a value in a slot, and the
-- filling of the slots at the start. What a configuration asks for in its Populate, and whether its
-- MakeValue fails, are parameters, by the key.
use ambergreen.Common.{
  ℕ, zero, suc, Bool, true, false, Option, none, some, List, [], ◌∷◌, ◌++◌, Run, ok, ◌>>=◌, ℕ_eq,
}
use ambergreen.GoMap
use ambergreen.GoMap.{Map}
use ambergreen.Daemon.Dependencies.{DepSlot, Dependencies, slots_of, sort}

-- A slot and its Key.
abbrev pub Wanted : Type 0
Wanted = ℕ × ℕ

abbrev pub bind : Option Dependencies → (Dependencies → Option Dependencies) → Option Dependencies
bind none next = none
bind (some deps) next = next deps

-- The calls of Dependency that a Populate makes.
unfoldable pub require_each :
    (Wanted → Dependencies → Option Dependencies) → List Wanted → Dependencies → Option Dependencies
require_each one [] deps = some deps
require_each one (w ∷ ws) deps = bind (one w deps) (require_each one ws)

-- `dep.slots = append(dep.slots, depSlot{slot, deps.current})`
unfoldable pub add_slot : Option ℕ → Wanted → Dependencies → Dependencies
add_slot current (slot, key) deps =
    GoMap.modify key (λ slots. slots ++ record { slot = slot; owner = current } ∷ []) deps

module _ (populate : ℕ → List Wanted) where
  -- Dependency, with a bound on how deep it calls itself through Populate; `none` is out of bound.
  unfoldable pub require : ℕ → Option ℕ → Wanted → Dependencies → Option Dependencies
  unfolding require_each add_slot
  require zero current w deps = none
  require (suc depth) current (slot, key) deps = elim (GoMap.has key deps) [
    | true ↦ some (add_slot current (slot, key) deps)
    | false ↦
        bind (require_each (require depth (some key)) (populate key) (GoMap.insert key [] deps))
          λ found. some (add_slot current (slot, key) found)
  ]

-- A call of a MakeValue, and an assignment to a slot of the value of a dependency.
pub data Effect : Type 0 where
  makes : ℕ → Effect
  assigns : ℕ → ℕ → Effect

unfoldable pub assign : ℕ → List DepSlot → List Effect
assign key [] = []
assign key (s ∷ slots) = assigns s.slot key ∷ assign key slots

-- The loop that fills the slots, which ends at the first error.
unfoldable pub fill : (ℕ → Bool) → Dependencies → List ℕ → List Effect × Bool
unfolding assign
fill fails deps [] = ([], true)
fill fails deps (key ∷ order) = elim (fails key) [
  | true ↦ (makes key ∷ [], false)
  | false ↦
      let (effects, done) = fill fails deps order in
      (makes key ∷ (assign key (slots_of key deps) ++ effects), done)
]

-- The filling of all slots, in the order of the sort.
unfoldable pub fill_slots : (ℕ → Bool) → Dependencies → Run (List Effect × Bool)
unfolding sort fill
fill_slots fails deps = sort deps >>= λ order. ok (fill fails deps order)
