-- ===== src/Daemon/Dependencies.antt =====
-- common/daemon/deps.go: the dependencies of the configured parts, and the order in which their values
-- are made. A DependencyKey is a number, and a dependency is known by its key, of which the map holds
-- one each; a slot, a place for a value, is a number too.
pub mod Counts
pub mod Sorting
pub mod Order
pub mod Requests
pub mod Filling
pub mod Asking
mod Tests
use ambergreen.Common.{
  ℕ, zero, suc, ◌+◌, ◌-◌, Bool, true, false, ◌&&◌, Option, none, some, List, [], ◌∷◌, ◌++◌, Run, ok,
  panic, length, nat_eq, ◌==◌, ℕ_eq, if◌then◌else◌,
}
use ambergreen.GoMap
use ambergreen.GoMap.{Map}

-- The struct depSlot; `none` is a nil owner.
pub record DepSlot : Type 0 where
  pub slot : ℕ
  pub owner : Option ℕ

-- The slots of each dependency.
abbrev pub Dependencies : Type 0
Dependencies = Map ℕ (List DepSlot)

abbrev pub slots_of : ℕ → Dependencies → List DepSlot
slots_of key deps = elim (GoMap.lookup key deps) [ none ↦ [] | some slots ↦ slots ]

-- `counts[key]`
abbrev pub count_of : ℕ → Map ℕ ℕ → ℕ
count_of key counts = elim (GoMap.lookup key counts) [ none ↦ 0 | some n ↦ n ]

-- `counts[slot.owner] += 1`, unless the owner is nil.
abbrev pub count_owner : Option ℕ → Map ℕ ℕ → Map ℕ ℕ
count_owner none counts = counts
count_owner (some o) counts = GoMap.insert o (count_of o counts + 1) counts

-- The two loops that count, for each dependency, the slots that it owns.
unfoldable pub count_slots : List DepSlot → Map ℕ ℕ → Map ℕ ℕ
count_slots [] counts = counts
count_slots (d ∷ slots) counts = count_slots slots (count_owner d.owner counts)

unfoldable pub count_all : Dependencies → Map ℕ ℕ → Map ℕ ℕ
unfolding count_slots
count_all [] counts = counts
count_all ((key, slots) ∷ deps) counts = count_all deps (count_slots slots counts)

-- Those that own none.
unfoldable pub first_ready : Dependencies → Map ℕ ℕ → List ℕ
first_ready [] counts = []
first_ready ((key, slots) ∷ deps) counts =
    let rest = first_ready deps counts in
    if nat_eq (count_of key counts) 0 then key ∷ rest else rest

pub record Sort : Type 0 where
  pub counts : Map ℕ ℕ
  pub ready : List ℕ
  pub res : List ℕ

-- The loop over the slots of a dependency, and what it does for one of them. A count that is lowered is above zero.
abbrev pub release_owner : Option ℕ → Sort → Sort
release_owner none s = s
release_owner (some o) s =
    let count = count_of o s.counts - 1 in
    record s {
      counts = GoMap.insert o count s.counts;
      ready = if nat_eq count 0 then s.ready ++ o ∷ [] else s.ready;
    }

unfoldable pub release : List DepSlot → Sort → Sort
release [] s = s
release (d ∷ slots) s = release slots (release_owner d.owner s)

-- `ready[:len(ready)-1]` and `ready[len(ready)-1]`
abbrev pub pop_behind : ℕ → Option (List ℕ × ℕ) → Option (List ℕ × ℕ)
pop_behind x none = some ([], x)
pop_behind x (some (ys, y)) = some (x ∷ ys, y)

unfoldable pub pop : List ℕ → Option (List ℕ × ℕ)
pop [] = none
pop (x ∷ xs) = pop_behind x (pop xs)

-- A round of the loop over what is ready.
unfoldable pub process : Dependencies → List ℕ → ℕ → Sort → Sort
unfolding release
process deps ready dep s =
    release (slots_of dep deps) (record s { ready = ready; res = s.res ++ dep ∷ [] })

-- The loop, with a bound on its rounds.
unfoldable pub sort_loop : ℕ → Dependencies → Sort → Sort
unfolding process pop
sort_loop zero deps s = s
sort_loop (suc rounds) deps s = elim (pop s.ready) [
  | none ↦ s
  | some (ready, dep) ↦ sort_loop rounds deps (process deps ready dep s)
]

unfoldable pub all_zero : Map ℕ ℕ → Bool
all_zero [] = true
all_zero ((key, count) ∷ counts) = nat_eq count 0 && all_zero counts

-- The state of the loop at its start, and at its end; each dependency has one round.
unfoldable pub sort_start : Dependencies → Sort
unfolding count_all first_ready
sort_start deps =
    let counts = count_all deps [] in
    record { counts = counts; ready = first_ready deps counts; res = [] }

unfoldable pub sort_end : Dependencies → Sort
unfolding sort_start sort_loop
sort_end deps = sort_loop (length deps) deps (sort_start deps)

-- The method sort, which panics at circular dependencies.
unfoldable pub sort : Dependencies → Run (List ℕ)
unfolding sort_end all_zero
sort deps = let s = sort_end deps in if all_zero s.counts then ok s.res else panic
