-- ===== src/Daemon/Dependencies/Tests.antt =====
-- Runs with two dependencies, of which the first asks for the second.
use ambergreen.Common.{
  ℕ, zero, suc, ◌+◌, ◌<◌, ◌≡◌, refl, Bool, true, false, none, some, List, [], ◌∷◌, ok, ℕ_eq,
  if◌then◌else◌, arith,
}
use ambergreen.GoMap
use ambergreen.GoMap.{Unique}
use ambergreen.Daemon.Dependencies.{
  Dependencies, slots_of, sort, sort_start, sort_end, sort_loop, process, release, pop, count_all,
  count_slots, first_ready, all_zero,
}
use ambergreen.Daemon.Dependencies.Counts.{times, owed}
use ambergreen.Daemon.Dependencies.Sorting.{IsClosed, IsOrdered}
use ambergreen.Daemon.Dependencies.Order.{sort-IsOrdered, sort_returns}
use ambergreen.Daemon.Dependencies.Requests.{
  Wanted, require, require_each, add_slot, Effect, makes, assigns, assign, fill, fill_slots,
}
use ambergreen.Daemon.Dependencies.Filling.{IsSupplied, fill_slots-IsSupplied}
use ambergreen.Daemon.Dependencies.Asking.{AllBelow, require_returns}

abbrev two : Dependencies
two =
    (0, record { slot = 5; owner = none } ∷ [])
    ∷ (1, record { slot = 10; owner = some 0 } ∷ [])
    ∷ []

two-Unique : Unique two
unfolding GoMap.has GoMap.lookup
two-Unique = (refl, (refl, tt))

two-IsClosed : IsClosed two
unfolding GoMap.has GoMap.lookup
two-IsClosed x d p = ground (arith, p)

two_sorted : sort two ≡ ok (1 ∷ 0 ∷ [])
unfolding sort sort_end sort_start sort_loop process release pop count_all count_slots first_ready
    all_zero GoMap.lookup GoMap.insert
two_sorted = refl

sort-IsOrdered_example :
    IsOrdered two [] (1 ∷ 0 ∷ [])
    × ((x : ℕ) → times x (1 ∷ 0 ∷ []) ≡ (if GoMap.has x two then 1 else 0))
sort-IsOrdered_example = sort-IsOrdered two (1 ∷ 0 ∷ []) two-Unique two-IsClosed two_sorted

abbrev rank : ℕ → ℕ
rank zero = 1
rank (suc n) = 0

rank_falls : (x d : ℕ) → 0 < owed x (slots_of d two) → rank d < rank x
unfolding GoMap.lookup
rank_falls zero zero p = ground (arith, p)
rank_falls zero (suc d) p = omega arith
rank_falls (suc x) d p = ground (arith, p)

sort_returns_example : (res : List ℕ) × (sort two ≡ ok res)
sort_returns_example = sort_returns two two-Unique two-IsClosed rank rank_falls

abbrev never : ℕ → Bool
never key = false

abbrev filling : List Effect
filling = makes 1 ∷ assigns 10 1 ∷ makes 0 ∷ assigns 5 0 ∷ []

two_filled : fill_slots never two ≡ ok (filling, true)
unfolding fill_slots fill assign sort sort_end sort_start sort_loop process release pop count_all
    count_slots first_ready all_zero GoMap.lookup GoMap.insert
two_filled = refl

fill_slots-IsSupplied_example : IsSupplied two [] filling
fill_slots-IsSupplied_example =
    fill_slots-IsSupplied never two filling true two-Unique two-IsClosed two_filled

-- The first asks for the second in its slot 10.
abbrev asks : ℕ → List Wanted
asks zero = (10, 1) ∷ []
asks (suc n) = []

asks_below : (key : ℕ) → AllBelow 2 (asks key)
asks_below zero = (omega arith, tt)
asks_below (suc n) = tt

abbrev nothing : Dependencies
nothing = []

none-IsClosed : IsClosed nothing
unfolding GoMap.lookup
none-IsClosed x d p = absurd (omega arith)

require_returns_example :
    (found : Dependencies) × (require asks (2 + 1) none (5, 0) nothing ≡ some found)
    × Unique found
    × IsClosed found
    × ((k : ℕ) → GoMap.has k nothing ≡ true → GoMap.has k found ≡ true)
require_returns_example =
    require_returns asks 2 asks_below none 5 0 nothing (omega arith) tt none-IsClosed tt

requires_two : require asks 3 none (5, 0) [] ≡ some two
unfolding require require_each add_slot GoMap.has GoMap.lookup GoMap.insert GoMap.modify
requires_two = refl
