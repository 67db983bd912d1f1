-- ===== src/Daemon/Dependencies/Counts.antt =====
-- About the slots that a dependency owns, and those of them that are still to be filled.
use ambergreen.Common.{
  ℕ, ◌+◌, ◌<◌, ◌≡◌, refl, true, false, ◌&&◌, Option, none, some, List, [], ◌∷◌, ◌++◌, length,
  nat_eq, ℕ_eq, if◌then◌else◌, arith,
}
use ambergreen.GoMap
use ambergreen.GoMap.{Map, Unique}
use ambergreen.Daemon.Dependencies.{
  DepSlot, Dependencies, slots_of, count_of, count_owner, count_slots, pop_behind, count_all,
  first_ready, pop, all_zero,
}

-- How often a key stands in a list.
abbrev pub times : ℕ → List ℕ → ℕ
times x [] = 0
times x (y ∷ l) = (if nat_eq y x then 1 else 0) + times x l

abbrev pub owed_by : ℕ → Option ℕ → ℕ
owed_by x none = 0
owed_by x (some o) = if nat_eq o x then 1 else 0

-- How many of the slots a dependency owns.
abbrev pub owed : ℕ → List DepSlot → ℕ
owed x [] = 0
owed x (d ∷ slots) = owed_by x d.owner + owed x slots

-- The same for the slots of all dependencies that are not in the list.
abbrev pub remaining : ℕ → List ℕ → Dependencies → ℕ
remaining x res [] = 0
remaining x res ((key, slots) ∷ deps) =
    (if nat_eq (times key res) 0 then owed x slots else 0) + remaining x res deps

-- How many dependencies are not in the list.
abbrev pub left : List ℕ → Dependencies → ℕ
left res [] = 0
left res ((key, slots) ∷ deps) = (if nat_eq (times key res) 0 then 1 else 0) + left res deps

pub times-append :
    (x : ℕ) (l : List ℕ) (y : ℕ) → times x (l ++ y ∷ []) ≡ times x l + (if nat_eq y x then 1 else 0)
times-append x [] y = ground arith
times-append x (z ∷ l) y = ground (arith, times-append x l y)

times-pop_behind :
    (x z y : ℕ) (l ys : List ℕ) (o : Option (List ℕ × ℕ))
    → (o ≡ none → l ≡ [])
    → ((vs : List ℕ) (v : ℕ)
        → o ≡ some (vs, v)
        → times x l ≡ times x vs + (if nat_eq v x then 1 else 0))
    → pop_behind z o ≡ some (ys, y)
    → times x (z ∷ l) ≡ times x ys + (if nat_eq y x then 1 else 0)
times-pop_behind x z y l ys none empty more e = ground (arith, e, empty refl)
times-pop_behind x z y l ys (some (vs, v)) empty more e = ground (arith, e, more vs v refl)

pub pop-eq-none : (l : List ℕ) → pop l ≡ none → l ≡ []
unfolding pop
pop-eq-none [] e = refl
pop-eq-none (z ∷ l) e = ground (arith, e)

pub times-pop :
    (x : ℕ) (l ys : List ℕ) (y : ℕ)
    → pop l ≡ some (ys, y)
    → times x l ≡ times x ys + (if nat_eq y x then 1 else 0)
unfolding pop
times-pop x [] ys y e = cc
times-pop x (z ∷ l) ys y e =
    times-pop_behind x z y l ys (pop l) (pop-eq-none l) (λ vs v. times-pop x l vs v) e

count-count_owner :
    (x : ℕ) (o : Option ℕ) (counts : Map ℕ ℕ)
    → count_of x (count_owner o counts) ≡ owed_by x o + count_of x counts
count-count_owner x none counts = ground arith
count-count_owner x (some o) counts =
    ground (arith, GoMap.lookup-insert o x (count_of o counts + 1) counts)

count-count_slots :
    (x : ℕ) (slots : List DepSlot) (counts : Map ℕ ℕ)
    → count_of x (count_slots slots counts) ≡ owed x slots + count_of x counts
unfolding count_slots
count-count_slots x [] counts = ground arith
count-count_slots x (d ∷ slots) counts = omega (
  arith,
  count-count_slots x slots (count_owner d.owner counts),
  count-count_owner x d.owner counts,
)

-- At first the counts are of all slots.
pub count-count_all :
    (x : ℕ) (deps : Dependencies) (counts : Map ℕ ℕ)
    → count_of x (count_all deps counts) ≡ remaining x [] deps + count_of x counts
unfolding count_all
count-count_all x [] counts = ground arith
count-count_all x ((key, slots) ∷ deps) counts =
    ground
      (arith, count-count_all x deps (count_slots slots counts), count-count_slots x slots counts)

-- A dependency that is new in the list takes its slots away.
pub remaining_other :
    (x o : ℕ) (res : List ℕ) (deps : Dependencies)
    → GoMap.has o deps ≡ false
    → remaining x (res ++ o ∷ []) deps ≡ remaining x res deps
unfolding GoMap.has GoMap.lookup
remaining_other x o res [] h = refl
remaining_other x o res ((key, slots) ∷ deps) h =
    ground (arith, remaining_other x o res deps, times-append key res o)

pub remaining_new :
    (x o : ℕ) (res : List ℕ) (deps : Dependencies)
    → Unique deps
    → GoMap.has o deps ≡ true
    → times o res ≡ 0
    → remaining x res deps ≡ owed x (slots_of o deps) + remaining x (res ++ o ∷ []) deps
unfolding GoMap.has GoMap.lookup
remaining_new x o res [] u h fresh = cc
remaining_new x o res ((key, slots) ∷ deps) u h fresh = ground (
  arith,
  u.0,
  remaining_new x o res deps u.1,
  remaining_other x o res deps,
  times-append key res o,
)

left_other :
    (o : ℕ) (res : List ℕ) (deps : Dependencies)
    → GoMap.has o deps ≡ false
    → left (res ++ o ∷ []) deps ≡ left res deps
unfolding GoMap.has GoMap.lookup
left_other o res [] h = refl
left_other o res ((key, slots) ∷ deps) h =
    ground (arith, left_other o res deps, times-append key res o)

pub left_new :
    (o : ℕ) (res : List ℕ) (deps : Dependencies)
    → Unique deps
    → GoMap.has o deps ≡ true
    → times o res ≡ 0
    → left res deps ≡ 1 + left (res ++ o ∷ []) deps
unfolding GoMap.has GoMap.lookup
left_new o res [] u h fresh = cc
left_new o res ((key, slots) ∷ deps) u h fresh =
    ground (arith, u.0, left_new o res deps u.1, left_other o res deps, times-append key res o)

pub left_nil : (deps : Dependencies) → left [] deps ≡ length deps
left_nil [] = refl
left_nil ((key, slots) ∷ deps) = ground (arith, left_nil deps)

-- Where no slot remains that a dependency owns, each dependency with such a slot is in the list.
pub remaining_none :
    (x d : ℕ) (res : List ℕ) (deps : Dependencies)
    → remaining x res deps ≡ 0
    → 0 < owed x (slots_of d deps)
    → 0 < times d res
unfolding GoMap.lookup
remaining_none x d res [] h owes = absurd (omega arith)
remaining_none x d res ((key, slots) ∷ deps) h owes = ground (arith, remaining_none x d res deps)

-- Only dependencies that own no slot are ready at first, each once.
pub times-first_ready :
    (x : ℕ) (deps : Dependencies) (counts : Map ℕ ℕ)
    → Unique deps
    → times x (first_ready deps counts)
      ≡ (if GoMap.has x deps && nat_eq (count_of x counts) 0 then 1 else 0)
unfolding first_ready GoMap.has GoMap.lookup
times-first_ready x [] counts u = refl
times-first_ready x ((key, slots) ∷ deps) counts u =
    ground (arith, u.0, times-first_ready x deps counts u.1)

pub count-all_zero : (x : ℕ) (counts : Map ℕ ℕ) → all_zero counts ≡ true → count_of x counts ≡ 0
unfolding all_zero GoMap.lookup
count-all_zero x [] h = refl
count-all_zero x ((key, n) ∷ counts) h = ground (arith, count-all_zero x counts)
