-- ===== src/Daemon/Dependencies/Filling.antt =====
-- About the slots that are filled before a value is made.
use ambergreen.Common.{
  ℕ, ◌<◌, ◌≡◌, ap, sym, ◌∙◌, subst, Bool, true, false, some, List, [], ◌∷◌, ◌++◌, ok, >>=-eq-ok,
  ok-injective, nat_eq, ℕ_eq, arith, inl, inr, ◌⊎◌, Bool-cases,
}
use ambergreen.GoMap.{Unique}
use ambergreen.Daemon.Dependencies.{DepSlot, Dependencies, slots_of, sort}
use ambergreen.Daemon.Dependencies.Counts.{times, owed}
use ambergreen.Daemon.Dependencies.Sorting.{IsClosed, IsOrdered}
use ambergreen.Daemon.Dependencies.Order.{sort-IsOrdered}
use ambergreen.Daemon.Dependencies.Requests.{Effect, makes, assigns, assign, fill, fill_slots}

abbrev pub In : DepSlot → List DepSlot → Type 0
In s [] = ⊥
In s (d ∷ slots) = (d ≡ s) ⊎ In s slots

-- Wherever a value is made, each slot that its dependency owns has been assigned; `done` is the slots
-- that were assigned before.
abbrev pub IsSupplied : Dependencies → List ℕ → List Effect → Type 0
IsSupplied deps done [] = Unit
IsSupplied deps done (makes o ∷ effects) =
    ((d : ℕ) (s : DepSlot) → In s (slots_of d deps) → s.owner ≡ some o → 0 < times s.slot done)
    × IsSupplied deps done effects
IsSupplied deps done (assigns slot key ∷ effects) = IsSupplied deps (slot ∷ done) effects

owed-In :
    (o : ℕ) (s : DepSlot) (slots : List DepSlot) → In s slots → s.owner ≡ some o → 0 < owed o slots
owed-In o s [] i e = absurd i
owed-In o s (d ∷ slots) (inl same) e =
    let same_owner : d.owner ≡ some o = ap (λ c. c.owner) same ∙ e in ground (arith, same_owner)
owed-In o s (d ∷ slots) (inr i) e = omega (arith, owed-In o s slots i e)

-- The dependencies of `seen` have their slots among those that are done.
abbrev Filled : Dependencies → List ℕ → List ℕ → Type 0
Filled deps seen done =
    (d : ℕ) (s : DepSlot) → 0 < times d seen → In s (slots_of d deps) → 0 < times s.slot done

-- The slots in the order in which they have been assigned, last first.
abbrev assigned : List DepSlot → List ℕ → List ℕ
assigned [] done = done
assigned (s ∷ slots) done = assigned slots (s.slot ∷ done)

times-assigned :
    (x : ℕ) (slots : List DepSlot) (done : List ℕ)
    → 0 < times x done
    → 0 < times x (assigned slots done)
times-assigned x [] done h = h
times-assigned x (s ∷ slots) done h = times-assigned x slots (s.slot ∷ done) (omega arith)

assigned-In :
    (s : DepSlot) (slots : List DepSlot) (done : List ℕ)
    → In s slots
    → 0 < times s.slot (assigned slots done)
assigned-In s [] done i = absurd i
assigned-In s (d ∷ slots) done (inl same) =
    let same_slot : d.slot ≡ s.slot = ap (λ c. c.slot) same in
    times-assigned s.slot slots (d.slot ∷ done) (ground (arith, same_slot))
assigned-In s (d ∷ slots) done (inr i) = assigned-In s slots (d.slot ∷ done) i

assigned-Filled :
    (key : ℕ) (deps : Dependencies) (seen done : List ℕ)
    → Filled deps seen done
    → Filled deps (key ∷ seen) (assigned (slots_of key deps) done)
assigned-Filled key deps seen done filled d s p i = elim (Bool-cases (nat_eq key d)) [
  | inl same ↦
      let is_key : key ≡ d = ground (arith, same) in
      assigned-In s (slots_of key deps) done (subst (λ k. In s (slots_of k deps)) (sym is_key) i)
  | inr other ↦
      times-assigned s.slot (slots_of key deps) done (filled d s (ground (arith, other, p)) i)
]

IsSupplied-assign :
    (deps : Dependencies) (key : ℕ) (slots : List DepSlot) (done : List ℕ) (effects : List Effect)
    → IsSupplied deps (assigned slots done) effects
    → IsSupplied deps done (assign key slots ++ effects)
unfolding assign
IsSupplied-assign deps key [] done effects h = h
IsSupplied-assign deps key (s ∷ slots) done effects h =
    IsSupplied-assign deps key slots (s.slot ∷ done) effects h

fill-IsSupplied :
    (fails : ℕ → Bool) (deps : Dependencies) (order seen done : List ℕ)
    → IsOrdered deps seen order
    → Filled deps seen done
    → IsSupplied deps done (fill fails deps order).0
unfolding fill
fill-IsSupplied fails deps [] seen done ordered filled = tt
fill-IsSupplied fails deps (key ∷ order) seen done ordered filled = by_failure (fails key) (
    fill-IsSupplied fails deps order (key ∷ seen) (assigned (slots_of key deps) done) ordered.1
      (assigned-Filled key deps seen done filled))
  where
    supplied :
        (d : ℕ) (s : DepSlot) → In s (slots_of d deps) → s.owner ≡ some key → 0 < times s.slot done
    supplied d s i e = filled d s (ordered.0 d (owed-In key s (slots_of d deps) i e)) i

    by_failure :
        (b : Bool)
        → IsSupplied deps (assigned (slots_of key deps) done) (fill fails deps order).0
        → IsSupplied deps done
            (elim b as (λ _. List Effect × Bool) [
              | true ↦ (makes key ∷ [], false)
              | false ↦ (
                makes key ∷ (assign key (slots_of key deps) ++ (fill fails deps order).0),
                (fill fails deps order).1,
              )
            ]).0
    by_failure true rest = (supplied, tt)
    by_failure false rest = (
      supplied,
      IsSupplied-assign deps key (slots_of key deps) done (fill fails deps order).0 rest,
    )

-- When no key stands twice, whoever owns a slot is a dependency, and the filling of the slots does not
-- panic, then wherever it makes the value of a dependency, it has assigned each slot that the dependency
-- owns before, also where it ends at an error.
pub fill_slots-IsSupplied :
    (fails : ℕ → Bool) (deps : Dependencies) (effects : List Effect) (done : Bool)
    → Unique deps
    → IsClosed deps
    → fill_slots fails deps ≡ ok (effects, done)
    → IsSupplied deps [] effects
unfolding fill_slots
fill_slots-IsSupplied fails deps effects done u closed e =
    let (order, sorted, filled) = >>=-eq-ok (sort deps) _ e in
    subst (λ (r : List Effect × Bool). IsSupplied deps [] r.0) (ok-injective filled)
      (fill-IsSupplied fails deps order [] [] (sort-IsOrdered deps order u closed sorted).0
        (λ d s p i. absurd (omega arith)))
