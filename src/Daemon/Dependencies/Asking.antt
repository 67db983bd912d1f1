-- ===== src/Daemon/Dependencies/Asking.antt =====
-- About the calls of Dependency: what they leave of the dependencies, and that they end.
use ambergreen.Common.{
  ℕ, zero, suc, ◌+◌, ◌≤◌, ◌<◌, ◌≡◌, refl, ◌∙◌, Bool, true, false, Option, none, some, List, [], ◌∷◌,
  ◌++◌, nat_eq, ℕ_eq, if◌then◌else◌, arith, inl, inr, Bool-cases,
}
use ambergreen.GoMap
use ambergreen.GoMap.{Map, Unique}
use ambergreen.Daemon.Dependencies.{DepSlot, Dependencies, slots_of}
use ambergreen.Daemon.Dependencies.Counts.{owed, owed_by}
use ambergreen.Daemon.Dependencies.Sorting.{IsClosed}
use ambergreen.Daemon.Dependencies.Requests.{Wanted, bind, require_each, add_slot, require}

-- How many of the keys below a number are not there.
abbrev missing : ℕ → Dependencies → ℕ
missing zero deps = 0
missing (suc k) deps = (if GoMap.has k deps then 0 else 1) + missing k deps

-- The dependencies are right, and none is gone.
record Grown (before after : Dependencies) : Type 0 where
  unique : Unique after
  closed : IsClosed after
  kept : (k : ℕ) → GoMap.has k before ≡ true → GoMap.has k after ≡ true

owed-append :
    (x : ℕ) (slots : List DepSlot) (s : DepSlot)
    → owed x (slots ++ s ∷ []) ≡ owed x slots + owed_by x s.owner
owed-append x [] s = omega arith
owed-append x (d ∷ slots) s = omega (arith, owed-append x slots s)

modify-Unique :
    (k : ℕ) (f : List DepSlot → List DepSlot) (deps : Dependencies)
    → Unique deps
    → Unique (GoMap.modify k f deps)
unfolding GoMap.modify
modify-Unique k f [] u = u
modify-Unique k f ((j, w) ∷ deps) u =
    (GoMap.has-modify k j f deps ∙ u.0, modify-Unique k f deps u.1)

-- The owner of a new slot is a dependency.
abbrev pub IsOwner : Option ℕ → Dependencies → Type 0
IsOwner none deps = Unit
IsOwner (some c) deps = GoMap.has c deps ≡ true

owner_has :
    (x : ℕ) (current : Option ℕ) (deps : Dependencies)
    → IsOwner current deps
    → 0 < owed_by x current
    → GoMap.has x deps ≡ true
owner_has x none deps h p = absurd (omega arith)
owner_has x (some c) deps h p = ground (arith, h, p)

IsOwner-kept :
    (current : Option ℕ) (before after : Dependencies)
    → ((k : ℕ) → GoMap.has k before ≡ true → GoMap.has k after ≡ true)
    → IsOwner current before
    → IsOwner current after
IsOwner-kept none before after kept h = tt
IsOwner-kept (some c) before after kept h = kept c h

add_slot-Grown :
    (current : Option ℕ) (slot key : ℕ) (deps : Dependencies)
    → Unique deps
    → IsClosed deps
    → IsOwner current deps
    → Grown deps (add_slot current (slot, key) deps)
unfolding add_slot
add_slot-Grown current slot key deps u closed owner =
    let s : DepSlot = record { slot = slot; owner = current } in
    let f : (List DepSlot → List DepSlot) = λ slots. slots ++ s ∷ [] in
    record {
      unique = modify-Unique key f deps u;
      closed = λ x d p. ground (
        arith,
        p,
        closed x d,
        GoMap.lookup-modify key d f deps,
        owed-append x (slots_of d deps) s,
        owner_has x current deps owner,
        GoMap.has-modify key x f deps,
      );
      kept = λ k h. GoMap.has-modify key k f deps ∙ h;
    }

insert-Grown :
    (key : ℕ) (deps : Dependencies)
    → Unique deps
    → IsClosed deps
    → Grown deps (GoMap.insert key [] deps)
insert-Grown key deps u closed = record {
  unique = GoMap.insert-Unique key [] deps u;
  closed = λ x d p.
      ground
        (arith, p, closed x d, GoMap.lookup-insert key d [] deps, GoMap.has-insert key x [] deps);
  kept = λ k h. ground (arith, h, GoMap.has-insert key k [] deps);
}

missing_le : (bound : ℕ) (deps : Dependencies) → missing bound deps ≤ bound
missing_le zero deps = omega arith
missing_le (suc k) deps = ground (arith, missing_le k deps)

missing-le :
    (bound : ℕ) (before after : Dependencies)
    → ((k : ℕ) → GoMap.has k before ≡ true → GoMap.has k after ≡ true)
    → missing bound after ≤ missing bound before
missing-le zero before after kept = omega arith
missing-le (suc k) before after kept = ground (arith, kept k, missing-le k before after kept)

missing-insert :
    (bound key : ℕ) (deps : Dependencies)
    → GoMap.has key deps ≡ false
    → key < bound
    → missing bound (GoMap.insert key [] deps) + 1 ≤ missing bound deps
missing-insert zero key deps absent low = absurd (omega arith)
missing-insert (suc k) key deps absent low = elim (Bool-cases (nat_eq key k)) [
  | inl same ↦ ground (
    arith,
    same,
    absent,
    GoMap.has-insert key k [] deps,
    missing-le k deps (GoMap.insert key [] deps)
        (λ j h. ground (arith, h, GoMap.has-insert key j [] deps)),
  )
  | inr other ↦ ground (
    arith,
    other,
    GoMap.has-insert key k [] deps,
    missing-insert k key deps absent (ground (arith, other, low)),
  )
]

-- A call that has given the dependencies.
record Answered (o : Option Dependencies) (deps : Dependencies) : Type 0 where
  found : Dependencies
  given : o ≡ some found
  grown : Grown deps found

abbrev pub AllBelow : ℕ → List Wanted → Type 0
AllBelow bound [] = Unit
AllBelow bound ((slot, key) ∷ ws) = (key < bound) × AllBelow bound ws

module _ (bound depth c : ℕ) (one : Wanted → Dependencies → Option Dependencies)
    (step : (slot key : ℕ) (deps : Dependencies)
      → key < bound
      → missing bound deps < depth
      → Unique deps
      → IsClosed deps
      → GoMap.has c deps ≡ true
      → Answered (one (slot, key) deps) deps) where
  require_each-Answered :
      (ws : List Wanted) (deps : Dependencies)
      → AllBelow bound ws
      → missing bound deps < depth
      → Unique deps
      → IsClosed deps
      → GoMap.has c deps ≡ true
      → Answered (require_each one ws deps) deps
  unfolding require_each
  require_each-Answered [] deps below few u closed has = record {
    found = deps;
    given = refl;
    grown = record { unique = u; closed = closed; kept = λ k h. h };
  }
  require_each-Answered ((slot, key) ∷ ws) deps below few u closed has =
      let first = step slot key deps below.0 few u closed has in
      let g = first.grown in
      let rest =
        require_each-Answered ws first.found below.1
          (omega (arith, few, missing-le bound deps first.found g.kept)) g.unique g.closed
          (g.kept c has) in
      record {
        found = rest.found;
        given = rw first.given rest.given;
        grown = record {
          unique = rest.grown.unique;
          closed = rest.grown.closed;
          kept = λ k h. rest.grown.kept k (g.kept k h);
        };
      }

module _ (populate : ℕ → List Wanted) (bound : ℕ)
    (below : (key : ℕ) → AllBelow bound (populate key)) where
  require-Answered :
      (depth : ℕ) (current : Option ℕ) (slot key : ℕ) (deps : Dependencies)
      → key < bound
      → missing bound deps < depth
      → Unique deps
      → IsClosed deps
      → IsOwner current deps
      → Answered (require populate depth current (slot, key) deps) deps
  unfolding require
  require-Answered zero current slot key deps low few u closed owner = absurd (omega arith)
  require-Answered (suc depth) current slot key deps low few u closed owner =
      by_presence (GoMap.has key deps) refl
        (λ s k m l f v cl h. require-Answered depth (some key) s k m l f v cl h)
    where
      by_presence :
          (b : Bool)
          → GoMap.has key deps ≡ b
          → ((s k : ℕ) (m : Dependencies)
              → k < bound
              → missing bound m < depth
              → Unique m
              → IsClosed m
              → GoMap.has key m ≡ true
              → Answered (require populate depth (some key) (s, k) m) m)
          → Answered
              (elim b as (λ _. Option Dependencies) [
                | true ↦ some (add_slot current (slot, key) deps)
                | false ↦
                    bind
                      (require_each
                        (require populate depth (some key))
                        (populate key)
                        (GoMap.insert key [] deps))
                      λ found. some (add_slot current (slot, key) found)
              ])
              deps
      by_presence true has again = record {
        found = add_slot current (slot, key) deps;
        given = refl;
        grown = add_slot-Grown current slot key deps u closed owner;
      }
      by_presence false absent again =
          let fresh = insert-Grown key deps u closed in
          let each =
            require_each-Answered bound depth key (require populate depth (some key)) again
              (populate key) (GoMap.insert key [] deps) (below key)
              (omega (arith, few, missing-insert bound key deps absent low)) fresh.unique
              fresh.closed (GoMap.has-insert_self key [] deps) in
          let kept = λ (k : ℕ) (h : GoMap.has k deps ≡ true). each.grown.kept k (fresh.kept k h) in
          let last =
            add_slot-Grown current slot key each.found each.grown.unique each.grown.closed
              (IsOwner-kept current deps each.found kept owner) in
          record {
            found = add_slot current (slot, key) each.found;
            given = rw each.given refl;
            grown = record {
              unique = last.unique;
              closed = last.closed;
              kept = λ k h. last.kept k (kept k h);
            };
          }

  -- A call of Dependency, for keys below a bound and what their configurations ask for, returns within
  -- a depth of calls above that bound, also where the dependencies are circular. Then no
  -- key stands twice and whoever owns a slot is a dependency, if so before, and no dependency is gone.
  pub require_returns :
      (current : Option ℕ) (slot key : ℕ) (deps : Dependencies)
      → key < bound
      → Unique deps
      → IsClosed deps
      → IsOwner current deps
      → (found : Dependencies) × (require populate (bound + 1) current (slot, key) deps
          ≡ some found)
        × Unique found
        × IsClosed found
        × ((k : ℕ) → GoMap.has k deps ≡ true → GoMap.has k found ≡ true)
  require_returns current slot key deps low u closed owner =
      let a =
        require-Answered (bound + 1) current slot key deps low
          (omega (arith, missing_le bound deps)) u closed owner in
      (a.found, a.given, a.grown.unique, a.grown.closed, a.grown.kept)
