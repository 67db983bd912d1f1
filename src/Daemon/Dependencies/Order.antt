-- ===== src/Daemon/Dependencies/Order.antt =====
-- About the order that the sort gives, and when it gives one.
use ambergreen.Common.{
  ℕ, zero, suc, ◌+◌, ◌-◌, ◌<◌, ◌≡◌, refl, ap, subst, true, Option, none, some, List, [], ◌∷◌, ◌++◌,
  ok, ok-injective, length, ℕ_eq, if◌then◌else◌, arith, inl, inr, Bool-cases,
}
use ambergreen.GoMap
use ambergreen.GoMap.{Map, Unique}
use ambergreen.Daemon.Dependencies.{
  DepSlot, Dependencies, slots_of, count_of, count_owner, count_slots, count_all, Sort,
  release_owner, release, pop, process, sort_loop, sort_start, sort_end, all_zero, sort,
}
use ambergreen.Daemon.Dependencies.Counts.{times, owed, remaining, count-all_zero}
use ambergreen.Daemon.Dependencies.Sorting.{IsClosed, IsOrdered, sort_end-Sorting}

-- When no key stands twice, and whoever owns a slot is a dependency, a sort that does not panic gives
-- every dependency once and nothing else, and each stands before those that own a slot of it.
pub sort-IsOrdered :
    (deps : Dependencies) (res : List ℕ)
    → Unique deps
    → IsClosed deps
    → sort deps ≡ ok res
    → IsOrdered deps [] res × ((x : ℕ) → times x res ≡ (if GoMap.has x deps then 1 else 0))
unfolding sort
sort-IsOrdered deps res u closed e = elim (Bool-cases (all_zero (sort_end deps).counts)) [
  | inl zeros ↦
      let (h, ended) = sort_end-Sorting deps u closed in
      subst
        (λ res.
          IsOrdered deps [] res × ((x : ℕ) → times x res ≡ (if GoMap.has x deps then 1 else 0)))
        (ok-injective (rw (zeros, sort) at e))
        (
          h.ordered,
          λ x. ground (
            arith,
            h.settled x,
            ap (times x) ended,
            count-all_zero x (sort_end deps).counts zeros,
          ),
        )
  | inr circular ↦ absurd (ground (arith, rw (circular, sort) at e))
]

count_slots-Unique :
    (slots : List DepSlot) (counts : Map ℕ ℕ) → Unique counts → Unique (count_slots slots counts)
unfolding count_slots
count_slots-Unique [] counts u = u
count_slots-Unique (d ∷ slots) counts u = count_slots-Unique slots _ (owner d.owner)
  where
    owner : (o : Option ℕ) → Unique (count_owner o counts)
    owner none = u
    owner (some o) = GoMap.insert-Unique o (count_of o counts + 1) counts u

count_all-Unique :
    (deps : Dependencies) (counts : Map ℕ ℕ) → Unique counts → Unique (count_all deps counts)
unfolding count_all
count_all-Unique [] counts u = u
count_all-Unique ((key, slots) ∷ deps) counts u =
    count_all-Unique deps (count_slots slots counts) (count_slots-Unique slots counts u)

release-Unique :
    (slots : List DepSlot) (s : Sort) → Unique s.counts → Unique (release slots s).counts
unfolding release
release-Unique [] s u = u
release-Unique (d ∷ slots) s u = release-Unique slots (release_owner d.owner s) (owner d.owner)
  where
    owner : (o : Option ℕ) → Unique (release_owner o s).counts
    owner none = u
    owner (some o) = GoMap.insert-Unique o (count_of o s.counts - 1) s.counts u

sort_loop-Unique :
    (rounds : ℕ) (deps : Dependencies) (s : Sort)
    → Unique s.counts
    → Unique (sort_loop rounds deps s).counts
unfolding sort_loop process
sort_loop-Unique zero deps s u = u
sort_loop-Unique (suc rounds) deps s u = go (pop s.ready) (sort_loop-Unique rounds deps)
  where
    go :
        (o : Option (List ℕ × ℕ))
        → ((t : Sort) → Unique t.counts → Unique (sort_loop rounds deps t).counts)
        → Unique
            (elim o as (λ _. Sort) [
              | none ↦ s
              | some (ready, dep) ↦ sort_loop rounds deps (process deps ready dep s)
            ]).counts
    go none again = u
    go (some (ready, dep)) again =
        again (process deps ready dep s) (
          release-Unique (slots_of dep deps) (record s { ready = ready; res = s.res ++ dep ∷ [] })
            u)

all_zero-true :
    (counts : Map ℕ ℕ) → Unique counts → ((x : ℕ) → count_of x counts ≡ 0) → all_zero counts ≡ true
unfolding all_zero GoMap.lookup GoMap.has
all_zero-true [] u h = refl
all_zero-true ((key, n) ∷ counts) u h =
    let rest = all_zero-true counts u.1 (λ x. ground (arith, h x, u.0)) in
    ground (arith, h key, rest)

remaining-eq-zero :
    (x : ℕ) (res : List ℕ) (deps : Dependencies)
    → Unique deps
    → ((d : ℕ) → 0 < owed x (slots_of d deps) → 0 < times d res)
    → remaining x res deps ≡ 0
unfolding GoMap.lookup GoMap.has
remaining-eq-zero x res [] u h = refl
remaining-eq-zero x res ((key, slots) ∷ deps) u h =
    let rest = remaining-eq-zero x res deps u.1 (λ d p. ground (arith, h d, p, u.0)) in
    ground (arith, h key, rest)

owed-has : (x d : ℕ) (deps : Dependencies) → 0 < owed x (slots_of d deps) → GoMap.has d deps ≡ true
unfolding GoMap.has
owed-has x d deps p = ground (arith, p)

module _ (deps : Dependencies) (u : Unique deps) (closed : IsClosed deps) (rank : ℕ → ℕ)
    (falls : (x d : ℕ) → 0 < owed x (slots_of d deps) → rank d < rank x) where
  no_count : (n x : ℕ) → rank x < n → count_of x (sort_end deps).counts ≡ 0
  no_count zero x p = absurd (omega arith)
  no_count (suc n) x p =
      let (h, ended) = sort_end-Sorting deps u closed in
      let none_left = remaining-eq-zero x (sort_end deps).res deps u (λ d owes. ground (
        arith,
        h.settled d,
        ap (times d) ended,
        owed-has x d deps owes,
        no_count n d (omega (arith, falls x d owes, p)),
      )) in
      omega (arith, h.counted x, none_left)

  -- When no key stands twice, whoever owns a slot is a dependency, and there is no circle, since each
  -- dependency that owns a slot of another has a greater rank than that other, the sort does not panic.
  pub sort_returns : (res : List ℕ) × (sort deps ≡ ok res)
  unfolding sort sort_end sort_start
  sort_returns = (
    (sort_end deps).res,
    rw (
      all_zero-true (sort_end deps).counts
          (sort_loop-Unique (length deps) deps (sort_start deps) (count_all-Unique deps [] tt))
          (λ x. no_count (suc (rank x)) x (omega arith)),
      sort,
    ),
  )
