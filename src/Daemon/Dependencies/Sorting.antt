-- ===== src/Daemon/Dependencies/Sorting.antt =====
-- About the rounds of the sort: what its counts are, and which dependencies are ready or done.
use ambergreen.Common.{
  ℕ, zero, suc, ◌+◌, ◌-◌, ◌≤◌, ◌<◌, ◌≡◌, refl, ap, sym, ◌∙◌, subst, true, ◌&&◌, Option, none, some,
  List, [], ◌∷◌, ◌++◌, length, nat_eq, ℕ_eq, if◌then◌else◌, arith,
}
use ambergreen.GoMap
use ambergreen.GoMap.{Map, Unique}
use ambergreen.Daemon.Dependencies.{
  DepSlot, Dependencies, slots_of, count_of, count_all, Sort, release_owner, release, pop, process,
  sort_loop, sort_start, sort_end,
}
use ambergreen.Daemon.Dependencies.Counts.{
  times, owed_by, owed, remaining, left, times-append, times-pop, pop-eq-none, count-count_all,
  remaining_new, left_new, left_nil, remaining_none, times-first_ready,
}

-- Who owns a slot is a dependency.
abbrev pub IsClosed : Dependencies → Type 0
IsClosed deps = (x d : ℕ) → 0 < owed x (slots_of d deps) → GoMap.has x deps ≡ true

-- Those who own slots of a dependency stand behind it: `seen` is what stands before.
abbrev pub IsOrdered : Dependencies → List ℕ → List ℕ → Type 0
IsOrdered deps seen [] = Unit
IsOrdered deps seen (o ∷ l) =
    ((d : ℕ) → 0 < owed o (slots_of d deps) → 0 < times d seen) × IsOrdered deps (o ∷ seen) l

IsOrdered-append :
    (deps : Dependencies) (seen l : List ℕ) (o : ℕ)
    → IsOrdered deps seen l
    → ((d : ℕ) → 0 < owed o (slots_of d deps) → 0 < times d seen + times d l)
    → IsOrdered deps seen (l ++ o ∷ [])
IsOrdered-append deps seen [] o h new = (λ d p. omega (arith, new d p), tt)
IsOrdered-append deps seen (y ∷ l) o h new =
    (h.0, IsOrdered-append deps (y ∷ seen) l o h.1 (λ d p. omega (arith, new d p)))

module _ (deps : Dependencies) where
  -- The counts are of the slots given and of those of the dependencies that are not done.
  abbrev pub Counted : List DepSlot → Sort → Type 0
  Counted slots s = (x : ℕ) → count_of x s.counts ≡ owed x slots + remaining x s.res deps

  -- Exactly the dependencies without a count are ready or done, each once.
  abbrev pub Settled : Sort → Type 0
  Settled s =
      (x : ℕ)
      → times x s.ready + times x s.res
        ≡ (if GoMap.has x deps && nat_eq (count_of x s.counts) 0 then 1 else 0)

  release_owner-Counted :
      (o : Option ℕ) (slots : List DepSlot) (s : Sort)
      → ((x : ℕ) → count_of x s.counts ≡ owed_by x o + owed x slots + remaining x s.res deps)
      → Counted slots (release_owner o s)
  release_owner-Counted none slots s h x = omega (arith, h x)
  release_owner-Counted (some o) slots s h x =
      ground (arith, h x, GoMap.lookup-insert o x (count_of o s.counts - 1) s.counts)

  release_owner-Settled :
      (o : Option ℕ) (slots : List DepSlot) (s : Sort)
      → ((x : ℕ) → count_of x s.counts ≡ owed_by x o + owed x slots + remaining x s.res deps)
      → ((x : ℕ) → 0 < owed_by x o → GoMap.has x deps ≡ true)
      → Settled s
      → Settled (release_owner o s)
  release_owner-Settled none slots s h owns settled x = settled x
  release_owner-Settled (some o) slots s h owns settled x = ground (
    arith,
    h o,
    owns o,
    settled x,
    GoMap.lookup-insert o x (count_of o s.counts - 1) s.counts,
    times-append x s.ready o,
  )

  release_owner-res : (o : Option ℕ) (s : Sort) → (release_owner o s).res ≡ s.res
  release_owner-res none s = refl
  release_owner-res (some o) s = refl

  record Released (s t : Sort) : Type 0 where
    counted : Counted [] t
    settled : Settled t
    res : t.res ≡ s.res

  release-Released :
      (slots : List DepSlot) (s : Sort)
      → ((x : ℕ) → 0 < owed x slots → GoMap.has x deps ≡ true)
      → Counted slots s
      → Settled s
      → Released s (release slots s)
  unfolding release
  release-Released [] s owns counted settled = record {
    counted = counted;
    settled = settled;
    res = refl;
  }
  release-Released (d ∷ slots) s owns counted settled =
      let h : ((x : ℕ)
          → count_of x s.counts ≡ owed_by x d.owner + owed x slots + remaining x s.res deps) =
        λ x. omega (arith, counted x) in
      let r =
        release-Released slots (release_owner d.owner s) (λ x p. owns x (omega arith))
          (release_owner-Counted d.owner slots s h)
          (release_owner-Settled d.owner slots s h (λ x p. owns x (omega arith)) settled) in
      record { counted = r.counted; settled = r.settled; res = r.res ∙ release_owner-res d.owner s }

  pub record Sorting (s : Sort) : Type 0 where
    pub counted : Counted [] s
    pub settled : Settled s
    pub ordered : IsOrdered deps [] s.res

  module _ (u : Unique deps) (closed : IsClosed deps) where
    -- What is popped is a dependency that is not done and owns no slot that is left.
    popped :
        (s : Sort) (ready : List ℕ) (o : ℕ)
        → pop s.ready ≡ some (ready, o)
        → Sorting s
        → (GoMap.has o deps ≡ true) × (count_of o s.counts ≡ 0) × (times o s.res ≡ 0)
    popped s ready o e h =
        let settled = h.settled o in
        let in_ready = times-pop o s.ready ready o e in
        (
          ground (arith, settled, in_ready),
          ground (arith, settled, in_ready),
          ground (arith, settled, in_ready),
        )

    process-Sorting :
        (s : Sort) (ready : List ℕ) (o : ℕ)
        → pop s.ready ≡ some (ready, o)
        → Sorting s
        → Sorting (process deps ready o s)
          × (left s.res deps ≡ 1 + left (process deps ready o s).res deps)
    unfolding process
    process-Sorting s ready o e h =
        let (has, zero_count, fresh) = popped s ready o e h in
        let taken : Sort = record s { ready = ready; res = s.res ++ o ∷ [] } in
        let r =
          release-Released (slots_of o deps) taken (λ x p. closed x o p)
            (λ x. omega (arith, h.counted x, remaining_new x o s.res deps u has fresh))
            (λ x.
              omega (arith, h.settled x, times-pop x s.ready ready o e, times-append x s.res o)) in
        let none_left : remaining o s.res deps ≡ 0 = omega (arith, h.counted o, zero_count) in
        (
          record {
            counted = r.counted;
            settled = r.settled;
            ordered = subst (IsOrdered deps []) (sym r.res) (
                IsOrdered-append deps [] s.res o h.ordered
                  (λ d p. omega (arith, remaining_none o d s.res deps none_left p)));
          },
          left_new o s.res deps u has fresh ∙ ap (λ l. 1 + left l deps) (sym r.res),
        )

    sort_loop-Sorting :
        (rounds : ℕ) (s : Sort)
        → left s.res deps ≤ rounds
        → Sorting s
        → Sorting (sort_loop rounds deps s) × ((sort_loop rounds deps s).ready ≡ [])
    unfolding sort_loop
    sort_loop-Sorting zero s enough h = (h, ended (pop s.ready) refl)
      where
        ended : (o : Option (List ℕ × ℕ)) → pop s.ready ≡ o → s.ready ≡ []
        ended none e = pop-eq-none s.ready e
        ended (some (ready, o)) e =
            absurd (omega (arith, (process-Sorting s ready o e h).1, enough))
    sort_loop-Sorting (suc rounds) s enough h = go (pop s.ready) refl (sort_loop-Sorting rounds)
      where
        Done : Sort → Type 0
        Done t = Sorting t × (t.ready ≡ [])

        go :
            (o : Option (List ℕ × ℕ))
            → pop s.ready ≡ o
            → ((t : Sort)
                → left t.res deps ≤ rounds
                → Sorting t
                → Sorting (sort_loop rounds deps t) × ((sort_loop rounds deps t).ready ≡ []))
            → Done (elim o as (λ _. Sort) [
              | none ↦ s
              | some (ready, dep) ↦ sort_loop rounds deps (process deps ready dep s)
            ])
        go none e again = (h, pop-eq-none s.ready e)
        go (some (ready, o)) e again =
            let (next, fewer) = process-Sorting s ready o e h in
            again (process deps ready o s) (omega (arith, fewer, enough)) next

    sort_start-Sorting : Sorting (sort_start deps)
    unfolding sort_start GoMap.lookup
    sort_start-Sorting = record {
      counted = λ x. omega (arith, count-count_all x deps []);
      settled = λ x. omega (arith, times-first_ready x deps (count_all deps []) u);
      ordered = tt;
    }

    pub sort_end-Sorting : Sorting (sort_end deps) × ((sort_end deps).ready ≡ [])
    unfolding sort_end sort_start
    sort_end-Sorting =
        sort_loop-Sorting (length deps) (sort_start deps) (omega (arith, left_nil deps))
          sort_start-Sorting
