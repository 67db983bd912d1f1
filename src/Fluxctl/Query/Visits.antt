-- ===== src/Fluxctl/Query/Visits.antt =====
-- About the rows that the loops of a query print.
use ambergreen.Common.{
  String, ◌≡◌, ◌⊎◌, refl, subst, sym, inl, inr, Bool, true, false, Option, none, some, List, [],
  ◌∷◌, ◌++◌, Run, ok, ◌==◌, string_eq, if◌then◌else◌, arith, Bool-cases,
}
use ambergreen.GoMap
use ambergreen.GoMap.{Map, Unique, AllEntries}
use ambergreen.Net.{Platform}
use ambergreen.Store.Data.{Selector, label, includes, Instance, ServiceInfo}
use ambergreen.Fluxctl.Query.{Row, labeled, visit_instances, visit_services}

-- Membership in the rows.
abbrev pub In : Row → List Row → Type 0
In row [] = ⊥
In row (r ∷ rows) = (r ≡ row) ⊎ In row rows

In-append : (row : Row) (rows more : List Row) → In row rows ⊎ In row more → In row (rows ++ more)
In-append row [] more (inl i) = absurd i
In-append row [] more (inr i) = i
In-append row (r ∷ rows) more (inl (inl e)) = inl e
In-append row (r ∷ rows) more (inl (inr i)) = inr (In-append row rows more (inl i))
In-append row (r ∷ rows) more (inr i) = inr (In-append row rows more (inr i))

In-either : (row : Row) (rows more : List Row) → In row (rows ++ more) → In row rows ⊎ In row more
In-either row [] more i = inr i
In-either row (r ∷ rows) more (inl e) = inl (inl e)
In-either row (r ∷ rows) more (inr i) = elim (In-either row rows more i) [
  | inl a ↦ inl (inr a)
  | inr b ↦ inr b
]

module _ (p : Platform) (prints : Row → Bool) where
  -- The instance has each label of the selector.
  abbrev pub Meets : Selector → Instance → Type 0
  Meets [] inst = Unit
  Meets ((k, v) ∷ sel) inst = (label p inst k ≡ v) × Meets sel inst

  includes_cases :
      (sel : Selector) (inst : Instance)
      → ((includes sel (labeled p prints inst) ≡ ok true) × Meets sel inst)
        ⊎ ((includes sel (labeled p prints inst) ≡ ok false) × (Meets sel inst → ⊥))
  unfolding includes
  includes_cases [] inst = inl (refl, tt)
  includes_cases ((k, v) ∷ sel) inst = elim (Bool-cases (label p inst k == v)) [
    | inr other ↦ inr (
      rw (other, includes) refl,
      λ h. ground (arith, h.0, other, string_eq.beq_iff (label p inst k) v),
    )
    | inl same ↦ elim (includes_cases sel inst) [
      | inl (e, h) ↦ inl (rw (same, includes) e, ((string_eq.beq_iff (label p inst k) v).0 same, h))
      | inr (e, h) ↦ inr (rw (same, includes) e, λ q. h q.1)
    ]
  ]

  -- What a loop over instances prints, given where they are looked up.
  pub record IsVisit (sel : Selector) (at : String → String → Option Instance)
      (out : Run (List Row × Bool)) : Type 0 where
    pub rows : List Row
    pub done : Bool
    pub given : out ≡ ok (rows, done)
    pub sound :
        (row : Row) → In row rows → (at row.service row.name ≡ some row.inst) × Meets sel row.inst
    pub complete :
        done ≡ true
        → (row : Row) → at row.service row.name ≡ some row.inst
        → Meets sel row.inst
        → In row rows

  -- The instances of one service.
  abbrev one_at : String → Map String Instance → String → String → Option Instance
  one_at svc_name m n i = if svc_name == n then GoMap.lookup i m else none

  row_eq :
      (svc_name name : String) (inst : Instance) (r : Row)
      → svc_name ≡ r.service
      → name ≡ r.name
      → inst ≡ r.inst
      → (let row : Row = record { service = svc_name; name = name; inst = inst } in row) ≡ r
  row_eq svc_name name inst r e e₁ e₂ = cc

  module _ (sel : Selector) (svc_name name : String) (inst : Instance) (m : Map String Instance)
      (fresh : GoMap.has name m ≡ false) where
    one_at-tail :
        (r : Row)
        → one_at svc_name m r.service r.name ≡ some r.inst
        → one_at svc_name ((name, inst) ∷ m) r.service r.name ≡ some r.inst
    unfolding GoMap.lookup GoMap.has
    one_at-tail r e = ground (arith, e, fresh, string_eq.beq_iff name r.name)

    one_at-cons :
        (r : Row)
        → one_at svc_name ((name, inst) ∷ m) r.service r.name ≡ some r.inst
        → ((let row : Row = record { service = svc_name; name = name; inst = inst } in row) ≡ r)
          ⊎ (one_at svc_name m r.service r.name ≡ some r.inst)
    unfolding GoMap.lookup
    one_at-cons r e = elim (Bool-cases (name == r.name)) [
      | inr other ↦ inr (ground (arith, e, other))
      | inl same ↦ inl (
          row_eq svc_name name inst r (ground (arith, e, string_eq.beq_iff svc_name r.service))
            ((string_eq.beq_iff name r.name).0 same) (ground (arith, e, same)))
    ]

    one_at_self : one_at svc_name ((name, inst) ∷ m) svc_name name ≡ some inst
    unfolding GoMap.lookup
    one_at_self = ground (arith, string_eq.beq_iff name name, string_eq.beq_iff svc_name svc_name)

  IsVisit-cons :
      (sel : Selector) (svc_name name : String) (inst : Instance) (m : Map String Instance)
      → GoMap.has name m ≡ false
      → IsVisit sel (one_at svc_name m) (visit_instances p prints sel svc_name m)
      → IsVisit sel
          (one_at svc_name ((name, inst) ∷ m))
          (visit_instances p prints sel svc_name ((name, inst) ∷ m))
  unfolding visit_instances
  IsVisit-cons sel svc_name name inst m fresh rest = elim (includes_cases sel inst) [
    | inr (e, misses) ↦ record {
      rows = rest.rows;
      done = rest.done;
      given = rw (e) rest.given;
      sound = λ r i.
          let (e₁, h) = rest.sound r i in (one_at-tail sel svc_name name inst m fresh r e₁, h);
      complete = λ d r e₁ h. elim (one_at-cons sel svc_name name inst m fresh r e₁) [
        | inl same ↦ absurd (misses (subst (λ (x : Row). Meets sel x.inst) (sym same) h))
        | inr later ↦ rest.complete d r later h
      ];
    }
    | inl (e, meets) ↦
        elim (Bool-cases (prints (record { service = svc_name; name = name; inst = inst }))) [
          | inr fails ↦ record {
            rows = [];
            done = false;
            given = rw (e, fails) refl;
            sound = λ r i. absurd i;
            complete = λ d. cc;
          }
          | inl works ↦ record {
            rows = record { service = svc_name; name = name; inst = inst } ∷ rest.rows;
            done = rest.done;
            given = rw (e, works, rest.given) refl;
            sound = λ r i. elim i [
              | inl same ↦
                  subst
                    (λ (x : Row).
                      (one_at svc_name ((name, inst) ∷ m) x.service x.name ≡ some x.inst)
                      × Meets sel x.inst)
                    same (one_at_self sel svc_name name inst m fresh, meets)
              | inr later ↦
                  let (e₁, h) = rest.sound r later in
                  (one_at-tail sel svc_name name inst m fresh r e₁, h)
            ];
            complete = λ d r e₁ h. elim (one_at-cons sel svc_name name inst m fresh r e₁) [
              | inl same ↦ inl same
              | inr later ↦ inr (rest.complete d r later h)
            ];
          }
        ]
  ]

  -- The instance that services hold.
  abbrev pub found_at : Map String ServiceInfo → String → String → Option Instance
  found_at svcs n i = elim (GoMap.lookup n svcs) [
    | none ↦ none
    | some svc ↦ GoMap.lookup i svc.instances
  ]

  module _ (svc_name : String) (svc : ServiceInfo) (svcs : Map String ServiceInfo) where
    found_first :
        (r : Row)
        → one_at svc_name svc.instances r.service r.name ≡ some r.inst
        → found_at ((svc_name, svc) ∷ svcs) r.service r.name ≡ some r.inst
    unfolding GoMap.lookup
    found_first r e = ground (arith, e)

    found_later :
        GoMap.has svc_name svcs ≡ false
        → (r : Row) → found_at svcs r.service r.name ≡ some r.inst
        → found_at ((svc_name, svc) ∷ svcs) r.service r.name ≡ some r.inst
    unfolding GoMap.lookup GoMap.has
    found_later fresh r e = ground (arith, e, fresh, string_eq.beq_iff svc_name r.service)

    found_cons :
        (r : Row)
        → found_at ((svc_name, svc) ∷ svcs) r.service r.name ≡ some r.inst
        → (one_at svc_name svc.instances r.service r.name ≡ some r.inst)
          ⊎ (found_at svcs r.service r.name ≡ some r.inst)
    unfolding GoMap.lookup
    found_cons r e = elim (Bool-cases (svc_name == r.service)) [
      | inl same ↦ inl (ground (arith, e, same))
      | inr other ↦ inr (ground (arith, e, other))
    ]

  visit_instances-IsVisit :
      (sel : Selector) (svc_name : String) (m : Map String Instance)
      → Unique m
      → IsVisit sel (one_at svc_name m) (visit_instances p prints sel svc_name m)
  unfolding visit_instances GoMap.lookup GoMap.has
  visit_instances-IsVisit sel svc_name [] u = record {
    rows = [];
    done = true;
    given = refl;
    sound = λ row i. absurd i;
    complete = λ d row e. ground (arith, e);
  }
  visit_instances-IsVisit sel svc_name ((name, inst) ∷ m) u =
      IsVisit-cons sel svc_name name inst m u.0 (visit_instances-IsVisit sel svc_name m u.1)

  pub visit_services-IsVisit :
      (sel : Selector) (svcs : Map String ServiceInfo)
      → Unique svcs
      → AllEntries (λ name (info : ServiceInfo). Unique info.instances) svcs
      → IsVisit sel (found_at svcs) (visit_services p prints sel svcs)
  unfolding visit_services GoMap.lookup
  visit_services-IsVisit sel [] u us = record {
    rows = [];
    done = true;
    given = refl;
    sound = λ row i. absurd i;
    complete = λ d row e. ground (arith, e);
  }
  visit_services-IsVisit sel ((svc_name, svc) ∷ svcs) u us =
      let first = visit_instances-IsVisit sel svc_name svc.instances us.0 in
      let rest = visit_services-IsVisit sel svcs u.1 us.1 in
      elim (Bool-cases first.done) [
        | inr stopped ↦ record {
          rows = first.rows;
          done = false;
          given = rw (first.given, stopped) refl;
          sound = λ r i. let (e, h) = first.sound r i in (found_first svc_name svc svcs r e, h);
          complete = λ d. cc;
        }
        | inl ended ↦ record {
          rows = first.rows ++ rest.rows;
          done = rest.done;
          given = rw (first.given, ended, rest.given) refl;
          sound = λ r i. elim (In-either r first.rows rest.rows i) [
            | inl a ↦ let (e, h) = first.sound r a in (found_first svc_name svc svcs r e, h)
            | inr b ↦ let (e, h) = rest.sound r b in (found_later svc_name svc svcs u.0 r e, h)
          ];
          complete = λ d r e h.
              In-append r first.rows rest.rows (elim (found_cons svc_name svc svcs r e) [
                | inl a ↦ inl (first.complete ended r a h)
                | inr b ↦ inr (rest.complete d r b h)
              ]);
        }
      ]
