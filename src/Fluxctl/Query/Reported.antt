-- ===== src/Fluxctl/Query/Reported.antt =====
-- About the rows that a query reports.
use ambergreen.Common.{
  String, ◌≡◌, refl, ◌∙◌, inl, inr, Bool, true, ◌||◌, Option, none, some, List, [], ok, ◌==◌,
  string_eq, if◌then◌else◌, arith, Bool-cases, Option-cases,
}
use ambergreen.GoMap
use ambergreen.GoMap.{Map, Unique, AllEntries}
use ambergreen.Net.{Platform}
use ambergreen.Store.Data.{ServiceInfo}
use ambergreen.Store.InMemState.{InMem}
use ambergreen.Store.InMem.{map_at, make_service_info, get_service, get_all_services}
use ambergreen.Store.InMem.Calls.{IsAligned}
use ambergreen.Store.InMem.Ending.{instance_at}
use ambergreen.Store.InMem.Reads.{details_at, lookup-details_of}
use ambergreen.Store.InMem.Listing.{
  infos-lookup, infos-Unique, infos-AllEntries, make_service_info-Unique, no_instances,
}
use ambergreen.Fluxctl.Selectors.{QueryOpts, query_selector}
use ambergreen.Fluxctl.Query.{
  Row, QueryError, from_store, not_printed, visit_services, query_run, fetch, instances_only,
  one_service,
}
use ambergreen.Fluxctl.Query.Visits.{In, Meets, found_at, visit_services-IsVisit}

module _ (p : Platform) (prints : Row → Bool) where
  -- Whether a query asks for a service.
  abbrev pub is_asked : QueryOpts → String → Bool
  is_asked opts n = (opts.service == "") || (opts.service == n)

  abbrev AllUnique : Map String ServiceInfo → Type 0
  AllUnique svcs =
      Unique svcs × AllEntries (λ name (info : ServiceInfo). Unique info.instances) svcs

  one_service-AllUnique :
      (s : InMem) (name : String)
      → ((n : String) → Unique (map_at n s.instances))
      → AllUnique (one_service name (get_service name instances_only s)).0
  unfolding get_service GoMap.has GoMap.lookup
  one_service-AllUnique s name u = elim (Option-cases (GoMap.lookup name s.services)) [
    | inl e ↦ rw (e, get_service) (tt, tt)
    | inr (svc, e) ↦
        rw (e, get_service)
          ((refl, tt), (make_service_info-Unique instances_only s name svc (u name), tt))
  ]

  fetch-AllUnique :
      (opts : QueryOpts) (s : InMem)
      → Unique s.services
      → ((n : String) → Unique (map_at n s.instances))
      → AllUnique (fetch opts s).0
  unfolding fetch get_all_services
  fetch-AllUnique opts s u us = elim (Bool-cases (opts.service == "")) [
    | inl e ↦
        rw (e, fetch)
          (
            infos-Unique instances_only s s.services u,
            infos-AllEntries instances_only s s.services us,
          )
    | inr e ↦ rw (e, fetch) (one_service-AllUnique s opts.service us)
  ]

  found_at-fetch :
      (opts : QueryOpts) (s : InMem) (n i : String)
      → IsAligned s
      → (fetch opts s).1 ≡ none
      → found_at p prints (fetch opts s).0 n i
        ≡ (if is_asked opts n then details_at (instance_at s n i) else none)
  unfolding fetch get_all_services get_service make_service_info GoMap.lookup
  found_at-fetch opts s n i aligned e = ground (
    arith,
    e,
    infos-lookup instances_only s s.services n,
    lookup-details_of i (map_at n s.instances),
    no_instances s n i aligned,
    string_eq.beq_iff opts.service n,
  )

  query_run-visit :
      (opts : QueryOpts) (s : InMem) (rows : List Row) (done : Bool)
      → (fetch opts s).1 ≡ none
      → visit_services p prints (query_selector opts) (fetch opts s).0 ≡ ok (rows, done)
      → query_run p prints opts s ≡ ok (rows, if done then none else some not_printed)
  unfolding query_run
  query_run-visit opts s rows done e e₁ = rw (e, query_run) (rw (e₁) refl)

  -- What a query reports: it prints only rows that the store holds, of a service asked for and with
  -- the labels of the selector, and where it returns no error it prints all of them.
  pub record IsReported (opts : QueryOpts) (s : InMem) : Type 0 where
    pub rows : List Row
    pub error : Option QueryError
    pub given : query_run p prints opts s ≡ ok (rows, error)
    pub sound :
        (r : Row)
        → In r rows
        → (is_asked opts r.service ≡ true)
          × (details_at (instance_at s r.service r.name) ≡ some r.inst)
          × Meets p prints (query_selector opts) r.inst
    pub complete :
        error ≡ none
        → (r : Row) → is_asked opts r.service ≡ true
        → details_at (instance_at s r.service r.name) ≡ some r.inst
        → Meets p prints (query_selector opts) r.inst
        → In r rows

  -- In a store whose maps agree on the services, and where no key stands twice, a query returns; each row
  -- that it prints is an instance in the store, of a service that it asks for, which has every label of its
  -- selector; and if it returns no error it has printed all of these.
  pub query_run-IsReported :
      (opts : QueryOpts) (s : InMem)
      → IsAligned s
      → Unique s.services
      → ((n : String) → Unique (map_at n s.instances))
      → IsReported opts s
  unfolding query_run
  query_run-IsReported opts s aligned u us = elim (Option-cases (fetch opts s).1) [
    | inr (err, e) ↦ record {
      rows = [];
      error = some (from_store err);
      given = rw (e, query_run) refl;
      sound = λ r i. absurd i;
      complete = λ e₁. cc;
    }
    | inl e ↦
        let unique = fetch-AllUnique opts s u us in
        let visit =
          visit_services-IsVisit p prints (query_selector opts) (fetch opts s).0 unique.0
            unique.1 in
        record {
          rows = visit.rows;
          error = if visit.done then none else some not_printed;
          given = query_run-visit opts s visit.rows visit.done e visit.given;
          sound = λ r i.
              let (found, h) = visit.sound r i in
              let at = found_at-fetch opts s r.service r.name aligned e in
              (ground (arith, at, found), ground (arith, at, found), h);
          complete = λ e₁ r asked held h.
              visit.complete (ground (arith, e₁)) r
                (found_at-fetch opts s r.service r.name aligned e ∙ rw (asked) held) h;
        }
  ]
