-- ===== src/Fluxctl/Query.antt =====
-- fluxctl/query.go: the instances that a query reports, from the in-memory store. Whether the printing of a
-- row succeeds is a parameter; the templates and the table are left out.
pub mod Visits
pub mod Reported
mod Tests
use ambergreen.Common.{
  String, Bool, true, false, Option, none, some, List, [], ◌∷◌, ◌++◌, Run, ok, ◌>>=◌, ◌==◌,
  string_eq, if◌then◌else◌,
}
use ambergreen.GoMap.{Map}
use ambergreen.Net.{Platform}
use ambergreen.Store.Data.{
  Selector, Labeled, label, includes, Instance, ServiceInfo, QueryServiceOptions,
}
use ambergreen.Store.InMemState.{StoreError, InMem}
use ambergreen.Store.InMem.{get_service, get_all_services}
use ambergreen.Fluxctl.Selectors.{QueryOpts, query_selector}

-- What printInstance is given.
pub record Row : Type 0 where
  pub service : String
  pub name : String
  pub inst : Instance

pub data QueryError : Type 0 where
  from_store : StoreError → QueryError
  not_printed : QueryError

abbrev pub instances_only : QueryServiceOptions
instances_only = record {
  with_instances = true;
  with_container_rules = false;
  with_ingress_instances = false;
}

-- `svcs[opts.service], err = GetService(...)`: where there is an error, the services are not used.
abbrev pub one_service :
    String → Option ServiceInfo × Option StoreError → Map String ServiceInfo × Option StoreError
one_service name (none, err) = ([], err)
one_service name (some svc, err) = ((name, svc) ∷ [], err)

unfoldable pub fetch : QueryOpts → InMem → Map String ServiceInfo × Option StoreError
fetch opts s =
    if opts.service == ""
    then get_all_services instances_only s
    else one_service opts.service (get_service opts.service instances_only s)

module _ (p : Platform) (prints : Row → Bool) where
  -- A pointer to an instance as a Labeled.
  abbrev pub labeled : Instance → Labeled
  labeled inst k = ok (label p inst k)

  -- The inner loop, with the rows that it has printed and whether it came to its end.
  unfoldable pub visit_instances : Selector → String → Map String Instance → Run (List Row × Bool)
  unfolding includes
  visit_instances sel svc_name [] = ok ([], true)
  visit_instances sel svc_name ((inst_name, inst) ∷ m) =
      let row : Row = record { service = svc_name; name = inst_name; inst = inst } in
      let rest = visit_instances sel svc_name m in
      includes sel (labeled inst) >>= λ included.
      if included
      then (if prints row then (rest >>= λ (rows, done). ok (row ∷ rows, done)) else ok ([], false))
      else rest

  unfoldable pub visit_services : Selector → Map String ServiceInfo → Run (List Row × Bool)
  unfolding visit_instances
  visit_services sel [] = ok ([], true)
  visit_services sel ((svc_name, svc) ∷ svcs) =
      let rest = visit_services sel svcs in
      visit_instances sel svc_name svc.instances >>= λ (rows, done).
      if done then (rest >>= λ (more, done_too). ok (rows ++ more, done_too)) else ok (rows, false)

  -- queryOpts.run
  unfoldable pub query_run : QueryOpts → InMem → Run (List Row × Option QueryError)
  unfolding fetch visit_services
  query_run opts s =
      let (svcs, err) = fetch opts s in
      elim err [
        | some e ↦ ok ([], some (from_store e))
        | none ↦ visit_services (query_selector opts) svcs >>= λ (rows, done).
            ok (rows, if done then none else some not_printed)
      ]
