-- ===== src/Store/InMem/Listing.antt =====
-- About the services that GetAllServices lists.
use ambergreen.Common.{
  String, ◌≡◌, refl, Bool, true, false, none, some, [], ◌∷◌, string_eq, if◌then◌else◌, arith,
}
use ambergreen.GoMap
use ambergreen.GoMap.{Map, Unique, AllEntries}
use ambergreen.Store.Data.{Instance, Service, ServiceInfo, QueryServiceOptions}
use ambergreen.Store.InMemState.{InMem, Sessioned}
use ambergreen.Store.InMem.{map_at, details_of, make_service_info, infos}
use ambergreen.Store.InMem.Calls.{IsAligned}
use ambergreen.Store.InMem.Ending.{instance_at}
use ambergreen.Store.InMem.Reads.{lookup-details_of}

pub infos-lookup :
    (opts : QueryServiceOptions) (s : InMem) (m : Map String Service) (n : String)
    → GoMap.lookup n (infos opts s m)
      ≡ (elim (GoMap.lookup n m) [ none ↦ none | some svc ↦ some (make_service_info n svc opts s) ])
unfolding infos GoMap.lookup
infos-lookup opts s [] n = refl
infos-lookup opts s ((name, svc) ∷ m) n =
    ground (arith, string_eq.beq_iff name n, infos-lookup opts s m n)

pub infos-Unique :
    (opts : QueryServiceOptions) (s : InMem) (m : Map String Service)
    → Unique m
    → Unique (infos opts s m)
unfolding infos GoMap.has
infos-Unique opts s [] u = tt
infos-Unique opts s ((name, svc) ∷ m) u =
    (ground (arith, u.0, infos-lookup opts s m name), infos-Unique opts s m u.1)

details_of-Unique : (m : Map String (Sessioned Instance)) → Unique m → Unique (details_of m)
unfolding details_of GoMap.has
details_of-Unique [] u = tt
details_of-Unique ((k, v) ∷ m) u =
    (ground (arith, u.0, lookup-details_of k m), details_of-Unique m u.1)

if-Unique : (b : Bool) (m : Map String Instance) → Unique m → Unique (if b then m else [])
if-Unique true m u = u
if-Unique false m u = tt

pub make_service_info-Unique :
    (opts : QueryServiceOptions) (s : InMem) (name : String) (svc : Service)
    → Unique (map_at name s.instances)
    → Unique (make_service_info name svc opts s).instances
unfolding make_service_info
make_service_info-Unique opts s name svc u =
    if-Unique opts.with_instances (details_of (map_at name s.instances))
      (details_of-Unique (map_at name s.instances) u)

pub infos-AllEntries :
    (opts : QueryServiceOptions) (s : InMem) (m : Map String Service)
    → ((name : String) → Unique (map_at name s.instances))
    → AllEntries (λ name (info : ServiceInfo). Unique info.instances) (infos opts s m)
unfolding infos
infos-AllEntries opts s [] u = tt
infos-AllEntries opts s ((name, svc) ∷ m) u =
    (make_service_info-Unique opts s name svc (u name), infos-AllEntries opts s m u)

-- A service that is not there has no instances.
pub no_instances :
    (s : InMem) (n i : String)
    → IsAligned s
    → GoMap.lookup n s.services ≡ none
    → instance_at s n i ≡ none
unfolding GoMap.has GoMap.lookup
no_instances s n i aligned e = ground (arith, e, (aligned n).instances)
