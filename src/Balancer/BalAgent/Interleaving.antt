-- ===== src/Balancer/BalAgent/Interleaving.antt =====
-- The calls of an in-memory store, and the rounds of a watch of its services (common/store/watch.go), in any
-- order.
use ambergreen.Common.{
  String, ◌≡◌, refl, true, false, ◌||◌, Option, none, some, List, [], ◌∷◌, ◌++◌, Run, ok, ◌>>=◌,
  string_eq, if◌then◌else◌, arith,
}
use ambergreen.GoMap
use ambergreen.GoMap.{Map, Unique}
use ambergreen.Store.Data.{ServiceInfo, ServiceChange, ServiceUpdate}
use ambergreen.Store.InMemState.{
  InMem, StoreError, Notice, service_notice, host_notice, error_notice,
}
use ambergreen.Store.InMem
use ambergreen.Store.InMem.{make_service_info, infos}
use ambergreen.Store.InMem.Calls.{Call, perform}
use ambergreen.Store.InMem.Notifies.{mentions}
use ambergreen.Store.InMem.Notifies.EachCall.{is_kept}
use ambergreen.Store.InMem.Notifies.Deletes.{changes_of, awaits, goes}
use ambergreen.Store.WatchServices.{Reply, got, failed, Reader, all_present}
use ambergreen.Balancer.BalAgent.{Services, take_services, take_update}

abbrev pub reply_of : {A : Type 0} → Option A × Option StoreError → StoreError → Reply StoreError A
reply_of (r, some e) x = failed e
reply_of (none, none) x = failed x
reply_of (some a, none) x = got a

-- The in-memory store as a Store.
abbrev pub in_mem : Reader InMem StoreError
in_mem = record {
  get_service = λ name opts s. reply_of (InMem.get_service name opts s) (StoreError.not_found name);
  get_all_services = λ opts s.
      let (svcs, err) = InMem.get_all_services opts s in
      reply_of (some svcs, err) (StoreError.not_found "");
}

-- The services after a sequence of updates.
abbrev pub take_updates : List ServiceUpdate → Services → Services
take_updates [] services = services
take_updates (u ∷ us) services = take_updates us (take_update u services)

abbrev pub value_of : {E : Type 0} → Reply E ServiceInfo → Option ServiceInfo
value_of (got svc) = some svc
value_of (failed e) = none

abbrev pub value_or :
    {E : Type 0} → Option ServiceInfo → Reply E (Option ServiceInfo) → Option ServiceInfo
value_or o (got svc) = svc
value_or o (failed e) = o

abbrev pub updates_of : List ServiceUpdate × Option StoreError → List ServiceUpdate
updates_of (updates, err) = updates

abbrev pub error_of : List ServiceUpdate × Option StoreError → Option StoreError
error_of (updates, err) = err

-- A call of the store by anyone, or a round of the watch's loop, which receives the oldest change that waits.
pub data Step : Type 0 where
  calls : Call → Step
  receives : Step

-- The store, and the changes that wait.
abbrev pub Waiting : Type 0
Waiting = InMem × List ServiceChange

abbrev pub call : Call → Waiting → Run Waiting
call c (s, waiting) =
    perform c (record s { sent = [] }) >>= λ t. ok (t, waiting ++ changes_of t.sent)

-- The rounds of the watch, each with the store as it then is, and the end.
unfoldable pub play : List Step → Waiting → Run (List (ServiceChange × InMem) × Waiting)
play [] x = ok ([], x)
play (calls c ∷ steps) x = call c x >>= λ y. play steps y
play (receives ∷ steps) (s, []) = play steps (s, [])
play (receives ∷ steps) (s, c ∷ waiting) =
    play steps (s, waiting) >>= λ (rounds, y). ok ((c, s) ∷ rounds, y)

-- Calls of the store, before the watch makes its first query.
unfoldable pub serve : List Call → Waiting → Run Waiting
serve [] x = ok x
serve (c ∷ cs) x = call c x >>= λ y. serve cs y

abbrev pub AllKept : List Step → Type 0
AllKept [] = Unit
AllKept (calls c ∷ steps) = (is_kept c ≡ true) × AllKept steps
AllKept (receives ∷ steps) = AllKept steps

pub awaits-append :
    (name : String) (xs ys : List ServiceChange)
    → awaits name (xs ++ ys) ≡ (awaits name xs || awaits name ys)
awaits-append name [] ys = refl
awaits-append name (c ∷ xs) ys = ground (arith, awaits-append name xs ys)

pub goes_unless :
    (name : String) (cs : List ServiceChange) → awaits name cs ≡ false → goes name cs ≡ false
goes_unless name [] e = refl
goes_unless name (c ∷ cs) e = ground (arith, e)

pub goes-append :
    (name : String) (xs ys : List ServiceChange)
    → goes name (xs ++ ys) ≡ (if awaits name ys then goes name ys else goes name xs)
goes-append name [] ys = ground (arith, goes_unless name ys)
goes-append name (c ∷ xs) ys = ground (arith, goes-append name xs ys, awaits-append name xs ys)

pub awaits-changes_of :
    (name : String) (ns : List Notice) → awaits name (changes_of ns) ≡ mentions name ns
unfolding mentions
awaits-changes_of name [] = refl
awaits-changes_of name (service_notice w c ∷ ns) = ground (arith, awaits-changes_of name ns)
awaits-changes_of name (host_notice w c ∷ ns) = awaits-changes_of name ns
awaits-changes_of name (error_notice w x ∷ ns) = awaits-changes_of name ns

pub lookup-take_all :
    (m : Map String ServiceInfo) (acc : Services) (name : String)
    → Unique m
    → GoMap.lookup name (take_services (all_present m) acc)
      ≡ (elim (GoMap.lookup name m) [ none ↦ GoMap.lookup name acc | some svc ↦ some svc ])
unfolding take_services all_present GoMap.lookup GoMap.has
lookup-take_all [] acc name u = refl
lookup-take_all ((k, v) ∷ m) acc name u = ground (
  arith,
  lookup-take_all m (GoMap.insert k v acc) name u.1,
  GoMap.lookup-insert k name v acc,
  string_eq.beq_iff k name,
  u.0,
)
