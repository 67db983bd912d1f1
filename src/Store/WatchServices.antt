-- ===== src/Store/WatchServices.antt =====
-- common/store/watch.go: a watch of the services, which turns the store's changes into updates. The
-- Store interface is a record of the two methods that it reads with.
use ambergreen.Common.{String, true, false, Option, none, some, List, [], ◌∷◌}
use ambergreen.GoMap.{Map}
use ambergreen.Store.Data.{ServiceInfo, ServiceChange, ServiceUpdate, QueryServiceOptions}

-- A value or an error.
pub data Reply (E A : Type 0) : Type 0 where
  got : A → Reply E A
  failed : E → Reply E A

pub record Reader (S E : Type 0) : Type 0 where
  pub get_service : String → QueryServiceOptions → S → Reply E ServiceInfo
  pub get_all_services : QueryServiceOptions → S → Reply E (Map String ServiceInfo)

-- The services of the first update.
unfoldable pub all_present : Map String ServiceInfo → Map String (Option ServiceInfo)
all_present [] = []
all_present ((name, svc) ∷ svcs) = (name, some svc) ∷ all_present svcs

abbrev pub first_update : Map String ServiceInfo → ServiceUpdate
first_update svcs = record { services = all_present svcs; reset = true }

abbrev pub change_update : String → Option ServiceInfo → ServiceUpdate
change_update name svc = record { services = (name, svc) ∷ []; reset = false }

abbrev pub present : {E : Type 0} → Reply E ServiceInfo → Reply E (Option ServiceInfo)
present (got svc) = got (some svc)
present (failed e) = failed e

module _ {S E : Type 0} (store : Reader S E) (opts : QueryServiceOptions) where
  -- What a change is answered with.
  unfoldable pub change_info : ServiceChange → S → Reply E (Option ServiceInfo)
  change_info c s = elim c.service_deleted [
    | true ↦ got none
    | false ↦ present (store.get_service c.name opts s)
  ]

  -- The loop of run, over the changes that come, each with the store as it then is.
  unfoldable pub watch_changes : List (ServiceChange × S) → List ServiceUpdate × Option E
  unfolding change_info
  watch_changes [] = ([], none)
  watch_changes ((c, s) ∷ rounds) = elim (change_info c s) [
    | failed e ↦ ([], some e)
    | got svc ↦
        let (updates, err) = watch_changes rounds in (change_update c.name svc ∷ updates, err)
  ]

  -- run: the updates for the callback, and the error that is posted.
  unfoldable pub run : S → List (ServiceChange × S) → List ServiceUpdate × Option E
  unfolding watch_changes all_present
  run s rounds = elim (store.get_all_services opts s) [
    | failed e ↦ ([], some e)
    | got svcs ↦ let (updates, err) = watch_changes rounds in (first_update svcs ∷ updates, err)
  ]
