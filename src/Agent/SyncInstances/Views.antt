-- ===== src/Agent/SyncInstances/Views.antt =====
-- The instances that the component holds, seen from outside, and what each write does to them.
use ambergreen.Common.{
  String, ◌≡◌, refl, true, Option, none, some, [], ◌∷◌, ◌==◌, string_eq, ==_refl, All,
  if◌then◌else◌, arith, ◌⊎◌, inl, inr,
}
use ambergreen.GoMap
use ambergreen.GoMap.{Map, AllEntries, values}
use ambergreen.Store.Data.{Instance}
use ambergreen.Agent.SyncState.{
  InstanceKey, instance_key_eq, key_equal, SyncService, SyncInstances, entries, on_entries,
}
use ambergreen.Agent.SyncInstances.{set_services, update_instance, set_instance, instances_of}

-- The instance held under the key.
unfoldable pub view : SyncInstances → InstanceKey → Option Instance
view si key = GoMap.lookup key.instance_name (instances_of key.service si.services)

-- A consumer that held `v` and takes the update.
unfoldable pub consume :
    Map InstanceKey (Option Instance)
    → (InstanceKey → Option Instance)
    → InstanceKey
    → Option Instance
consume u v key = elim (GoMap.lookup key u) [ none ↦ v key | some inst ↦ inst ]

-- A consumer that held `v` and takes the update accumulated so far holds what the component holds.
abbrev pub Synced : (InstanceKey → Option Instance) → SyncInstances → Type 0
Synced v si = (key : InstanceKey) → consume si.update.instances v key ≡ view si key

-- Some service of the name is known.
abbrev pub Known : String → Option (Map String SyncService) → Type 0
Known name services = GoMap.has name (entries services) ≡ true

-- The struct under a name has that name.
abbrev pub IsNamed : Option (Map String SyncService) → Type 0
IsNamed services = AllEntries (λ n s. s.name ≡ n) (entries services)

abbrev pub key_of : String → String → InstanceKey
key_of name id = record { service = name; instance_name = id }

pub lookup-modify-entries :
    {V : Type 0} (name j : String) (f : V → V) (m : Option (Map String V))
    → GoMap.lookup j (entries (on_entries (GoMap.modify name f) m))
      ≡ (elim (GoMap.lookup j (entries m)) [
        | none ↦ none
        | some v ↦ some (if name == j then f v else v)
      ])
unfolding GoMap.lookup
lookup-modify-entries name j f none = refl
lookup-modify-entries name j f (some m) = GoMap.lookup-modify name j f m

pub lookup-delete-entries :
    {V : Type 0} (name j : String) (m : Option (Map String V))
    → GoMap.lookup j (entries (on_entries (GoMap.delete name) m))
      ≡ (if name == j then none else GoMap.lookup j (entries m))
unfolding GoMap.lookup
lookup-delete-entries name j none = ground arith
lookup-delete-entries name j (some m) = GoMap.lookup-delete name j m

pub lookup-map_entries :
    {V : Type 0} (j : String) (f : V → V) (m : Option (Map String V))
    → GoMap.lookup j (entries (on_entries (GoMap.map_values f) m))
      ≡ (elim (GoMap.lookup j (entries m)) [ none ↦ none | some v ↦ some (f v) ])
unfolding GoMap.lookup
lookup-map_entries j f none = refl
lookup-map_entries j f (some m) = GoMap.lookup-map_values j f m

abbrev pub write : (Map String Instance → Map String Instance) → SyncService → SyncService
write f s = record s { instances = f s.instances }

pub IsNamed-modify :
    (name : String) (f : Map String Instance → Map String Instance)
    (ss : Option (Map String SyncService))
    → IsNamed ss
    → IsNamed (on_entries (GoMap.modify name (write f)) ss)
IsNamed-modify name f none h = tt
IsNamed-modify name f (some m) h =
    GoMap.AllEntries-modify (λ n s. s.name ≡ n) name (write f) m (λ j s e. e) h

-- A write to the instances of one service, that is known or keeps a nil map.
pub instances_of-modify :
    (name j : String) (f : Map String Instance → Map String Instance)
    (ss : Option (Map String SyncService))
    → (Known name ss) ⊎ (f [] ≡ [])
    → instances_of j (on_entries (GoMap.modify name (write f)) ss)
      ≡ (if name == j then f (instances_of j ss) else instances_of j ss)
unfolding instances_of GoMap.has
instances_of-modify name j f ss (inl k) =
    ground (arith, lookup-modify-entries name j (write f) ss, string_eq.beq_iff name j)
instances_of-modify name j f ss (inr k) =
    ground (arith, lookup-modify-entries name j (write f) ss, string_eq.beq_iff name j)

pub consume-insert :
    (k key : InstanceKey) (inst : Option Instance) (u : Map InstanceKey (Option Instance))
    (v : InstanceKey → Option Instance)
    → consume (GoMap.insert k inst u) v key ≡ (if key_equal k key then inst else consume u v key)
unfolding consume
consume-insert k key inst u v = ground (arith, GoMap.lookup-insert k key inst u)

pub view-set_instance :
    (name id : String) (inst : Instance) (si : SyncInstances) (key : InstanceKey)
    → Known name si.services
    → view (set_instance name id inst si) key
      ≡ (if key_equal (key_of name id) key then some inst else view si key)
unfolding set_instance view
view-set_instance name id inst si key k = ground (
  arith,
  instances_of-modify name key.service (GoMap.insert id inst) si.services (inl k),
  GoMap.lookup-insert id key.instance_name inst (instances_of key.service si.services),
)

-- `delete(si.services[name].instances, id)` together with the update that says so.
unfoldable pub drop : String → String → SyncInstances → SyncInstances
unfolding update_instance set_services
drop name id si =
    update_instance name id none (set_services (GoMap.modify name (write (GoMap.delete id))) si)

pub view-drop :
    (name id : String) (si : SyncInstances) (key : InstanceKey)
    → view (drop name id si) key ≡ (if key_equal (key_of name id) key then none else view si key)
unfolding drop view
view-drop name id si key = ground (
  arith,
  instances_of-modify name key.service (GoMap.delete id) si.services (inr (GoMap.delete_empty id)),
  GoMap.lookup-delete id key.instance_name (instances_of key.service si.services),
)

pub drop-Synced :
    (name id : String) (v : InstanceKey → Option Instance) (si : SyncInstances)
    → Synced v si
    → Synced v (drop name id si)
unfolding drop
drop-Synced name id v si s key = ground (
  arith,
  s key,
  view-drop name id si key,
  consume-insert (key_of name id) key none si.update.instances v,
)

values_known :
    (m rest : Map String SyncService)
    → ((n : String) → GoMap.has n rest ≡ true → GoMap.has n m ≡ true)
    → AllEntries (λ n s. s.name ≡ n) rest
    → All (λ svc. GoMap.has svc.name m ≡ true) (values rest)
unfolding GoMap.has GoMap.lookup
values_known m [] h named = tt
values_known m ((n, svc) ∷ rest) h named = (
  h svc.name (rw (named.0, ==_refl n) refl),
  values_known m rest (λ j q. h j (ground (arith, string_eq.beq_iff n j))) named.1,
)

-- Every struct in the map is known by its own name.
pub values-Known :
    (ss : Option (Map String SyncService))
    → IsNamed ss
    → All (λ svc. Known svc.name ss) (values (entries ss))
values-Known ss named = values_known (entries ss) (entries ss) (λ n h. h) named
