-- ===== src/Agent/SyncInstances/Dropping.antt =====
-- The loops that take instances back, and what they leave of the view.
use ambergreen.Common.{
  String, ◌≡◌, refl, true, ◌&&◌, not, Option, none, List, [], ◌∷◌, ◌==◌, string_eq, is_some,
  if◌then◌else◌, arith, inl, inr, Bool-cases,
}
use ambergreen.GoMap
use ambergreen.GoMap.{Map, AllEntries, keys, values, contains}
use ambergreen.Store.Data.{Instance}
use ambergreen.Agent.SyncState.{InstanceKey, instance_key_eq, SyncInstances}
use ambergreen.Agent.SyncInstances.{
  set_services, set_containers, update_instance, drop_from_containers, drop_missing, instances_of,
}
use ambergreen.Agent.SyncInstances.Views.{
  view, consume, key_of, consume-insert, lookup-delete-entries,
}

-- `t` differs from `s` in the instances of the update, and by writes inside the containers.
pub record Written (s t : SyncInstances) : Type 0 where
  pub services : t.services ≡ s.services
  pub containers : is_some t.containers ≡ is_some s.containers
  pub reset : t.update.reset ≡ s.update.reset

pub drop_from_containers-Written :
    (name : String) (ids : List String) (s : SyncInstances)
    → Written s (drop_from_containers name ids s)
unfolding drop_from_containers
drop_from_containers-Written name [] s = record { services = refl; containers = refl; reset = refl }
drop_from_containers-Written name (id ∷ ids) s =
    let rest = drop_from_containers-Written name ids (
      update_instance name id none (
        set_containers (GoMap.modify id λ c. record c { instances = GoMap.delete name c.instances })
          s)) in
    record {
      services = rest.services;
      containers = ground (arith, rest.containers);
      reset = rest.reset;
    }

pub drop_missing-Written :
    (name : String) (ids : List String) (s : SyncInstances) → Written s (drop_missing name ids s)
unfolding drop_missing
drop_missing-Written name [] s = record { services = refl; containers = refl; reset = refl }
drop_missing-Written name (id ∷ ids) s =
    elim (Bool-cases (GoMap.has id (instances_of name s.services))) [
      | inl present ↦ rw present (drop_missing-Written name ids s)
      | inr missing ↦
          let rest = drop_missing-Written name ids (update_instance name id none s) in
          rw (missing, drop_missing)
            (record { services = rest.services; containers = rest.containers; reset = rest.reset })
    ]

module _ (v : InstanceKey → Option Instance) (name : String) (key : InstanceKey) where
  pub consume-drop_from_containers :
      (ids : List String) (s : SyncInstances)
      → consume (drop_from_containers name ids s).update.instances v key ≡ (
          if (name == key.service) && contains key.instance_name ids
          then none
          else consume s.update.instances v key)
  unfolding drop_from_containers contains
  consume-drop_from_containers [] s = ground arith
  consume-drop_from_containers (id ∷ ids) s = ground (
    arith,
    consume-drop_from_containers ids (
        update_instance name id none (
          set_containers
            (GoMap.modify id λ c. record c { instances = GoMap.delete name c.instances }) s)),
    consume-insert (key_of name id) key none s.update.instances v,
  )

  pub consume-drop_missing :
      (ids : List String) (s : SyncInstances)
      → consume (drop_missing name ids s).update.instances v key ≡ (
          if (name == key.service)
            && contains key.instance_name ids
            && not (GoMap.has key.instance_name (instances_of name s.services))
          then none
          else consume s.update.instances v key)
  unfolding drop_missing contains
  consume-drop_missing [] s = ground arith
  consume-drop_missing (id ∷ ids) s =
      elim (Bool-cases (GoMap.has id (instances_of name s.services))) [
        | inl present ↦
            rw (present, drop_missing)
              (ground (arith, consume-drop_missing ids s, string_eq.beq_iff id key.instance_name))
        | inr missing ↦
            rw (missing, drop_missing)
              (ground (
                arith,
                consume-drop_missing ids (update_instance name id none s),
                string_eq.beq_iff id key.instance_name,
                consume-insert (key_of name id) key none s.update.instances v,
              ))
      ]

pub view-delete :
    (name : String) (s : SyncInstances) (key : InstanceKey)
    → view (set_services (GoMap.delete name) s) key
      ≡ (if name == key.service then none else view s key)
unfolding view set_services instances_of
view-delete name s key = ground (
  arith,
  lookup-delete-entries name key.service s.services,
  GoMap.lookup_empty {V = Instance} key.instance_name,
)

-- The view at a key of the service `name`.
pub view-instances_of :
    (name : String) (s : SyncInstances) (key : InstanceKey)
    → (name == key.service) ≡ true
    → view s key ≡ GoMap.lookup key.instance_name (instances_of name s.services)
unfolding view
view-instances_of name s key h = ground (arith, string_eq.beq_iff name key.service)

pub view-Written : (s t : SyncInstances) (key : InstanceKey) → Written s t → view t key ≡ view s key
unfolding view
view-Written s t key w = rw w.services refl
